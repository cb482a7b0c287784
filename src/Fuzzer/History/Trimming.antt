-- ===== src/Fuzzer/History/Trimming.antt =====
-- Trimming in `apply_update` of runner/src/bin/fuzzer/history.rs loses nothing that a check of a
-- call from the trimming's bound on could look at.
use my_mad_kv.Prelude.{
  ℕ, ◌≤◌, ◌<◌, ◌≡◌, refl, sym, ap, ◌∙◌, ◌⊎◌, inl, inr, Bool, false, Option, List, [], ◌∷◌, ◌++◌,
  arith, ltb, All, Bool-cases, min,
}
use mathlib.Core.List.{reverse, reverse-cons, reverse-reverse}
use my_mad_kv.Text.{Text}
use my_mad_kv.Fuzzer.History.{
  UpdateSpan, KeySpans, keep_ts, trim_front, trim_client, trim_clients, check_clients,
}
use my_mad_kv.Fuzzer.History.Checks.{
  all_open, explained, explained_by_some, check_clients-explained,
}

-- Every update was called no later than it was acknowledged.
abbrev pub IsTimed : List UpdateSpan → Type 0
IsTimed = All (λ (s : UpdateSpan). s.ts_call ≤ s.ts_resp)

-- An update called at `keep` was acknowledged before `ts_call`.
abbrev HasKeeper : ℕ → ℕ → List UpdateSpan → Type 0
HasKeeper keep ts_call [] = ⊥
HasKeeper keep ts_call (s ∷ l) =
    ((s.ts_call ≡ keep) × (s.ts_resp < ts_call)) ⊎ HasKeeper keep ts_call l

module _ (keep ts_call : ℕ) where
  HasKeeper-append_left :
      (l m : List UpdateSpan) → HasKeeper keep ts_call l → HasKeeper keep ts_call (l ++ m)
  HasKeeper-append_left [] m h = absurd h
  HasKeeper-append_left (s ∷ l) m (inl h) = inl h
  HasKeeper-append_left (s ∷ l) m (inr h) = inr (HasKeeper-append_left l m h)

  HasKeeper-append_right :
      (l m : List UpdateSpan) → HasKeeper keep ts_call m → HasKeeper keep ts_call (l ++ m)
  HasKeeper-append_right [] m h = h
  HasKeeper-append_right (s ∷ l) m h = inr (HasKeeper-append_right l m h)

  HasKeeper-reverse :
      (l : List UpdateSpan) → HasKeeper keep ts_call l → HasKeeper keep ts_call (reverse l)
  HasKeeper-reverse [] h = absurd h
  HasKeeper-reverse (s ∷ l) (inl h) =
      rw reverse-cons (HasKeeper-append_right (reverse l) (s ∷ []) (inl h))
  HasKeeper-reverse (s ∷ l) (inr h) =
      rw reverse-cons (HasKeeper-append_left (reverse l) (s ∷ []) (HasKeeper-reverse l h))

-- The loop finds the call of an update that is old enough, or returns 0.
keep_ts-HasKeeper :
    (min_coming_ts min_queued_ts ts_call : ℕ) (l : List UpdateSpan)
    → min min_coming_ts min_queued_ts ≤ ts_call
    → (keep_ts min_coming_ts min_queued_ts l ≡ 0)
      ⊎ HasKeeper (keep_ts min_coming_ts min_queued_ts l) ts_call l
unfolding keep_ts
keep_ts-HasKeeper mc mq ts_call [] h = inl refl
keep_ts-HasKeeper mc mq ts_call (s ∷ l) h = ground (arith, keep_ts-HasKeeper mc mq ts_call l h)

HasKeeper-closed :
    (keep ts_call : ℕ) (l : List UpdateSpan) → HasKeeper keep ts_call l → all_open ts_call l ≡ false
unfolding all_open
HasKeeper-closed keep ts_call [] h = absurd h
HasKeeper-closed keep ts_call (s ∷ l) (inl h) = ground arith
HasKeeper-closed keep ts_call (s ∷ l) (inr h) = ground (arith, HasKeeper-closed keep ts_call l h)

trim_front_zero : (l : List UpdateSpan) → trim_front 0 l ≡ l
unfolding trim_front
trim_front_zero [] = refl
trim_front_zero (s ∷ []) = refl
trim_front_zero (s ∷ t ∷ l) = ground arith

-- The front that is popped is older than the keeper.
HasKeeper-tail :
    (keep ts_call : ℕ) (s : UpdateSpan) (l : List UpdateSpan)
    → s.ts_call ≤ s.ts_resp
    → s.ts_resp < keep
    → HasKeeper keep ts_call (s ∷ l)
    → HasKeeper keep ts_call l
HasKeeper-tail keep ts_call s l t lt (inl h) = absurd (omega arith)
HasKeeper-tail keep ts_call s l t lt (inr h) = h

module _ (matches : Option Text → Bool) (keep ts_call ts_resp : ℕ) where
  explained-tail :
      (s : UpdateSpan) (l : List UpdateSpan)
      → all_open ts_call l ≡ false
      → explained matches ts_call ts_resp (s ∷ l) ≡ explained matches ts_call ts_resp l
  unfolding explained
  explained-tail s l h = ground arith

  trim_front-explained :
      (l : List UpdateSpan)
      → IsTimed l
      → HasKeeper keep ts_call l
      → explained matches ts_call ts_resp (trim_front keep l) ≡ explained matches ts_call ts_resp l
  unfolding trim_front
  trim_front-explained [] t h = absurd h
  trim_front-explained (s ∷ []) t h = refl
  trim_front-explained (s ∷ u ∷ l) t h = elim (Bool-cases (ltb s.ts_resp keep)) [
    | inl e ↦
        let k = HasKeeper-tail keep ts_call s (u ∷ l) t.0 (ground arith) h in
        rw e (
          trim_front-explained (u ∷ l) t.1 k
          ∙ sym (explained-tail s (u ∷ l) (HasKeeper-closed keep ts_call (u ∷ l) k)))
    | inr e ↦ rw e refl
  ]

module _ (matches : Option Text → Bool) (mc mq ts_call ts_resp : ℕ)
    (late : min mc mq ≤ ts_call) where
  -- A check looks at the trimmed updates of a client as at all of them.
  pub trim_client-explained :
      (l : List UpdateSpan)
      → IsTimed l
      → explained matches ts_call ts_resp (trim_client mc mq l)
        ≡ explained matches ts_call ts_resp l
  unfolding trim_client
  trim_client-explained l t = elim (keep_ts-HasKeeper mc mq ts_call (reverse l) late) [
    | inl z ↦
        ap (λ k. explained matches ts_call ts_resp (trim_front k l)) z
        ∙ ap (explained matches ts_call ts_resp) (trim_front_zero l)
    | inr h ↦
        trim_front-explained matches _ ts_call ts_resp l t
          (rw reverse-reverse at (HasKeeper-reverse _ ts_call (reverse l) h))
  ]

  trim_clients-explained :
      (ks : KeySpans)
      → All IsTimed ks
      → explained_by_some matches ts_call ts_resp (trim_clients mc mq ks)
        ≡ explained_by_some matches ts_call ts_resp ks
  unfolding trim_clients explained_by_some
  trim_clients-explained [] t = refl
  trim_clients-explained (l ∷ ks) t =
      cc (trim_client-explained l t.0, trim_clients-explained ks t.1)

  pub check_clients-trim_clients :
      (ks : KeySpans)
      → All IsTimed ks
      → check_clients matches ts_call ts_resp (trim_clients mc mq ks)
        ≡ check_clients matches ts_call ts_resp ks
  check_clients-trim_clients ks t =
      check_clients-explained matches ts_call ts_resp (trim_clients mc mq ks)
      ∙ trim_clients-explained ks t
      ∙ sym (check_clients-explained matches ts_call ts_resp ks)
