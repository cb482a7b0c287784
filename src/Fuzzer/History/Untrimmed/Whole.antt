-- ===== src/Fuzzer/History/Untrimmed/Whole.antt =====
-- A whole `apply_update` (runner/src/bin/fuzzer/history.rs), with trimming and without.
use my_mad_kv.Prelude.{
  ℕ, ◌<◌, ◌≡◌, refl, sym, true, ◌&&◌, Option, none, some, List, arith, ltb, length, set, get_elem?,
  All, Bool-cases, Option-cases, inl, inr,
}
use my_mad_kv.Text.{Text}
use my_mad_kv.Collections.HashMap
use my_mad_kv.Collections.HashMap.{HashMap}
use my_mad_kv.Collections.HashMap.Laws.{All-lookup}
use my_mad_kv.Runner.Ioapi.{KvResp}
use my_mad_kv.Fuzzer.History.{
  UpdateSpan, QueuedSpan, KeySpans, History, drain, push_span, trim_clients, Applied, applied,
  panicked, update_key, apply_update, min_coming, min_queued,
}
use my_mad_kv.Fuzzer.History.Invariant.{IsKeyValid, IsKeyValid-length}
use my_mad_kv.Fuzzer.History.Preserved.{apply_update-IsValid, get_elem?-lt}
use my_mad_kv.Fuzzer.History.Alike.{AlikeFound, lookup-AlikeFound}
use my_mad_kv.Fuzzer.History.Untrimmed.{
  update_key_whole, apply_update_whole, Related, update_key-SameEnd, with_spans, SameEnd,
  AlikeKey-length, All-drain,
}

lt_of_eq : (i m n : ℕ) → m ≡ n → i < n → i < m
lt_of_eq i m n e h = omega arith

module _ (cidx ts_call ts_resp : ℕ) (key : Text) (value : Option Text) (h : History) where
  pub apply_missing :
      HashMap.lookup key h.spans ≡ none
      → apply_update cidx ts_call ts_resp key value h ≡ applied h (some none)
  unfolding apply_update
  apply_missing e = rw (e, apply_update) refl

  whole_missing :
      HashMap.lookup key h.spans ≡ none
      → apply_update_whole cidx ts_call ts_resp key value h ≡ applied h (some none)
  unfolding apply_update_whole
  whole_missing e = rw (e, apply_update_whole) refl

  module _ (ks : KeySpans) (there : HashMap.lookup key h.spans ≡ some ks)
      (inside : cidx < length ks) (client : cidx < length h.maxtr) where
    index_test : (ltb cidx (length ks) && ltb cidx (length h.maxtr)) ≡ true
    index_test = ground arith

    apply_found :
        apply_update cidx ts_call ts_resp key value h
        ≡ update_key cidx (record { ts_call = ts_call; ts_resp = ts_resp; value = value }) key ks h
    unfolding apply_update
    apply_found = rw (there, apply_update) (rw index_test refl)

    pub whole_found :
        apply_update_whole cidx ts_call ts_resp key value h
        ≡ update_key_whole cidx
            (record { ts_call = ts_call; ts_resp = ts_resp; value = value })
            key
            ks
            h
    unfolding apply_update_whole
    whole_found = rw (there, apply_update_whole) (rw index_test refl)

module _ (num_clis bound cidx t ts_call ts_resp : ℕ) (key : Text) (value : Option Text)
    (h : History) (whole : HashMap KeySpans) (rel : Related num_clis bound h whole)
    (last : get_elem? h.maxtr cidx ≡ some t) (after : t < ts_call) (timed : ts_call < ts_resp) where
  abbrev span : UpdateSpan
  span = record { ts_call = ts_call; ts_resp = ts_resp; value = value }

  SameEnd-by_key :
      (o p : Option KeySpans)
      → HashMap.lookup key h.spans ≡ o
      → HashMap.lookup key whole ≡ p
      → AlikeFound bound o p
      → SameEnd num_clis
          (apply_update cidx ts_call ts_resp key value h)
          (apply_update_whole cidx ts_call ts_resp key value (with_spans h whole))
  SameEnd-by_key none none e f a = rw (apply_missing cidx ts_call ts_resp key value h e) (
      rw (whole_missing cidx ts_call ts_resp key value (with_spans h whole) f)
        (refl, refl, bound, rel))
  SameEnd-by_key none (some ms) e f a = absurd a
  SameEnd-by_key (some ls) none e f a = absurd a
  SameEnd-by_key (some ls) (some ms) e f a =
      let k = All-lookup (IsKeyValid h.maxtr) key h.spans rel.valid.keys e in
      let client = get_elem?-lt h.maxtr cidx last in
      let inside =
        lt_of_eq cidx (length ls) (length h.maxtr) (IsKeyValid-length h.maxtr ls k) client in
      let found = apply_found cidx ts_call ts_resp key value h ls e inside client in
      let valid =
        apply_update-IsValid num_clis cidx t ts_call ts_resp key value h last after timed
          rel.valid in
      rw found (
        rw
          (whole_found cidx ts_call ts_resp key value (with_spans h whole) ms f
            (lt_of_eq cidx (length ms) (length ls) (sym (AlikeKey-length bound ls ms a)) inside)
            client)
          (update_key-SameEnd num_clis bound cidx t span key h whole rel last after timed ls ms k a
            (rw found at valid)))

  -- An update ends on the trimmed history as on the whole one.
  pub apply_update-SameEnd :
      SameEnd num_clis
        (apply_update cidx ts_call ts_resp key value h)
        (apply_update_whole cidx ts_call ts_resp key value (with_spans h whole))
  apply_update-SameEnd =
      SameEnd-by_key _ _ refl refl (lookup-AlikeFound bound key h.spans whole rel.alike)

-- After an update with no complaint the client's last timestamp is that of the update, and the
-- queue holds nothing new.
abbrev pub Keeps : (QueuedSpan → Type 0) → List ℕ → Applied → Type 0
Keeps P maxtr (applied h none) = (h.maxtr ≡ maxtr) × All P h.queue
Keeps P maxtr (applied h (some r)) = Unit
Keeps P maxtr panicked = Unit

Keeps-any :
    (P : QueuedSpan → Type 0) (maxtr : List ℕ) (queue : List QueuedSpan) (spans : HashMap KeySpans)
    (r : Option (Option KvResp))
    → All P queue
    → Keeps P maxtr (applied (record { queue = queue; spans = spans; maxtr = maxtr }) r)
Keeps-any P maxtr queue spans none a = (refl, a)
Keeps-any P maxtr queue spans (some r) a = tt

update_key-Keeps :
    (P : QueuedSpan → Type 0) (cidx : ℕ) (s : UpdateSpan) (key : Text) (ks : KeySpans) (h : History)
    → All P h.queue
    → Keeps P (set h.maxtr cidx s.ts_resp) (update_key cidx s key ks h)
unfolding update_key
update_key-Keeps P cidx s key ks h a =
    let mc = min_coming (set h.maxtr cidx s.ts_resp) in
    let spans =
      HashMap.insert key (trim_clients mc (min_queued h.queue) (push_span s cidx ks)) h.spans in
    Keeps-any P (set h.maxtr cidx s.ts_resp) (drain mc spans h.queue).0 spans _
      (All-drain P mc spans h.queue a)

pub apply_update-Keeps :
    (P : QueuedSpan → Type 0) (cidx ts_call ts_resp : ℕ) (key : Text) (value : Option Text)
    (h : History)
    → All P h.queue
    → Keeps P (set h.maxtr cidx ts_resp) (apply_update cidx ts_call ts_resp key value h)
unfolding apply_update
apply_update-Keeps P cidx ts_call ts_resp key value h a =
    elim (Option-cases (HashMap.lookup key h.spans)) [
      | inl e ↦ rw (e, apply_update) tt
      | inr (ks, e) ↦ elim (Bool-cases (ltb cidx (length ks) && ltb cidx (length h.maxtr))) [
        | inl f ↦ rw (e, apply_update) (rw f (update_key-Keeps P cidx _ key ks h a))
        | inr f ↦ rw (e, apply_update) (rw f tt)
      ]
    ]
