-- ===== src/Fuzzer/History/Invariant.antt =====
-- The well-formedness of a `History` (runner/src/bin/fuzzer/history.rs), which every operation
-- keeps where the conditions of its debug assertions hold.
use my_mad_kv.Prelude.{
  ℕ, zero, suc, ◌≤◌, ◌<◌, ◌≡◌, refl, some, List, [], ◌∷◌, ◌++◌, arith, ltb, length, set, get_elem?,
  All, Bool-cases, inl, inr,
}
use my_mad_kv.Text.{Text}
use my_mad_kv.Collections.HashMap.{HashMap}
use my_mad_kv.Fuzzer.History.{
  UpdateSpan, QueuedSpan, KeySpans, History, trim_front, trim_client, trim_clients, drain,
  push_span,
}

-- Each update was called no later than acknowledged and acknowledged before the next was called,
-- and the last was acknowledged at `last` or before.
abbrev pub IsChain : ℕ → List UpdateSpan → Type 0
IsChain last [] = Unit
IsChain last (s ∷ []) = (s.ts_call ≤ s.ts_resp) × (s.ts_resp ≤ last)
IsChain last (s ∷ t ∷ l) = (s.ts_call ≤ s.ts_resp) × (s.ts_resp < t.ts_call) × IsChain last (t ∷ l)

-- The updates of one key: a chain that is not empty for each client, up to the last update that
-- the client has had acknowledged.
abbrev pub IsKeyValid : List ℕ → KeySpans → Type 0
IsKeyValid [] [] = Unit
IsKeyValid [] (l ∷ ks) = ⊥
IsKeyValid (t ∷ maxtr) [] = ⊥
IsKeyValid (t ∷ maxtr) (l ∷ ks) = (0 < length l) × IsChain t l × IsKeyValid maxtr ks

-- Each response came after its call, and after the response in front of it.
abbrev pub IsQueue : List QueuedSpan → Type 0
IsQueue [] = Unit
IsQueue (e ∷ []) = e.ts_call < e.ts_resp
IsQueue (e ∷ f ∷ q) = (e.ts_call < e.ts_resp) × (e.ts_resp < f.ts_resp) × IsQueue (f ∷ q)

pub record IsValid (num_clis : ℕ) (h : History) : Type 0 where
  pub clients : length h.maxtr ≡ num_clis
  pub keys : All (λ (e : Text × KeySpans). IsKeyValid h.maxtr e.1) h.spans
  pub queue : IsQueue h.queue

pub IsChain-mono : (t u : ℕ) (l : List UpdateSpan) → t ≤ u → IsChain t l → IsChain u l
IsChain-mono t u [] h c = tt
IsChain-mono t u (s ∷ []) h c = (c.0, omega arith)
IsChain-mono t u (s ∷ r ∷ l) h c = (c.0, c.1, IsChain-mono t u (r ∷ l) h c.2)

IsChain-push :
    (t : ℕ) (l : List UpdateSpan) (s : UpdateSpan)
    → t < s.ts_call
    → s.ts_call ≤ s.ts_resp
    → IsChain t l
    → IsChain s.ts_resp (l ++ s ∷ [])
IsChain-push t [] s h k c = omega arith
IsChain-push t (r ∷ []) s h k c = omega arith
IsChain-push t (r ∷ q ∷ l) s h k c = (c.0, c.1, IsChain-push t (q ∷ l) s h k c.2)

IsChain-trim_front :
    (t keep : ℕ) (l : List UpdateSpan) → IsChain t l → IsChain t (trim_front keep l)
unfolding trim_front
IsChain-trim_front t keep [] c = tt
IsChain-trim_front t keep (s ∷ []) c = c
IsChain-trim_front t keep (s ∷ r ∷ l) c = elim (Bool-cases (ltb s.ts_resp keep)) [
  | inl e ↦ rw e (IsChain-trim_front t keep (r ∷ l) c.2)
  | inr e ↦ rw e c
]

length-trim_front : (keep : ℕ) (l : List UpdateSpan) → 0 < length l → 0 < length (trim_front keep l)
unfolding trim_front
length-trim_front keep [] h = h
length-trim_front keep (s ∷ []) h = h
length-trim_front keep (s ∷ r ∷ l) h = ground (arith, length-trim_front keep (r ∷ l))

-- The trimmed updates of a key are still valid.
pub IsKeyValid-trim :
    (mc mq : ℕ) (maxtr : List ℕ) (ks : KeySpans)
    → IsKeyValid maxtr ks
    → IsKeyValid maxtr (trim_clients mc mq ks)
unfolding trim_clients trim_client
IsKeyValid-trim mc mq [] [] v = tt
IsKeyValid-trim mc mq [] (l ∷ ks) v = absurd v
IsKeyValid-trim mc mq (t ∷ maxtr) [] v = absurd v
IsKeyValid-trim mc mq (t ∷ maxtr) (l ∷ ks) v =
    (length-trim_front _ l v.0, IsChain-trim_front t _ l v.1, IsKeyValid-trim mc mq maxtr ks v.2)

length-concat : (l : List UpdateSpan) (s : UpdateSpan) → 0 < length (l ++ s ∷ [])
length-concat [] s = omega arith
length-concat (r ∷ l) s = omega arith

-- An update that comes after the last one of its client extends the client's chain.
pub IsKeyValid-push :
    (maxtr : List ℕ) (ks : KeySpans) (cidx t : ℕ) (s : UpdateSpan)
    → get_elem? maxtr cidx ≡ some t
    → t < s.ts_call
    → s.ts_call ≤ s.ts_resp
    → IsKeyValid maxtr ks
    → IsKeyValid (set maxtr cidx s.ts_resp) (push_span s cidx ks)
IsKeyValid-push [] [] cidx t s e h k v = tt
IsKeyValid-push [] (l ∷ ks) cidx t s e h k v = absurd v
IsKeyValid-push (u ∷ maxtr) [] cidx t s e h k v = absurd v
IsKeyValid-push (u ∷ maxtr) (l ∷ ks) zero t s e h k v =
    (length-concat l s, IsChain-push u l s (ground arith) k v.1, v.2)
IsKeyValid-push (u ∷ maxtr) (l ∷ ks) (suc cidx) t s e h k v =
    (v.0, v.1, IsKeyValid-push maxtr ks cidx t s e h k v.2)

-- A later last update of a client leaves the other keys valid.
pub IsKeyValid-set :
    (maxtr : List ℕ) (ks : KeySpans) (cidx t u : ℕ)
    → get_elem? maxtr cidx ≡ some t
    → t ≤ u
    → IsKeyValid maxtr ks
    → IsKeyValid (set maxtr cidx u) ks
IsKeyValid-set [] [] cidx t u e h v = tt
IsKeyValid-set [] (l ∷ ks) cidx t u e h v = absurd v
IsKeyValid-set (r ∷ maxtr) [] cidx t u e h v = absurd v
IsKeyValid-set (r ∷ maxtr) (l ∷ ks) zero t u e h v =
    (v.0, IsChain-mono r u l (ground arith) v.1, v.2)
IsKeyValid-set (r ∷ maxtr) (l ∷ ks) (suc cidx) t u e h v =
    (v.0, v.1, IsKeyValid-set maxtr ks cidx t u e h v.2)

pub IsKeyValid-length :
    (maxtr : List ℕ) (ks : KeySpans) → IsKeyValid maxtr ks → length ks ≡ length maxtr
IsKeyValid-length [] [] v = refl
IsKeyValid-length [] (l ∷ ks) v = absurd v
IsKeyValid-length (t ∷ maxtr) [] v = absurd v
IsKeyValid-length (t ∷ maxtr) (l ∷ ks) v = omega (arith, IsKeyValid-length maxtr ks v.2)

pub IsQueue-tail : (e : QueuedSpan) (q : List QueuedSpan) → IsQueue (e ∷ q) → IsQueue q
IsQueue-tail e [] h = tt
IsQueue-tail e (f ∷ q) h = h.2

-- What `drain` leaves is the end of a queue.
pub IsQueue-drain :
    (mc : ℕ) (spans : HashMap KeySpans) (q : List QueuedSpan)
    → IsQueue q
    → IsQueue (drain mc spans q).0
unfolding drain
IsQueue-drain mc spans [] h = tt
IsQueue-drain mc spans (e ∷ q) h = ground (arith, IsQueue-drain mc spans q, IsQueue-tail e q h)
