-- ===== src/Fuzzer/History/Preserved.antt =====
-- Every operation of a `History` (runner/src/bin/fuzzer/history.rs) keeps it well formed.
use my_mad_kv.Prelude.{
  ℕ, zero, suc, ◌≤◌, ◌<◌, ◌≡◌, refl, ap, ◌∙◌, true, ◌&&◌, Option, some, List, [], ◌∷◌, ◌++◌, arith,
  ltb, length, set, get_elem?, replicate, All, All-mono, Bool-cases, Option-cases, inl, inr,
}
use my_mad_kv.Text.{Text}
use my_mad_kv.Collections.HashMap
use my_mad_kv.Collections.HashMap.{HashMap}
use my_mad_kv.Collections.HashMap.Laws.{All-lookup, All-insert}
use my_mad_kv.Runner.Ioapi.{KvResp}
use my_mad_kv.Fuzzer.History.{
  UpdateSpan, QueuedSpan, KeySpans, History, dummy, add_keys, add_all_keys, new, add_to_queue,
  Applied, applied, panicked, update_key, apply_update,
}
use my_mad_kv.Fuzzer.History.Invariant.{
  IsKeyValid, IsQueue, IsValid, IsKeyValid-trim, IsKeyValid-push, IsKeyValid-set, IsKeyValid-length,
  IsQueue-drain,
}

-- Every queued response came before `now`.
abbrev pub QueuedBefore : ℕ → List QueuedSpan → Type 0
QueuedBefore now = All (λ (e : QueuedSpan). e.ts_resp < now)

IsQueue-concat :
    (q : List QueuedSpan) (e : QueuedSpan)
    → e.ts_call < e.ts_resp
    → QueuedBefore e.ts_resp q
    → IsQueue q
    → IsQueue (q ++ e ∷ [])
IsQueue-concat [] e h b v = h
IsQueue-concat (f ∷ []) e h b v = (v, b.0, h)
IsQueue-concat (f ∷ g ∷ q) e h b v = (v.0, v.1, IsQueue-concat (g ∷ q) e h b.1 v.2)

-- A response that came after its call and after all that are queued can be queued.
pub add_to_queue-IsValid :
    (num_clis ts_call ts_resp : ℕ) (resp : KvResp) (h : History)
    → ts_call < ts_resp
    → QueuedBefore ts_resp h.queue
    → IsValid num_clis h
    → IsValid num_clis (add_to_queue ts_call ts_resp resp h)
unfolding add_to_queue
add_to_queue-IsValid num_clis ts_call ts_resp resp h lt before v = record {
  clients = v.clients;
  keys = v.keys;
  queue =
      IsQueue-concat h.queue (record { ts_call = ts_call; ts_resp = ts_resp; resp = resp }) lt
        before v.queue;
}

length-set : (l : List ℕ) (i v : ℕ) → length (set l i v) ≡ length l
length-set [] i v = refl
length-set (x ∷ l) zero v = refl
length-set (x ∷ l) (suc i) v = ap suc (length-set l i v)

pub get_elem?-lt : (l : List ℕ) (i : ℕ) {t : ℕ} → get_elem? l i ≡ some t → i < length l
get_elem?-lt [] i h = absurd (cc)
get_elem?-lt (x ∷ l) zero h = omega arith
get_elem?-lt (x ∷ l) (suc i) h = omega (arith, get_elem?-lt l i h)

-- What is proved of the result of an update: no panic, and a well-formed history.
abbrev pub AppliedValid : ℕ → Applied → Type 0
AppliedValid num_clis (applied h result) = IsValid num_clis h
AppliedValid num_clis panicked = ⊥

update_key-IsValid :
    (num_clis cidx t : ℕ) (s : UpdateSpan) (key : Text) (ks : KeySpans) (h : History)
    → get_elem? h.maxtr cidx ≡ some t
    → t < s.ts_call
    → s.ts_call ≤ s.ts_resp
    → IsKeyValid h.maxtr ks
    → IsValid num_clis h
    → AppliedValid num_clis (update_key cidx s key ks h)
unfolding update_key
update_key-IsValid num_clis cidx t s key ks h e after timed k v = record {
  clients = length-set h.maxtr cidx s.ts_resp ∙ v.clients;
  keys =
      All-insert (IsKeyValid (set h.maxtr cidx s.ts_resp)) key _ h.spans
        (IsKeyValid-trim _ _ _ _ (IsKeyValid-push h.maxtr ks cidx t s e after timed k))
        (All-mono _ _ h.spans (λ a w. IsKeyValid-set h.maxtr a.1 cidx t s.ts_resp e (omega arith) w)
          v.keys);
  queue = IsQueue-drain _ _ h.queue v.queue;
}

-- An update that its client called after the last one was acknowledged, and that is acknowledged
-- after its call, does not panic and keeps the history well formed, whatever its key and result.
pub apply_update-IsValid :
    (num_clis cidx t ts_call ts_resp : ℕ) (key : Text) (value : Option Text) (h : History)
    → get_elem? h.maxtr cidx ≡ some t
    → t < ts_call
    → ts_call < ts_resp
    → IsValid num_clis h
    → AppliedValid num_clis (apply_update cidx ts_call ts_resp key value h)
unfolding apply_update
apply_update-IsValid num_clis cidx t ts_call ts_resp key value h e after timed v =
    elim (Option-cases (HashMap.lookup key h.spans)) [
      | inl missing ↦ rw (missing, apply_update) v
      | inr (ks, there) ↦
          let k = All-lookup (IsKeyValid h.maxtr) key h.spans v.keys there in
          let same = IsKeyValid-length h.maxtr ks k in
          let inside = get_elem?-lt h.maxtr cidx e in
          let test : (ltb cidx (length ks) && ltb cidx (length h.maxtr)) ≡ true = ground arith in
          rw (there, apply_update)
            (rw test (
              update_key-IsValid num_clis cidx t
                (record { ts_call = ts_call; ts_resp = ts_resp; value = value }) key ks h e after
                (omega arith) k v))
    ]

IsKeyValid-dummies : (n : ℕ) → IsKeyValid (replicate n 0) (replicate n (dummy ∷ []))
IsKeyValid-dummies zero = tt
IsKeyValid-dummies (suc n) = (omega arith, omega arith, IsKeyValid-dummies n)

module _ (n : ℕ) where
  abbrev FreshKeys : HashMap KeySpans → Type 0
  FreshKeys = All (λ (e : Text × KeySpans). IsKeyValid (replicate n 0) e.1)

  add_keys-FreshKeys :
      (keys : List Text) (m : HashMap KeySpans) → FreshKeys m → FreshKeys (add_keys n keys m)
  unfolding add_keys
  add_keys-FreshKeys [] m h = h
  add_keys-FreshKeys (k ∷ keys) m h = elim (Bool-cases (HashMap.contains_key k m)) [
    | inl e ↦ rw e (add_keys-FreshKeys keys m h)
    | inr e ↦ rw e (
        add_keys-FreshKeys keys _
          (All-insert (IsKeyValid (replicate n 0)) k _ m (IsKeyValid-dummies n) h))
  ]

  add_all_keys-FreshKeys :
      (keys : List (List Text)) (m : HashMap KeySpans)
      → FreshKeys m
      → FreshKeys (add_all_keys n keys m)
  unfolding add_all_keys
  add_all_keys-FreshKeys [] m h = h
  add_all_keys-FreshKeys (ks ∷ keys) m h = add_all_keys-FreshKeys keys _ (add_keys-FreshKeys ks m h)

  length-replicate : (k : ℕ) → length (replicate {A = ℕ} k 0) ≡ k
  length-replicate zero = refl
  length-replicate (suc k) = ap suc (length-replicate k)

  pub new-IsValid : (keys : List (List Text)) → IsValid n (new n keys)
  unfolding new
  new-IsValid keys = record {
    clients = length-replicate n;
    keys = add_all_keys-FreshKeys keys [] tt;
    queue = tt;
  }
