-- ===== src/Fuzzer/Loop/Whole.antt =====
-- A whole run of `fuzz_test` (runner/src/bin/fuzzer/main.rs): how it ends.
use my_mad_kv.Prelude.{
  ℕ, zero, suc, ◌*◌, ◌%◌, ◌^◌, ◌≤◌, ◌<◌, ◌≡◌, refl, ap, ◌∙◌, false, none, some, List, [], ◌∷◌,
  arith, length, get_elem?, replicate, All, inl, inr, ◌⊎◌,
}
use my_mad_kv.Text.{Text}
use my_mad_kv.Runner.Error.{out_of_fuel}
use my_mad_kv.Fuzzer.History
use my_mad_kv.Fuzzer.History.Invariant.{IsValid}
use my_mad_kv.Fuzzer.History.Preserved.{new-IsValid}
use my_mad_kv.Fuzzer.Stats
use my_mad_kv.Fuzzer.Stats.{zero_freqs}
use my_mad_kv.Fuzzer.Random.Calls.{HasRow}
use my_mad_kv.Fuzzer.Outside.{Rng, Bits, Clients}
use my_mad_kv.Fuzzer.Loop.{
  no_memo, FuzzState, Round, next, broken, failed, crashed, stuck, round, stop_clients, Tested,
  tested, test_failed, test_crashed, test_stuck, initial, conclude, fuzz_test,
}
use my_mad_kv.Fuzzer.Loop.Rounds.{LoopValid}
use my_mad_kv.Fuzzer.Loop.Safe.{Result-cases}
use my_mad_kv.Fuzzer.Loop.Ends.{Reaches, EndValid, rounds-EndValid}

-- What is left of a test that is done: it panics nowhere; where it passes, the loop has harvested
-- all operations, and the number that it returns is that of the checks left in the queue; where it
-- does not end, a round that the loop reaches does not end, or the stopping of the clients does not.
abbrev pub TestEnd :
    (rng : Rng) (bits : Bits) (clients : Clients)
    → ℕ
    → ℕ
    → ℕ
    → List (List Text)
    → FuzzState rng bits clients
    → Tested
    → Type 0
TestEnd rng bits clients draw_fuel total_ops n keys s (tested (some left_checks)) =
    (t : FuzzState rng bits clients) × Reaches rng bits clients draw_fuel total_ops keys s t
    × (t.ops_waited ≡ total_ops)
    × (left_checks ≡ History.queue_len t.history)
    × IsValid n t.history
TestEnd rng bits clients draw_fuel total_ops n keys s (tested none) = Unit
TestEnd rng bits clients draw_fuel total_ops n keys s (test_failed e) = Unit
TestEnd rng bits clients draw_fuel total_ops n keys s test_crashed = ⊥
TestEnd rng bits clients draw_fuel total_ops n keys s test_stuck =
    (t : FuzzState rng bits clients) × Reaches rng bits clients draw_fuel total_ops keys s t
    × (((t.ops_waited < total_ops) × (round rng bits clients draw_fuel total_ops keys t ≡ stuck))
        ⊎ (stop_clients clients n 0 t.procs ≡ out_of_fuel))

module _ (rng : Rng) (bits : Bits) (clients : Clients) where
  conclude-TestEnd :
      (draw_fuel total_ops n : ℕ) (keys : List (List Text)) (s : FuzzState rng bits clients)
      (r : Round (FuzzState rng bits clients))
      → EndValid rng bits clients draw_fuel total_ops keys n s r
      → TestEnd rng bits clients draw_fuel total_ops n keys s (conclude rng bits clients n r)
  unfolding conclude
  conclude-TestEnd draw_fuel total_ops n keys s (next t) h =
      elim (Result-cases (stop_clients clients n 0 t.procs)) [
        | inl (procs, e) ↦ rw (e, conclude) (t, h.2, h.1, refl, (h.0).history)
        | inr (inl (f, e)) ↦ rw (e, conclude) tt
        | inr (inr e) ↦ rw (e, conclude) (t, h.2, inr e)
      ]
  conclude-TestEnd draw_fuel total_ops n keys s (broken t) h = tt
  conclude-TestEnd draw_fuel total_ops n keys s (failed e) h = tt
  conclude-TestEnd draw_fuel total_ops n keys s crashed h = absurd h
  conclude-TestEnd draw_fuel total_ops n keys s stuck (t, reaches, more, e) =
      (t, reaches, inl (more, e))

  get_elem?-replicate {ℓ} :
      {A : Type ℓ} (n i : ℕ) (a b : A) → get_elem? (replicate n a) i ≡ some b → a ≡ b
  get_elem?-replicate zero i a b e = absurd (cc)
  get_elem?-replicate (suc n) zero a b e = cc
  get_elem?-replicate (suc n) (suc i) a b e = get_elem?-replicate n i a b e

  length-replicate_lem {ℓ} : {A : Type ℓ} (n : ℕ) (a : A) → length (replicate n a) ≡ n
  length-replicate_lem zero a = refl
  length-replicate_lem (suc n) a = ap suc (length-replicate_lem n a)

  get_elem?-inside {ℓ} :
      {A : Type ℓ} (l : List A) (i : ℕ) (a : A) → get_elem? l i ≡ some a → i < length l
  get_elem?-inside [] i a e = absurd (cc)
  get_elem?-inside (x ∷ l) zero a e = omega arith
  get_elem?-inside (x ∷ l) (suc i) a e = omega (arith, get_elem?-inside l i a e)

  zero_freqs-HasRow :
      (keys : List (List Text)) (c : ℕ) (ks : List Text)
      → get_elem? keys c ≡ some ks
      → HasRow c (length ks) (zero_freqs keys)
  zero_freqs-HasRow [] c ks e = absurd (cc)
  zero_freqs-HasRow (k ∷ keys) zero ks e =
      (replicate (length k) 0, refl, length-replicate_lem {A = ℕ} (length k) 0 ∙ ap length (same e))
    where
      same : some k ≡ some ks → k ≡ ks
      same f = cc
  zero_freqs-HasRow (k ∷ keys) (suc c) ks e = zero_freqs-HasRow keys c ks e

  -- what holds when the loop starts
  pub initial-LoopValid :
      (n : ℕ) (keys : List (List Text)) (procs : clients.Procs) (source : rng.Source)
      → LoopValid n keys 0 (initial rng bits clients n keys (Stats.new keys) procs source)
  unfolding initial History.new Stats.new
  initial-LoopValid n keys procs source = record {
    flying_len = bits.len-from_elem n false;
    memo_len = length-replicate_lem n no_memo;
    rows = zero_freqs-HasRow keys;
    history = new-IsValid n keys;
    queued = tt;
    timed = λ c last memo e f.
        let zero_last = get_elem?-replicate n c 0 last e in
        let inside : c < n =
          omega
            (arith, get_elem?-inside (replicate n 0) c last e, length-replicate_lem {A = ℕ} n 0) in
        let rest = bits.get-from_elem n false c inside in
        (omega (arith, zero_last), λ h. absurd (cc));
  }

  -- With a client, a pool with a key for each, and a hundred operations in total, the test does not
  -- panic. Where it passes, the loop has harvested every operation, and what it returns is the
  -- number of checks left. It fails to end only if a round that it reaches, or the stopping of the
  -- clients, does not end.
  pub fuzz_test-TestEnd :
      (draw_fuel num_ops n : ℕ) (keys : List (List Text)) (procs : clients.Procs)
      (source : rng.Source)
      → 0 < n
      → length keys ≡ n
      → All (λ (ks : List Text). 0 < length ks) keys
      → 100 ≤ (num_ops * n) % 2 ^ 64
      → TestEnd rng bits clients draw_fuel
          ((num_ops * n) % 2 ^ 64)
          n
          keys
          (initial rng bits clients n keys (Stats.new keys) procs source)
          (fuzz_test rng bits clients draw_fuel num_ops n keys (Stats.new keys) procs source)
  unfolding fuzz_test
  fuzz_test-TestEnd draw_fuel num_ops n keys procs source some_client pools filled enough =
      conclude-TestEnd draw_fuel _ n keys _ _ (
        rounds-EndValid rng bits clients draw_fuel ((num_ops * n) % 2 ^ 64) n some_client keys pools
          filled enough (suc (2 * ((num_ops * n) % 2 ^ 64))) _
          (initial-LoopValid n keys procs source) (omega arith) (omega arith) (omega arith))
