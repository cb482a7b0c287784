-- ===== src/Fuzzer/Random/Draws.antt =====
-- Which client runner/src/bin/fuzzer/random.rs draws, and when it lets the tester call or wait.
use my_mad_kv.Prelude.{
  ℕ, zero, suc, ◌<◌, ◌≡◌, refl, ◌≢◌, Bool, true, false, not, ◌==◌, some, arith, Bool-cases, inl,
  inr, ◌⊎◌,
}
use my_mad_kv.Fuzzer.Outside.{Rng, Bits}
use my_mad_kv.Fuzzer.Random.{Drawn, drawn, panicked, out_of_fuel, gen_rand_client, gen_call_vs_wait}

module _ (rng : Rng) (bits : Bits) (flying : bits.BitVec) where
  open rng use {Source, index, flip}

  -- the source after so many draws of a client
  abbrev pub after : ℕ → Source → Source
  after zero s = s
  after (suc i) s = after i (index (bits.len flying) s).1

  -- A client with the wanted status, or that many draws of clients with the other status.
  abbrev pub DrawsClient : ℕ → Bool → Source → Drawn Source ℕ → Type 0
  DrawsClient fuel want_flying s (drawn cidx s') =
      (cidx < bits.len flying) × (bits.get flying cidx ≡ some want_flying)
  DrawsClient fuel want_flying s panicked = ⊥
  DrawsClient fuel want_flying s out_of_fuel =
      (i : ℕ)
      → i < fuel
      → bits.get flying (index (bits.len flying) (after i s)).0 ≡ some (not want_flying)

  DrawsClient-suc :
      (fuel : ℕ) (want_flying : Bool) (s : Source) (d : Drawn Source ℕ)
      → bits.get flying (index (bits.len flying) s).0 ≡ some (not want_flying)
      → DrawsClient fuel want_flying (index (bits.len flying) s).1 d
      → DrawsClient (suc fuel) want_flying s d
  DrawsClient-suc fuel want_flying s (drawn cidx s') e h = h
  DrawsClient-suc fuel want_flying s panicked e h = h
  DrawsClient-suc fuel want_flying s out_of_fuel e h = go
    where
      go :
          (i : ℕ)
          → i < suc fuel
          → bits.get flying (index (bits.len flying) (after i s)).0 ≡ some (not want_flying)
      go zero lt = e
      go (suc i) lt = h i (omega arith)

  -- Out of a client or more, the draw does not panic; the client that it draws has the wanted
  -- status; and it draws none within the fuel only if all those draws met the other status.
  pub gen_rand_client-DrawsClient :
      0 < bits.len flying
      → (fuel : ℕ) (want_flying : Bool) (s : Source)
      → DrawsClient fuel want_flying s (gen_rand_client rng bits fuel flying want_flying s)
  unfolding gen_rand_client
  gen_rand_client-DrawsClient some_client zero want_flying s = λ i lt. absurd (omega (arith, lt))
  gen_rand_client-DrawsClient some_client (suc fuel) want_flying s =
      by_status want_flying
        (bits.get-lt flying (index (bits.len flying) s).0
          (rng.index_lt (bits.len flying) s some_client))
        (gen_rand_client-DrawsClient some_client fuel want_flying (index (bits.len flying) s).1)
    where
      by_status :
          (want : Bool)
          → (b : Bool) × (bits.get flying (index (bits.len flying) s).0 ≡ some b)
          → DrawsClient fuel want
              (index (bits.len flying) s).1
              (gen_rand_client rng bits fuel flying want (index (bits.len flying) s).1)
          → DrawsClient (suc fuel) want s (gen_rand_client rng bits (suc fuel) flying want s)
      by_status true (true, e) rest =
          rw (e, DrawsClient) (rng.index_lt (bits.len flying) s some_client, e)
      by_status true (false, e) rest = rw (e, DrawsClient) (DrawsClient-suc fuel true s _ e rest)
      by_status false (true, e) rest = rw (e, DrawsClient) (DrawsClient-suc fuel false s _ e rest)
      by_status false (false, e) rest =
          rw (e, DrawsClient) (rng.index_lt (bits.len flying) s some_client, e)

  -- The choice is to call only if calls are left and not all clients are in flight; it is to wait
  -- only if no calls are left or some client is in flight.
  pub gen_call_vs_wait_lem :
      (ops_called num_ops : ℕ) (s : Source)
      → ((gen_call_vs_wait rng bits ops_called num_ops flying s).0 ≡ true
          → (ops_called ≢ num_ops) × (bits.all flying ≡ false))
        × ((gen_call_vs_wait rng bits ops_called num_ops flying s).0 ≡ false
            → (ops_called ≡ num_ops) ⊎ ((bits.all flying ≡ true) ⊎ (bits.none_set flying ≡ false)))
  unfolding gen_call_vs_wait
  gen_call_vs_wait_lem ops_called num_ops s = elim (Bool-cases (ops_called == num_ops)) [
    | inl e ↦ rw e ((λ h. absurd (cc)), λ h. inl (ground arith))
    | inr e ↦ elim (Bool-cases (bits.all flying)) [
      | inl a ↦ rw e (rw a ((λ h. absurd (cc)), λ h. inr (inl refl)))
      | inr a ↦ elim (Bool-cases (bits.none_set flying)) [
        | inl z ↦ rw e (rw a (rw z ((λ h. (ground arith, refl)), λ h. absurd (cc))))
        | inr z ↦ rw e (rw a (rw z ((λ h. (ground arith, refl)), λ h. inr (inr refl))))
      ]
    ]
  ]

  pub DrawsClient-cases :
      (fuel : ℕ) (want_flying : Bool) (s : Source) (d : Drawn Source ℕ)
      → DrawsClient fuel want_flying s d
      → (d ≡ out_of_fuel)
        ⊎ ((cidx : ℕ) × (s' : Source) × (d ≡ drawn cidx s')
            × (cidx < bits.len flying)
            × (bits.get flying cidx ≡ some want_flying))
  DrawsClient-cases fuel want_flying s (drawn cidx s') h = inr (cidx, s', refl, h.0, h.1)
  DrawsClient-cases fuel want_flying s panicked h = absurd h
  DrawsClient-cases fuel want_flying s out_of_fuel h = inl refl
