-- ===== src/Bencher/Stats/Merging.antt =====
-- Recording and merging the samples of runner/src/bin/bencher/main.rs loses none.
use my_mad_kv.Prelude.{
  ◌+◌, ◌==◌, List, [], ◌∷◌, ◌++◌, arith, length, length-append, ◌≡◌, Bool-cases, inl, inr,
}
use my_mad_kv.Text.{Text, text_eq}
use my_mad_kv.Collections.HashMap
use my_mad_kv.Collections.HashMap.{HashMap}
use my_mad_kv.Bencher.Stats.{
  Float, Stats, samples_of, extend_entry, record_op, count_samples, total_ops, extend_all, merge,
}

module _ (float : Float) where
  open float use {F}

  count_samples-insert :
      (op : Text) (samples : List F) (m : HashMap (List F))
      → count_samples float (HashMap.insert op samples m) + length (samples_of float op m)
        ≡ count_samples float m + length samples
  unfolding HashMap.insert HashMap.lookup count_samples
  count_samples-insert op samples [] = omega arith
  count_samples-insert op samples ((j, old) ∷ m) = elim (Bool-cases (text_eq j op)) [
    | inl e ↦ rw (e, samples_of, HashMap.lookup, HashMap.insert) (omega arith)
    | inr e ↦
        rw (e, samples_of, HashMap.lookup, HashMap.insert)
          (omega (arith, count_samples-insert op samples m))
  ]

  count_samples-extend_entry :
      (op : Text) (samples : List F) (m : HashMap (List F))
      → count_samples float (extend_entry float op samples m)
        ≡ count_samples float m + length samples
  unfolding extend_entry
  count_samples-extend_entry op samples m = omega (
    arith,
    count_samples-insert op (samples_of float op m ++ samples) m,
    length-append (samples_of float op m) samples,
  )

  count_samples-extend_all :
      (other m : HashMap (List F))
      → count_samples float (extend_all float other m)
        ≡ count_samples float m + count_samples float other
  unfolding extend_all count_samples
  count_samples-extend_all [] m = omega arith
  count_samples-extend_all ((op, samples) ∷ other) m = omega (
    arith,
    count_samples-extend_all other (extend_entry float op samples m),
    count_samples-extend_entry op samples m,
  )

  -- A recorded operation is one more.
  pub total_ops-record_op :
      (op : Text) (latency_us : F) (s : Stats float)
      → total_ops float (record_op float op latency_us s) ≡ total_ops float s + 1
  unfolding total_ops record_op
  total_ops-record_op op latency_us s =
      omega (arith, count_samples-extend_entry op (latency_us ∷ []) s.lat_samples)

  -- The merged statistics count the operations of both, if a struct into which none is merged has
  -- no samples of its own.
  pub total_ops-merge :
      (s other : Stats float)
      → (s.merged ≡ 0 → total_ops float s ≡ 0)
      → total_ops float (merge float s other) ≡ total_ops float s + total_ops float other
  unfolding total_ops merge
  total_ops-merge s other fresh = elim (Bool-cases (s.merged == 0)) [
    | inl e ↦
        let none_merged : s.merged ≡ 0 = ground arith in rw e (omega (arith, fresh none_merged))
    | inr e ↦ rw e (count_samples-extend_all other.lat_samples s.lat_samples)
  ]
