-- ===== src/Fuzzer/History/Verdicts.antt =====
-- `check_call` of runner/src/bin/fuzzer/history.rs decides an independent description of the
-- responses that the recorded updates account for.
use my_mad_kv.Prelude.{
  ℕ, ◌≡◌, ◌↔◌, inl, inr, Bool, true, Option, some, arith, Option-cases, is_some,
}
use my_mad_kv.Text.{Text}
use my_mad_kv.Collections.HashMap.{HashMap, lookup}
use my_mad_kv.Runner.Ioapi.{
  KvResp, put_resp, swap_resp, get_resp, scan_resp, delete_resp, stop_resp,
}
use my_mad_kv.Fuzzer.History.{
  QueuedSpan, KeySpans, on_key, found_matches, value_matches, check_resp, check_call,
}
use my_mad_kv.Fuzzer.History.Accepts.{
  Explanation, check_clients_iff, found_matches_iff, value_matches_iff,
}
use my_mad_kv.Fuzzer.History.Scans.{AcceptsScan, check_scan_iff}

-- The key is in the pool, and an update of it explains the response.
pub record KeyExplains (P : Option Text → Type 0) (spans : HashMap KeySpans) (key : Text)
    (ts_call ts_resp : ℕ) : Type 0 where
  pub key_spans : KeySpans
  pub known : lookup key spans ≡ some key_spans
  pub explanation : Explanation P ts_call ts_resp key_spans

abbrev pub Accepts : HashMap KeySpans → ℕ → ℕ → KvResp → Type 0
Accepts spans ts_call ts_resp (put_resp key found) =
    KeyExplains (λ v. is_some v ≡ found) spans key ts_call ts_resp
Accepts spans ts_call ts_resp (swap_resp key old_value) =
    KeyExplains (λ v. v ≡ old_value) spans key ts_call ts_resp
Accepts spans ts_call ts_resp (get_resp key value) =
    KeyExplains (λ v. v ≡ value) spans key ts_call ts_resp
Accepts spans ts_call ts_resp (scan_resp lo hi entries) =
    AcceptsScan spans ts_call ts_resp lo hi entries
Accepts spans ts_call ts_resp (delete_resp key found) =
    KeyExplains (λ v. is_some v ≡ found) spans key ts_call ts_resp
Accepts spans ts_call ts_resp stop_resp = ⊥

module _ (P : Option Text → Type 0) (spans : HashMap KeySpans) (key : Text) (ts_call ts_resp : ℕ)
    (check : KeySpans → Bool)
    (decides : (ks : KeySpans) → (check ks ≡ true) ↔ Explanation P ts_call ts_resp ks) where
  on_key_iff : (on_key (lookup key spans) check ≡ true) ↔ KeyExplains P spans key ts_call ts_resp
  on_key_iff = elim (Option-cases (lookup key spans)) [
    | inl e ↦ (λ h. absurd (ground arith), λ k. absurd (cc (e, k.known)))
    | inr (ks, e) ↦ (
      λ h. record { key_spans = ks; known = e; explanation = (decides ks).0 (rw e at h) },
      λ k. rw k.known ((decides k.key_spans).1 k.explanation),
    )
  ]

-- The checker accepts a response exactly if its key's recorded updates, or for a scan those of
-- every key in range, account for it.
pub check_call_iff :
    (spans : HashMap KeySpans) (entry : QueuedSpan)
    → (check_call spans entry ≡ true) ↔ Accepts spans entry.ts_call entry.ts_resp entry.resp
unfolding check_call
check_call_iff spans entry = by_resp entry.resp
  where
    by_resp :
        (resp : KvResp)
        → (check_resp spans entry.ts_call entry.ts_resp resp ≡ true)
          ↔ Accepts spans entry.ts_call entry.ts_resp resp
    by_resp (put_resp key found) = on_key_iff _ spans key entry.ts_call entry.ts_resp _ (
        check_clients_iff (found_matches found) _ (found_matches_iff found) entry.ts_call
          entry.ts_resp)
    by_resp (swap_resp key old_value) = on_key_iff _ spans key entry.ts_call entry.ts_resp _ (
        check_clients_iff (value_matches old_value) _ (value_matches_iff old_value) entry.ts_call
          entry.ts_resp)
    by_resp (get_resp key value) = on_key_iff _ spans key entry.ts_call entry.ts_resp _ (
        check_clients_iff (value_matches value) _ (value_matches_iff value) entry.ts_call
          entry.ts_resp)
    by_resp (scan_resp lo hi entries) =
        check_scan_iff spans entry.ts_call entry.ts_resp lo hi entries
    by_resp (delete_resp key found) = on_key_iff _ spans key entry.ts_call entry.ts_resp _ (
        check_clients_iff (found_matches found) _ (found_matches_iff found) entry.ts_call
          entry.ts_resp)
    by_resp stop_resp = (λ h. cc, λ h. absurd h)
