-- ===== src/Fuzzer/History/Checks.antt =====
-- What the checks of runner/src/bin/fuzzer/history.rs accept.
use my_mad_kv.Prelude.{
  ℕ, ◌≡◌, refl, ap, ◌∙◌, Bool, true, false, ◌&&◌, ◌||◌, Option, List, [], ◌∷◌, ◌++◌, arith, ltb,
  leb,
}
use mathlib.Core.List.{reverse, reverse-cons}
use my_mad_kv.Text.{Text}
use my_mad_kv.Fuzzer.History.{UpdateSpan, KeySpans, scan_back, check_clients}

-- the update was called before the response came, and its value fits
abbrev pub fits : (Option Text → Bool) → ℕ → UpdateSpan → Bool
fits matches ts_resp span = ltb span.ts_call ts_resp && matches span.value

-- no update of the list was acknowledged before the call
unfoldable pub all_open : ℕ → List UpdateSpan → Bool
all_open ts_call [] = true
all_open ts_call (span ∷ later) = leb ts_call span.ts_resp && all_open ts_call later

-- Some update of the list fits, and no later one was acknowledged before the call.
unfoldable pub explained : (Option Text → Bool) → ℕ → ℕ → List UpdateSpan → Bool
unfolding all_open
explained matches ts_call ts_resp [] = false
explained matches ts_call ts_resp (span ∷ later) =
    (fits matches ts_resp span && all_open ts_call later) || explained matches ts_call ts_resp later

-- the same for some client
unfoldable pub explained_by_some : (Option Text → Bool) → ℕ → ℕ → KeySpans → Bool
explained_by_some matches ts_call ts_resp [] = false
explained_by_some matches ts_call ts_resp (cli_spans ∷ key_spans) =
    explained matches ts_call ts_resp cli_spans
    || explained_by_some matches ts_call ts_resp key_spans

module _ (matches : Option Text → Bool) (ts_call ts_resp : ℕ) where
  scan_back-concat :
      (newer : List UpdateSpan) (span : UpdateSpan)
      → scan_back matches ts_call ts_resp (newer ++ span ∷ []) ≡ (
          scan_back matches ts_call ts_resp newer
          || all_open ts_call newer && fits matches ts_resp span)
  unfolding scan_back all_open
  scan_back-concat [] span = ground arith
  scan_back-concat (new ∷ newer) span = ground (arith, scan_back-concat newer span)

pub all_open-concat :
    (ts_call : ℕ) (l : List UpdateSpan) (span : UpdateSpan)
    → all_open ts_call (l ++ span ∷ []) ≡ (all_open ts_call l && leb ts_call span.ts_resp)
unfolding all_open
all_open-concat ts_call [] span = ground arith
all_open-concat ts_call (s ∷ l) span = ground (arith, all_open-concat ts_call l span)

all_open-reverse :
    (ts_call : ℕ) (l : List UpdateSpan) → all_open ts_call (reverse l) ≡ all_open ts_call l
unfolding all_open
all_open-reverse ts_call [] = refl
all_open-reverse ts_call (s ∷ l) =
    ap (all_open ts_call) (reverse-cons s l)
    ∙ all_open-concat ts_call (reverse l) s
    ∙ ground (arith, all_open-reverse ts_call l)

-- The loop from the last update back finds out whether some update explains the response.
pub scan_back-reverse :
    (matches : Option Text → Bool) (ts_call ts_resp : ℕ) (l : List UpdateSpan)
    → scan_back matches ts_call ts_resp (reverse l) ≡ explained matches ts_call ts_resp l
unfolding scan_back explained
scan_back-reverse matches ts_call ts_resp [] = refl
scan_back-reverse matches ts_call ts_resp (s ∷ l) =
    ap (scan_back matches ts_call ts_resp) (reverse-cons s l)
    ∙ scan_back-concat matches ts_call ts_resp (reverse l) s
    ∙ ground (arith, scan_back-reverse matches ts_call ts_resp l, all_open-reverse ts_call l)

pub check_clients-explained :
    (matches : Option Text → Bool) (ts_call ts_resp : ℕ) (ks : KeySpans)
    → check_clients matches ts_call ts_resp ks ≡ explained_by_some matches ts_call ts_resp ks
unfolding check_clients explained_by_some
check_clients-explained matches ts_call ts_resp [] = refl
check_clients-explained matches ts_call ts_resp (cli_spans ∷ ks) = ground (
  arith,
  scan_back-reverse matches ts_call ts_resp cli_spans,
  check_clients-explained matches ts_call ts_resp ks,
)
