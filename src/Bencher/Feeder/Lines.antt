-- ===== src/Bencher/Feeder/Lines.antt =====
-- How the feeder (runner/src/bin/bencher/ycsb.rs) reads a line, and that it interprets each.
use my_mad_kv.Prelude.{
  Bool, if◌then◌else◌, ℕ, ◌+◌, ◌-◌, ◌*◌, ◌<◌, ◌≡◌, refl, ap, ◌∙◌, true, false, Bool-cases, inl, inr,
  none, List, [], ◌∷◌, ◌==◌, arith, length,
}
use my_mad_kv.Text.{Text, newline, codes, text_eq, utf8_len, split_whitespace}
use my_mad_kv.Runner.Error.{RunnerError, Result, ok, err, out_of_fuel, bind-split, ◌>>=◌}
use my_mad_kv.Runner.Ioapi.Reader.{take_line}
use my_mad_kv.Bencher.Ycsb.{
  KeySet, next_or, parse_ycsb_key, parse_ycsb_value, parse_digits, parse_usize, parse_ycsb_scnt,
  interpret_scan, interpret_ycsb_call,
}
use my_mad_kv.Bencher.Feeder.Script.{prepend, lines}

-- A line that is read is the first of the lines.
pub take_line-lines :
    (c : ℕ) (t line rest : Text)
    → take_line none (c ∷ t) ≡ ok (line, rest)
    → lines (c ∷ t) ≡ line ∷ lines rest
unfolding take_line lines
take_line-lines c [] line rest h = ground arith
take_line-lines c (d ∷ t) line rest h = elim (Bool-cases (c == newline)) [
  | inl e ↦ ground arith
  | inr e ↦
      let (p, q, r) = bind-split (take_line none (d ∷ t)) _ _ (rw e at h) in
      rw e (ap (prepend c) (take_line-lines d t p.0 p.1 q) ∙ ground arith)
]

pub utf8_len-cons : (c : ℕ) (t : Text) → (utf8_len (c ∷ t) == 0) ≡ false
unfolding utf8_len
utf8_len-cons c t = ground arith

pub utf8_len-positive : (t : Text) → 0 < length t → (utf8_len t == 0) ≡ false
utf8_len-positive [] h = elim h [ ]
utf8_len-positive (c ∷ t) h = utf8_len-cons c t

-- A chain of steps that each end ends.
abbrev Ends : {A : Type 0} → Result RunnerError A → Type 0
Ends r = r ≡ out_of_fuel → ⊥

module _ {A B : Type 0} where
  bind-Ends :
      (first : Result RunnerError A) (next : A → Result RunnerError B)
      → Ends first
      → ((a : A) → Ends (next a))
      → Ends (first >>= next)
  bind-Ends (ok a) next h k = k a
  bind-Ends (err e) next h k = λ q. cc
  bind-Ends out_of_fuel next h k = λ q. h refl

if-Ends :
    {A : Type 0} (b : Bool) {x y : Result RunnerError A}
    → Ends x
    → Ends y
    → Ends (if b then x else y)
if-Ends true h k = h
if-Ends false h k = k

next_or-Ends : (e : RunnerError) (segs : List Text) → Ends (next_or e segs)
next_or-Ends e [] q = cc
next_or-Ends e (s ∷ segs) q = cc

parse_ycsb_key-Ends : (segs : List Text) → Ends (parse_ycsb_key segs)
unfolding parse_ycsb_key
parse_ycsb_key-Ends segs =
    bind-Ends (next_or _ segs) _ (next_or-Ends _ segs)
      (λ p. bind-Ends (next_or _ p.1) _ (next_or-Ends _ p.1) (λ q r. cc))

parse_ycsb_value-Ends : (segs : List Text) → Ends (parse_ycsb_value segs)
unfolding parse_ycsb_value
parse_ycsb_value-Ends [] q = cc
parse_ycsb_value-Ends (s ∷ segs) q = ground arith

parse_digits-Ends : (acc : ℕ) (t : Text) → Ends (parse_digits acc t)
unfolding parse_digits
parse_digits-Ends acc [] q = cc
parse_digits-Ends acc (c ∷ t) q = ground (arith, parse_digits-Ends (acc * 10 + (c - b'0')) t)

parse_usize-Ends : (t : Text) → Ends (parse_usize t)
unfolding parse_usize
parse_usize-Ends [] q = cc
parse_usize-Ends (c ∷ []) q = parse_digits-Ends 0 (c ∷ []) q
parse_usize-Ends (c ∷ d ∷ t) q =
    ground (arith, parse_digits-Ends 0 (d ∷ t), parse_digits-Ends 0 (c ∷ d ∷ t))

parse_ycsb_scnt-Ends : (segs : List Text) → Ends (parse_ycsb_scnt segs)
unfolding parse_ycsb_scnt
parse_ycsb_scnt-Ends segs =
    bind-Ends (next_or _ segs) _ (next_or-Ends _ segs) (λ p. parse_usize-Ends p.0)

interpret_scan-Ends : (segs : List Text) (ikeys : KeySet) → Ends (interpret_scan segs ikeys)
unfolding interpret_scan
interpret_scan-Ends segs [] =
    bind-Ends (parse_ycsb_key segs) _ (parse_ycsb_key-Ends segs) (λ p q. cc)
interpret_scan-Ends segs ((key, u) ∷ ikeys) =
    bind-Ends (parse_ycsb_key segs) _ (parse_ycsb_key-Ends segs)
      (λ p. bind-Ends (parse_ycsb_scnt p.1) _ (parse_ycsb_scnt-Ends p.1) (λ n q. cc))

-- the arms that read a key and a value
keyed-Ends :
    {B : Type 0} (segs : List Text) (next : Text → Text → B)
    → Ends (
        parse_ycsb_key segs >>= λ (key, rest).
        parse_ycsb_value rest >>= λ value. ok (next key value))
keyed-Ends segs next =
    bind-Ends (parse_ycsb_key segs) _ (parse_ycsb_key-Ends segs)
      (λ p. bind-Ends (parse_ycsb_value p.1) _ (parse_ycsb_value-Ends p.1) (λ v q. cc))

-- Every line is interpreted.
pub interpret_ycsb_call-Ends :
    (line : Text) (ikeys : KeySet) → interpret_ycsb_call line ikeys ≡ out_of_fuel → ⊥
unfolding interpret_ycsb_call
interpret_ycsb_call-Ends line ikeys = by_segs (split_whitespace line) refl
  where
    by_segs :
        (segs : List Text) → split_whitespace line ≡ segs → Ends (interpret_ycsb_call line ikeys)
    by_segs [] e = λ q. cc
    by_segs (tag ∷ segs) e =
        rw (e, interpret_ycsb_call)
          (if-Ends (text_eq tag (codes "INSERT")) (keyed-Ends segs _) (
            if-Ends (text_eq tag (codes "UPDATE")) (keyed-Ends segs _) (
              if-Ends (text_eq tag (codes "READ"))
                (bind-Ends (parse_ycsb_key segs) _ (parse_ycsb_key-Ends segs) (λ p q. cc))
                (if-Ends (text_eq tag (codes "SCAN"))
                  (bind-Ends (interpret_scan segs ikeys) _ (interpret_scan-Ends segs ikeys)
                    (λ p q. cc))
                  (λ q. cc)))))
