-- ===== src/Runner/Ioapi/Ending.antt =====
-- When the loop of `read_next_line` (runner/src/ioapi.rs) ends: always, but at an end of the file
-- with nothing except blank lines in front of it.
use my_mad_kv.Prelude.{
  ℕ, zero, suc, ◌+◌, ◌<◌, ◌≡◌, refl, ap, sym, ◌∙◌, true, Option, none, [], ◌∷◌, ◌++◌, arith, length,
  Bool-cases, inl, inr, ◌↔◌, ◌==◌, ◌&&◌, if◌then◌else◌,
}
use my_mad_kv.Text.{Text, newline, utf8_len}
use my_mad_kv.Text.Words.{is_blank, is_empty-trim, is_blank-append}
use my_mad_kv.Runner.Error.{ForeignError, Result, ok, err, out_of_fuel, bind-split}
use my_mad_kv.Runner.Ioapi.Reader.{take_line, read_line, read_next_line_loop, read_next_line}
use my_mad_kv.Runner.Ioapi.Reading.{at, take_line-append}

pub take_line-ne_out_of_fuel :
    (failure : Option Text) (t : Text) → take_line failure t ≡ out_of_fuel → ⊥
unfolding take_line
take_line-ne_out_of_fuel failure [] h = ground arith
take_line-ne_out_of_fuel failure (c ∷ t) h = ground (arith, take_line-ne_out_of_fuel failure t)

pub length-take_line :
    (failure : Option Text) (t line rest : Text)
    → take_line failure t ≡ ok (line, rest)
    → length rest + length line ≡ length t
unfolding take_line
length-take_line failure [] line rest h = ground arith
length-take_line failure (c ∷ t) line rest h = elim (Bool-cases (c == newline)) [
  | inl e ↦ ground arith
  | inr e ↦
      let (p, q, r) = bind-split (take_line failure t) _ _ (rw e at h) in
      ground (arith, length-take_line failure t p.0 p.1 q)
]

-- A line that is read from a text that has not ended has a character.
pub take_line-cons :
    (failure : Option Text) (c : ℕ) (t line rest : Text)
    → take_line failure (c ∷ t) ≡ ok (line, rest)
    → 0 < length line
unfolding take_line
take_line-cons failure c t line rest h = elim (Bool-cases (c == newline)) [
  | inl e ↦ ground arith
  | inr e ↦ let (p, q, r) = bind-split (take_line failure t) _ _ (rw e at h) in ground arith
]

-- with no error behind the text a line is read
pub take_line_total :
    (t : Text) → (line : Text) × (rest : Text) × (take_line none t ≡ ok (line, rest))
unfolding take_line
take_line_total [] = ([], [], refl)
take_line_total (c ∷ t) = elim (Bool-cases (c == newline)) [
  | inl e ↦ (c ∷ [], t, rw e refl)
  | inr e ↦ let (line, rest, h) = take_line_total t in (c ∷ line, rest, rw (e, h) refl)
]

-- One round on a line that has been read.
loop_round :
    (fuel : ℕ) (failure : Option Text) (t buffer line rest : Text)
    → take_line failure t ≡ ok (line, rest)
    → read_next_line_loop (suc fuel) (at failure t) buffer ≡ (
        if is_blank (buffer ++ line)
        then read_next_line_loop fuel (at failure rest) (buffer ++ line)
        else ok (utf8_len line, buffer ++ line, at failure rest))
unfolding read_next_line_loop read_line
loop_round fuel failure t buffer line rest h =
    rw (h, read_next_line_loop) (ground (arith, is_empty-trim (buffer ++ line)))

loop_err :
    (fuel : ℕ) (failure : Option Text) (t buffer : Text) {e : ForeignError}
    → take_line failure t ≡ err e
    → read_next_line_loop (suc fuel) (at failure t) buffer ≡ out_of_fuel
    → ⊥
unfolding read_next_line_loop read_line
loop_err fuel failure t buffer h k = ground arith

blank_parts :
    (failure : Option Text) (t line rest : Text)
    → take_line failure t ≡ ok (line, rest)
    → is_blank t ≡ (is_blank line && is_blank rest)
blank_parts failure t line rest e =
    ap is_blank (take_line-append failure t line rest e) ∙ is_blank-append line rest

loop_hang :
    (fuel : ℕ) (t buffer : Text)
    → is_blank t ≡ true
    → is_blank buffer ≡ true
    → read_next_line_loop fuel (at none t) buffer ≡ out_of_fuel
loop_hang zero t buffer h k = unfold read_next_line_loop in refl
loop_hang (suc fuel) t buffer h k =
    let (line, rest, e) = take_line_total t in
    ground (
      arith,
      loop_round fuel none t buffer line rest e,
      is_blank-append buffer line,
      blank_parts none t line rest e,
      loop_hang fuel rest (buffer ++ line),
    )

-- At the end of a file with only blank lines in front of it, `read_next_line` never returns:
-- no number of rounds is enough.
pub read_next_line-hang :
    (fuel : ℕ) (t : Text) → is_blank t ≡ true → read_next_line fuel (at none t) ≡ out_of_fuel
unfolding read_next_line is_blank
read_next_line-hang fuel t h = loop_hang fuel t [] h refl

take_line_end :
    (failure : Option Text) (line rest : Text)
    → take_line failure [] ≡ ok (line, rest)
    → failure ≡ none
unfolding take_line
take_line_end failure line rest h = ground arith

-- the two facts that a text is blank and that nothing fails behind it
abbrev Spins : Option Text → Text → Type 0
Spins failure t = (is_blank t ≡ true) × (failure ≡ none)

loop_line :
    (fuel : ℕ) (failure : Option Text) (t buffer line rest : Text)
    → take_line failure t ≡ ok (line, rest)
    → length t < suc fuel
    → is_blank buffer ≡ true
    → (length rest < fuel
        → is_blank (buffer ++ line) ≡ true
        → read_next_line_loop fuel (at failure rest) (buffer ++ line) ≡ out_of_fuel
        → Spins failure rest)
    → read_next_line_loop (suc fuel) (at failure t) buffer ≡ out_of_fuel
    → Spins failure t
unfolding is_blank
loop_line fuel failure [] buffer line rest e l k ih h = (refl, take_line_end failure line rest e)
loop_line fuel failure (c ∷ t) buffer line rest e l k ih h =
    let shorter = length-take_line failure (c ∷ t) line rest e in
    let some_read = take_line-cons failure c t line rest e in
    let round = loop_round fuel failure (c ∷ t) buffer line rest e in
    let parts = blank_parts failure (c ∷ t) line rest e in
    let joined = is_blank-append buffer line in
    let ih' = ih (omega arith) in
    elim (Bool-cases (is_blank (buffer ++ line))) [
      | inl b ↦ let (blank, ends) = ih' b (sym (rw b at round) ∙ h) in (ground arith, ends)
      | inr b ↦ absurd (ground arith)
    ]

loop_only :
    (fuel : ℕ) (failure : Option Text) (t buffer : Text)
    → length t < fuel
    → is_blank buffer ≡ true
    → read_next_line_loop fuel (at failure t) buffer ≡ out_of_fuel
    → Spins failure t
loop_only zero failure t buffer l k h = elim l [ ]
loop_only (suc fuel) failure t buffer l k h =
    by_line (take_line failure t) refl (λ rest b. loop_only fuel failure rest b)
  where
    by_line :
        (r : Result ForeignError (Text × Text))
        → take_line failure t ≡ r
        → ((rest b : Text)
            → length rest < fuel
            → is_blank b ≡ true
            → read_next_line_loop fuel (at failure rest) b ≡ out_of_fuel
            → Spins failure rest)
        → Spins failure t
    by_line (ok (line, rest)) e ih =
        loop_line fuel failure t buffer line rest e l k (ih rest (buffer ++ line)) h
    by_line (err x) e ih = absurd (loop_err fuel failure t buffer e h)
    by_line out_of_fuel e ih = absurd (take_line-ne_out_of_fuel failure t e)

-- With one round for each pending character and one more, `read_next_line` fails to end exactly
-- where only blank lines stand in front of the end of the file; there no number of rounds ends it.
pub read_next_line-out_of_fuel_iff :
    (failure : Option Text) (t : Text) (fuel : ℕ)
    → length t < fuel
    → (read_next_line fuel (at failure t) ≡ out_of_fuel) ↔ (is_blank t ≡ true) × (failure ≡ none)
unfolding read_next_line is_blank
read_next_line-out_of_fuel_iff failure t fuel l =
    (loop_only fuel failure t [] l refl, λ s. rw s.1 (loop_hang fuel t [] s.0 refl))
