-- ===== src/Runner/Ioapi/Reading.antt =====
-- How `read_next_line` of runner/src/ioapi.rs reads: over a line of words, over blank lines, and
-- at the end of the file.
use my_mad_kv.Prelude.{
  ℕ, suc, ◌≡◌, refl, ap, sym, ◌∙◌, true, false, Option, List, [], ◌∷◌, ◌++◌, arith, All, Bool-cases,
  inl, inr, ◌==◌,
}
use my_mad_kv.Text.{Text, newline, space, is_whitespace, utf8_len}
use my_mad_kv.Text.Words.{is_word, is_blank, no_whitespace, is_empty-trim}
use my_mad_kv.Text.Lines.{IsWord, lined, newline-IsWhitespace, is_empty-trim_word}
use my_mad_kv.Runner.Error.{ForeignError, Result, ok, ◌>>=◌, bind-split}
use my_mad_kv.Runner.Ioapi.Reader.{
  Reader, take_line, read_line, read_next_line_loop, read_next_line,
}

-- the line read so far in front of what is read behind it
abbrev after : Text → Result ForeignError (Text × Text) → Result ForeignError (Text × Text)
after w r = r >>= λ p. ok (w ++ p.0, p.1)

newline_test : (c : ℕ) → is_whitespace c ≡ false → (c == newline) ≡ false
newline_test c h = elim (Bool-cases (c == newline)) [
  | inl e ↦ let q : c ≡ newline = ground arith in cc (newline-IsWhitespace, ap is_whitespace q)
  | inr e ↦ e
]

take_line-word :
    (failure : Option Text) (w t : Text)
    → no_whitespace w ≡ true
    → take_line failure (w ++ t) ≡ after w (take_line failure t)
unfolding take_line no_whitespace
take_line-word failure [] t h = ground arith
take_line-word failure (c ∷ w) t h = ground (arith, take_line-word failure w t, newline_test c)

IsWord-no_whitespace : (w : Text) → IsWord w → no_whitespace w ≡ true
unfolding is_word
IsWord-no_whitespace w h = ground arith

take_line-newline :
    (failure : Option Text) (rest : Text)
    → take_line failure (newline ∷ rest) ≡ ok (newline ∷ [], rest)
unfolding take_line
take_line-newline failure rest = refl

take_line-space :
    (failure : Option Text) (rest : Text)
    → take_line failure (space ∷ rest) ≡ after (space ∷ []) (take_line failure rest)
unfolding take_line
take_line-space failure rest = refl

-- `read_line` takes a line of words whole, and leaves what stands behind it.
pub take_line-lined :
    (failure : Option Text) (ws : List Text) (rest : Text)
    → All IsWord ws
    → take_line failure (lined ws rest) ≡ ok (lined ws [], rest)
take_line-lined failure [] rest h = take_line-newline failure rest
take_line-lined failure (w ∷ []) rest h =
    take_line-word failure w (newline ∷ rest) (IsWord-no_whitespace w h.0)
    ∙ ap (after w) (take_line-newline failure rest)
take_line-lined failure (w ∷ v ∷ ws) rest h =
    take_line-word failure w (space ∷ lined (v ∷ ws) rest) (IsWord-no_whitespace w h.0)
    ∙ ap (after w) (
        take_line-space failure (lined (v ∷ ws) rest)
        ∙ ap (after (space ∷ [])) (take_line-lined failure (v ∷ ws) rest h.1))

abbrev pub at : Option Text → Text → Reader
at failure text = record { pending = text; failure = failure }

-- A line that is not blank is the next line.
read_next_line-of_line :
    (failure : Option Text) (fuel : ℕ) (t line rest : Text)
    → take_line failure t ≡ ok (line, rest)
    → is_blank line ≡ false
    → read_next_line (suc fuel) (at failure t) ≡ ok (utf8_len line, line, at failure rest)
unfolding read_next_line read_next_line_loop read_line
read_next_line-of_line failure fuel t line rest e b =
    rw (e, read_next_line_loop) (ground (arith, is_empty-trim line))

pub is_blank-lined :
    (w : Text) (ws : List Text) (rest : Text) → IsWord w → is_blank (lined (w ∷ ws) rest) ≡ false
is_blank-lined w [] rest h =
    sym (is_empty-trim (w ++ newline ∷ rest)) ∙ is_empty-trim_word w (newline ∷ rest) h
is_blank-lined w (v ∷ ws) rest h =
    sym (is_empty-trim (w ++ space ∷ lined (v ∷ ws) rest))
    ∙ is_empty-trim_word w (space ∷ lined (v ∷ ws) rest) h

-- A line of words that stands next is the next line.
pub read_next_line-lined :
    (failure : Option Text) (fuel : ℕ) (w : Text) (ws : List Text) (rest : Text)
    → All IsWord (w ∷ ws)
    → read_next_line (suc fuel) (at failure (lined (w ∷ ws) rest))
      ≡ ok (utf8_len (lined (w ∷ ws) []), lined (w ∷ ws) [], at failure rest)
read_next_line-lined failure fuel w ws rest h =
    read_next_line-of_line failure fuel _ (lined (w ∷ ws) []) rest
      (take_line-lined failure (w ∷ ws) rest h) (is_blank-lined w ws [] h.0)

take_line-indented :
    (failure : Option Text) (ws : List Text) (rest : Text)
    → All IsWord ws
    → take_line failure (space ∷ space ∷ lined ws rest) ≡ ok (space ∷ space ∷ lined ws [], rest)
take_line-indented failure ws rest h =
    take_line-space failure (space ∷ lined ws rest)
    ∙ ap (after (space ∷ [])) (
        take_line-space failure (lined ws rest)
        ∙ ap (after (space ∷ [])) (take_line-lined failure ws rest h))

is_blank-space : (t : Text) → is_blank (space ∷ t) ≡ is_blank t
unfolding is_blank is_whitespace
is_blank-space t = refl

-- The same for a line that two spaces indent, as the entries of a scan are.
pub read_next_line-indented :
    (failure : Option Text) (fuel : ℕ) (w : Text) (ws : List Text) (rest : Text)
    → All IsWord (w ∷ ws)
    → read_next_line (suc fuel) (at failure (space ∷ space ∷ lined (w ∷ ws) rest))
      ≡ ok (
        utf8_len (space ∷ space ∷ lined (w ∷ ws) []),
        space ∷ space ∷ lined (w ∷ ws) [],
        at failure rest,
      )
read_next_line-indented failure fuel w ws rest h =
    read_next_line-of_line failure fuel _ (space ∷ space ∷ lined (w ∷ ws) []) rest
      (take_line-indented failure (w ∷ ws) rest h)
      (is_blank-space _ ∙ is_blank-space _ ∙ is_blank-lined w ws [] h.0)

-- What a line and the text behind it are together.
pub take_line-append :
    (failure : Option Text) (t line rest : Text)
    → take_line failure t ≡ ok (line, rest)
    → t ≡ line ++ rest
unfolding take_line
take_line-append failure [] line rest h = ground arith
take_line-append failure (c ∷ t) line rest h = elim (Bool-cases (c == newline)) [
  | inl e ↦ ground arith
  | inr e ↦
      let (p, q, r) = bind-split (take_line failure t) _ _ (rw e at h) in
      ground (arith, take_line-append failure t p.0 p.1 q)
]
