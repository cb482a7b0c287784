-- ===== src/Text/Lines.antt =====
-- Lines made of words, each behind one space: what `split_whitespace` and `trim` make of them.
use my_mad_kv.Prelude.{
  ◌≡◌, refl, ap, ◌∙◌, true, false, List, [], ◌∷◌, ◌++◌, arith, append_assoc, All,
}
use my_mad_kv.Text.{
  Text, newline, space, is_whitespace, is_empty, trim_start, trim_end, trim, cons_word, split_parts,
  split_whitespace,
}
use my_mad_kv.Text.Words.{is_word, is_blank, split_whitespace-word, is_empty-trim}

abbrev pub IsWord : Text → Type 0
IsWord w = is_word w ≡ true

-- the words, a space between each two, the newline, and the text behind it
abbrev pub lined : List Text → Text → Text
lined [] rest = newline ∷ rest
lined (w ∷ []) rest = w ++ newline ∷ rest
lined (w ∷ v ∷ ws) rest = w ++ space ∷ lined (v ∷ ws) rest

lined-append : (ws : List Text) (rest : Text) → lined ws [] ++ rest ≡ lined ws rest
lined-append [] rest = refl
lined-append (w ∷ []) rest = rw append_assoc
lined-append (w ∷ v ∷ ws) rest = simp (append_assoc, lined-append (v ∷ ws) rest)

split_newline : split_whitespace (newline ∷ []) ≡ []
unfolding split_whitespace is_whitespace
split_newline = refl

split_nil : split_whitespace [] ≡ []
unfolding split_whitespace
split_nil = refl

pub newline-IsWhitespace : is_whitespace newline ≡ true
unfolding is_whitespace
newline-IsWhitespace = refl

pub space-IsWhitespace : is_whitespace space ≡ true
unfolding is_whitespace
space-IsWhitespace = refl

-- The segments of a line made of words are the words.
pub split_whitespace-lined : (ws : List Text) → All IsWord ws → split_whitespace (lined ws []) ≡ ws
split_whitespace-lined [] h = split_newline
split_whitespace-lined (w ∷ []) h =
    split_whitespace-word w newline [] h.0 newline-IsWhitespace ∙ ap (λ r. w ∷ r) split_nil
split_whitespace-lined (w ∷ v ∷ ws) h =
    split_whitespace-word w space (lined (v ∷ ws) []) h.0 space-IsWhitespace
    ∙ ap (λ r. w ∷ r) (split_whitespace-lined (v ∷ ws) h.1)

split_parts-trim_end : (t : Text) → split_parts (trim_end t) ≡ split_parts t
unfolding split_parts trim_end
split_parts-trim_end [] = refl
split_parts-trim_end (c ∷ t) = ground (arith, split_parts-trim_end t)

split_whitespace-trim_start : (t : Text) → split_whitespace (trim_start t) ≡ split_whitespace t
unfolding split_whitespace trim_start
split_whitespace-trim_start [] = refl
split_whitespace-trim_start (c ∷ t) = ground (arith, split_whitespace-trim_start t)

-- Trimming a text does not change its segments.
pub split_whitespace-trim : (t : Text) → split_whitespace (trim t) ≡ split_whitespace t
unfolding trim split_whitespace
split_whitespace-trim t =
    ap (λ p. cons_word p.0 p.1) (split_parts-trim_end (trim_start t))
    ∙ split_whitespace-trim_start t

-- A line that begins with a word is not blank.
pub is_empty-trim_word : (w rest : Text) → IsWord w → is_empty (trim (w ++ rest)) ≡ false
unfolding is_word is_blank
is_empty-trim_word [] rest h = cc
is_empty-trim_word (c ∷ w) rest h = rw is_empty-trim (ground arith)
