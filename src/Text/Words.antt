-- ===== src/Text/Words.antt =====
-- Words: texts that `split_whitespace` returns whole, and how it splits a line made of words.
use my_mad_kv.Prelude.{ℕ, ◌≡◌, refl, ◌∙◌, Bool, true, not, ◌&&◌, [], ◌∷◌, ◌++◌, arith, append-nil}
use my_mad_kv.Text.{
  Text, is_whitespace, is_empty, trim_start, trim_end, trim, split_parts, split_whitespace,
}

-- every character satisfies the test
unfoldable pub all_chars : (ℕ → Bool) → Text → Bool
all_chars p [] = true
all_chars p (c ∷ cs) = p c && all_chars p cs

unfoldable pub no_whitespace : Text → Bool
unfolding all_chars
no_whitespace = all_chars (λ c. not (is_whitespace c))

unfoldable pub is_word : Text → Bool
unfolding no_whitespace
is_word t = not (is_empty t) && no_whitespace t

unfoldable pub is_blank : Text → Bool
unfolding all_chars
is_blank = all_chars is_whitespace

pub split_parts-word :
    (w rest : Text)
    → no_whitespace w ≡ true
    → split_parts (w ++ rest) ≡ (w ++ (split_parts rest).0, (split_parts rest).1)
unfolding no_whitespace split_parts
split_parts-word [] rest h = refl
split_parts-word (c ∷ w) rest h = ground (arith, split_parts-word w rest)

-- A word in front of whitespace is the first segment.
pub split_whitespace-word :
    (w : Text) (c : ℕ) (rest : Text)
    → is_word w ≡ true
    → is_whitespace c ≡ true
    → split_whitespace (w ++ c ∷ rest) ≡ w ∷ split_whitespace rest
unfolding is_word split_whitespace
split_whitespace-word [] c rest h k = cc
split_whitespace-word (d ∷ w) c rest h k =
    rw (split_parts-word (d ∷ w) (c ∷ rest) h) (rw (k, split_parts) (rw append-nil refl))

pub split_whitespace-blank :
    (b rest : Text) → is_blank b ≡ true → split_whitespace (b ++ rest) ≡ split_whitespace rest
unfolding is_blank split_whitespace
split_whitespace-blank [] rest h = refl
split_whitespace-blank (c ∷ b) rest h = ground (arith, split_whitespace-blank b rest)

pub is_empty-trim_start : (t : Text) → is_empty (trim_start t) ≡ is_blank t
unfolding trim_start is_blank
is_empty-trim_start [] = refl
is_empty-trim_start (c ∷ t) = ground (arith, is_empty-trim_start t)

pub is_empty-trim_end : (t : Text) → is_empty (trim_end t) ≡ is_blank t
unfolding trim_end is_blank
is_empty-trim_end [] = refl
is_empty-trim_end (c ∷ t) = ground (arith, is_empty-trim_end t)

pub is_blank-trim_start : (t : Text) → is_blank (trim_start t) ≡ is_blank t
unfolding trim_start is_blank
is_blank-trim_start [] = refl
is_blank-trim_start (c ∷ t) = ground (arith, is_blank-trim_start t)

-- A text is empty once trimmed exactly if it is blank.
pub is_empty-trim : (t : Text) → is_empty (trim t) ≡ is_blank t
unfolding trim
is_empty-trim t = is_empty-trim_end (trim_start t) ∙ is_blank-trim_start t

pub is_blank-append : (a b : Text) → is_blank (a ++ b) ≡ (is_blank a && is_blank b)
unfolding is_blank
is_blank-append [] b = refl
is_blank-append (c ∷ a) b = ground (arith, is_blank-append a b)
