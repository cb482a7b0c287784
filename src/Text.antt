-- ===== src/Text.antt =====
-- Rust's `String` and `&str`, as the list of their Unicode scalar values, and what the program
-- calls of them: comparison, `is_empty`, `trim`, `split_whitespace`, `starts_with` for one
-- character, and the length in bytes that `read_line` returns. Rust compares the bytes of the
-- UTF-8 encoding, which orders texts as their scalar values do.
pub mod Order
pub mod Words
pub mod Lines
use Prim.Native.Char.{code}
use Prim.Native.String.{String}
use my_mad_kv.Prelude.{
  ℕ, ◌+◌, Bool, true, false, not, ◌&&◌, ◌||◌, List, [], ◌∷◌, ltb, leb, ◌==◌, if◌then◌else◌, compare,
  Ordering,
}

abbrev pub Text : Type 0
Text = List ℕ

-- the scalar values of a literal
abbrev pub codes : String → Text
codes String.[] = []
codes (String.◌∷◌ c s) = code c ∷ codes s

abbrev pub newline : ℕ
newline = b'\n'

abbrev pub space : ℕ
space = b' '

-- `char::is_whitespace`: the characters with the Unicode property `White_Space`
unfoldable pub is_whitespace : ℕ → Bool
is_whitespace c =
    leb 9 c && leb c 13
    || c == 32
    || c == 0x85
    || c == 0xa0
    || c == 0x1680
    || leb 0x2000 c && leb c 0x200a
    || c == 0x2028
    || c == 0x2029
    || c == 0x202f
    || c == 0x205f
    || c == 0x3000

-- `Ord::cmp`
unfoldable pub text_compare : Text → Text → Ordering
text_compare [] [] = Ordering.eq
text_compare [] (b ∷ bs) = Ordering.lt
text_compare (a ∷ as') [] = Ordering.gt
text_compare (a ∷ as') (b ∷ bs) = elim (compare a b) [
  | Ordering.lt ↦ Ordering.lt
  | Ordering.eq ↦ text_compare as' bs
  | Ordering.gt ↦ Ordering.gt
]

-- `==`
unfoldable pub text_eq : Text → Text → Bool
text_eq a b = elim (text_compare a b) [ Ordering.eq ↦ true | _ ↦ false ]

-- `<`
unfoldable pub text_ltb : Text → Text → Bool
text_ltb a b = elim (text_compare a b) [ Ordering.lt ↦ true | _ ↦ false ]

abbrev pub is_empty {ℓ} : {A : Type ℓ} → List A → Bool
is_empty [] = true
is_empty (x ∷ xs) = false

unfoldable pub trim_start : Text → Text
trim_start [] = []
trim_start (c ∷ cs) = let rest = trim_start cs in if is_whitespace c then rest else c ∷ cs

unfoldable pub trim_end : Text → Text
trim_end [] = []
trim_end (c ∷ cs) =
    let rest = trim_end cs in if is_empty rest && is_whitespace c then [] else c ∷ rest

unfoldable pub trim : Text → Text
unfolding trim_start trim_end
trim t = trim_end (trim_start t)

-- A finished segment joins the segments behind it, if it is not empty.
abbrev pub cons_word : Text → List Text → List Text
cons_word [] ws = ws
cons_word (c ∷ w) ws = (c ∷ w) ∷ ws

-- The text up to its first whitespace, and the segments behind it.
unfoldable pub split_parts : Text → Text × List Text
split_parts [] = ([], [])
split_parts (c ∷ cs) =
    let (w, ws) = split_parts cs in if is_whitespace c then ([], cons_word w ws) else (c ∷ w, ws)

-- `SplitWhitespace`: the segments that the iterator has still to return
unfoldable pub split_whitespace : Text → List Text
unfolding split_parts
split_whitespace t = cons_word (split_parts t).0 (split_parts t).1

-- the number of bytes of the UTF-8 encoding
unfoldable pub utf8_len : Text → ℕ
utf8_len [] = 0
utf8_len (c ∷ cs) =
    (if ltb c 0x80 then 1 else if ltb c 0x800 then 2 else if ltb c 0x10000 then 3 else 4)
    + utf8_len cs

-- `starts_with`
unfoldable pub starts_with : Text → Text → Bool
starts_with [] t = true
starts_with (p ∷ pat) [] = false
starts_with (p ∷ pat) (c ∷ cs) = p == c && starts_with pat cs

-- `contains`
unfoldable pub contains : Text → Text → Bool
unfolding starts_with
contains pat [] = is_empty pat
contains pat (c ∷ cs) = starts_with pat (c ∷ cs) || contains pat cs
