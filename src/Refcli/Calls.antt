-- ===== src/Refcli/Calls.antt =====
-- The calls that runner/src/ioapi.rs writes, read by refcli/src/main.rs.
use my_mad_kv.Prelude.{◌≡◌, refl, sym, ap, ◌∙◌, List, [], ◌∷◌, ◌++◌, All, append_assoc, append-nil}
use my_mad_kv.Text.{Text, codes, trim, text_eq, text_compare, is_whitespace}
use my_mad_kv.Text.Words.{is_word}
use my_mad_kv.Text.Lines.{IsWord, lined, split_whitespace-lined, split_whitespace-trim}
use my_mad_kv.Runner.Error.{ok}
use my_mad_kv.Runner.Ioapi.{KvCall, put, swap, get, scan, delete, stop, into_write}
use my_mad_kv.Refcli.{parse_segs, parse_input_call}

-- Every text of the call is a word: it is not empty and has no whitespace.
abbrev pub HasWords : KvCall → Type 0
HasWords (put key value) = IsWord key × IsWord value
HasWords (swap key value) = IsWord key × IsWord value
HasWords (get key) = IsWord key
HasWords (scan key_start key_end) = IsWord key_start × IsWord key_end
HasWords (delete key) = IsWord key
HasWords stop = Unit

parse_input_call-lined :
    (ws : List Text)
    → All IsWord ws
    → parse_input_call (trim (lined ws [])) ≡ parse_segs ws (trim (lined ws []))
unfolding parse_input_call
parse_input_call-lined ws h =
    ap (λ segs. parse_segs segs (trim (lined ws [])))
      (split_whitespace-trim (lined ws []) ∙ split_whitespace-lined ws h)

-- the words of the line that is written for a call
abbrev pub first_word : KvCall → Text
first_word (put key value) = codes "PUT"
first_word (swap key value) = codes "SWAP"
first_word (get key) = codes "GET"
first_word (scan key_start key_end) = codes "SCAN"
first_word (delete key) = codes "DELETE"
first_word stop = codes "STOP"

abbrev pub fields : KvCall → List Text
fields (put key value) = key ∷ value ∷ []
fields (swap key value) = key ∷ value ∷ []
fields (get key) = key ∷ []
fields (scan key_start key_end) = key_start ∷ key_end ∷ []
fields (delete key) = key ∷ []
fields stop = []

pub words-IsWord : (call : KvCall) → HasWords call → All IsWord (first_word call ∷ fields call)
unfolding is_word is_whitespace
words-IsWord (put key value) h = (refl, (h.0, (h.1, tt)))
words-IsWord (swap key value) h = (refl, (h.0, (h.1, tt)))
words-IsWord (get key) h = (refl, (h, tt))
words-IsWord (scan key_start key_end) h = (refl, (h.0, (h.1, tt)))
words-IsWord (delete key) h = (refl, (h, tt))
words-IsWord stop h = (refl, tt)

pub into_write-words :
    (call : KvCall) (rest : Text)
    → into_write call ++ rest ≡ lined (first_word call ∷ fields call) rest
unfolding into_write
into_write-words (put key value) rest = simp append_assoc
into_write-words (swap key value) rest = simp append_assoc
into_write-words (get key) rest = simp append_assoc
into_write-words (scan key_start key_end) rest = simp append_assoc
into_write-words (delete key) rest = simp append_assoc
into_write-words stop rest = refl

parse_segs-words :
    (call : KvCall) (line : Text) → parse_segs (first_word call ∷ fields call) line ≡ ok call
unfolding parse_segs text_eq text_compare
parse_segs-words (put key value) line = refl
parse_segs-words (swap key value) line = refl
parse_segs-words (get key) line = refl
parse_segs-words (scan key_start key_end) line = refl
parse_segs-words (delete key) line = refl
parse_segs-words stop line = refl

pub parse_input_call-words :
    (call : KvCall)
    → HasWords call
    → parse_input_call (trim (lined (first_word call ∷ fields call) [])) ≡ ok call
parse_input_call-words call h =
    parse_input_call-lined (first_word call ∷ fields call) (words-IsWord call h)
    ∙ parse_segs-words call _

-- The client reads back every call whose texts are words.
pub parse_input_call-into_write :
    (call : KvCall) → HasWords call → parse_input_call (trim (into_write call)) ≡ ok call
parse_input_call-into_write call h =
    ap (λ line. parse_input_call (trim line))
      (sym (append-nil (into_write call)) ∙ into_write-words call [])
    ∙ parse_input_call-words call h
