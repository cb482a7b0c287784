-- ===== src/Refcli/Responses.antt =====
-- The responses that refcli/src/main.rs writes, read by `KvResp::from_read` of
-- runner/src/ioapi.rs.
use my_mad_kv.Prelude.{
  ℕ, zero, suc, ◌<◌, ◌≡◌, refl, ap, sym, ◌∙◌, Bool, true, false, ◌&&◌, Option, none, some, List, [],
  ◌∷◌, ◌++◌, All, append_assoc, append-nil, arith, length, length-append, length-append,
}
use my_mad_kv.Text.{
  Text, codes, space, trim, split_whitespace, text_eq, text_compare, is_whitespace,
}
use my_mad_kv.Text.Order.{text_eq_ne, text_eq_refl}
use my_mad_kv.Text.Words.{is_word, is_blank, split_whitespace-blank}
use my_mad_kv.Text.Lines.{IsWord, lined, split_whitespace-lined, split_whitespace-trim}
use my_mad_kv.Runner.Error.{ok, ◌>>=◌}
use my_mad_kv.Runner.Ioapi.{
  KvResp, put_resp, swap_resp, get_resp, scan_resp, delete_resp, stop_resp,
}
use my_mad_kv.Runner.Ioapi.Reader.{
  from_read, read_resp, read_entries, expect_next_seg, read_value, read_put, read_swap, read_get,
  read_delete, read_scan,
}
use my_mad_kv.Runner.Ioapi.Reading.{at, read_next_line-lined, read_next_line-indented}
use my_mad_kv.Refcli.{write_response, write_entries}

-- the pair that is written as the line that ends a scan
abbrev pub is_scan_end : Text × Text → Bool
is_scan_end e = text_eq e.0 (codes "SCAN") && text_eq e.1 (codes "END")

abbrev pub IsEntry : Text × Text → Type 0
IsEntry e = IsWord e.0 × IsWord e.1 × (is_scan_end e ≡ false)

abbrev pub IsValue : Option Text → Type 0
IsValue none = Unit
IsValue (some value) = IsWord value × (text_eq value (codes "null") ≡ false)

-- The texts are words, no value is the word that stands for no value, and no entry of a scan is
-- the pair that is written as its end.
abbrev pub IsReadable : KvResp → Type 0
IsReadable (put_resp key found) = IsWord key
IsReadable (swap_resp key old_value) = IsWord key × IsValue old_value
IsReadable (get_resp key value) = IsWord key × IsValue value
IsReadable (scan_resp key_start key_end entries) =
    IsWord key_start × IsWord key_end × All IsEntry entries
IsReadable (delete_resp key found) = IsWord key
IsReadable stop_resp = Unit

-- the responses that are written as one line
abbrev IsLine : KvResp → Type 0
IsLine (scan_resp key_start key_end entries) = ⊥
IsLine _ = Unit

from_read-lined :
    (failure : Option Text) (w : Text) (ws : List Text) (rest : Text)
    → All IsWord (w ∷ ws)
    → from_read (at failure (lined (w ∷ ws) rest))
      ≡ read_resp (w ∷ ws) (lined (w ∷ ws) []) (at failure rest)
unfolding from_read
from_read-lined failure w ws rest h =
    rw (read_next_line-lined failure (length (lined (w ∷ ws) rest)) w ws rest h)
      (rw (split_whitespace-lined (w ∷ ws) h) refl)

module _ (failure : Option Text) (rest : Text) where
  read_one :
      (tag key value : Text) {resp : KvResp}
      → IsWord tag
      → IsWord key
      → IsWord value
      → read_resp (tag ∷ key ∷ value ∷ []) (lined (tag ∷ key ∷ value ∷ []) []) (at failure rest)
        ≡ ok (resp, at failure rest)
      → from_read (
          at failure
            ((tag ++ (codes " " ++ (key ++ (codes " " ++ (value ++ codes "\n"))))) ++ rest))
        ≡ ok (resp, at failure rest)
  read_one tag key value t k v h =
      simp append_assoc (from_read-lined failure tag (key ∷ value ∷ []) rest (t, (k, (v, tt))) ∙ h)

  read_null : (value : Text) → text_eq value (codes "null") ≡ false → read_value value ≡ some value
  unfolding read_value
  read_null value h = rw h

  -- Every response but a scan's is one line.
  read_line_resp :
      (resp : KvResp)
      → IsReadable resp
      → IsLine resp
      → from_read (at failure (write_response resp ++ rest)) ≡ ok (resp, at failure rest)
  unfolding write_response read_resp read_put read_swap read_get read_delete text_eq text_compare
      is_word is_whitespace
  read_line_resp (put_resp key true) h l =
      read_one (codes "PUT") key (codes "found") refl h refl refl
  read_line_resp (put_resp key false) h l =
      read_one (codes "PUT") key (codes "not_found") refl h refl refl
  read_line_resp (delete_resp key true) h l =
      read_one (codes "DELETE") key (codes "found") refl h refl refl
  read_line_resp (delete_resp key false) h l =
      read_one (codes "DELETE") key (codes "not_found") refl h refl refl
  read_line_resp (swap_resp key none) h l =
      read_one (codes "SWAP") key (codes "null") refl h.0 refl refl
  read_line_resp (swap_resp key (some value)) h l =
      read_one (codes "SWAP") key value refl h.0 h.1.0
        (ap (λ v. ok (swap_resp key v, at failure rest)) (read_null value h.1.1))
  read_line_resp (get_resp key none) h l =
      read_one (codes "GET") key (codes "null") refl h.0 refl refl
  read_line_resp (get_resp key (some value)) h l =
      read_one (codes "GET") key value refl h.0 h.1.0
        (ap (λ v. ok (get_resp key v, at failure rest)) (read_null value h.1.1))
  read_line_resp stop_resp h l = from_read-lined failure (codes "STOP") [] rest (refl, tt)
  read_line_resp (scan_resp key_start key_end entries) h l = absurd l

scan_end-IsWord : All IsWord (codes "SCAN" ∷ codes "END" ∷ [])
unfolding is_word is_whitespace
scan_end-IsWord = (refl, (refl, tt))

split_end : split_whitespace (codes "SCAN END") ≡ codes "SCAN" ∷ codes "END" ∷ []
unfolding split_whitespace is_whitespace
split_end = refl

-- The line of an entry is not taken for the line that ends the scan.
entry_is_not_end :
    (k v line : Text)
    → split_whitespace line ≡ k ∷ v ∷ []
    → is_scan_end (k, v) ≡ false
    → text_eq (trim line) (codes "SCAN END") ≡ false
entry_is_not_end k v line e h = text_eq_ne (trim line) (codes "SCAN END") λ p.
    let parts : k ∷ v ∷ [] ≡ codes "SCAN" ∷ codes "END" ∷ [] =
      sym e ∙ sym (split_whitespace-trim line) ∙ ap split_whitespace p ∙ split_end in
    ground (arith, text_eq_refl (codes "SCAN"), text_eq_refl (codes "END"))

indented-split :
    (ws : List Text) → All IsWord ws → split_whitespace (space ∷ space ∷ lined ws []) ≡ ws
unfolding is_blank is_whitespace
indented-split ws h =
    split_whitespace-blank (space ∷ space ∷ []) (lined ws []) refl ∙ split_whitespace-lined ws h

-- One round of the loop, on the line of an entry.
read_entries-entry :
    (failure : Option Text) (fuel : ℕ) (found : List (Text × Text)) (k v rest : Text)
    → IsEntry (k, v)
    → read_entries (suc fuel) (at failure (space ∷ space ∷ lined (k ∷ v ∷ []) rest)) found
      ≡ read_entries fuel (at failure rest) (found ++ (k, v) ∷ [])
unfolding read_entries expect_next_seg
read_entries-entry failure fuel found k v rest h =
    let words : All IsWord (k ∷ v ∷ []) = (h.0, (h.1, tt)) in
    let line = space ∷ space ∷ lined (k ∷ v ∷ []) [] in
    let split = indented-split (k ∷ v ∷ []) words in
    rw (read_next_line-indented failure _ k (v ∷ []) rest words)
      (rw (entry_is_not_end k v line split h.2, ◌>>=◌) (rw (split, ◌>>=◌) refl))

scan_end-trim : text_eq (trim (codes "SCAN END\n")) (codes "SCAN END") ≡ true
unfolding trim text_eq text_compare is_whitespace
scan_end-trim = refl

-- The last round.
read_entries-end :
    (failure : Option Text) (fuel : ℕ) (found : List (Text × Text)) (rest : Text)
    → read_entries (suc fuel) (at failure (codes "SCAN END\n" ++ rest)) found
      ≡ ok (found, at failure rest)
unfolding read_entries
read_entries-end failure fuel found rest =
    rw (read_next_line-lined failure _ (codes "SCAN") (codes "END" ∷ []) rest scan_end-IsWord)
      (rw (scan_end-trim, ◌>>=◌) refl)

module _ (failure : Option Text) (rest : Text) where
  -- The loop through the entries reads those that are written, in their order.
  read_entries-write_entries :
      (entries : List (Text × Text)) (fuel : ℕ) (found : List (Text × Text))
      → length entries < fuel
      → All IsEntry entries
      → read_entries fuel (at failure (write_entries entries ++ rest)) found
        ≡ ok (found ++ entries, at failure rest)
  unfolding write_entries
  read_entries-write_entries entries zero found l h = elim l [ ]
  read_entries-write_entries [] (suc fuel) found l h =
      rw append-nil (read_entries-end failure fuel found rest)
  read_entries-write_entries ((k, v) ∷ entries) (suc fuel) found l h = simp append_assoc (
      read_entries-entry failure fuel found k v (write_entries entries ++ rest) h.0
      ∙ read_entries-write_entries entries fuel (found ++ (k, v) ∷ []) (omega arith) h.1
      ∙ simp append_assoc)

  length-write_entries :
      (entries : List (Text × Text)) → length entries < suc (length (write_entries entries ++ rest))
  unfolding write_entries
  length-write_entries [] = omega arith
  length-write_entries ((k, v) ∷ entries) =
      simp append_assoc (omega (arith, length-append {0}, length-write_entries entries))

  read_scan_resp :
      (key_start key_end : Text) (entries : List (Text × Text))
      → IsReadable (scan_resp key_start key_end entries)
      → from_read (at failure (write_response (scan_resp key_start key_end entries) ++ rest))
        ≡ ok (scan_resp key_start key_end entries, at failure rest)
  unfolding write_response read_resp read_scan text_eq text_compare is_word is_whitespace
  read_scan_resp key_start key_end entries h = simp append_assoc (
      from_read-lined failure (codes "SCAN") (key_start ∷ key_end ∷ codes "BEGIN" ∷ [])
        (write_entries entries ++ rest) (refl, (h.0, (h.1, (refl, tt))))
      ∙ rw (read_entries-write_entries entries _ [] (length-write_entries entries) h.2) refl)

-- What the reference client writes for a response is read back as that response, with what
-- stands behind it left to read.
pub from_read-write_response :
    (failure : Option Text) (rest : Text) (resp : KvResp)
    → IsReadable resp
    → from_read (at failure (write_response resp ++ rest)) ≡ ok (resp, at failure rest)
from_read-write_response failure rest (scan_resp key_start key_end entries) h =
    read_scan_resp failure rest key_start key_end entries h
from_read-write_response failure rest (put_resp key found) h =
    read_line_resp failure rest (put_resp key found) h tt
from_read-write_response failure rest (swap_resp key old_value) h =
    read_line_resp failure rest (swap_resp key old_value) h tt
from_read-write_response failure rest (get_resp key value) h =
    read_line_resp failure rest (get_resp key value) h tt
from_read-write_response failure rest (delete_resp key found) h =
    read_line_resp failure rest (delete_resp key found) h tt
from_read-write_response failure rest stop_resp h = read_line_resp failure rest stop_resp h tt
