-- ===== src/Refcli/Store.antt =====
-- What `handle_kv_call` of refcli/src/main.rs promises: a store is a function from keys to values,
-- and each call answers from it and changes it at its own key alone.
use my_mad_kv.Prelude.{
  ◌≡◌, refl, Bool, true, false, not, ◌&&◌, Option, none, some, List, arith, if◌then◌else◌, is_some,
  Bool-cases, inl, inr,
}
use my_mad_kv.Text.{Text, text_eq, text_ltb}
use my_mad_kv.Collections.SortedMap
use my_mad_kv.Collections.SortedMap.{SortedMap, IsSorted}
use my_mad_kv.Collections.SortedMap.Laws.{
  lookup-insert, lookup-remove, lookup-between, insert-IsSorted, remove-IsSorted, between-IsSorted,
}
use my_mad_kv.Runner.Ioapi.{
  KvCall, put, swap, get, scan, delete, stop, KvResp, put_resp, swap_resp, get_resp, scan_resp,
  delete_resp, stop_resp,
}
use my_mad_kv.Refcli.{handle_kv_call, to_stop}

abbrev pub Store : Type 0
Store = Text → Option Text

abbrev pub view : SortedMap Text → Store
view m k = SortedMap.lookup k m

abbrev pub Same : Store → Store → Type 0
Same f g = (j : Text) → g j ≡ f j

abbrev pub Written : Text → Option Text → Store → Store → Type 0
Written k o f g = (j : Text) → g j ≡ (if text_eq k j then o else f j)

-- The entries of `f` with a key from `lo` on and below `hi`, in the order of their keys.
abbrev pub IsRange : Text → Text → Store → List (Text × Text) → Type 0
IsRange lo hi f entries =
    IsSorted entries
    × ((j : Text)
        → SortedMap.lookup j entries ≡ (if not (text_ltb j lo) && text_ltb j hi then f j else none))

-- In store `f` the call is answered by the response, and the store is then `g`.
abbrev pub Answers : KvCall → Store → KvResp → Store → Type 0
Answers (put key value) f resp g =
    (resp ≡ put_resp key (is_some (f key))) × Written key (some value) f g
Answers (swap key value) f resp g = (resp ≡ swap_resp key (f key)) × Written key (some value) f g
Answers (get key) f resp g = (resp ≡ get_resp key (f key)) × Same f g
Answers (scan key_start key_end) f resp g =
    ((entries : List (Text × Text)) × (resp ≡ scan_resp key_start key_end entries)
      × IsRange key_start key_end f entries)
    × Same f g
Answers (delete key) f resp g = (resp ≡ delete_resp key (is_some (f key))) × Written key none f g
Answers stop f resp g = (resp ≡ stop_resp) × Same f g

abbrev pub is_inverted : KvCall → Bool
is_inverted (scan key_start key_end) = text_ltb key_end key_start
is_inverted _ = false

-- What is proved of the result of a call.
abbrev pub Handled : KvCall → SortedMap Text → Option (KvResp × SortedMap Text) → Type 0
Handled call m none = is_inverted call ≡ true
Handled call m (some (resp, m')) =
    (is_inverted call ≡ false) × IsSorted m' × Answers call (view m) resp (view m')

module _ (lo hi : Text) (m : SortedMap Text) where
  pub scan_inverted : text_ltb hi lo ≡ true → handle_kv_call (scan lo hi) m ≡ none
  unfolding handle_kv_call SortedMap.range
  scan_inverted e = ground arith

  pub scan_ordered :
      text_ltb hi lo ≡ false
      → handle_kv_call (scan lo hi) m ≡ some (scan_resp lo hi (SortedMap.between lo hi m), m)
  unfolding handle_kv_call SortedMap.range
  scan_ordered e = ground arith

  scan-Handled : IsSorted m → Handled (scan lo hi) m (handle_kv_call (scan lo hi) m)
  scan-Handled s = elim (Bool-cases (text_ltb hi lo)) [
    | inl e ↦ rw (scan_inverted e) e
    | inr e ↦ rw (scan_ordered e) (
      e,
      s,
      (
        (
          SortedMap.between lo hi m,
          refl,
          (between-IsSorted lo hi m s, λ j. lookup-between j lo hi m s),
        ),
        λ j. refl,
      ),
    )
  ]

-- On a sorted map the client answers every call as the store that the map stands for, and keeps
-- the map sorted; it fails only on a scan whose end lies below its start.
pub handle_kv_call-Handled :
    (call : KvCall) (m : SortedMap Text) → IsSorted m → Handled call m (handle_kv_call call m)
unfolding handle_kv_call
handle_kv_call-Handled (put key value) m s =
    (refl, insert-IsSorted key value m s, (refl, λ j. lookup-insert j key value m))
handle_kv_call-Handled (swap key value) m s =
    (refl, insert-IsSorted key value m s, (refl, λ j. lookup-insert j key value m))
handle_kv_call-Handled (get key) m s = (refl, s, (refl, λ j. refl))
handle_kv_call-Handled (scan lo hi) m s = scan-Handled lo hi m s
handle_kv_call-Handled (delete key) m s =
    (refl, remove-IsSorted key m s, (refl, λ j. lookup-remove j key m s))
handle_kv_call-Handled stop m s = (refl, s, (refl, λ j. refl))

-- A call that does not panic has a response.
pub Handled-some :
    (call : KvCall) (m : SortedMap Text) (o : Option (KvResp × SortedMap Text))
    → Handled call m o
    → is_inverted call ≡ false
    → (resp : KvResp) × (m' : SortedMap Text) × (o ≡ some (resp, m'))
      × IsSorted m'
      × Answers call (view m) resp (view m')
Handled-some call m none h e = cc
Handled-some call m (some (resp, m')) h e = (resp, m', refl, h.1, h.2)

abbrev pub is_stop : KvCall → Bool
is_stop stop = true
is_stop _ = false

-- Only the call to stop is answered by the response that ends the client.
pub Answers-to_stop :
    (call : KvCall) (f g : Store) (resp : KvResp)
    → Answers call f resp g
    → to_stop resp ≡ is_stop call
Answers-to_stop (put key value) f g resp h = rw h.0
Answers-to_stop (swap key value) f g resp h = rw h.0
Answers-to_stop (get key) f g resp h = rw h.0
Answers-to_stop (scan lo hi) f g resp h = rw h.0.1
Answers-to_stop (delete key) f g resp h = rw h.0
Answers-to_stop stop f g resp h = rw h.0
