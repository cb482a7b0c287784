-- ===== src/Bencher/Feeder/Script.antt =====
-- The calls that the output of the YCSB driver (runner/src/bin/bencher/ycsb.rs) stands for, line
-- by line, and what a client and the statistics come to by them.
use my_mad_kv.Prelude.{
  ℕ, Bool, true, not, ◌&&◌, Option, none, some, List, [], ◌∷◌, ◌++◌, ◌==◌, if◌then◌else◌,
}
use my_mad_kv.Text.{Text, codes, newline, is_empty, trim, starts_with, contains}
use my_mad_kv.Runner.Error.{ok, err, out_of_fuel}
use my_mad_kv.Runner.Ioapi.{KvCall}
use my_mad_kv.Runner.Ioapi.Reading.{at}
use my_mad_kv.Runner.Proc.{ClientProc}
use my_mad_kv.Bencher.Ycsb.{KeySet, interpret_ycsb_call}
use my_mad_kv.Bencher.Stats.{Float}
use my_mad_kv.Bencher.Feeder.{Clock, Feeder, record_call}

-- a character in front of the first line
abbrev pub prepend : ℕ → List Text → List Text
prepend c [] = (c ∷ []) ∷ []
prepend c (line ∷ rest) = (c ∷ line) ∷ rest

-- the lines of a text, each with its newline if it has one
unfoldable pub lines : Text → List Text
lines [] = []
lines (c ∷ cs) = let rest = lines cs in if c == newline then (c ∷ []) ∷ rest else prepend c rest

-- calls, each with the name of its operation
abbrev pub Calls : Type 0
Calls = List (KvCall × Text)

-- a line says that a file is missing
abbrev pub is_missing : Text → Bool
is_missing line = not (starts_with (codes "[") line) && contains (codes "No such file") line

abbrev pub cons_call : KvCall × Text → Option (Calls × KeySet) → Option (Calls × KeySet)
cons_call call none = none
cons_call call (some (calls, ikeys)) = some (call ∷ calls, ikeys)

-- The calls that the lines stand for, and the keys inserted by them, if every call line is well
-- formed and no other line says that a file is missing.
unfoldable pub script : List Text → KeySet → Option (Calls × KeySet)
script [] ikeys = some ([], ikeys)
script (line ∷ rest) ikeys =
    if is_empty (trim line) then script rest ikeys else elim (interpret_ycsb_call line ikeys) [
      | ok (some call, ikeys') ↦ cons_call call (script rest ikeys')
      | ok (none, ikeys') ↦
          let others = script rest ikeys' in if is_missing line then none else others
      | err e ↦ none
      | out_of_fuel ↦ none
    ]

abbrev pub tail : {A : Type 0} → List A → List A
tail [] = []
tail (x ∷ xs) = xs

-- the client once it has answered a call
abbrev pub next_client : KvCall → ClientProc → ClientProc
next_client call p = record p { sent = p.sent ++ call ∷ []; coming = tail p.coming }

-- the client answers the calls in time, one after the other
unfoldable pub serves : Calls → ClientProc → Bool
serves [] p = true
serves ((call, op) ∷ calls) p =
    let rest = serves calls (next_client call p) in
    p.driver_runs && (not (is_empty p.coming) && rest)

module _ (float : Float) (clock : Clock float) where
  -- what the feeder has at the end of the output, if the client answers the calls
  unfoldable pub after : Calls → KeySet → Feeder float clock → Feeder float clock
  after [] ikeys f = record f { stdout = at none []; ikeys = ikeys; ended = true }
  after ((call, op) ∷ calls) ikeys f =
      after calls ikeys (record_call float clock op (next_client call f.client) f)
