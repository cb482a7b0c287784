-- ===== src/Service.antt =====
-- `main` of runner/src/bin/service/main.rs, behind the parsing of its arguments. What becomes of a
-- command that is spawned is a parameter.
pub mod Behaves
pub mod Tests
use my_mad_kv.Prelude.{
  ℕ, ◌+◌, Bool, true, false, not, ◌&&◌, ◌||◌, ◌⊎◌, inl, inr, none, some, List, [], ◌∷◌, ◌++◌, leb,
  if◌then◌else◌,
}
use my_mad_kv.Text.{Text, codes, text_eq, is_empty, starts_with}
use my_mad_kv.Runner.Error.{RunnerError, parse, io_error, from}
use my_mad_kv.Runner.Proc.{ServerProc, wait_server}

pub record Args : Type 0 where
  pub node_id : Text
  pub server_just_args : List Text
  pub manager_just_args : List Text

-- `to_lowercase`, of the ASCII letters: no other character has a lower case in the text "none"
unfoldable pub to_lowercase : Text → Text
to_lowercase [] = []
to_lowercase (c ∷ cs) = (if leb b'A' c && leb c b'Z' then c + 32 else c) ∷ to_lowercase cs

-- How `main` ends: well, with an error, or by an index out of bounds.
pub data Service : Type 0 where
  served : Service
  service_failed : RunnerError → Service
  index_panicked : Service

-- the check of the node's name
unfoldable pub node_invalid : Text → Bool
node_invalid node_id =
    is_empty node_id
    || not (starts_with (codes "s") node_id) && not (starts_with (codes "m") node_id)

abbrev pub invalid_node : Text → RunnerError
invalid_node node_id = parse (codes "invalid 'node_id' argument: " ++ node_id)

-- a process that is waited for
unfoldable pub await_server : ServerProc → Service
await_server p = elim (wait_server p) [ none ↦ served | some e ↦ service_failed e ]

-- `ServerProc::new(..)?`, and `wait` behind it
unfoldable pub launch : Text ⊎ ServerProc → Service
unfolding await_server
launch (inl msg) = service_failed (from (io_error msg))
launch (inr p) = await_server p

-- the arm of a role, with its arguments, if they are not "none", and what comes behind it
unfoldable pub start : (List Text → Text ⊎ ServerProc) → List Text → Service → Service
unfolding launch to_lowercase
start spawn [] otherwise = index_panicked
start spawn (arg ∷ args) otherwise =
    if not (text_eq (to_lowercase arg) (codes "none"))
    then launch (spawn (arg ∷ args))
    else otherwise

unfoldable pub service_main : (List Text → Text ⊎ ServerProc) → Args → Service
unfolding start node_invalid
service_main spawn args =
    let server =
      if starts_with (codes "s") args.node_id
      then start spawn args.server_just_args served
      else served in
    if node_invalid args.node_id
    then service_failed (invalid_node args.node_id)
    else if starts_with (codes "m") args.node_id
    then start spawn args.manager_just_args server
    else server
