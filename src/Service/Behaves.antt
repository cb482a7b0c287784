-- ===== src/Service/Behaves.antt =====
-- When `main` of runner/src/bin/service/main.rs ends well, and when it panics.
use my_mad_kv.Prelude.{
  ◌≡◌, ◌↔◌, ◌⊎◌, refl, sym, ◌∙◌, Bool, true, false, Bool-cases, inl, inr, none, some, List, [], ◌∷◌,
  ◌++◌, arith, if◌then◌else◌,
}
use my_mad_kv.Text.{Text, codes, text_eq, starts_with}
use my_mad_kv.Runner.Error.{RunnerError, io, io_error, from}
use my_mad_kv.Runner.Proc.{ServerProc, ExitStatus, wait_server}
use my_mad_kv.Service.{
  Args, to_lowercase, served, service_failed, index_panicked, node_invalid, invalid_node,
  await_server, launch, start, service_main,
}

-- the arguments of the node's role
abbrev pub role_args : Args → List Text
role_args args =
    if starts_with (codes "m") args.node_id then args.manager_just_args else args.server_just_args

-- The process of that spawn exits with success.
abbrev pub Exits : Text ⊎ ServerProc → Type 0
Exits (inl msg) = ⊥
Exits (inr p) = (status : ExitStatus) × (p.exit ≡ inr status) × (status.success ≡ true)

-- The arguments are "none", or those of a process that exits with success.
abbrev pub Succeeds : (List Text → Text ⊎ ServerProc) → List Text → Type 0
Succeeds spawn [] = ⊥
Succeeds spawn (arg ∷ args) =
    (text_eq (to_lowercase arg) (codes "none") ≡ true) ⊎ Exits (spawn (arg ∷ args))

-- a node with a valid name is of one role
one_role :
    (node_id : Text)
    → node_invalid node_id ≡ false
    → ((starts_with (codes "m") node_id ≡ true) × (starts_with (codes "s") node_id ≡ false))
      ⊎ ((starts_with (codes "m") node_id ≡ false) × (starts_with (codes "s") node_id ≡ true))
unfolding node_invalid starts_with
one_role [] h = cc
one_role (c ∷ cs) h = ground arith

service_main-role :
    (spawn : List Text → Text ⊎ ServerProc) (args : Args)
    → node_invalid args.node_id ≡ false
    → service_main spawn args ≡ start spawn (role_args args) served
unfolding service_main
service_main-role spawn args h = elim (one_role args.node_id h) [
  | inl (m, s) ↦ rw (h, m, s) refl
  | inr (m, s) ↦ rw (h, m, s) refl
]

service_main-invalid :
    (spawn : List Text → Text ⊎ ServerProc) (args : Args)
    → node_invalid args.node_id ≡ true
    → service_main spawn args ≡ service_failed (invalid_node args.node_id)
unfolding service_main
service_main-invalid spawn args h = rw h refl

await_server-failed :
    (p : ServerProc) (e : RunnerError) → wait_server p ≡ some e → await_server p ≡ service_failed e
unfolding await_server
await_server-failed p e h = rw (h, await_server) refl

await_server-served : (p : ServerProc) → wait_server p ≡ none → await_server p ≡ served
unfolding await_server
await_server-served p h = rw (h, await_server) refl

wait_server-inl :
    (p : ServerProc) (msg : Text) → p.exit ≡ inl msg → wait_server p ≡ some (from (io_error msg))
unfolding wait_server
wait_server-inl p msg e = rw e refl

wait_server-status :
    (p : ServerProc) (status : ExitStatus)
    → p.exit ≡ inr status
    → wait_server p ≡ (
        if status.success
        then none
        else some (io (codes "server exited with status: " ++ status.shown)))
unfolding wait_server
wait_server-status p status e = rw e refl

await_server-served_iff : (p : ServerProc) → (await_server p ≡ served) ↔ Exits (inr p)
await_server-served_iff p = by_exit p.exit refl
  where
    by_success :
        (status : ExitStatus)
        → p.exit ≡ inr status
        → (b : Bool) → status.success ≡ b
        → (await_server p ≡ served) ↔ Exits (inr p)
    by_success status e true k = (
      λ x. (status, e, k),
      λ x. await_server-served p (wait_server-status p status e ∙ rw k refl),
    )
    by_success status e false k = (
      λ x. absurd (
          cc (
            x,
            await_server-failed p (io (codes "server exited with status: " ++ status.shown))
                (wait_server-status p status e ∙ rw k refl),
          )),
      λ (status', e', k'). absurd (cc (e, e', k, k')),
    )

    by_exit : (exit : Text ⊎ ExitStatus) → p.exit ≡ exit → (await_server p ≡ served) ↔ Exits (inr p)
    by_exit (inl msg) e = (
      λ x. absurd (cc (x, await_server-failed p (from (io_error msg)) (wait_server-inl p msg e))),
      λ (status, e', k). absurd (cc (e, e')),
    )
    by_exit (inr status) e = by_success status e status.success refl

launch-served_iff : (r : Text ⊎ ServerProc) → (launch r ≡ served) ↔ Exits r
unfolding launch
launch-served_iff (inl msg) = (λ e. cc, λ x. absurd x)
launch-served_iff (inr p) = await_server-served_iff p

await_server-index_panicked : (p : ServerProc) → await_server p ≡ index_panicked → ⊥
unfolding await_server
await_server-index_panicked p e = ground arith

launch-index_panicked : (r : Text ⊎ ServerProc) → launch r ≡ index_panicked → ⊥
unfolding launch
launch-index_panicked (inl msg) e = cc
launch-index_panicked (inr p) e = await_server-index_panicked p e

start-served_iff :
    (spawn : List Text → Text ⊎ ServerProc) (args : List Text)
    → (start spawn args served ≡ served) ↔ Succeeds spawn args
unfolding start
start-served_iff spawn [] = (λ e. cc, λ x. absurd x)
start-served_iff spawn (arg ∷ args) =
    elim (Bool-cases (text_eq (to_lowercase arg) (codes "none"))) [
      | inl e ↦ (λ x. inl e, λ x. rw e refl)
      | inr e ↦ (
        λ x. inr ((launch-served_iff (spawn (arg ∷ args))).0 (rw e at x)),
        λ x. elim x [
          | inl y ↦ absurd (cc (e, y))
          | inr y ↦ rw e ((launch-served_iff (spawn (arg ∷ args))).1 y)
        ],
      )
    ]

start-index_panicked_iff :
    (spawn : List Text → Text ⊎ ServerProc) (args : List Text)
    → (start spawn args served ≡ index_panicked) ↔ (args ≡ [])
unfolding start
start-index_panicked_iff spawn [] = (λ e. refl, λ e. refl)
start-index_panicked_iff spawn (arg ∷ args) = (
  λ x. elim (Bool-cases (text_eq (to_lowercase arg) (codes "none"))) [
    | inl e ↦ cc (sym (rw e at x))
    | inr e ↦ absurd (launch-index_panicked (spawn (arg ∷ args)) (rw e at x))
  ],
  λ e. cc,
)

-- The launcher ends well exactly if the node's name begins with an s or an m, and the arguments of
-- that role begin with "none", in whatever case, or are those of a process that is started and
-- exits with success.
pub service_main-served_iff :
    (spawn : List Text → Text ⊎ ServerProc) (args : Args)
    → (service_main spawn args ≡ served)
      ↔ (node_invalid args.node_id ≡ false) × Succeeds spawn (role_args args)
service_main-served_iff spawn args = elim (Bool-cases (node_invalid args.node_id)) [
  | inl e ↦ (λ x. absurd (cc (x, service_main-invalid spawn args e)), λ (v, x). absurd (cc (v, e)))
  | inr e ↦ (
    λ x.
        (e, (start-served_iff spawn (role_args args)).0 (sym (service_main-role spawn args e) ∙ x)),
    λ (v, x). service_main-role spawn args e ∙ (start-served_iff spawn (role_args args)).1 x,
  )
]

-- The launcher panics exactly if the name is one of the two kinds, and there are no arguments of that role.
pub service_main-index_panicked_iff :
    (spawn : List Text → Text ⊎ ServerProc) (args : Args)
    → (service_main spawn args ≡ index_panicked)
      ↔ (node_invalid args.node_id ≡ false) × (role_args args ≡ [])
service_main-index_panicked_iff spawn args = elim (Bool-cases (node_invalid args.node_id)) [
  | inl e ↦ (λ x. absurd (cc (x, service_main-invalid spawn args e)), λ (v, x). absurd (cc (v, e)))
  | inr e ↦ (
    λ x. (
      e,
      (start-index_panicked_iff spawn (role_args args)).0
          (sym (service_main-role spawn args e) ∙ x),
    ),
    λ (v, x).
        service_main-role spawn args e ∙ (start-index_panicked_iff spawn (role_args args)).1 x,
  )
]
