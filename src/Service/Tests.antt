-- ===== src/Service/Tests.antt =====
-- The theorems about the launcher of services at concrete inputs.
use my_mad_kv.Prelude.{◌≡◌, ◌↔◌, ◌⊎◌, inr, true, false, List, [], ◌∷◌, none}
use my_mad_kv.Text.{Text, codes}
use my_mad_kv.Runner.Proc.{ServerProc}
use my_mad_kv.Service.{Args, served, index_panicked, node_invalid, service_main}
use my_mad_kv.Service.Behaves.{
  role_args, Succeeds, service_main-served_iff, service_main-index_panicked_iff,
}

-- every process exits well
abbrev exiting : List Text → Text ⊎ ServerProc
exiting args = inr (record {
  exit = inr (record { success = true; shown = codes "exit status: 0" });
  cannot_kill = none;
})

abbrev server_only : Args
server_only = record {
  node_id = codes "s0.1";
  server_just_args = codes "server" ∷ [];
  manager_just_args = [];
}

service_main-served_iff_example :
    (service_main exiting server_only ≡ served)
    ↔ (node_invalid server_only.node_id ≡ false) × Succeeds exiting (role_args server_only)
service_main-served_iff_example = service_main-served_iff exiting server_only

service_main-index_panicked_iff_example :
    (service_main exiting server_only ≡ index_panicked)
    ↔ (node_invalid server_only.node_id ≡ false) × (role_args server_only ≡ [])
service_main-index_panicked_iff_example = service_main-index_panicked_iff exiting server_only
