-- ===== src/Runner/Ioapi.antt =====
-- runner/src/ioapi.rs: the calls and responses, which refcli/src/main.rs declares once more.
pub mod Reader
pub mod Reading
pub mod Ending
use my_mad_kv.Prelude.{Bool, Option, none, some, List, ◌++◌}
use my_mad_kv.Text.{Text, codes}

pub data KvCall : Type 0 where
  put swap : Text → Text → KvCall
  get : Text → KvCall
  scan : Text → Text → KvCall
  delete : Text → KvCall
  stop : KvCall

pub data KvResp : Type 0 where
  put_resp : Text → Bool → KvResp
  swap_resp get_resp : Text → Option Text → KvResp
  scan_resp : Text → Text → List (Text × Text) → KvResp
  delete_resp : Text → Bool → KvResp
  stop_resp : KvResp

-- The line that `into_write` writes. A writer that fails is outside the model.
unfoldable pub into_write : KvCall → Text
into_write (put key value) = codes "PUT " ++ (key ++ (codes " " ++ (value ++ codes "\n")))
into_write (swap key value) = codes "SWAP " ++ (key ++ (codes " " ++ (value ++ codes "\n")))
into_write (get key) = codes "GET " ++ (key ++ codes "\n")
into_write (scan key_start key_end) =
    codes "SCAN " ++ (key_start ++ (codes " " ++ (key_end ++ codes "\n")))
into_write (delete key) = codes "DELETE " ++ (key ++ codes "\n")
into_write stop = codes "STOP\n"

unfoldable pub update_info : KvCall → Option (Text × Option Text)
update_info (put key value) = some (key, some value)
update_info (swap key value) = some (key, some value)
update_info (delete key) = some (key, none)
update_info (get key) = none
update_info (scan key_start key_end) = none
update_info stop = none
