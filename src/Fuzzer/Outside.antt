-- ===== src/Fuzzer/Outside.antt =====
-- What the fuzz tester takes from other crates and processes: random draws (`rand`), bitmaps
-- (`bit_vec`), and the handles of the client processes, with the behaviour that they document.
use my_mad_kv.Prelude.{ℕ, ◌<◌, ◌≡◌, ◌↔◌, Bool, true, false, Option, some, ◌==◌, if◌then◌else◌}
use my_mad_kv.Text.{Text}
use my_mad_kv.Runner.Error.{RunnerError, Result}
use my_mad_kv.Runner.Ioapi.{KvCall, KvResp}

-- A source of random values, each draw of which leaves another source.
pub record Rng : Type 1 where
  pub Source : Type 0
  -- `random_range(0..max)`
  pub index : ℕ → Source → ℕ × Source
  -- `random::<bool>()`
  pub flip : Source → Bool × Source
  -- `Alphanumeric.sample_string`
  pub text : ℕ → Source → Text × Source
  pub index_lt : (max : ℕ) (s : Source) → 0 < max → (index max s).0 < max

-- `BitVec`
pub record Bits : Type 1 where
  pub BitVec : Type 0
  pub from_elem : ℕ → Bool → BitVec
  pub len : BitVec → ℕ
  pub get : BitVec → ℕ → Option Bool
  -- `set` panics out of bounds, and this is what it leaves in bounds
  pub set : BitVec → ℕ → Bool → BitVec
  pub all : BitVec → Bool
  pub none_set : BitVec → Bool
  pub len-from_elem : (n : ℕ) (b : Bool) → len (from_elem n b) ≡ n
  pub get-from_elem : (n : ℕ) (b : Bool) (i : ℕ) → i < n → get (from_elem n b) i ≡ some b
  pub len-set : (v : BitVec) (i : ℕ) (b : Bool) → len (set v i b) ≡ len v
  pub get-set :
      (v : BitVec) (i j : ℕ) (b : Bool)
      → i < len v
      → get (set v i b) j ≡ (if i == j then some b else get v j)
  pub get-lt : (v : BitVec) (i : ℕ) → i < len v → (b : Bool) × (get v i ≡ some b)
  pub all_iff : (v : BitVec) → (all v ≡ true) ↔ ((i : ℕ) → i < len v → get v i ≡ some true)
  pub none_set_iff :
      (v : BitVec) → (none_set v ≡ true) ↔ ((i : ℕ) → i < len v → get v i ≡ some false)

-- The client processes behind their `ClientProc` handles, whatever they answer.
pub record Clients : Type 1 where
  pub Procs : Type 0
  pub send_call : ℕ → KvCall → Procs → Result RunnerError Procs
  pub wait_resp : ℕ → Procs → Result RunnerError (KvResp × Procs)
  pub stop_client : ℕ → Procs → Result RunnerError Procs
