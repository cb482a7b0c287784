-- ===== src/Runner/Error.antt =====
-- runner/src/error.rs: the error type, and the result of code that may fail or run on for ever.
use my_mad_kv.Prelude.{◌≡◌, refl, ◌++◌}
use my_mad_kv.Text.{Text, codes}

pub data RunnerError : Type 0 where
  io parse chan : Text → RunnerError
  join : RunnerError

-- `Display`
unfoldable pub fmt : RunnerError → Text
fmt (io msg) = codes "io error: " ++ msg
fmt (parse msg) = codes "parse error: " ++ msg
fmt (chan msg) = codes "chan error: " ++ msg
fmt join = codes "thread join error"

-- The foreign errors that `?` turns into a `RunnerError`, each with its own message.
pub data ForeignError : Type 0 where
  io_error parse_bool_error parse_int_error parse_float_error : Text → ForeignError
  recv_error recv_timeout_error send_error : Text → ForeignError

-- `From`, by `impl_from!` and `impl_from_generic!`
unfoldable pub from : ForeignError → RunnerError
from (io_error msg) = io msg
from (parse_bool_error msg) = parse msg
from (parse_int_error msg) = parse msg
from (parse_float_error msg) = parse msg
from (recv_error msg) = chan msg
from (recv_timeout_error msg) = chan msg
from (send_error msg) = chan msg

-- `out_of_fuel`: a loop has not ended within its fuel.
pub data Result {ℓ κ} (E : Type ℓ) (A : Type κ) : Type (ℓ ⊔ κ) where
  ok : A → Result E A
  err : E → Result E A
  out_of_fuel : Result E A

-- `?`
infixl 5 ◌>>=◌
abbrev pub ◌>>=◌ {ℓ κ ι} :
    {E : Type ℓ} {A : Type κ} {B : Type ι} → Result E A → (A → Result E B) → Result E B
ok a >>= f = f a
err e >>= f = err e
out_of_fuel >>= f = out_of_fuel

-- `map_err`
abbrev pub map_err {ℓ κ ι} :
    {E : Type ℓ} {F : Type κ} {A : Type ι} → (E → F) → Result E A → Result F A
map_err f (ok a) = ok a
map_err f (err e) = err (f e)
map_err f out_of_fuel = out_of_fuel

module _ {ℓ κ ι} {E : Type ℓ} {A : Type κ} {B : Type ι} where
  -- A chain that succeeds has succeeded at its first step.
  pub bind-split :
      (first : Result E A) (next : A → Result E B) (last : B)
      → (first >>= next) ≡ ok last
      → (step : A) × (first ≡ ok step) × (next step ≡ ok last)
  bind-split (ok step) next last e = (step, refl, e)
  bind-split (err x) next last e = cc
  bind-split out_of_fuel next last e = cc
