-- ===== src/Runner/Tests.antt =====
-- The theorems about runner/src at concrete inputs.
use my_mad_kv.Prelude.{◌≡◌, ◌↔◌, true, Option, none, arith}
use my_mad_kv.Text.{Text, codes}
use my_mad_kv.Text.Words.{is_blank}
use my_mad_kv.Runner.Error.{out_of_fuel}
use my_mad_kv.Runner.Ioapi.Reader.{read_next_line}
use my_mad_kv.Runner.Ioapi.Reading.{at}
use my_mad_kv.Runner.Ioapi.Ending.{read_next_line-out_of_fuel_iff}

read_next_line-out_of_fuel_iff_example :
    (read_next_line 9 (at none (codes " \nGET a")) ≡ out_of_fuel)
    ↔ (is_blank (codes " \nGET a") ≡ true) × (◌≡◌ {A = Option Text} none none)
read_next_line-out_of_fuel_iff_example =
    read_next_line-out_of_fuel_iff none (codes " \nGET a") 9 (omega arith)
