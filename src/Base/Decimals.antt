-- ===== src/Base/Decimals.antt =====
-- `str(n)` for a natural number.
use Prim.Native.Nat.{ℕ, zero, suc, ◌/◌, ◌%◌}
use Prim.Native.String.{String, ◌++◌}
use aegis_flow.Base.Tests.{ltb, eqb, if◌then◌else◌}

abbrev digit : ℕ → String
digit d =
    if eqb d 0
    then "0"
    else if eqb d 1
    then "1"
    else if eqb d 2
    then "2"
    else if eqb d 3
    then "3"
    else if eqb d 4
    then "4"
    else if eqb d 5
    then "5"
    else if eqb d 6
    then "6"
    else if eqb d 7
    then "7"
    else if eqb d 8
    then "8"
    else "9"

show_fuel : ℕ → ℕ → String
show_fuel zero n = ""
show_fuel (suc f) n =
    let rest = show_fuel f (n / 10) ++ digit (n % 10) in if ltb n 10 then digit n else rest

-- A number has fewer digits than `n + 1`, so the fuel is enough.
unfoldable pub show : ℕ → String
unfolding show_fuel
show n = show_fuel (suc n) n
