-- ===== src/Prelude/Text.antt =====
-- f-strings as concatenations, and the decimal digits of a number.
use Prim.Native.Nat.{ℕ, zero, suc, ◌/◌, ◌%◌}
use Prim.Native.String.{String, ◌++◌}
use mathlib.Core.List.{List, [], ◌∷◌}
use post_rag_drift_evaluator.Prelude.Tests.{◌==◌, if◌then◌else◌}

abbrev pub concat : List String → String
concat [] = ""
concat (s ∷ rest) = s ++ concat rest

digit : ℕ → String
digit zero = "0"
digit (suc zero) = "1"
digit (suc (suc zero)) = "2"
digit (suc (suc (suc zero))) = "3"
digit (suc (suc (suc (suc zero)))) = "4"
digit (suc (suc (suc (suc (suc zero))))) = "5"
digit (suc (suc (suc (suc (suc (suc zero)))))) = "6"
digit (suc (suc (suc (suc (suc (suc (suc zero))))))) = "7"
digit (suc (suc (suc (suc (suc (suc (suc (suc zero)))))))) = "8"
digit _ = "9"

-- The last digits, as many as the fuel and the number give.
show_from : ℕ → ℕ → String → String
show_from zero n acc = acc
show_from (suc fuel) n acc =
    let acc' = digit (n % 10) ++ acc in
    let more = show_from fuel (n / 10) acc' in if n / 10 == 0 then acc' else more

-- A number in decimal; twenty digits are more than any count that the program prints.
unfoldable pub show_ℕ : ℕ → String
unfolding show_from digit
show_ℕ n = show_from 20 n ""

-- The last three digits of a number, zeros included.
unfoldable pub three_digits : ℕ → String
unfolding digit
three_digits n = digit (n / 100 % 10) ++ digit (n / 10 % 10) ++ digit (n % 10)
