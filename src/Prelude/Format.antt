-- ===== src/Prelude/Format.antt =====
-- The verb %d of package fmt, on an int.
use Prim.Native.Char.{Char}
use Prim.Native.Nat.{ℕ, zero, suc, ◌/◌, ◌%◌}
use Prim.Native.String.{String}
use netra.Prelude.Tests.{◌==◌, if◌then◌else◌}
use netra.Prelude.Int.{ℤ, pos, negsuc}

-- The character of a digit.
abbrev pub digit_char : ℕ → Char
digit_char zero = "0"
digit_char (suc zero) = "1"
digit_char (suc (suc zero)) = "2"
digit_char (suc (suc (suc zero))) = "3"
digit_char (suc (suc (suc (suc zero)))) = "4"
digit_char (suc (suc (suc (suc (suc zero))))) = "5"
digit_char (suc (suc (suc (suc (suc (suc zero)))))) = "6"
digit_char (suc (suc (suc (suc (suc (suc (suc zero))))))) = "7"
digit_char (suc (suc (suc (suc (suc (suc (suc (suc zero)))))))) = "8"
digit_char (suc (suc (suc (suc (suc (suc (suc (suc (suc n))))))))) = "9"

-- The digits of a number that is below 10 ^ fuel, in front of a text; a number has fewer digits
-- than its successor counts.
abbrev pub decimal_before : ℕ → ℕ → String → String
decimal_before zero v text = text
decimal_before (suc fuel) v text =
    let longer = String.◌∷◌ (digit_char (v % 10)) text in
    let rest = decimal_before fuel (v / 10) longer in if v / 10 == 0 then longer else rest

unfoldable pub decimal : ℤ → String
decimal (pos n) = decimal_before (suc n) n ""
decimal (negsuc n) = String.◌∷◌ "-" (decimal_before (suc (suc n)) (suc n) "")
