-- ===== src/Common/Texts.antt =====
-- Texts as lists of character codes, and numbers in decimal.
use Prim.Native.String.{String}
use Prim.Native.Nat.{ℕ, zero, suc, ◌+◌, ◌/◌, ◌%◌}
use Prim.Native.Char.{code}
use mathlib.Core.List.{List, [], ◌∷◌, ◌++◌}
use mathlib.Core.Bool.{Bool, true, false, ◌&&◌}
use mod_audio_stream.Common.Tests.{ltb, ◌==◌, if◌then◌else◌}

-- The character codes of a text.
abbrev pub codes : String → List ℕ
codes (String.◌∷◌ first others) = code first ∷ codes others
codes String.[] = []

-- `printf("%ld", n)` of a number that is not negative. The fuel bounds the digits.
unfoldable pub decimal_fuel : ℕ → ℕ → List ℕ
decimal_fuel zero n = []
decimal_fuel (suc f) n =
    let front = decimal_fuel f (n / 10) in
    if ltb n 10 then (b'0' + n) ∷ [] else front ++ (b'0' + n % 10) ∷ []

-- 20 digits hold every 64-bit number.
unfoldable pub decimal : ℕ → List ℕ
unfolding decimal_fuel
decimal n = decimal_fuel 20 n

-- `strcmp(s, t) == 0`
abbrev pub text_eq : List ℕ → List ℕ → Bool
text_eq [] [] = true
text_eq (a ∷ s) (b ∷ t) = (a == b) && text_eq s t
text_eq _ _ = false
