-- ===== src/Prelude/Text.antt =====
-- The text operations of the source: templates, decimal numbers, `trim`.
use Prim.Native.Nat.{ℕ, zero, suc, ◌/◌, ◌%◌}
use Prim.Native.Char.{code}
use Prim.Native.String
use Prim.Native.String.{String}
use mathlib.Core.Path.{◌≡◌, refl}
use mathlib.Core.Bool.{Bool, ◌&&◌, ◌||◌}
use mathlib.Core.Option.{Option, none, some}
use mathlib.Core.List.{List, [], ◌∷◌}
use text.Mathlib.Text.{◌==◌}
use circuit_agent.Prelude.Tests.{leb, nat_eq, if◌then◌else◌}

-- A template literal, as the list of its pieces.
unfoldable pub template : List String → String
template [] = ""
template (piece ∷ pieces) = String.◌++◌ piece (template pieces)

-- `""` is the falsy text.
abbrev pub is_blank : String → Bool
is_blank s = s == ""

-- `x ? {x} : {}` on a text: the empty text counts as absent.
abbrev pub truthy : Option String → Option String
truthy none = none
truthy (some s) = if is_blank s then none else some s

digit : ℕ → String
digit zero = "0"
digit (suc zero) = "1"
digit (suc (suc zero)) = "2"
digit (suc (suc (suc zero))) = "3"
digit (suc (suc (suc (suc zero)))) = "4"
digit (suc (suc (suc (suc (suc zero))))) = "5"
digit (suc (suc (suc (suc (suc (suc zero)))))) = "6"
digit (suc (suc (suc (suc (suc (suc (suc zero))))))) = "7"
digit (suc (suc (suc (suc (suc (suc (suc (suc zero)))))))) = "8"
digit _ = "9"

-- The fuel is the number itself, which has fewer digits.
decimal_from : ℕ → ℕ → String → String
unfolding digit
decimal_from zero n shown = String.◌++◌ (digit (n % 10)) shown
decimal_from (suc fuel) n shown =
    let shown' = String.◌++◌ (digit (n % 10)) shown in
    let rest = decimal_from fuel (n / 10) shown' in if nat_eq (n / 10) 0 then shown' else rest

-- `String(n)` of a natural number.
unfoldable pub decimal : ℕ → String
unfolding decimal_from
decimal n = decimal_from n n ""

-- The white space and line ends that `trim` removes.
unfoldable pub is_space : ℕ → Bool
is_space c =
    (leb 9 c && leb c 13)
    || nat_eq c 32
    || nat_eq c 160
    || nat_eq c 0x1680
    || (leb 0x2000 c && leb c 0x200a)
    || nat_eq c 0x2028
    || nat_eq c 0x2029
    || nat_eq c 0x202f
    || nat_eq c 0x205f
    || nat_eq c 0x3000
    || nat_eq c 0xfeff

trim_start : String → String
unfolding is_space
trim_start String.[] = String.[]
trim_start (String.◌∷◌ c s) =
    let rest = trim_start s in if is_space (code c) then rest else String.◌∷◌ c s

-- A character is kept if it is no space or if something after it is kept.
trim_end : String → String
unfolding is_space
trim_end String.[] = String.[]
trim_end (String.◌∷◌ c s) =
    let rest = trim_end s in
    if is_space (code c) && is_blank rest then String.[] else String.◌∷◌ c rest

unfoldable pub trim : String → String
unfolding trim_start trim_end
trim s = trim_end (trim_start s)

decimal_tests : decimal 0 ≡ "0"
unfolding decimal
decimal_tests = refl

decimal_large : decimal 90210 ≡ "90210"
unfolding decimal
decimal_large = refl

trim_tests : trim " \t two words \n" ≡ "two words"
unfolding trim
trim_tests = refl
