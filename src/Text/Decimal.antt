-- ===== src/Text/Decimal.antt =====
-- strconv.Itoa, or `%d`, and strconv.Atoi, on Go's 64-bit `int`.
use Prim.Native.Char.{code}
use Prim.Native.String
use Prim.Native.String.{[], ◌∷◌}
use env_vault.Base.{
  ℕ, zero, suc, ◌+◌, ◌-◌, ◌*◌, ◌/◌, ◌%◌, ◌^◌, String, Bool, ◌&&◌, ◌==◌, ltb, leb, Option, none,
  some, if◌then◌else◌,
}
use env_vault.Base.Int.{ℤ, pos, negsuc}

digit : ℕ → String
digit n =
    if n == 0
    then "0"
    else if n == 1
    then "1"
    else if n == 2
    then "2"
    else if n == 3
    then "3"
    else if n == 4
    then "4"
    else if n == 5
    then "5"
    else if n == 6
    then "6"
    else if n == 7
    then "7"
    else if n == 8
    then "8"
    else "9"

-- The fuel is the number of digits.
decimal : ℕ → ℕ → String
decimal zero n = ""
decimal (suc fuel) n =
    let more = decimal fuel (n / 10) in
    if ltb n 10 then digit n else String.◌++◌ more (digit (n % 10))

-- 20 digits hold any 64-bit integer
unfoldable pub itoa : ℕ → String
unfolding decimal digit
itoa n = decimal 20 n

abbrev is_digit : ℕ → Bool
is_digit c = leb b'0' c && leb c b'9'

-- The value of a text of digits after the value of those before it.
digits : ℕ → String → Option ℕ
digits value [] = some value
digits value (c ∷ s) =
    let rest = digits (value * 10 + (code c - b'0')) s in if is_digit (code c) then rest else none

-- At least one digit.
number : String → Option ℕ
number [] = none
number (c ∷ s) = digits 0 (c ∷ s)

abbrev positive : Option ℕ → Option ℤ
positive none = none
positive (some n) = if ltb n (2 ^ 63) then some (pos n) else none

abbrev negative : Option ℕ → Option ℤ
negative none = none
negative (some zero) = some (pos 0)
negative (some (suc n)) = if ltb n (2 ^ 63) then some (negsuc n) else none

-- strconv.Atoi: an error is none
unfoldable pub parse_int : String → Option ℤ
unfolding digits number
parse_int [] = none
parse_int (c ∷ s) =
    if code c == b'-'
    then negative (number s)
    else if code c == b'+'
    then positive (number s)
    else positive (number (c ∷ s))
