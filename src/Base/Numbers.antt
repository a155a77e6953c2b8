-- ===== src/Base/Numbers.antt =====
-- `std::stoll`, `std::stoi` and `std::to_string`.
pub mod RoundTrip
use ai_switch.Base.{
  ℕ, zero, suc, ◌+◌, ◌-◌, ◌*◌, ◌/◌, ◌%◌, ◌^◌, Bool, true, false, ◌&&◌, ◌||◌, [], ◌∷◌, Option, none,
  some, Bytes, bytes, ltb, leb, ◌==◌, if◌then◌else◌,
}
use ai_switch.Base.Int.{ℤ, pos, negsuc, ◌-ℤ◌, leb_ℤ}
use ai_switch.Base.Result.{Result, ok, throw, invalid_argument, out_of_range}

abbrev pub is_space : ℕ → Bool
is_space c = c == 32 || leb 9 c && leb c 13

abbrev pub is_digit : ℕ → Bool
is_digit c = leb b'0' c && leb c b'9'

unfoldable pub skip_spaces : Bytes → Bytes
skip_spaces [] = []
skip_spaces (c ∷ s) = elim (is_space c) [ true ↦ skip_spaces s | false ↦ c ∷ s ]

-- The value of the digits in front, if there is one at least.
unfoldable pub digits_from : ℕ → Bytes → ℕ
digits_from acc [] = acc
digits_from acc (c ∷ s) = elim (is_digit c) [
  | true ↦ digits_from (acc * 10 + (c - b'0')) s
  | false ↦ acc
]

unfoldable pub magnitude : Bytes → Option ℕ
unfolding digits_from
magnitude [] = none
magnitude (c ∷ s) = if is_digit c then some (digits_from 0 (c ∷ s)) else none

abbrev pub negated : Option ℕ → Option ℤ
negated none = none
negated (some n) = some (pos 0 -ℤ pos n)

abbrev pub plain : Option ℕ → Option ℤ
plain none = none
plain (some n) = some (pos n)

unfoldable pub signed : Bytes → Option ℤ
unfolding magnitude ◌-ℤ◌
signed [] = none
signed (c ∷ s) =
    if c == b'-'
    then negated (magnitude s)
    else if c == b'+'
    then plain (magnitude s)
    else plain (magnitude (c ∷ s))

abbrev in_range : Bytes → ℤ → ℤ → Option ℤ → Result ℤ
in_range name lo hi none = throw (invalid_argument name)
in_range name lo hi (some n) = if leb_ℤ lo n && leb_ℤ n hi then ok n else throw (out_of_range name)

unfoldable pub stoll : Bytes → Result ℤ
unfolding signed skip_spaces
stoll s = in_range (bytes "stoll") (negsuc (2 ^ 63 - 1)) (pos (2 ^ 63 - 1)) (signed (skip_spaces s))

unfoldable pub stoi : Bytes → Result ℤ
unfolding signed skip_spaces
stoi s = in_range (bytes "stoi") (negsuc (2 ^ 31 - 1)) (pos (2 ^ 31 - 1)) (signed (skip_spaces s))

-- The decimal digits of `n`, in front of `acc`; a number has no more digits than `n + 1`.
unfoldable pub decimal : ℕ → ℕ → Bytes → Bytes
decimal zero n acc = acc
decimal (suc fuel) n acc =
    let digit = (b'0' + n % 10) ∷ acc in
    let rest = decimal fuel (n / 10) digit in if ltb n 10 then digit else rest

unfoldable pub to_string : ℤ → Bytes
unfolding decimal
to_string (pos n) = decimal (n + 1) n []
to_string (negsuc n) = b'-' ∷ decimal (n + 2) (n + 1) []
