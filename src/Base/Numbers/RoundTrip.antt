-- ===== src/Base/Numbers/RoundTrip.antt =====
-- What `std::to_string` writes, `std::stoll` and `std::stoi` read.
use ai_switch.Base.{
  ℕ, zero, suc, ◌+◌, ◌-◌, ◌*◌, ◌/◌, ◌%◌, ◌^◌, ◌<◌, ◌≤◌, ◌≡◌, refl, ap, ◌∙◌, true, [], ◌∷◌, some,
  Bytes, arith, ltb, Bool-cases, inl, inr,
}
use ai_switch.Base.Int.{ℤ, pos, negsuc, ◌-ℤ◌, ◌≤ℤ◌}
use ai_switch.Base.Result.{ok}
use ai_switch.Base.Numbers.{
  is_digit, skip_spaces, digits_from, magnitude, plain, negated, signed, stoll, stoi, decimal,
  to_string,
}

digit_lem :
    (acc n : ℕ) (s : Bytes)
    → digits_from acc ((b'0' + n % 10) ∷ s) ≡ digits_from (acc * 10 + n % 10) s
unfolding digits_from
digit_lem acc n s =
    let digit : is_digit (b'0' + n % 10) ≡ true = ground arith in
    rw (digit, digits_from) (ap (λ d. digits_from (acc * 10 + d) s) (omega arith))

digits_from-decimal :
    (fuel n : ℕ) (s : Bytes) → n < fuel → digits_from 0 (decimal fuel n s) ≡ digits_from n s
unfolding decimal
digits_from-decimal zero n s h = absurd (omega arith)
digits_from-decimal (suc fuel) n s h = elim (Bool-cases (ltb n 10)) [
  | inl small ↦
      let low : n < 10 = ground arith in
      rw small (digit_lem 0 n s ∙ ap (λ d. digits_from d s) (omega arith))
  | inr large ↦
      let high : 10 ≤ n = ground arith in
      rw large (
        digits_from-decimal fuel (n / 10) ((b'0' + n % 10) ∷ s) (omega arith)
        ∙ digit_lem (n / 10) n s
        ∙ ap (λ d. digits_from d s) (omega arith))
]

-- A number begins with a digit.
head_lem :
    (fuel n : ℕ) (s : Bytes)
    → n < fuel
    → (c : ℕ) × (t : Bytes) × (decimal fuel n s ≡ c ∷ t) × (is_digit c ≡ true)
unfolding decimal
head_lem zero n s h = absurd (omega arith)
head_lem (suc fuel) n s h = elim (Bool-cases (ltb n 10)) [
  | inl small ↦ (b'0' + n % 10, s, rw small refl, ground arith)
  | inr large ↦
      let high : 10 ≤ n = ground arith in
      let (c, t, same, digit) = head_lem fuel (n / 10) ((b'0' + n % 10) ∷ s) (omega arith) in
      (c, t, rw large same, digit)
]

magnitude_lem :
    (s : Bytes) (c : ℕ) (t : Bytes) (m : ℕ)
    → s ≡ c ∷ t
    → is_digit c ≡ true
    → digits_from 0 s ≡ m
    → magnitude s ≡ some m
unfolding magnitude
magnitude_lem s c t m e digit value = ground arith

-- A text that begins with a digit has no space and no sign in front.
signed_lem :
    (s : Bytes) (c : ℕ) (t : Bytes)
    → s ≡ c ∷ t
    → is_digit c ≡ true
    → signed (skip_spaces s) ≡ plain (magnitude s)
unfolding signed skip_spaces
signed_lem s c t e digit = ground arith

magnitude-decimal : (fuel n : ℕ) → n < fuel → magnitude (decimal fuel n []) ≡ some n
unfolding digits_from
magnitude-decimal fuel n h =
    let (c, t, same, digit) = head_lem fuel n [] h in
    magnitude_lem (decimal fuel n []) c t n same digit (digits_from-decimal fuel n [] h)

signed-to_string : (n : ℤ) → signed (skip_spaces (to_string n)) ≡ some n
unfolding signed skip_spaces to_string ◌-ℤ◌
signed-to_string (pos n) =
    let (c, t, same, digit) = head_lem (n + 1) n [] (omega arith) in
    signed_lem (decimal (n + 1) n []) c t same digit
    ∙ ap plain (magnitude-decimal (n + 1) n (omega arith))
signed-to_string (negsuc n) =
    ap negated (magnitude-decimal (n + 2) (n + 1) (omega arith)) ∙ ap some (ground arith)

-- An integer of 64 bits that is written is read again.
pub stoll-to_string :
    (n : ℤ) → negsuc (2 ^ 63 - 1) ≤ℤ n → n ≤ℤ pos (2 ^ 63 - 1) → stoll (to_string n) ≡ ok n
unfolding stoll
stoll-to_string n lo hi = rw (signed-to_string n) (ground arith)

-- An integer of 32 bits that is written is read again.
pub stoi-to_string :
    (n : ℤ) → negsuc (2 ^ 31 - 1) ≤ℤ n → n ≤ℤ pos (2 ^ 31 - 1) → stoi (to_string n) ≡ ok n
unfolding stoi
stoi-to_string n lo hi = rw (signed-to_string n) (ground arith)
