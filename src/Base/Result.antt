-- ===== src/Base/Result.antt =====
-- Results of code that may throw, and code that changes a state `S` on the way.
use mathlib.Core.Path.{◌≡◌, refl}
use mathlib.Core.Logic.{◌⊎◌, inl, inr}
use mathlib.Core.Option.{Option, none, some}
use ai_switch.Base.Text.{Bytes}

-- An exception, by its type, with its `what()`.
pub data Exception : Type 0 where
  parse_error type_error runtime_error invalid_argument out_of_range bad_optional_access :
      Bytes → Exception

-- `fault` is undefined behaviour.
pub data Result {ℓ} (A : Type ℓ) : Type ℓ where
  ok : A → Result A
  throw : Exception → Result A
  fault : Result A

abbrev pub and_then {ℓ κ} : {A : Type ℓ} {B : Type κ} → Result A → (A → Result B) → Result B
and_then (ok a) f = f a
and_then (throw e) f = throw e
and_then fault f = fault

-- What changes a state keeps the changes that it made before it threw.
abbrev pub Eff {ℓ} : Type 0 → Type ℓ → Type ℓ
Eff S A = S → Result A × S

abbrev pub return {ℓ} : {S : Type 0} {A : Type ℓ} → A → Eff S A
return a s = (ok a, s)

abbrev pub lift {ℓ} : {S : Type 0} {A : Type ℓ} → Result A → Eff S A
lift r s = (r, s)

abbrev pub continue {ℓ κ} :
    {S : Type 0} {A : Type ℓ} {B : Type κ} → Result A → S → (A → Eff S B) → Result B × S
continue (ok a) s f = f a s
continue (throw e) s f = (throw e, s)
continue fault s f = (fault, s)

infixl 5 ◌>>=◌ ◌>>◌
abbrev pub ◌>>=◌ {ℓ κ} : {S : Type 0} {A : Type ℓ} {B : Type κ} → Eff S A → (A → Eff S B) → Eff S B
◌>>=◌ m f s = continue (m s).0 (m s).1 f

abbrev pub ◌>>◌ {ℓ} : {S : Type 0} {B : Type ℓ} → Eff S (Unit {0}) → Eff S B → Eff S B
m >> k = m >>= λ _. k

-- An `int64_t` that overflows, a null pointer that is followed.
abbrev pub or_fault {ℓ} : {A : Type ℓ} → Option A → Result A
or_fault none = fault
or_fault (some a) = ok a

-- Run code of a part on its part of the state.
abbrev pub zoom {ℓ} : {S T : Type 0} {A : Type ℓ} → (S → T) → (T → S → S) → Eff T A → Eff S A
zoom get put m s = ((m (get s)).0, put (m (get s)).1 s)

pub Result-cases {ℓ} :
    {A : Type ℓ} (r : Result A)
    → ((a : A) × (r ≡ ok a)) ⊎ (((e : Exception) × (r ≡ throw e)) ⊎ (r ≡ fault))
Result-cases (ok a) = inl (a, refl)
Result-cases (throw e) = inr (inl (e, refl))
Result-cases fault = inr (inr refl)
