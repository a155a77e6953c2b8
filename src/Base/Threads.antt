-- ===== src/Base/Threads.antt =====
-- What the threads of a step relation have each: a value for every number.
use Prim.Native.Nat.{ℕ, zero, suc, ◌+◌, ◌≤◌, ◌<◌}
use mathlib.Core.Path.{◌≡◌, refl, fun_ext}
use mathlib.Core.Logic.{◌≢◌, inl, inr}
use mathlib.Core.List.{List, [], ◌∷◌, ◌++◌}
use native.Mathlib.Omega.{arith}
use ai_switch.Base.Tests.{◌==◌, if◌then◌else◌, Bool-cases}

abbrev pub update {ℓ} : {A : Type ℓ} → (ℕ → A) → ℕ → A → ℕ → A
update f i a j = if i == j then a else f j

pub update_self {ℓ} : {A : Type ℓ} (f : ℕ → A) (i : ℕ) (a : A) → update f i a i ≡ a
update_self f i a = ground arith

pub update_other {ℓ} : {A : Type ℓ} (f : ℕ → A) (i j : ℕ) (a : A) → i ≢ j → update f i a j ≡ f j
update_other f i j a h = ground arith

-- A thread that was not changed to this state was in it.
pub update_was {ℓ} :
    {A : Type ℓ} (f : ℕ → A) (i j : ℕ) (a b : A) → a ≢ b → update f i a j ≡ b → f j ≡ b
update_was f i j a b h e = elim (Bool-cases (i == j)) [
  | inl same ↦ absurd (h (ground arith))
  | inr other ↦ ground arith
]

-- What is seen of the states after a change, and after one that is not seen.
pub map-update {ℓ κ} :
    {A : Type ℓ} {B : Type κ} (view : A → B) (f : ℕ → A) (i : ℕ) (a : A)
    → update (λ j. view (f j)) i (view a) ≡ (λ j. view (update f i a j))
map-update view f i a =
    fun_ext (λ j. elim (Bool-cases (i == j)) [ inl same ↦ ground arith | inr other ↦ ground arith ])

pub map-update_unseen {ℓ κ} :
    {A : Type ℓ} {B : Type κ} (view : A → B) (f : ℕ → A) (i : ℕ) (a : A)
    → view a ≡ view (f i)
    → ◌≡◌ {A = ℕ → B} (λ j. view (f j)) (λ j. view (update f i a j))
map-update_unseen view f i a e =
    fun_ext (λ j. elim (Bool-cases (i == j)) [ inl same ↦ ground arith | inr other ↦ ground arith ])

module _ {ℓ} {A : Type ℓ} (weight : A → ℕ) where
  -- The weights of the threads below `n`, added up.
  unfoldable pub total : ℕ → (ℕ → A) → ℕ
  total zero f = 0
  total (suc n) f = total n f + weight (f n)

  total-update_above :
      (n : ℕ) (f : ℕ → A) (i : ℕ) (a : A) → n ≤ i → total n (update f i a) ≡ total n f
  unfolding total
  total-update_above zero f i a h = refl
  total-update_above (suc n) f i a h = ground (arith, total-update_above n f i a)

  pub total-update :
      (n : ℕ) (f : ℕ → A) (i : ℕ) (a : A)
      → i < n
      → total n (update f i a) + weight (f i) ≡ total n f + weight a
  unfolding total
  total-update zero f i a h = absurd (omega arith)
  total-update (suc n) f i a h = elim (Bool-cases (i == n)) [
    | inl last ↦ ground (arith, total-update_above n f i a)
    | inr before ↦ ground (arith, total-update n f i a)
  ]

  -- One thread weighs no more than all.
  pub total-le : (n : ℕ) (f : ℕ → A) (i : ℕ) → i < n → weight (f i) ≤ total n f
  unfolding total
  total-le zero f i h = absurd (omega arith)
  total-le (suc n) f i h = elim (Bool-cases (i == n)) [
    | inl last ↦ ground arith
    | inr before ↦ ground (arith, total-le n f i)
  ]

  -- Nor do two.
  pub total-two :
      (n : ℕ) (f : ℕ → A) (i j : ℕ)
      → i < n
      → j < n
      → i ≢ j
      → weight (f i) + weight (f j) ≤ total n f
  unfolding total
  total-two zero f i j h k d = absurd (omega arith)
  total-two (suc n) f i j h k d = elim (Bool-cases (i == n)) [
    | inl last ↦ ground (arith, total-le n f j)
    | inr before ↦ elim (Bool-cases (j == n)) [
      | inl last ↦ ground (arith, total-le n f i)
      | inr both ↦ ground (arith, total-two n f i j)
    ]
  ]

  -- A total that is not 0 has a thread that weighs something.
  pub total_pos : (n : ℕ) (f : ℕ → A) → 0 < total n f → (i : ℕ) × (i < n) × (0 < weight (f i))
  unfolding total
  total_pos zero f h = absurd (omega arith)
  total_pos (suc n) f h = elim (Bool-cases (weight (f n) == 0)) [
    | inl none ↦ let (i, below, some) = total_pos n f (ground arith) in (i, omega arith, some)
    | inr some ↦ (n, omega arith, ground arith)
  ]

  -- The weights of other states that weigh the same.
  pub total-same :
      (n : ℕ) (f g : ℕ → A) → ((i : ℕ) → weight (g i) ≡ weight (f i)) → total n g ≡ total n f
  unfolding total
  total-same zero f g h = refl
  total-same (suc n) f g h = omega (arith, total-same n f g h, h n)

-- How often a number stands in a list.
abbrev pub occurrences : ℕ → List ℕ → ℕ
occurrences c [] = 0
occurrences c (x ∷ xs) = (if x == c then 1 else 0) + occurrences c xs

pub occurrences-append :
    (c : ℕ) (xs ys : List ℕ) → occurrences c (xs ++ ys) ≡ occurrences c xs + occurrences c ys
occurrences-append c [] ys = omega arith
occurrences-append c (x ∷ xs) ys = ground (arith, occurrences-append c xs ys)
