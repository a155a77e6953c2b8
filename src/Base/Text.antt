-- ===== src/Base/Text.antt =====
-- `std::string` as the list of its bytes, and the members of it that the program calls.
use Prim.Native.Char.{code}
use Prim.Native.String.{String}
use Prim.Native.Nat.{ℕ, zero, suc, ◌+◌, ◌/◌, ◌%◌}
use mathlib.Core.Path.{◌≡◌, refl}
use mathlib.Core.Logic.{◌↔◌}
use mathlib.Core.Bool.{Bool, true, false, ◌&&◌}
use mathlib.Core.Option.{Option, none, some}
use mathlib.Core.List.{List, [], ◌∷◌, ◌++◌}
use native.Mathlib.Omega.{arith}
use ai_switch.Base.Tests.{◌==◌, ltb, if◌then◌else◌}
use ai_switch.Base.Lists.{length, drop}

abbrev pub Bytes : Type 0
Bytes = List ℕ

-- The bytes of one code point in UTF-8, the encoding of the source files.
abbrev utf8 : ℕ → Bytes
utf8 c =
    if ltb c 0x80
    then c ∷ []
    else if ltb c 0x800
    then (0xc0 + c / 64) ∷ (0x80 + c % 64) ∷ []
    else if ltb c 0x10000
    then (0xe0 + c / 4096) ∷ (0x80 + c / 64 % 64) ∷ (0x80 + c % 64) ∷ []
    else (0xf0 + c / 262144) ∷ (0x80 + c / 4096 % 64) ∷ (0x80 + c / 64 % 64) ∷ (0x80 + c % 64) ∷ []

-- A string literal of the source.
abbrev pub bytes : String → Bytes
bytes String.[] = []
bytes (String.◌∷◌ c s) = utf8 (code c) ++ bytes s

-- `s == t`
unfoldable pub str_eq : Bytes → Bytes → Bool
str_eq [] [] = true
str_eq [] (_ ∷ _) = false
str_eq (_ ∷ _) [] = false
str_eq (x ∷ s) (y ∷ t) = x == y && str_eq s t

-- `s.empty()`
abbrev pub is_empty : Bytes → Bool
is_empty [] = true
is_empty (_ ∷ _) = false

unfoldable pub starts_with : Bytes → Bytes → Bool
starts_with s [] = true
starts_with [] (_ ∷ _) = false
starts_with (x ∷ s) (y ∷ p) = x == y && starts_with s p

abbrev pub one_later : Option ℕ → Option ℕ
one_later none = none
one_later (some n) = some (suc n)

-- `s.find(p)`, where `none` is `npos`
unfoldable pub find : Bytes → Bytes → Option ℕ
unfolding starts_with
find p [] = if starts_with [] p then some 0 else none
find p (x ∷ s) = if starts_with (x ∷ s) p then some 0 else one_later (find p s)

pub str_eq_refl : (s : Bytes) → str_eq s s ≡ true
unfolding str_eq
str_eq_refl [] = refl
str_eq_refl (x ∷ s) = ground (arith, str_eq_refl s)

pub str_eq→eq : (s t : Bytes) → str_eq s t ≡ true → s ≡ t
unfolding str_eq
str_eq→eq [] [] h = refl
str_eq→eq [] (y ∷ t) h = cc
str_eq→eq (x ∷ s) [] h = cc
str_eq→eq (x ∷ s) (y ∷ t) h = ground (arith, str_eq→eq s t)

pub str_eq_iff : (s t : Bytes) → (str_eq s t ≡ true) ↔ (s ≡ t)
str_eq_iff s t = (str_eq→eq s t, λ e. rw e (str_eq_refl t))

pub starts_with-append : (p s : Bytes) → starts_with (p ++ s) p ≡ true
unfolding starts_with
starts_with-append [] s = elim s as (λ s. starts_with s [] ≡ true) [ [] ↦ refl | x ∷ r ↦ refl ]
starts_with-append (x ∷ p) s = ground (arith, starts_with-append p s)

-- A text that starts with `p` is `p` and what is left after it.
pub starts_with-split : (s p : Bytes) → starts_with s p ≡ true → s ≡ p ++ drop (length p) s
unfolding starts_with
starts_with-split [] [] h = refl
starts_with-split (x ∷ s) [] h = refl
starts_with-split [] (y ∷ p) h = cc
starts_with-split (x ∷ s) (y ∷ p) h = ground (arith, starts_with-split s p)

-- `s.find(p) == 0` says that `s` starts with `p`.
pub find_zero : (p s : Bytes) → (find p s ≡ some 0) ↔ (starts_with s p ≡ true)
unfolding find
find_zero p [] = ground arith
find_zero p (x ∷ s) = ground arith

-- `pos == 0` for the result of `find`.
abbrev pub at_front : Option ℕ → Bool
at_front none = false
at_front (some zero) = true
at_front (some (suc _)) = false

pub at_front-find : (p s : Bytes) → at_front (find p s) ≡ starts_with s p
unfolding find
at_front-find p [] = ground arith
at_front-find p (x ∷ s) = ground arith
