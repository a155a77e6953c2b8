-- ===== src/RateLimiter/Race/Invariant.antt =====
-- What each thread of `try_acquire` knows, and what the counter and the numbers of the bucket satisfy.
use ai_switch.Base.{
  ℕ, ◌+◌, ◌*◌, ◌≤◌, ◌<◌, ◌≡◌, refl, Bool, true, false, arith, ◌==◌, Bool-cases, inl, inr, ◌∙◌,
}
use ai_switch.RateLimiter.{seconds}
use ai_switch.Base.Threads.{update}
use ai_switch.RateLimiter.Race.{
  Pc, idle, entered, waiting, inside, due, holding, refilled, loaded, Shared,
}

-- The thread under the mutex has a reading at least a second after the last refill, and its value is
-- within the capacity.
abbrev pub Holds : Shared → Pc → Type 0
Holds s idle = Unit {0}
Holds s (entered now) = Unit {0}
Holds s waiting = Unit {0}
Holds s inside = s.locked ≡ true
Holds s (due elapsed now2) =
    (s.locked ≡ true) × (seconds s.last_refill now2 ≡ elapsed) × (0 < elapsed) × (now2 ≤ s.time)
Holds s (holding seen elapsed now2) =
    (s.locked ≡ true)
    × (seconds s.last_refill now2 ≡ elapsed)
    × (0 < elapsed)
    × (now2 ≤ s.time)
    × (seen ≤ s.capacity)
Holds s refilled = Unit {0}
Holds s (loaded expected) = Unit {0}

abbrev pub is_inside : Pc → Bool
is_inside idle = false
is_inside (entered now) = false
is_inside waiting = false
is_inside inside = true
is_inside (due elapsed now2) = true
is_inside (holding seen elapsed now2) = true
is_inside refilled = false
is_inside (loaded expected) = false

pub record Inv (begin : ℕ) (s : Shared) : Type 0 where
  pub within : s.tokens ≤ s.capacity
  pub bound : s.granted + s.tokens ≤ (s.stores + 1) * s.capacity
  pub begun : begin ≤ s.last_refill
  pub paced : s.stores ≤ seconds begin s.last_refill
  pub sound : s.overflown ≡ false
  pub holds : (i : ℕ) → Holds s (s.pc i)
  pub unique : (i j : ℕ) → is_inside (s.pc i) ≡ true → is_inside (s.pc j) ≡ true → i ≡ j

-- Two states that are the same to the thread under the mutex.
pub Holds-same :
    (s t : Shared) (p : Pc)
    → t.locked ≡ s.locked
    → t.last_refill ≡ s.last_refill
    → s.time ≤ t.time
    → t.capacity ≡ s.capacity
    → Holds s p
    → Holds t p
Holds-same s t idle a b c d h = tt
Holds-same s t (entered now) a b c d h = tt
Holds-same s t waiting a b c d h = tt
Holds-same s t inside a b c d h = a ∙ h
Holds-same s t (due elapsed now2) a b c d (h, k, l, m) = (a ∙ h, rw b k, l, omega arith)
Holds-same s t (holding seen elapsed now2) a b c d (h, k, l, m, o) =
    (a ∙ h, rw b k, l, omega arith, rw d o)
Holds-same s t refilled a b c d h = tt
Holds-same s t (loaded e) a b c d h = tt

-- A thread that is not under the mutex.
pub Holds-outside : (s : Shared) (p : Pc) → is_inside p ≡ false → Holds s p
Holds-outside s idle e = tt
Holds-outside s (entered now) e = tt
Holds-outside s waiting e = tt
Holds-outside s inside e = cc
Holds-outside s (due elapsed now2) e = cc
Holds-outside s (holding seen elapsed now2) e = cc
Holds-outside s refilled e = tt
Holds-outside s (loaded x) e = tt

pub Holds-free : (s : Shared) (p : Pc) → s.locked ≡ false → Holds s p → is_inside p ≡ false
Holds-free s idle e h = refl
Holds-free s (entered now) e h = refl
Holds-free s waiting e h = refl
Holds-free s inside e h = cc
Holds-free s (due elapsed now2) e h = cc (e, h.0)
Holds-free s (holding seen elapsed now2) e h = cc (e, h.0)
Holds-free s refilled e h = refl
Holds-free s (loaded x) e h = refl

pub Holds-update :
    (t : Shared) (f : ℕ → Pc) (i : ℕ) (p : Pc)
    → ((j : ℕ) → (i == j) ≡ false → Holds t (f j))
    → Holds t p
    → (j : ℕ) → Holds t (update f i p j)
Holds-update t f i p h k j = elim (Bool-cases (i == j)) [ inl e ↦ rw e k | inr e ↦ rw e (h j e) ]

abbrev pub IsUnique : (ℕ → Pc) → Type 0
IsUnique f = (j k : ℕ) → is_inside (f j) ≡ true → is_inside (f k) ≡ true → j ≡ k

pub IsUnique-outside :
    (f : ℕ → Pc) (i : ℕ) (p : Pc) → IsUnique f → is_inside p ≡ false → IsUnique (update f i p)
IsUnique-outside f i p h e j k a b = ground (arith, h j k)

pub IsUnique-stays :
    (f : ℕ → Pc) (i : ℕ) (p : Pc) → IsUnique f → is_inside (f i) ≡ true → IsUnique (update f i p)
IsUnique-stays f i p h e j k a b = ground (arith, h j k, h i k, h j i)

pub IsUnique-first :
    (f : ℕ → Pc) (i : ℕ) (p : Pc) → ((j : ℕ) → is_inside (f j) ≡ false) → IsUnique (update f i p)
IsUnique-first f i p h j k a b = ground (arith, h j, h k)

pub seconds_ordered : (a b : ℕ) → 0 < seconds a b → a ≤ b
unfolding seconds
seconds_ordered a b h = omega arith

pub seconds_mono : (a b c d : ℕ) → a ≤ b → c ≤ d → seconds b c ≤ seconds a d
unfolding seconds
seconds_mono a b c d h k = omega arith
