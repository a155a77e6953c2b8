-- ===== src/Database/ConnectionPool/Notify/Served.antt =====
-- An idle connection finds its thread.
use ai_switch.Base.{
  ℕ, zero, suc, ◌<◌, ◌≡◌, ◌⊎◌, refl, List, [], ◌∷◌, arith, ltb, Bool-cases, List-cases, inl, inr,
  some,
}
use ai_switch.Base.Threads.{update, total, total-update, total_pos}
use ai_switch.Database.ConnectionPool.{ConnectionPool, borrow}
use ai_switch.Database.ConnectionPool.Notify.{
  Phase, absent, asleep, awake, lent, notifying, Lending, LendStep, finds_one, notifies_one,
  LendReach, and_then, opened,
}
use ai_switch.Database.ConnectionPool.Notify.Bound.{coming, LendReach-bound}

-- The steps that need no thread to come or to return a connection, no end of the time and no wake-up
-- without a reason.
pub data Hands (n : ℕ) (s : Lending) : Lending → Type 0 where
  hands_over :
      (i conn : ℕ) (pool : ConnectionPool)
      → i < n
      → s.phase i ≡ awake
      → borrow s.pool ≡ (some conn, pool)
      → Hands n s (record { pool = pool; phase = update s.phase i (lent conn) })
  rouses :
      (i j : ℕ)
      → i < n
      → j < n
      → s.phase i ≡ notifying
      → s.phase j ≡ asleep
      → Hands n s (record s { phase = update (update s.phase i absent) j awake })

pub data HandsOn (n : ℕ) : Lending → Lending → Type 0 where
  all_done : {s : Lending} → HandsOn n s s
  hands_first : {s t u : Lending} → Hands n s t → HandsOn n t u → HandsOn n s u

-- Such a step is one of the pool.
Hands-LendStep : (n : ℕ) {s t : Lending} → Hands n s t → LendStep n s t
Hands-LendStep n (hands_over i conn pool below e taken) = finds_one i conn pool below e taken
Hands-LendStep n (rouses i j below below' e sleeping) = notifies_one i j below below' e sleeping

abbrev pub waits : Phase → ℕ
waits absent = 0
waits asleep = 1
waits awake = 1
waits (lent conn) = 0
waits notifying = 0

-- The steps that are due.
abbrev due : Phase → ℕ
due absent = 0
due asleep = 0
due awake = 1
due (lent conn) = 0
due notifying = 2

Phase-coming : (p : Phase) → 0 < coming p → (p ≡ awake) ⊎ (p ≡ notifying)
Phase-coming absent h = absurd (omega arith)
Phase-coming asleep h = absurd (omega arith)
Phase-coming awake h = inl refl
Phase-coming (lent conn) h = absurd (omega arith)
Phase-coming notifying h = inr refl

Phase-waits : (p : Phase) → 0 < waits p → (p ≡ asleep) ⊎ (p ≡ awake)
Phase-waits absent h = absurd (omega arith)
Phase-waits asleep h = inl refl
Phase-waits awake h = inr refl
Phase-waits (lent conn) h = absurd (omega arith)
Phase-waits notifying h = absurd (omega arith)

Further : ℕ → Lending → Type 0
Further n s = (t : Lending) × Hands n s t × (total due n t.phase < total due n s.phase)

module _ (n : ℕ) (s : Lending) (conn : ℕ) (rest : List ℕ) (idle : s.pool.idle ≡ conn ∷ rest) where
  borrow-idle : borrow s.pool ≡ (some conn, record { idle = rest })
  unfolding borrow
  borrow-idle = ground arith

  Further-awake : (i : ℕ) → i < n → s.phase i ≡ awake → Further n s
  unfolding Further
  Further-awake i below e = (
    _,
    hands_over i conn (record { idle = rest }) below e borrow-idle,
    ground (arith, total-update due n s.phase i (lent conn) below),
  )

  Further-notifying :
      (i j : ℕ) → i < n → j < n → s.phase i ≡ notifying → s.phase j ≡ asleep → Further n s
  unfolding Further
  Further-notifying i j below below' e sleeping = (
    _,
    rouses i j below below' e sleeping,
    ground (
      arith,
      total-update due n s.phase i absent below,
      total-update due n (update s.phase i absent) j awake below',
    ),
  )

  Further-asleep :
      (conns : List ℕ)
      → LendReach n (opened conns) s
      → (j : ℕ) → j < n
      → s.phase j ≡ asleep
      → Further n s
  Further-asleep conns r j below' sleeping =
      let some_coming : 0 < total coming n s.phase =
        ground (arith, LendReach-bound n conns j r below' sleeping) in
      let (i, below, h) = total_pos coming n s.phase some_coming in
      elim (Phase-coming (s.phase i) h) [
        | inl e ↦ Further-awake i below e
        | inr e ↦ Further-notifying i j below below' e sleeping
      ]

  further :
      (conns : List ℕ) → LendReach n (opened conns) s → 0 < total waits n s.phase → Further n s
  further conns r some_waiting =
      let (i, below, h) = total_pos waits n s.phase some_waiting in
      elim (Phase-waits (s.phase i) h) [
        | inl e ↦ Further-asleep conns r i below e
        | inr e ↦ Further-awake i below e
      ]

-- The pool at the end of such steps.
Served : ℕ → Lending → Type 0
Served n s = (t : Lending) × HandsOn n s t × ((t.pool.idle ≡ []) ⊎ (total waits n t.phase ≡ 0))

Served-first : (n : ℕ) {s t : Lending} → Hands n s t → Served n t → Served n s
unfolding Served
Served-first n st (u, more, over) = (u, hands_first st more, over)

Served-on :
    (n fuel : ℕ) (conns : List ℕ) (s : Lending)
    → LendReach n (opened conns) s
    → total due n s.phase < fuel
    → Served n s
unfolding Served Further
Served-on n zero conns s r enough = absurd (omega arith)
Served-on n (suc fuel) conns s r enough = elim (List-cases s.pool.idle) [
  | inl empty ↦ (s, all_done, inl empty)
  | inr (conn, rest, idle) ↦ elim (Bool-cases (ltb 0 (total waits n s.phase))) [
    | inl some_waiting ↦
        let (t, st, less) = further n s conn rest idle conns r (ground arith) in
        Served-first n st
          (Served-on n fuel conns t (and_then r (Hands-LendStep n st)) (omega arith))
    | inr none_waiting ↦ (s, all_done, inr (ground arith))
  ]
]

-- In every interleaving of any number of threads, the calls of `notify_one` that are due and the
-- threads that are awake lead to a state where no connection is idle or no thread waits in `borrow`,
-- without any thread that comes, gives up or returns a connection.
pub LendReach-served :
    (n : ℕ) (conns : List ℕ) {s : Lending}
    → LendReach n (opened conns) s
    → (t : Lending) × HandsOn n s t × ((t.pool.idle ≡ []) ⊎ (total waits n t.phase ≡ 0))
unfolding Served
LendReach-served n conns {s} r = Served-on n (suc (total due n s.phase)) conns s r (omega arith)
