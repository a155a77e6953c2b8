-- ===== src/Database/ConnectionPool/Notify/Bound.antt =====
-- No connection stays behind while a thread sleeps and nobody is on the way.
use ai_switch.Base.{ℕ, ◌+◌, ◌<◌, ◌≤◌, ◌≡◌, ◌≢◌, List, [], ◌∷◌, ◌++◌, length, length-append, arith}
use ai_switch.Base.Threads.{update, total, total-update, update_was}
use ai_switch.Database.ConnectionPool.{return_connection}
use ai_switch.Database.ConnectionPool.Threads.Conserved.{borrow-some}
use ai_switch.Database.ConnectionPool.Notify.{
  Phase, absent, asleep, awake, lent, notifying, Lending, LendStep, borrows, falls_asleep, wakes_up,
  finds_one, sleeps_on, gives_up, gives_back, notifies_one, notifies_no_one, LendReach, at_first,
  and_then, opened,
}

-- A thread that is about to look at the queue, or to wake one that will.
abbrev pub coming : Phase → ℕ
coming absent = 0
coming asleep = 0
coming awake = 1
coming (lent conn) = 0
coming notifying = 1

pub IsBound : ℕ → Lending → Type 0
IsBound n s = (i : ℕ) → i < n → s.phase i ≡ asleep → length s.pool.idle ≤ total coming n s.phase

-- A change of one thread.
bound-update :
    (n i : ℕ) (f : ℕ → Phase) (p : Phase) (before after : ℕ)
    → i < n
    → p ≢ asleep
    → after + coming (f i) ≤ before + coming p
    → ((j : ℕ) → j < n → f j ≡ asleep → before ≤ total coming n f)
    → (j : ℕ) → j < n
    → update f i p j ≡ asleep
    → after ≤ total coming n (update f i p)
bound-update n i f p before after below awake_now less h j below' e =
    omega
      (arith, h j below' (update_was f i j p asleep awake_now e), total-update coming n f i p below)

LendStep-IsBound : (n : ℕ) {s t : Lending} → LendStep n s t → IsBound n s → IsBound n t
unfolding IsBound return_connection
LendStep-IsBound n {s} (borrows i conn pool below e taken) v =
    bound-update n i s.phase (lent conn) (length s.pool.idle) (length pool.idle) below (λ h. cc)
      (ground (arith, borrow-some s.pool pool conn taken)) v
LendStep-IsBound n {s} (falls_asleep i below e empty) v = λ j below' h. ground arith
LendStep-IsBound n {s} (wakes_up i below e) v =
    bound-update n i s.phase awake (length s.pool.idle) (length s.pool.idle) below (λ h. cc)
      (ground arith) v
LendStep-IsBound n {s} (finds_one i conn pool below e taken) v =
    bound-update n i s.phase (lent conn) (length s.pool.idle) (length pool.idle) below (λ h. cc)
      (ground (arith, borrow-some s.pool pool conn taken)) v
LendStep-IsBound n {s} (sleeps_on i below e empty) v = λ j below' h. ground arith
LendStep-IsBound n {s} (gives_up i below e empty) v = λ j below' h. ground arith
LendStep-IsBound n {s} (gives_back i conn below e) v =
    bound-update n i s.phase notifying (length s.pool.idle) (length (s.pool.idle ++ conn ∷ []))
      below (λ h. cc) (ground (arith, length-append s.pool.idle (conn ∷ []))) v
LendStep-IsBound n {s} (notifies_one i j below below' e sleeping) v = λ k below_k h. ground (
  arith,
  v j below' sleeping,
  total-update coming n s.phase i absent below,
  total-update coming n (update s.phase i absent) j awake below',
)
LendStep-IsBound n {s} (notifies_no_one i below e no_one) v =
    λ j below' h. absurd (no_one j below' (update_was s.phase i j absent asleep (λ x. cc) h))

pub LendReach-IsBound :
    (n : ℕ) (conns : List ℕ) {s : Lending} → LendReach n (opened conns) s → IsBound n s
unfolding IsBound
LendReach-IsBound n conns at_first = λ i below h. cc
LendReach-IsBound n conns (and_then r st) = LendStep-IsBound n st (LendReach-IsBound n conns r)

-- In every interleaving of any number of threads, while a thread sleeps in `borrow`, no more
-- connections are idle than there are threads that are about to look at the queue or to call
-- `notify_one`.
pub LendReach-bound :
    (n : ℕ) (conns : List ℕ) (i : ℕ) {s : Lending}
    → LendReach n (opened conns) s
    → i < n
    → s.phase i ≡ asleep
    → length s.pool.idle ≤ total coming n s.phase
unfolding IsBound
LendReach-bound n conns i r below e = LendReach-IsBound n conns r i below e
