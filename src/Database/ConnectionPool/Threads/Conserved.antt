-- ===== src/Database/ConnectionPool/Threads/Conserved.antt =====
-- Every connection stays in the pool or with one thread.
use ai_switch.Base.{
  ℕ, zero, suc, ◌+◌, ◌<◌, ◌≤◌, ◌≡◌, refl, ◌∙◌, List, [], ◌∷◌, some, arith, ◌==◌, if◌then◌else◌, inl,
  inr, Bool-cases, List-cases,
}
use ai_switch.Base.Threads.{
  total, total-update, total-le, total-two, occurrences, occurrences-append,
}
use ai_switch.Database.ConnectionPool.{ConnectionPool, borrow, return_connection}
use ai_switch.Database.ConnectionPool.Threads.{
  Borrower, outside, waiting, holding, Threads, Step, take_at_once, wait, take_later, time_out,
  give_back, Reach, here, next, begin,
}

-- How often a thread holds a connection.
abbrev pub holds : ℕ → Borrower → ℕ
holds c outside = 0
holds c waiting = 0
holds c (holding conn) = if conn == c then 1 else 0

-- In the pool and with the threads.
abbrev pub present : ℕ → ℕ → Threads → ℕ
present n c s = occurrences c s.pool.idle + total (holds c) n s.pc

pub borrow-some :
    (p p' : ConnectionPool) (conn : ℕ) → borrow p ≡ (some conn, p') → p.idle ≡ conn ∷ p'.idle
unfolding borrow
borrow-some p p' conn e = elim (List-cases p.idle) [
  | inl empty ↦ absurd (ground arith)
  | inr (x, rest, f) ↦ ground arith
]

Step-present : (n c : ℕ) {s t : Threads} → Step n s t → present n c t ≡ present n c s
unfolding return_connection
Step-present n c {s} (take_at_once i conn pool below e taken) = ground (
  arith,
  borrow-some s.pool pool conn taken,
  total-update (holds c) n s.pc i (holding conn) below,
)
Step-present n c {s} (wait i below e empty) =
    ground (arith, total-update (holds c) n s.pc i waiting below)
Step-present n c {s} (take_later i conn pool below e taken) = ground (
  arith,
  borrow-some s.pool pool conn taken,
  total-update (holds c) n s.pc i (holding conn) below,
)
Step-present n c {s} (time_out i below e empty) =
    ground (arith, total-update (holds c) n s.pc i outside below)
Step-present n c {s} (give_back i conn below e) = ground (
  arith,
  occurrences-append c s.pool.idle (conn ∷ []),
  total-update (holds c) n s.pc i outside below,
)

total-outside : (n c : ℕ) → total (holds c) n (λ i. outside) ≡ 0
unfolding total
total-outside zero c = refl
total-outside (suc n) c = omega (arith, total-outside n c)

-- In every interleaving of any number of threads each connection is in the pool and with the threads
-- together as often as it was in the pool at the beginning: none is lost and none is lent twice.
pub Reach-present :
    (n c : ℕ) (conns : List ℕ) {s : Threads}
    → Reach n (begin conns) s
    → occurrences c s.pool.idle + total (holds c) n s.pc ≡ occurrences c conns
Reach-present n c conns here = omega (arith, total-outside n c)
Reach-present n c conns (next r st) = Step-present n c st ∙ Reach-present n c conns r

-- In every interleaving two threads never hold the same connection, where it was in the pool once at
-- the beginning, and a connection that a thread holds is not in the pool.
pub Reach-exclusive :
    (n c : ℕ) (conns : List ℕ) {s : Threads} (i j : ℕ)
    → Reach n (begin conns) s
    → occurrences c conns ≤ 1
    → i < n
    → j < n
    → s.pc i ≡ holding c
    → s.pc j ≡ holding c
    → (i ≡ j) × (occurrences c s.pool.idle ≡ 0)
Reach-exclusive n c conns {s} i j r once hi hj ei ej =
    let all = Reach-present n c conns r in
    let one : holds c (s.pc i) ≡ 1 = ground arith in
    let other : holds c (s.pc j) ≡ 1 = ground arith in
    elim (Bool-cases (i == j)) [
      | inl same ↦ (ground arith, omega (arith, total-le (holds c) n s.pc i hi))
      | inr apart ↦ absurd (omega (arith, total-two (holds c) n s.pc i j hi hj (λ h. ground arith)))
    ]

-- A thread gives up waiting for a connection only while the threads hold all connections.
pub time_out-lent :
    (n c : ℕ) (conns : List ℕ) {s : Threads} (i : ℕ)
    → Reach n (begin conns) s
    → s.pc i ≡ waiting
    → s.pool.idle ≡ []
    → total (holds c) n s.pc ≡ occurrences c conns
time_out-lent n c conns i r e empty = ground (arith, Reach-present n c conns r)
