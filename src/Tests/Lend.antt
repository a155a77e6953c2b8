-- ===== src/Tests/Lend.antt =====
-- Two threads and a pool of two connections, and of one that the second thread waits for.
use ai_switch.Base.{ℕ, ◌+◌, ◌≤◌, ◌≡◌, ◌⊎◌, refl, List, [], ◌∷◌, length, arith}
use ai_switch.Base.Threads.{update, total, occurrences}
use ai_switch.Database.ConnectionPool.{borrow, return_connection}
use ai_switch.Database.ConnectionPool.Threads.{
  Threads, outside, holding, take_at_once, give_back, Reach, here, next, begin,
}
use ai_switch.Database.ConnectionPool.Threads.Conserved.{holds, Reach-present, Reach-exclusive}
use ai_switch.Database.ConnectionPool.Notify.{
  Lending, asleep, lent, notifying, borrows, falls_asleep, gives_back, LendReach, at_first,
  and_then, opened,
}
use ai_switch.Database.ConnectionPool.Notify.Bound.{coming, LendReach-bound}
use ai_switch.Database.ConnectionPool.Notify.Served.{HandsOn, waits, LendReach-served}
use ai_switch.Database.ConnectionPool.Notify.Lent.{seen, LendReach-Reach}

abbrev conns : List ℕ
conns = 3 ∷ 4 ∷ []

abbrev one : Threads
one = record { pool = record { idle = 4 ∷ [] }; pc = update (begin conns).pc 0 (holding 3) }

abbrev two : Threads
two = record { pool = record { idle = [] }; pc = update one.pc 1 (holding 4) }

abbrev back : Threads
back = record { pool = record { idle = 3 ∷ [] }; pc = update two.pc 0 outside }

to_two : Reach 2 (begin conns) two
unfolding borrow
to_two =
    next (next here (take_at_once 0 3 (record { idle = 4 ∷ [] }) (omega arith) refl refl))
      (take_at_once 1 4 (record { idle = [] }) (omega arith) refl refl)

to_back : Reach 2 (begin conns) back
unfolding return_connection
to_back = next to_two (give_back 0 3 (omega arith) refl)

Reach-present_example :
    occurrences 3 back.pool.idle + total (holds 3) 2 back.pc ≡ occurrences 3 conns
Reach-present_example = Reach-present 2 3 conns to_back

Reach-exclusive_example : (◌≡◌ {A = ℕ} 0 0) × (occurrences 3 two.pool.idle ≡ 0)
Reach-exclusive_example =
    Reach-exclusive 2 3 conns 0 0 to_two (omega arith) (omega arith) (omega arith) refl refl

abbrev single : List ℕ
single = 3 ∷ []

abbrev taken : Lending
taken = record { pool = record { idle = [] }; phase = update (opened single).phase 0 (lent 3) }

abbrev waited : Lending
waited = record taken { phase = update taken.phase 1 asleep }

abbrev returned : Lending
returned = record { pool = record { idle = 3 ∷ [] }; phase = update waited.phase 0 notifying }

to_returned : LendReach 2 (opened single) returned
unfolding borrow return_connection
to_returned =
    and_then
      (and_then (and_then at_first (borrows 0 3 (record { idle = [] }) (omega arith) refl refl))
        (falls_asleep 1 (omega arith) refl refl))
      (gives_back 0 3 (omega arith) refl)

LendReach-bound_example : length returned.pool.idle ≤ total coming 2 returned.phase
LendReach-bound_example = LendReach-bound 2 single 1 to_returned (omega arith) refl

LendReach-served_example :
    (t : Lending) × HandsOn 2 returned t × ((t.pool.idle ≡ []) ⊎ (total waits 2 t.phase ≡ 0))
LendReach-served_example = LendReach-served 2 single to_returned

LendReach-Reach_example : Reach 2 (begin single) (seen returned)
LendReach-Reach_example = LendReach-Reach 2 single to_returned
