-- ===== src/Database/Repository/Shared/Exclusive.antt =====
-- Two threads never use the same connection.
use ai_switch.Base.{ℕ, ◌<◌, ◌≤◌, ◌≡◌, refl, sym, ap, subst, List, some}
use ai_switch.Base.Threads.{occurrences, map-update, map-update_unseen}
use ai_switch.Database.Mysql.{Mysql}
use ai_switch.Database.ConnectionPool.{ConnectionPool, return_connection}
use ai_switch.Database.ConnectionPool.Threads.{
  Borrower, outside, holding, Threads, Reach, here, next, take_at_once, give_back, begin,
}
use ai_switch.Database.ConnectionPool.Threads.Conserved.{Reach-exclusive}
use ai_switch.Database.Repository.History.{Operation}
use ai_switch.Database.Repository.Table.{Answer}
use ai_switch.Database.Repository.Shared.{
  Call, borrowed, asked, returned, unserved, answer_of, Sharing, ShareStep, borrows, asks, returns,
  fails, breaks, calls_again, ShareReach, from_here, one_more, shared,
}

-- What the pool knows of a call.
abbrev pub borrower : Call → Borrower
borrower ai_switch.Database.Repository.Shared.outside = outside
borrower (borrowed op conn) = holding conn
borrower (asked op conn done before) = holding conn
borrower (returned op answer before) = outside
borrower (unserved op answer) = outside

answer_of-borrower :
    (p : Call) (op : Operation) (answer : Answer)
    → answer_of p ≡ some (op, answer)
    → borrower p ≡ outside
answer_of-borrower ai_switch.Database.Repository.Shared.outside op answer e = refl
answer_of-borrower (borrowed o conn) op answer e = cc
answer_of-borrower (asked o conn done before) op answer e = cc
answer_of-borrower (returned o a before) op answer e = refl
answer_of-borrower (unserved o a) op answer e = refl

module _ (M : Mysql) (Fits : Operation → M.Db → Type 0) (n : ℕ) (w : Threads) where
  abbrev lending : Sharing M → Threads
  lending s = record { pool = s.pool; pc = λ i. borrower (s.pc i) }

  moved :
      (pool : ConnectionPool) {f g : ℕ → Borrower}
      → f ≡ g
      → Reach n w (record { pool = pool; pc = f })
      → Reach n w (record { pool = pool; pc = g })
  moved pool e r = subst (λ h. Reach n w (record { pool = pool; pc = h })) e r

  ShareStep-Reach :
      {s t : Sharing M} → ShareStep M Fits n s t → Reach n w (lending s) → Reach n w (lending t)
  ShareStep-Reach {s} (borrows i conn op pool below e taken) r =
      moved pool (map-update borrower s.pc i (borrowed op conn))
        (next r (take_at_once i conn pool below (ap borrower e) taken))
  ShareStep-Reach {s} (asks i conn op below e fits) r =
      moved s.pool (map-update_unseen borrower s.pc i _ (sym (ap borrower e))) r
  ShareStep-Reach {s} (returns i conn op done before answer db below e read) r =
      moved (return_connection conn s.pool) (map-update borrower s.pc i (returned op answer before))
        (next r (give_back i conn below (ap borrower e)))
  ShareStep-Reach {s} (fails i op answer below e empty got) r =
      moved s.pool (map-update_unseen borrower s.pc i (unserved op answer) (sym (ap borrower e))) r
  ShareStep-Reach (breaks i op below e empty got) r = r
  ShareStep-Reach {s} (calls_again i op answer below e) r =
      moved s.pool
        (map-update_unseen borrower s.pc i ai_switch.Database.Repository.Shared.outside
          (sym (answer_of-borrower (s.pc i) op answer e)))
        r

module _ (M : Mysql) (Fits : Operation → M.Db → Type 0) (n : ℕ) (conns : List ℕ) (db : M.Db) where
  ShareReach-Reach :
      {s : Sharing M}
      → ShareReach M Fits n (shared M conns db) s
      → Reach n (begin conns) (lending M Fits n (begin conns) s)
  ShareReach-Reach from_here = here
  ShareReach-Reach (one_more r on st) =
      ShareStep-Reach M Fits n (begin conns) st (ShareReach-Reach r)

  -- Where each connection was in the pool once.
  pub ShareReach-exclusive :
      {s : Sharing M} (c i j : ℕ)
      → ShareReach M Fits n (shared M conns db) s
      → occurrences c conns ≤ 1
      → i < n
      → j < n
      → borrower (s.pc i) ≡ holding c
      → borrower (s.pc j) ≡ holding c
      → i ≡ j
  ShareReach-exclusive c i j r once below below' e e' =
      (Reach-exclusive n c conns i j (ShareReach-Reach r) once below below' e e').0
