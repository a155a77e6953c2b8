-- ===== src/Tests/Share.antt =====
-- A lookup by one thread whose key another thread disables in between.
use ai_switch.Base.{ℕ, ◌≡◌, List, [], ◌∷◌, str_eq}
use ai_switch.Base.Int.{pos}
use ai_switch.Database.Repository.Created.{found_result}
use ai_switch.Database.Repository.History.{find, disable}
use ai_switch.Database.Repository.Table.{found}
use ai_switch.Database.Repository.Shared.{Sharing, ShareReach, shared}
use ai_switch.Database.Repository.Shared.Due.{FitsNow}
use ai_switch.Tests.Issue.{key, info}
use ai_switch.Tests.Table.{stored, table_server, Covered}
use ai_switch.Tests.Revoke.{holding}

abbrev conns : List ℕ
conns = 3 ∷ 4 ∷ []

abbrev start : Sharing table_server
start = shared table_server conns holding.db

-- The lookup has run its statement, then the other thread has disabled the key, and the lookup returns.
abbrev Ran : Type 0
Ran =
    (s : Sharing table_server) × ShareReach table_server
      (FitsNow table_server str_eq stored Covered) 2 start s
    × (s.pc 0
        ≡ ai_switch.Database.Repository.Shared.returned (find key) (found (found_result info)) [])
    × (s.log ≡ find key ∷ disable (pos 7) ∷ [])
