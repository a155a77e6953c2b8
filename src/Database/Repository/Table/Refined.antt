-- ===== src/Database/Repository/Table/Refined.antt =====
-- The repository, in any history of calls, against the table.
use ai_switch.Base.{
  ℕ, Bool, sym, length, length-append, ◌<◌, ◌≡◌, refl, subst, List, [], ◌∷◌, Bytes, All, arith,
  List-cases, Option-cases, inl, inr,
}
use ai_switch.Base.Int.{ℤ}
use ai_switch.Base.Result.{ok, return, ◌>>=◌}
use ai_switch.Database.Mysql.{Mysql}
use ai_switch.Database.Repository.{Repository, RepoM, created, generate_api_key}
use ai_switch.Database.Repository.Created.{IsInRange}
use ai_switch.Database.Repository.History.{Operation, find, create, list, disable}
use ai_switch.Database.Repository.Table.{KeyTable, Answer, find_key, perform, perform_all}
use ai_switch.Database.Repository.Table.Rows.{All-disable_all, All-append}
use ai_switch.Database.Repository.Table.Server.{IsServer, Fits, FitsNew, AllFit}
use ai_switch.Database.Repository.Table.Calls.{
  answer, IsPerformed, find-IsPerformed, list-IsPerformed, disable-IsPerformed, fresh-IsPerformed,
  refused-IsPerformed,
}

module _ (M : Mysql) where
  unfoldable pub answer_all : List Operation → RepoM M (List Answer)
  answer_all [] = return []
  answer_all (op ∷ ops) = do first ← answer M op; later ← answer_all ops; return (first ∷ later)

module _ (M : Mysql) (same : Bytes → Bytes → Bool) (table : M.Db → KeyTable) where
  open M use {Db, escape}

  created-IsInRange :
      (drawn : List ℕ) (name : Bytes) (limit : ℤ) (t : KeyTable)
      → FitsNew M same table drawn name limit t
      → IsInRange (created t.next_id (generate_api_key drawn) name limit)
  created-IsInRange drawn name limit t f = record {
    id_least = omega arith;
    id_most = omega (arith, f.id_most);
    limit_least = f.limit_least;
    limit_most = f.limit_most;
  }

  pub perform-All :
      (op : Operation) (t : KeyTable)
      → Fits M same table op t
      → All IsInRange t.keys
      → All IsInRange (perform same op t).1.keys
  unfolding perform Fits
  perform-All (find key) t f range = range
  perform-All (create drawn name limit) t f range =
      elim (Option-cases (find_key same (generate_api_key drawn) t.keys)) [
        | inl fresh ↦
            rw (fresh, All) (All-append t.keys _ range (created-IsInRange drawn name limit t f))
        | inr (info, there) ↦ rw (there, All) range
      ]
  perform-All list t f range = range
  perform-All (disable id) t f range = All-disable_all id t.keys range

  answer-IsPerformed :
      {Covers : Operation → Type 0} (server : IsServer M same table Covers) (op : Operation)
      (r : Repository Db) (conn : ℕ) (rest : List ℕ)
      → r.pool.idle ≡ conn ∷ rest
      → Covers op
      → Fits M same table op (table r.db)
      → All IsInRange (table r.db).keys
      → IsPerformed M same table op r conn rest
  unfolding Fits
  answer-IsPerformed server (find key) r conn rest idle c f range =
      find-IsPerformed M same table r conn rest idle key range f (server.selects conn key r.db c)
  answer-IsPerformed server (create drawn name limit) r conn rest idle c f range =
      elim (Option-cases (find_key same (generate_api_key drawn) (table r.db).keys)) [
        | inl fresh ↦
            fresh-IsPerformed M same table r conn rest idle drawn name limit f fresh
              (server.inserts conn drawn name limit r.db c fresh)
        | inr (info, there) ↦
            refused-IsPerformed M same table r conn rest idle drawn name limit info f there
              (server.refuses conn drawn name limit r.db info c there)
      ]
  answer-IsPerformed server list r conn rest idle c f range =
      list-IsPerformed M same table r conn rest idle range (server.lists conn r.db c)
  answer-IsPerformed server (disable id) r conn rest idle c f range =
      disable-IsPerformed M same table r conn rest idle id (server.updates conn id r.db c)

  -- A history that has returned what the table says, and after which the next call can be made.
  pub record IsRun (ops : List Operation) (r : Repository Db) : Type 0 where
    pub answered : (answer_all M ops r).0 ≡ ok (perform_all same ops (table r.db)).0
    pub stored : table (answer_all M ops r).1.db ≡ (perform_all same ops (table r.db)).1
    pub idle : 0 < length (answer_all M ops r).1.pool.idle
    pub range : All IsInRange (table (answer_all M ops r).1.db).keys

  pub history-IsRun :
      {Covers : Operation → Type 0} (server : IsServer M same table Covers) (ops : List Operation)
      (r : Repository Db)
      → 0 < length r.pool.idle
      → All IsInRange (table r.db).keys
      → AllFit M same table Covers ops (table r.db)
      → IsRun ops r
  unfolding answer_all perform_all AllFit
  history-IsRun server [] r idle range f = record {
    answered = refl;
    stored = refl;
    idle = idle;
    range = range;
  }
  history-IsRun {Covers} server (op ∷ ops) r idle range (c, f, more) =
      elim (List-cases r.pool.idle) [
        | inl empty ↦ absurd (ground arith)
        | inr (conn, rest, first) ↦
            let p = answer-IsPerformed server op r conn rest first c f range in
            let s = (answer M op r).1 in
            let later =
              history-IsRun server ops s (ground (arith, p.idle, length-append rest (conn ∷ [])))
                (subst (λ t. All IsInRange t.keys) (sym p.stored)
                  (perform-All op (table r.db) f range))
                (subst (λ t. AllFit M same table Covers ops t) (sym p.stored) more) in
            record {
              answered = ground (arith, p.answered, p.stored, later.answered);
              stored = ground (arith, p.answered, p.stored, later.answered, later.stored);
              idle = ground (arith, p.answered, later.answered, later.idle);
              range = simp (p.answered, later.answered) later.range;
            }
      ]

  -- The repository refines the table: where the server does what the statements say of the operations in
  -- use, a connection is idle, the numbers in the table are in the range of their types, and each text
  -- and number of the history fits its buffer and its type, every call of the history returns, and returns
  -- what the table says, and the server stores at the end what the table has become.
  pub answer_all-perform_all :
      {Covers : Operation → Type 0} (server : IsServer M same table Covers) (ops : List Operation)
      (r : Repository Db)
      → 0 < length r.pool.idle
      → All IsInRange (table r.db).keys
      → AllFit M same table Covers ops (table r.db)
      → ((answer_all M ops r).0 ≡ ok (perform_all same ops (table r.db)).0)
        × (table (answer_all M ops r).1.db ≡ (perform_all same ops (table r.db)).1)
  answer_all-perform_all server ops r idle range f =
      let run = history-IsRun server ops r idle range f in (run.answered, run.stored)
