-- ===== src/Database/Repository/Shared/Due.antt =====
-- What each call has read, or will read, in the order in which the statements ran.
use ai_switch.Base.{
  ℕ, ◌<◌, ◌≡◌, ◌≢◌, refl, sym, ap, subst, ◌∙◌, Bool, List, [], ◌∷◌, ◌++◌, append_assoc, append-nil,
  All, arith, ◌==◌, Bool-cases, inl, inr, Bytes,
}
use ai_switch.Base.Result.{ok}
use ai_switch.Base.Threads.{update}
use ai_switch.Database.Mysql.{Mysql}
use ai_switch.Database.Repository.Created.{IsInRange}
use ai_switch.Database.Repository.History.{Operation}
use ai_switch.Database.Repository.Table.{KeyTable, Answer, perform, perform_all}
use ai_switch.Database.Repository.Table.Server.{Fits}
use ai_switch.Database.Repository.Shared.{
  Call, outside, borrowed, asked, returned, unserved, no_connection, read_back, Sharing,
}

pub perform_all-append :
    (same : Bytes → Bytes → Bool) (before : List Operation) (op : Operation) (t : KeyTable)
    → (perform_all same (before ++ op ∷ []) t).1 ≡ (perform same op (perform_all same before t).1).1
unfolding perform_all
perform_all-append same [] op t = refl
perform_all-append same (o ∷ os) op t = perform_all-append same os op (perform same o t).1

ok_eq : (a b : Answer) → ok a ≡ ok b → a ≡ b
ok_eq a b e = cc

-- The call stands in the log, behind those before it.
abbrev pub IsLogged : List Operation → Operation → List Operation → Type 0
IsLogged before op log = (more : List Operation) × (log ≡ before ++ op ∷ more)

IsLogged-append :
    (before : List Operation) (op : Operation) (log later : List Operation)
    → IsLogged before op log
    → IsLogged before op (log ++ later)
IsLogged-append before op log later (more, e) =
    (more ++ later, ap (λ l. l ++ later) e ∙ append_assoc before (op ∷ more) later)

module _ (M : Mysql) (same : Bytes → Bytes → Bool) (table : M.Db → KeyTable)
    (Covers : Operation → Type 0) where
  open M use {Db, query}

  -- The calls in use, where their texts and numbers fit.
  abbrev pub FitsNow : Operation → Db → Type 0
  FitsNow op db = Covers op × Fits M same table op (table db)

  module _ (t0 : KeyTable) where
    -- What the table says to a call.
    abbrev pub due : List Operation → Operation → Answer
    due before op = (perform same op (perform_all same before t0).1).0

    unfoldable pub Holds : Db → List Operation → Call → Type 0
    Holds db log outside = Unit {0}
    Holds db log (borrowed op conn) = Unit {0}
    Holds db log (asked op conn done before) =
        ((read_back M op conn done db).0 ≡ ok (due before op)) × IsLogged before op log
    Holds db log (returned op answer before) = (answer ≡ due before op) × IsLogged before op log
    Holds db log (unserved op answer) = no_connection op ≡ ok answer

    -- A step of another thread.
    pub Holds-other :
        (db db' : Db) (log later : List Operation) (p : Call)
        → ((op : Operation) (c : ℕ) (done : Bool) (before : List Operation)
            → p ≡ asked op c done before
            → (read_back M op c done db').0 ≡ (read_back M op c done db).0)
        → Holds db log p
        → Holds db' (log ++ later) p
    unfolding Holds
    Holds-other db db' log later outside kept h = tt
    Holds-other db db' log later (borrowed op conn) kept h = tt
    Holds-other db db' log later (asked op conn done before) kept (h, l) =
        (kept op conn done before refl ∙ h, IsLogged-append before op log later l)
    Holds-other db db' log later (returned op answer before) kept (h, l) =
        (h, IsLogged-append before op log later l)
    Holds-other db db' log later (unserved op answer) kept h = h

    pub Holds-kept :
        (db db' : Db) (log : List Operation) (p : Call)
        → ((op : Operation) (c : ℕ) (done : Bool) (before : List Operation)
            → p ≡ asked op c done before
            → (read_back M op c done db').0 ≡ (read_back M op c done db).0)
        → Holds db log p
        → Holds db' log p
    Holds-kept db db' log p kept h =
        subst (λ l. Holds db' l p) (append-nil log) (Holds-other db db' log [] p kept h)

    -- What a call has read is what it returns.
    pub answer_due :
        (db : Db) (log : List Operation) (op : Operation) (c : ℕ) (done : Bool)
        (before : List Operation) (answer : Answer)
        → (read_back M op c done db).0 ≡ ok answer
        → Holds db log (asked op c done before)
        → (answer ≡ due before op) × IsLogged before op log
    unfolding Holds
    answer_due db log op c done before answer e (h, l) = (ok_eq _ _ (sym e ∙ h), l)

    pub record IsLinear (n : ℕ) (s : Sharing M) : Type 0 where
      pub stored : table s.db ≡ (perform_all same s.log t0).1
      pub range : All IsInRange (table s.db).keys
      pub calls : (i : ℕ) → i < n → Holds s.db s.log (s.pc i)

    pub Holds-update :
        (n i : ℕ) (f : ℕ → Call) (p : Call) (db : Db) (log : List Operation)
        → Holds db log p
        → ((j : ℕ) → j < n → i ≢ j → Holds db log (f j))
        → (j : ℕ) → j < n
        → Holds db log (update f i p j)
    Holds-update n i f p db log own h j below = elim (Bool-cases (i == j)) [
      | inl same_thread ↦ subst (λ q. Holds db log q) (ground arith) own
      | inr apart ↦ subst (λ q. Holds db log q) (ground arith) (h j below (λ e. ground arith))
    ]
