-- ===== src/Database/Repository/Shared/Linear.antt =====
-- Calls of many threads, in the order in which their statements ran.
use ai_switch.Base.{
  ℕ, ◌<◌, ◌≤◌, ◌≡◌, ◌≢◌, refl, sym, ap, subst, ◌∙◌, Bool, List, [], ◌∷◌, All, Bytes,
}
use ai_switch.Base.Result.{ok}
use ai_switch.Base.Threads.{occurrences}
use ai_switch.Database.Mysql.{Mysql}
use ai_switch.Database.ConnectionPool.Threads.{holding}
use ai_switch.Database.Repository.Created.{IsInRange}
use ai_switch.Database.Repository.History.{Operation}
use ai_switch.Database.Repository.Table.{KeyTable, perform, perform_all}
use ai_switch.Database.Repository.Table.Server.{IsServer}
use ai_switch.Database.Repository.Table.Refined.{perform-All}
use ai_switch.Database.Repository.Shared.{
  outside, borrowed, asked, returned, unserved, read_back, Sharing, ShareStep, borrows, asks,
  returns, fails, breaks, calls_again, ShareReach, from_here, one_more, shared,
}
use ai_switch.Database.Repository.Shared.Separate.{
  IsSeparate, statement-IsAsked, table-read_back, read_back-read_back, read_back-query,
}
use ai_switch.Database.Repository.Shared.Exclusive.{borrower, ShareReach-exclusive}
use ai_switch.Database.Repository.Shared.Due.{
  perform_all-append, FitsNow, Holds, Holds-other, Holds-kept, answer_due, IsLinear, Holds-update,
}

module _ (M : Mysql) (same : Bytes → Bytes → Bool) (table : M.Db → KeyTable)
    (Covers : Operation → Type 0) where
  open M use {Db, query}

  module _ (n : ℕ) (conns : List ℕ) (db0 : Db) (separate : IsSeparate M table)
      (server : IsServer M same table Covers) (once : (c : ℕ) → occurrences c conns ≤ 1) where
    abbrev Reaches : Sharing M → Type 0
    Reaches s = ShareReach M (FitsNow M same table Covers) n (shared M conns db0) s

    apart :
        {s : Sharing M} (i j c c' : ℕ)
        → Reaches s
        → i < n
        → j < n
        → i ≢ j
        → borrower (s.pc i) ≡ holding c
        → borrower (s.pc j) ≡ holding c'
        → c' ≢ c
    apart i j c c' r below below' h e e' = λ eq. absurd (
        h (
          ShareReach-exclusive M (FitsNow M same table Covers) n conns db0 c i j r (once c) below
            below' e (e' ∙ ap holding eq)))

    ShareStep-IsLinear :
        {s t : Sharing M}
        → Reaches s
        → ShareStep M (FitsNow M same table Covers) n s t
        → IsLinear M same table Covers (table db0) n s
        → IsLinear M same table Covers (table db0) n t
    unfolding Holds
    ShareStep-IsLinear {s} r (borrows i conn op pool below e taken) v = record {
      stored = v.stored;
      range = v.range;
      calls =
          Holds-update M same table Covers (table db0) n i s.pc (borrowed op conn) s.db s.log tt
            (λ j below' h. v.calls j below');
    }
    ShareStep-IsLinear {s} r (asks i conn op below e (u, f)) v =
        let a = statement-IsAsked M table separate same server op conn s.db u v.range in
        record {
          stored =
              a.stored
              ∙ ap (λ t. (perform same op t).1) v.stored
              ∙ sym (perform_all-append same s.log op (table db0));
          range =
              subst (λ t. All IsInRange t.keys) (sym a.stored)
                (perform-All M same table op (table s.db) f v.range);
          calls =
              Holds-update M same table Covers (table db0) n i s.pc _ _ _
                (a.read ∙ ap (λ t. ok (perform same op t).0) v.stored, ([], refl))
                (λ j below' h.
                  Holds-other M same table Covers (table db0) s.db _ s.log (op ∷ []) (s.pc j)
                    (λ op' c done before e'.
                      read_back-query M table separate op' c conn done _ s.db
                        (apart i j conn c r below below' h (ap borrower e) (ap borrower e')))
                    (v.calls j below'));
        }
    ShareStep-IsLinear {s} r (returns i conn op done before answer db below e read) v =
        let after : (read_back M op conn done s.db).1 ≡ db = ap (λ p. p.1) read in
        let kept : table db ≡ table s.db =
          ap table (sym after) ∙ table-read_back M table separate op conn done s.db in
        record {
          stored = kept ∙ v.stored;
          range = subst (λ t. All IsInRange t.keys) (sym kept) v.range;
          calls =
              Holds-update M same table Covers (table db0) n i s.pc (returned op answer before) db
                s.log
                (answer_due M same table Covers (table db0) s.db s.log op conn done before answer
                  (ap (λ p. p.0) read)
                  (subst (λ p. Holds M same table Covers (table db0) s.db s.log p) e
                    (v.calls i below)))
                (λ j below' h.
                  Holds-kept M same table Covers (table db0) s.db db s.log (s.pc j)
                    (λ op' c done' before' e'.
                      ap (λ d. (read_back M op' c done' d).0) (sym after)
                      ∙ read_back-read_back M table separate op' op c conn done' done s.db
                          (apart i j conn c r below below' h (ap borrower e) (ap borrower e')))
                    (v.calls j below'));
        }
    ShareStep-IsLinear {s} r (fails i op answer below e empty got) v = record {
      stored = v.stored;
      range = v.range;
      calls =
          Holds-update M same table Covers (table db0) n i s.pc (unserved op answer) s.db s.log got
            (λ j below' h. v.calls j below');
    }
    ShareStep-IsLinear {s} r (breaks i op below e empty got) v = record {
      stored = v.stored;
      range = v.range;
      calls = v.calls;
    }
    ShareStep-IsLinear {s} r (calls_again i op answer below e) v = record {
      stored = v.stored;
      range = v.range;
      calls =
          Holds-update M same table Covers (table db0) n i s.pc outside s.db s.log tt
            (λ j below' h. v.calls j below');
    }

    ShareReach-IsLinear :
        {s : Sharing M}
        → All IsInRange (table db0).keys
        → Reaches s
        → IsLinear M same table Covers (table db0) n s
    unfolding perform_all Holds
    ShareReach-IsLinear range from_here = record {
      stored = refl;
      range = range;
      calls = λ i below. tt;
    }
    ShareReach-IsLinear range (one_more r on st) =
        ShareStep-IsLinear r st (ShareReach-IsLinear range r)

    -- A call whose statement has run can always be finished: what it reads is an answer, so that
    -- its connection comes back.
    pub ShareReach-answer :
        {s : Sharing M} (i conn : ℕ) (op : Operation) (done : Bool) (before : List Operation)
        → All IsInRange (table db0).keys
        → ShareReach M (FitsNow M same table Covers) n (shared M conns db0) s
        → i < n
        → s.pc i ≡ asked op conn done before
        → (read_back M op conn done s.db).0
          ≡ ok (perform same op (perform_all same before (table db0)).1).0
    unfolding Holds
    ShareReach-answer {s} i conn op done before range r below e =
        (subst (λ p. Holds M same table Covers (table db0) s.db s.log p) e
          ((ShareReach-IsLinear range r).calls i below)).0
