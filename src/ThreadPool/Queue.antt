-- ===== src/ThreadPool/Queue.antt =====
-- The pool as a queue: what a user of `submit` and of the workers may rely on.
use ai_switch.Base.{
  ℕ, ◌≡◌, refl, ap, ◌∙◌, List, [], ◌∷◌, ◌++◌, append-nil, Option, none, some, ◌==◌, if◌then◌else◌,
  arith, Bool-cases, inl, inr,
}
use ai_switch.ThreadPool.{
  Pool, Step, submit, find_nothing, sleep, wake, take, finish, leave, set_stop, notify_all, Reach,
  here, next, new_pool,
}

-- What is seen of a pool: a task comes in, or a worker gets one.
pub data Event : Type 0 where
  submitted : (task : ℕ) → Event
  handed : (task : ℕ) → Event

abbrev pub event : {s t : Pool} → Step s t → List Event
event (submit task free going) = submitted task ∷ []
event (find_nothing i e free going empty) = []
event (sleep i e) = []
event (wake i e) = []
event (take i task rest e free some_task) = handed task ∷ []
event (finish i task e) = []
event (leave i e free stopped empty) = []
event set_stop = []
event (notify_all stopped) = []

-- The events of a run, the first one first.
abbrev pub events : {s t : Pool} → Reach s t → List Event
events here = []
events (next r st) = events r ++ event st

-- A queue that gets and gives these tasks: what it holds at the end, `none` where it gives another task
-- than the one at its front.
abbrev pub replay : List Event → List ℕ → Option (List ℕ)
replay [] q = some q
replay (submitted task ∷ es) q = replay es (q ++ task ∷ [])
replay (handed task ∷ es) [] = none
replay (handed task ∷ es) (front ∷ q) =
    let later = replay es q in if task == front then later else none

abbrev pub all_submitted : List Event → List ℕ
all_submitted [] = []
all_submitted (submitted task ∷ es) = task ∷ all_submitted es
all_submitted (handed task ∷ es) = all_submitted es

abbrev pub all_handed : List Event → List ℕ
all_handed [] = []
all_handed (submitted task ∷ es) = all_handed es
all_handed (handed task ∷ es) = task ∷ all_handed es

replay-append :
    (es fs : List Event) (p q : List ℕ) → replay es p ≡ some q → replay (es ++ fs) p ≡ replay fs q
replay-append [] fs p q e = cc
replay-append (submitted task ∷ es) fs p q e = replay-append es fs (p ++ task ∷ []) q e
replay-append (handed task ∷ es) fs [] q e = cc
replay-append (handed task ∷ es) fs (front ∷ p) q e = elim (Bool-cases (task == front)) [
  | inl same ↦ ground (arith, replay-append es fs p q)
  | inr other ↦ absurd (ground arith)
]

all_submitted-append :
    (es fs : List Event) → all_submitted (es ++ fs) ≡ all_submitted es ++ all_submitted fs
all_submitted-append [] fs = refl
all_submitted-append (submitted task ∷ es) fs = ap (λ l. task ∷ l) (all_submitted-append es fs)
all_submitted-append (handed task ∷ es) fs = all_submitted-append es fs

all_handed-append : (es fs : List Event) → all_handed (es ++ fs) ≡ all_handed es ++ all_handed fs
all_handed-append [] fs = refl
all_handed-append (submitted task ∷ es) fs = all_handed-append es fs
all_handed-append (handed task ∷ es) fs = ap (λ l. task ∷ l) (all_handed-append es fs)

-- A step against the queue, and what the pool has noted.
record IsSeen (s t : Pool) (es : List Event) : Type 0 where
  queue : replay es s.tasks ≡ some t.tasks
  came : t.submitted ≡ s.submitted ++ all_submitted es
  went : t.taken ≡ s.taken ++ all_handed es

unseen :
    (s t : Pool) → t.tasks ≡ s.tasks → t.submitted ≡ s.submitted → t.taken ≡ s.taken → IsSeen s t []
unseen s t e f g = record {
  queue = ground arith;
  came = ground (arith, append-nil s.submitted);
  went = ground (arith, append-nil s.taken);
}

event-IsSeen : {s t : Pool} (st : Step s t) → IsSeen s t (event st)
event-IsSeen {s} (submit task free going) = record {
  queue = refl;
  came = refl;
  went = ground (arith, append-nil s.taken);
}
event-IsSeen {s} {t} (find_nothing i e free going empty) = unseen s t refl refl refl
event-IsSeen {s} {t} (sleep i e) = unseen s t refl refl refl
event-IsSeen {s} {t} (wake i e) = unseen s t refl refl refl
event-IsSeen {s} (take i task rest e free some_task) = record {
  queue = ground arith;
  came = ground (arith, append-nil s.submitted);
  went = refl;
}
event-IsSeen {s} {t} (finish i task e) = unseen s t refl refl refl
event-IsSeen {s} {t} (leave i e free stopped empty) = unseen s t refl refl refl
event-IsSeen {s} {t} set_stop = unseen s t refl refl refl
event-IsSeen {s} {t} (notify_all stopped) = unseen s t refl refl refl

-- The pool refines a queue: in every interleaving of its users and workers, a queue that starts empty and
-- gets at its end the tasks that are submitted gives, whenever a worker gets a task, the same task from
-- its front, and holds at the end what the pool holds. The tasks submitted and those that workers got are
-- noted in this order.
pub replay-events :
    {s : Pool} (r : Reach new_pool s)
    → (replay (events r) [] ≡ some s.tasks)
      × (all_submitted (events r) ≡ s.submitted)
      × (all_handed (events r) ≡ s.taken)
replay-events here = (refl, refl, refl)
replay-events (next {t} r st) =
    let (queue, came, went) = replay-events r in
    let v = event-IsSeen st in
    (
      replay-append (events r) (event st) [] t.tasks queue ∙ v.queue,
      all_submitted-append (events r) (event st) ∙ ground (arith, came, v.came),
      all_handed-append (events r) (event st) ∙ ground (arith, went, v.went),
    )
