-- ===== src/ThreadPool/Order.antt =====
-- No task is lost, run twice or overtaken, and no worker leaves one behind.
use ai_switch.Base.{
  ℕ, ◌≡◌, refl, sym, ap, ◌∙◌, Bool, true, List, [], ◌∷◌, ◌++◌, arith, append_assoc, append-nil,
  ◌==◌, Bool-cases, inl, inr,
}
use ai_switch.Base.Threads.{update}
use ai_switch.ThreadPool.{
  Pc, ready, falling_asleep, asleep, running, exited, Pool, woken, Step, submit, find_nothing,
  sleep, wake, take, finish, leave, set_stop, notify_all, Reach, here, next, new_pool,
}

pub record IsOrdered (s : Pool) : Type 0 where
  pub order : s.submitted ≡ s.taken ++ s.tasks
  pub left : (i : ℕ) → s.pc i ≡ exited → (s.stop ≡ true) × (s.tasks ≡ [])

-- A change of one worker that does not leave keeps what is known of those that have.
left-update :
    (s : Pool) (i : ℕ) (p : Pc) (stop : Bool) (tasks : List ℕ)
    → (p ≡ exited → (stop ≡ true) × (tasks ≡ []))
    → ((j : ℕ) → s.pc j ≡ exited → (stop ≡ true) × (tasks ≡ []))
    → (j : ℕ) → update s.pc i p j ≡ exited
    → (stop ≡ true) × (tasks ≡ [])
left-update s i p stop tasks here_too h j e = elim (Bool-cases (i == j)) [
  | inl same ↦ here_too (ground arith)
  | inr other ↦ h j (ground arith)
]

woken_exited : (p : Pc) → woken p ≡ exited → p ≡ exited
woken_exited ready e = cc
woken_exited falling_asleep e = cc
woken_exited asleep e = cc
woken_exited (running t) e = cc
woken_exited exited e = refl

Step-IsOrdered : {s t : Pool} → Step s t → IsOrdered s → IsOrdered t
Step-IsOrdered {s} (submit task free going) v = record {
  order = ap (λ l. l ++ task ∷ []) v.order ∙ append_assoc s.taken s.tasks (task ∷ []);
  left = λ i e. absurd (ground (arith, v.left i e));
}
Step-IsOrdered {s} (find_nothing i e free going empty) v = record {
  order = v.order;
  left = left-update s i falling_asleep s.stop s.tasks (λ h. cc) v.left;
}
Step-IsOrdered {s} (sleep i e) v = record {
  order = v.order;
  left = left-update s i asleep s.stop s.tasks (λ h. cc) v.left;
}
Step-IsOrdered {s} (wake i e) v = record {
  order = v.order;
  left = left-update s i ready s.stop s.tasks (λ h. cc) v.left;
}
Step-IsOrdered {s} (take i task rest e free some_task) v = record {
  order = v.order ∙ ap (λ l. s.taken ++ l) some_task ∙ sym (append_assoc s.taken (task ∷ []) rest);
  left =
      left-update s i (running task) s.stop rest (λ h. cc)
        (λ j h. absurd (ground (arith, v.left j h)));
}
Step-IsOrdered {s} (finish i task e) v = record {
  order = v.order;
  left = left-update s i ready s.stop s.tasks (λ h. cc) v.left;
}
Step-IsOrdered {s} (leave i e free stopped empty) v = record {
  order = v.order;
  left = left-update s i exited s.stop s.tasks (λ h. (stopped, empty)) v.left;
}
Step-IsOrdered {s} set_stop v = record { order = v.order; left = λ i e. (refl, (v.left i e).1) }
Step-IsOrdered {s} (notify_all stopped) v = record {
  order = v.order;
  left = λ i e. v.left i (woken_exited (s.pc i) e);
}

Reach-IsOrdered : {s t : Pool} → Reach s t → IsOrdered s → IsOrdered t
Reach-IsOrdered here v = v
Reach-IsOrdered (next r st) v = Step-IsOrdered st (Reach-IsOrdered r v)

-- In every interleaving the tasks taken so far, followed by those that wait, are the tasks submitted,
-- in the order of their submission.
pub Reach-order : {s : Pool} → Reach new_pool s → s.submitted ≡ s.taken ++ s.tasks
Reach-order r = (Reach-IsOrdered r (record { order = refl; left = λ j e. cc })).order

pub all_taken : (p : Pool) → p.tasks ≡ [] → p.submitted ≡ p.taken ++ p.tasks → p.taken ≡ p.submitted
all_taken p empty order = sym (order ∙ ap (λ l. p.taken ++ l) empty ∙ append-nil p.taken)

pub Reach-empty : {s : Pool} (i : ℕ) → Reach new_pool s → s.pc i ≡ exited → s.tasks ≡ []
Reach-empty i r e = ((Reach-IsOrdered r (record { order = refl; left = λ j h. cc })).left i e).1

-- In every interleaving, once a worker has left, the pool has stopped and every task that was ever
-- submitted has been taken.
pub Reach-left :
    {s : Pool} (i : ℕ)
    → Reach new_pool s
    → s.pc i ≡ exited
    → (s.stop ≡ true) × (s.taken ≡ s.submitted)
Reach-left {s} i r e =
    let v = Reach-IsOrdered r (record { order = refl; left = λ j h. cc }) in
    let (stopped, empty) = v.left i e in (stopped, all_taken s empty v.order)
