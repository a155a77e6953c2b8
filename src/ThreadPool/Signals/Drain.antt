-- ===== src/ThreadPool/Signals/Drain.antt =====
-- The workers can always bring the queue to its end by themselves.
use ai_switch.Base.{
  ℕ, zero, suc, ◌<◌, ◌≤◌, ◌≡◌, ◌∙◌, false, List, [], ◌∷◌, arith, ltb, Bool-cases, List-cases, inl,
  inr,
}
use ai_switch.Base.Threads.{total, total-update, total-le, total_pos}
use ai_switch.ThreadPool.{ready, asleep, running, exited, sleep, take, finish}
use ai_switch.ThreadPool.Order.{Reach-order, Reach-empty, all_taken}
use ai_switch.ThreadPool.Signals.{Signals, Moves, SignalReach, and_then_step, new_signals}
use ai_switch.ThreadPool.Signals.Awake.{
  looks, falls, IsAwake, SignalReach-IsAwake, SignalReach-Reach,
}
use ai_switch.ThreadPool.Signals.Work.{
  Works, Advance, works, notified, Advances, no_more, one_first, Advance-SignalStep,
  submitted-Advance, busy, sleeps, work, Pc-looks, Pc-sleeps, Pc-busy, Pc-exited, falls-busy,
}

Progress : ℕ → Signals → Type 0
Progress n s = (t : Signals) × Advance n s t × (work n t < work n s)

module _ (n : ℕ) (s : Signals) where
  Progress-busy : (i : ℕ) → i < n → 0 < busy (s.pool.pc i) → Progress n s
  unfolding Progress Moves Works
  Progress-busy i below h = elim (Pc-busy (s.pool.pc i) h) [
    | inl e ↦ (
      _,
      works (sleep i e) below tt,
      ground (arith, total-update busy n s.pool.pc i asleep below),
    )
    | inr (task, e) ↦ (
      _,
      works (finish i task e) below tt,
      ground (arith, total-update busy n s.pool.pc i ready below),
    )
  ]

  Progress-ready :
      (i task : ℕ) (rest : List ℕ)
      → i < n
      → s.pool.locked ≡ false
      → s.pool.tasks ≡ task ∷ rest
      → s.pool.pc i ≡ ready
      → Progress n s
  unfolding Progress Moves Works
  Progress-ready i task rest below free some_task e = (
    _,
    works (take i task rest e free some_task) below tt,
    ground (arith, total-update busy n s.pool.pc i (running task) below),
  )

  Progress-asleep :
      (i task : ℕ) (rest : List ℕ)
      → IsAwake n s
      → i < n
      → s.pool.tasks ≡ task ∷ rest
      → total looks n s.pool.pc ≡ 0
      → s.pool.pc i ≡ asleep
      → Progress n s
  unfolding Progress
  Progress-asleep i task rest v below some_task no_one e =
      let some : 0 < s.pending = ground (arith, v.bound i below e) in
      (_, notified i some below e, ground (arith, total-update busy n s.pool.pc i ready below))

  -- Nobody holds the mutex across a step while nobody is at work.
  free_mutex : IsAwake n s → total busy n s.pool.pc ≡ 0 → s.pool.locked ≡ false
  free_mutex v h = elim (Bool-cases s.pool.locked) [
    | inl held ↦
        let (i, below, falling) = total_pos falls n s.pool.pc (ground (arith, v.mutex)) in
        absurd (omega (arith, falls-busy (s.pool.pc i), total-le busy n s.pool.pc i below))
    | inr free ↦ free
  ]

  -- If no worker is in any of the other states, the first one has left.
  first_exited :
      1 ≤ n
      → total busy n s.pool.pc ≡ 0
      → total looks n s.pool.pc ≡ 0
      → total sleeps n s.pool.pc ≡ 0
      → s.pool.pc 0 ≡ exited
  first_exited some_worker h k l =
      Pc-exited (s.pool.pc 0) (omega (arith, total-le looks n s.pool.pc 0 some_worker))
        (omega (arith, total-le busy n s.pool.pc 0 some_worker))
        (omega (arith, total-le sleeps n s.pool.pc 0 some_worker))

  progress :
      (task : ℕ) (rest : List ℕ)
      → 1 ≤ n
      → SignalReach n new_signals s
      → s.pool.tasks ≡ task ∷ rest
      → Progress n s
  progress task rest some_worker r some_task =
      let v = SignalReach-IsAwake n r in
      elim (Bool-cases (ltb 0 (total busy n s.pool.pc))) [
        | inl at_work ↦
            let (i, below, h) = total_pos busy n s.pool.pc (ground arith) in Progress-busy i below h
        | inr none_at_work ↦ elim (Bool-cases (ltb 0 (total looks n s.pool.pc))) [
          | inl looking ↦
              let (i, below, h) = total_pos looks n s.pool.pc (ground arith) in
              Progress-ready i task rest below (free_mutex v (ground arith)) some_task
                (Pc-looks (s.pool.pc i) h)
          | inr none_looks ↦ elim (Bool-cases (ltb 0 (total sleeps n s.pool.pc))) [
            | inl asleep_one ↦
                let (i, below, h) = total_pos sleeps n s.pool.pc (ground arith) in
                Progress-asleep i task rest v below some_task (ground arith)
                  (Pc-sleeps (s.pool.pc i) h)
            | inr none_sleeps ↦
                let gone = first_exited some_worker (ground arith) (ground arith) (ground arith) in
                absurd (ground (arith, Reach-empty 0 (SignalReach-Reach n r) gone))
          ]
        ]
      ]

-- The pool at the end of such steps.
Drained : ℕ → Signals → Type 0
Drained n s =
    (t : Signals) × Advances n s t × (t.pool.tasks ≡ []) × (t.pool.taken ≡ s.pool.submitted)

Drained-first : (n : ℕ) {s t : Signals} → Advance n s t → Drained n t → Drained n s
unfolding Drained
Drained-first n {s} {t} st (u, rest, empty, all) =
    (u, one_first st rest, empty, all ∙ submitted-Advance n st)

Drained-on :
    (n fuel : ℕ) (s : Signals) → 1 ≤ n → SignalReach n new_signals s → work n s < fuel → Drained n s
unfolding Drained Progress
Drained-on n zero s some_worker r enough = absurd (omega arith)
Drained-on n (suc fuel) s some_worker r enough = elim (List-cases s.pool.tasks) [
  | inl empty ↦ (s, no_more, empty, all_taken s.pool empty (Reach-order (SignalReach-Reach n r)))
  | inr (task, rest, some_task) ↦
      let (t, st, less) = progress n s task rest some_worker r some_task in
      Drained-first n st
        (Drained-on n fuel t some_worker (and_then_step r (Advance-SignalStep n st)) (omega arith))
]

-- Whatever at least one worker, the submissions and the destructor have done, in any interleaving, steps
-- of workers that go to sleep, take a task or finish one, and calls of `notify_one` that are due, lead to
-- a state where no task waits and the tasks submitted have all been taken, in the order of their
-- submission. No worker has to wake up by itself.
pub SignalReach-drains :
    (n : ℕ) {s : Signals}
    → 1 ≤ n
    → SignalReach n new_signals s
    → (t : Signals) × Advances n s t × (t.pool.tasks ≡ []) × (t.pool.taken ≡ s.pool.submitted)
unfolding Drained
SignalReach-drains n {s} some_worker r = Drained-on n (suc (work n s)) s some_worker r (omega arith)
