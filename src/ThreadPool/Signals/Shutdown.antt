-- ===== src/ThreadPool/Signals/Shutdown.antt =====
-- The end of the pool: `~thread_pool` joins the workers, which leave once the queue is empty.
use ai_switch.Base.{
  ℕ, zero, suc, ◌+◌, ◌*◌, ◌<◌, ◌≤◌, ◌≡◌, refl, ◌∙◌, true, false, length, arith, ltb, Bool-cases,
  List-cases, inl, inr,
}
use ai_switch.Base.Threads.{total, total-update, total-le, total_pos}
use ai_switch.ThreadPool.{ready, running, exited}
use ai_switch.ThreadPool.Order.{Reach-order, Reach-empty, all_taken}
use ai_switch.ThreadPool.Signals.{Signals, SignalReach, and_then_step, new_signals}
use ai_switch.ThreadPool.Signals.Awake.{falls, IsAwake, SignalReach-IsAwake, SignalReach-Reach}
use ai_switch.ThreadPool.Signals.Ends.{
  EndStep, takes, finishes, leaves, Ends, all_over, ends_first, EndStep-SignalStep, stays, rests,
  ahead, falls-rests, Pc-stays, Pc-left,
}

-- The steps to the end.
abbrev to_end : ℕ → Signals → ℕ
to_end n s = 3 * length s.pool.tasks + total ahead n s.pool.pc

-- A step that keeps what the next one needs.
Nearer : ℕ → Signals → Type 0
Nearer n s =
    (t : Signals) × EndStep n s t
    × (t.pool.stop ≡ true)
    × (total rests n t.pool.pc ≡ 0)
    × (t.pool.submitted ≡ s.pool.submitted)
    × (to_end n t < to_end n s)

module _ (n : ℕ) (s : Signals) (stopped : s.pool.stop ≡ true)
    (no_rest : total rests n s.pool.pc ≡ 0) where
  free_end : IsAwake n s → s.pool.locked ≡ false
  free_end v = elim (Bool-cases s.pool.locked) [
    | inl held ↦
        let (i, below, falling) = total_pos falls n s.pool.pc (ground (arith, v.mutex)) in
        absurd (omega (arith, falls-rests (s.pool.pc i), total-le rests n s.pool.pc i below))
    | inr free ↦ free
  ]

  Nearer-running : (i task : ℕ) → i < n → s.pool.pc i ≡ running task → Nearer n s
  unfolding Nearer
  Nearer-running i task below e = (
    _,
    finishes i task below e,
    stopped,
    ground (arith, total-update rests n s.pool.pc i ready below),
    refl,
    ground (arith, total-update ahead n s.pool.pc i ready below),
  )

  Nearer-ready : (i : ℕ) → IsAwake n s → i < n → s.pool.pc i ≡ ready → Nearer n s
  unfolding Nearer
  Nearer-ready i v below e = elim (List-cases s.pool.tasks) [
    | inl empty ↦ (
      _,
      leaves i below e (free_end v) stopped empty,
      stopped,
      ground (arith, total-update rests n s.pool.pc i exited below),
      refl,
      ground (arith, total-update ahead n s.pool.pc i exited below),
    )
    | inr (task, rest, some_task) ↦ (
      _,
      takes i task rest below e (free_end v) some_task,
      stopped,
      ground (arith, total-update rests n s.pool.pc i (running task) below),
      refl,
      ground (arith, total-update ahead n s.pool.pc i (running task) below),
    )
  ]

  nearer : IsAwake n s → 0 < total stays n s.pool.pc → Nearer n s
  nearer v some_stay =
      let (i, below, h) = total_pos stays n s.pool.pc some_stay in
      elim (Pc-stays (s.pool.pc i) h (omega (arith, total-le rests n s.pool.pc i below))) [
        | inl e ↦ Nearer-ready i v below e
        | inr (task, e) ↦ Nearer-running i task below e
      ]

-- The pool at the end of such steps.
Over : ℕ → Signals → Type 0
Over n s =
    (t : Signals) × Ends n s t × (total stays n t.pool.pc ≡ 0) × (t.pool.taken ≡ s.pool.submitted)

Over-first :
    (n : ℕ) {s t : Signals}
    → EndStep n s t
    → t.pool.submitted ≡ s.pool.submitted
    → Over n t
    → Over n s
unfolding Over
Over-first n st same (u, rest, left, all) = (u, ends_first st rest, left, all ∙ same)

Over-on :
    (n fuel : ℕ) (s : Signals)
    → 1 ≤ n
    → SignalReach n new_signals s
    → s.pool.stop ≡ true
    → total rests n s.pool.pc ≡ 0
    → to_end n s < fuel
    → Over n s
unfolding Over Nearer
Over-on n zero s some_worker r stopped no_rest enough = absurd (omega arith)
Over-on n (suc fuel) s some_worker r stopped no_rest enough =
    elim (Bool-cases (ltb 0 (total stays n s.pool.pc))) [
      | inl some_stay ↦
          let (t, st, stopped', no_rest', same, less) =
            nearer n s stopped no_rest (SignalReach-IsAwake n r) (ground arith) in
          Over-first n st same (
            Over-on n fuel t some_worker (and_then_step r (EndStep-SignalStep n st)) stopped'
              no_rest' (omega arith))
      | inr none_stays ↦
          let reach = SignalReach-Reach n r in
          let left : total stays n s.pool.pc ≡ 0 = ground arith in
          let gone =
            Pc-left (s.pool.pc 0) (omega (arith, total-le stays n s.pool.pc 0 some_worker)) in
          (s, all_over, left, all_taken s.pool (Reach-empty 0 reach gone) (Reach-order reach))
    ]

-- Once the pool has stopped and no worker sleeps or is about to, steps of the workers alone, of which
-- there is one at least, lead to a state where all of them have left and every task that was submitted has
-- been taken, so that the joins of the destructor return.
pub SignalReach-Ends :
    (n : ℕ) {s : Signals}
    → 1 ≤ n
    → SignalReach n new_signals s
    → s.pool.stop ≡ true
    → total rests n s.pool.pc ≡ 0
    → (t : Signals) × Ends n s t × (total stays n t.pool.pc ≡ 0) × (t.pool.taken ≡ s.pool.submitted)
unfolding Over
SignalReach-Ends n {s} some_worker r stopped no_rest =
    Over-on n (suc (to_end n s)) s some_worker r stopped no_rest (omega arith)
