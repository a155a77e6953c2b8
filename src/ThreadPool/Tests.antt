-- ===== src/ThreadPool/Tests.antt =====
-- Runs of a pool: a worker takes the one task, finishes it, and leaves when the pool stops. A worker
-- sleeps, and a task is submitted to it.
use ai_switch.Base.{◌≡◌, refl, true, false, [], ◌∷◌, some, arith}
use ai_switch.Base.Threads.{update}
use ai_switch.ThreadPool.{
  Pool, ready, running, exited, asleep, submit, take, finish, set_stop, leave, falling_asleep,
  find_nothing, sleep, Reach, here, next, new_pool,
}
use ai_switch.ThreadPool.Signals.{
  Signals, SignalReach, at_start, and_then_step, moves, submits, queued, Moves, new_signals,
}
use ai_switch.ThreadPool.Signals.Ends.{Ends, stays}
use ai_switch.ThreadPool.Signals.Shutdown.{SignalReach-Ends}
use ai_switch.Base.Threads.{total}
use ai_switch.ThreadPool.Signals.Work.{Advances}
use ai_switch.ThreadPool.Signals.Drain.{SignalReach-drains}
use ai_switch.ThreadPool.Wakeup.{missed_wakeup}
use ai_switch.ThreadPool.Queue.{submitted, handed, replay, all_submitted, all_handed, replay-events}

abbrev filled : Pool
filled = record new_pool { tasks = 7 ∷ []; submitted = 7 ∷ [] }

abbrev busy : Pool
busy = record filled { tasks = []; taken = 7 ∷ []; pc = update filled.pc 0 (running 7) }

abbrev idle : Pool
idle = record busy { pc = update busy.pc 0 ready }

abbrev stopped : Pool
stopped = record idle { stop = true }

abbrev over : Pool
over = record stopped { pc = update stopped.pc 0 exited }

to_busy : Reach new_pool busy
to_busy = next (next here (submit 7 refl refl)) (take 0 7 [] refl refl refl)

to_over : Reach new_pool over
to_over = next (next (next to_busy (finish 0 7 refl)) set_stop) (leave 0 refl refl refl refl)

missed_wakeup_example :
    (t : Pool) × Reach new_pool t × (t.pc 3 ≡ asleep) × (t.stop ≡ true) × (t.notified ≡ true)
missed_wakeup_example = missed_wakeup new_pool 3 refl refl refl refl

replay-events_example :
    (replay (submitted 7 ∷ handed 7 ∷ []) [] ≡ some [])
    × (all_submitted (submitted 7 ∷ handed 7 ∷ []) ≡ 7 ∷ [])
    × (all_handed (submitted 7 ∷ handed 7 ∷ []) ≡ 7 ∷ [])
unfolding to_over to_busy
replay-events_example = replay-events to_over

abbrev falling : Pool
falling = record new_pool { locked = true; pc = update new_pool.pc 0 falling_asleep }

abbrev sleeping : Pool
sleeping = record falling { locked = false; pc = update falling.pc 0 asleep }

abbrev signalled : Signals
signalled = record { pool = queued 7 sleeping; pending = 1 }

to_signalled : SignalReach 1 new_signals signalled
unfolding Moves
to_signalled =
    and_then_step
      (and_then_step
        (and_then_step at_start (moves (find_nothing 0 refl refl refl refl) (omega arith)))
        (moves (sleep 0 refl) (omega arith)))
      (submits 7 refl refl)

SignalReach-drains_example :
    (t : Signals) × Advances 1 signalled t × (t.pool.tasks ≡ []) × (t.pool.taken ≡ 7 ∷ [])
SignalReach-drains_example = SignalReach-drains 1 (omega arith) to_signalled

abbrev halted : Signals
halted = record { pool = record (queued 7 new_pool) { stop = true }; pending = 1 }

SignalReach-Ends_example :
    (t : Signals) × Ends 2 halted t × (total stays 2 t.pool.pc ≡ 0) × (t.pool.taken ≡ 7 ∷ [])
unfolding Moves total
SignalReach-Ends_example =
    SignalReach-Ends 2 (omega arith)
      (and_then_step (and_then_step at_start (submits 7 refl refl)) (moves set_stop tt)) refl refl
