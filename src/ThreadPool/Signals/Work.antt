-- ===== src/ThreadPool/Signals/Work.antt =====
-- The steps that work off the queue, and what is counted on the way.
use ai_switch.Base.{ℕ, ◌+◌, ◌-◌, ◌*◌, ◌<◌, ◌≤◌, ◌≡◌, refl, ◌⊎◌, length, arith, inl, inr}
use ai_switch.Base.Threads.{update, total}
use ai_switch.ThreadPool.{
  Pc, ready, falling_asleep, asleep, running, exited, Pool, Step, submit, find_nothing, sleep, wake,
  take, finish, leave, set_stop, notify_all,
}
use ai_switch.ThreadPool.Signals.{Signals, Moves, SignalStep, moves, notifies}
use ai_switch.ThreadPool.Signals.Awake.{looks, falls}

-- The steps of a worker that works off the queue.
unfoldable pub Works : {s t : Pool} → Step s t → Type 0
Works (submit task free going) = ⊥
Works (find_nothing i e free going empty) = ⊥
Works (sleep i e) = Unit {0}
Works (wake i e) = ⊥
Works (take i task rest e free some_task) = Unit {0}
Works (finish i task e) = Unit {0}
Works (leave i e free stopped empty) = ⊥
Works set_stop = ⊥
Works (notify_all stopped) = ⊥

-- Such a step, or a notification that wakes a worker.
pub data Advance (n : ℕ) (s : Signals) : Signals → Type 0 where
  works :
      {t : Pool} (st : Step s.pool t)
      → Moves n st
      → Works st
      → Advance n s (record { pool = t; pending = s.pending })
  notified :
      (i : ℕ)
      → 0 < s.pending
      → i < n
      → s.pool.pc i ≡ asleep
      → Advance n s (record {
        pool = record s.pool { pc = update s.pool.pc i ready };
        pending = s.pending - 1;
      })

pub data Advances (n : ℕ) : Signals → Signals → Type 0 where
  no_more : {s : Signals} → Advances n s s
  one_first : {s t u : Signals} → Advance n s t → Advances n t u → Advances n s u

pub Advance-SignalStep : (n : ℕ) {s t : Signals} → Advance n s t → SignalStep n s t
Advance-SignalStep n (works st m w) = moves st m
Advance-SignalStep n (notified i some below e) = notifies i some below e

pub submitted-Advance :
    (n : ℕ) {s t : Signals} → Advance n s t → t.pool.submitted ≡ s.pool.submitted
unfolding Works
submitted-Advance n (works (submit task free going) m w) = absurd w
submitted-Advance n (works (find_nothing i e free going empty) m w) = absurd w
submitted-Advance n (works (sleep i e) m w) = refl
submitted-Advance n (works (wake i e) m w) = refl
submitted-Advance n (works (take i task rest e free some_task) m w) = refl
submitted-Advance n (works (finish i task e) m w) = refl
submitted-Advance n (works (leave i e free stopped empty) m w) = refl
submitted-Advance n (works set_stop m w) = refl
submitted-Advance n (works (notify_all stopped) m w) = refl
submitted-Advance n (notified i some below e) = refl

abbrev pub busy : Pc → ℕ
busy ready = 0
busy falling_asleep = 1
busy asleep = 0
busy (running task) = 1
busy exited = 0

abbrev pub sleeps : Pc → ℕ
sleeps ready = 0
sleeps falling_asleep = 0
sleeps asleep = 1
sleeps (running task) = 0
sleeps exited = 0

-- The steps that the work in sight takes.
abbrev pub work : ℕ → Signals → ℕ
work n s = 2 * length s.pool.tasks + total busy n s.pool.pc + s.pending

pub Pc-looks : (p : Pc) → 0 < looks p → p ≡ ready
Pc-looks ready h = refl
Pc-looks falling_asleep h = absurd (omega arith)
Pc-looks asleep h = absurd (omega arith)
Pc-looks (running t) h = absurd (omega arith)
Pc-looks exited h = absurd (omega arith)

pub Pc-sleeps : (p : Pc) → 0 < sleeps p → p ≡ asleep
Pc-sleeps ready h = absurd (omega arith)
Pc-sleeps falling_asleep h = absurd (omega arith)
Pc-sleeps asleep h = refl
Pc-sleeps (running t) h = absurd (omega arith)
Pc-sleeps exited h = absurd (omega arith)

pub Pc-busy : (p : Pc) → 0 < busy p → (p ≡ falling_asleep) ⊎ ((task : ℕ) × (p ≡ running task))
Pc-busy ready h = absurd (omega arith)
Pc-busy falling_asleep h = inl refl
Pc-busy asleep h = absurd (omega arith)
Pc-busy (running t) h = inr (t, refl)
Pc-busy exited h = absurd (omega arith)

pub falls-busy : (p : Pc) → falls p ≤ busy p
falls-busy ready = omega arith
falls-busy falling_asleep = omega arith
falls-busy asleep = omega arith
falls-busy (running t) = omega arith
falls-busy exited = omega arith

-- A worker that does nothing of these has left.
pub Pc-exited : (p : Pc) → looks p ≡ 0 → busy p ≡ 0 → sleeps p ≡ 0 → p ≡ exited
Pc-exited ready h k l = absurd (omega arith)
Pc-exited falling_asleep h k l = absurd (omega arith)
Pc-exited asleep h k l = absurd (omega arith)
Pc-exited (running t) h k l = absurd (omega arith)
Pc-exited exited h k l = refl
