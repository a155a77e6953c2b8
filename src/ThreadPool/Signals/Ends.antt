-- ===== src/ThreadPool/Signals/Ends.antt =====
-- The steps to the end of the pool, and what is counted on the way.
use ai_switch.Base.{ℕ, ◌<◌, ◌≤◌, ◌≡◌, ◌⊎◌, refl, true, false, List, [], ◌∷◌, ◌++◌, arith, inl, inr}
use ai_switch.Base.Threads.{update}
use ai_switch.ThreadPool.{Pc, ready, falling_asleep, asleep, running, exited, take, finish, leave}
use ai_switch.ThreadPool.Signals.{Signals, Moves, SignalStep, moves}
use ai_switch.ThreadPool.Signals.Awake.{falls}

-- The steps of a worker that is not asleep, when the pool has stopped.
pub data EndStep (n : ℕ) (s : Signals) : Signals → Type 0 where
  takes :
      (i task : ℕ) (rest : List ℕ)
      → i < n
      → s.pool.pc i ≡ ready
      → s.pool.locked ≡ false
      → s.pool.tasks ≡ task ∷ rest
      → EndStep n s (record s {
        pool = record s.pool {
          tasks = rest;
          taken = s.pool.taken ++ task ∷ [];
          pc = update s.pool.pc i (running task);
        };
      })
  finishes :
      (i task : ℕ)
      → i < n
      → s.pool.pc i ≡ running task
      → EndStep n s (record s { pool = record s.pool { pc = update s.pool.pc i ready } })
  leaves :
      (i : ℕ)
      → i < n
      → s.pool.pc i ≡ ready
      → s.pool.locked ≡ false
      → s.pool.stop ≡ true
      → s.pool.tasks ≡ []
      → EndStep n s (record s { pool = record s.pool { pc = update s.pool.pc i exited } })

pub data Ends (n : ℕ) : Signals → Signals → Type 0 where
  all_over : {s : Signals} → Ends n s s
  ends_first : {s t u : Signals} → EndStep n s t → Ends n t u → Ends n s u

-- Each is a step of the pool.
pub EndStep-SignalStep : (n : ℕ) {s t : Signals} → EndStep n s t → SignalStep n s t
unfolding Moves
EndStep-SignalStep n (takes i task rest below e free some_task) =
    moves (take i task rest e free some_task) below
EndStep-SignalStep n (finishes i task below e) = moves (finish i task e) below
EndStep-SignalStep n (leaves i below e free stopped empty) =
    moves (leave i e free stopped empty) below

-- The workers that have not left, and those that sleep or are about to.
abbrev pub stays : Pc → ℕ
stays ready = 1
stays falling_asleep = 1
stays asleep = 1
stays (running task) = 1
stays exited = 0

abbrev pub rests : Pc → ℕ
rests ready = 0
rests falling_asleep = 1
rests asleep = 1
rests (running task) = 0
rests exited = 0

-- The steps that a worker takes until it leaves.
abbrev pub ahead : Pc → ℕ
ahead ready = 1
ahead falling_asleep = 1
ahead asleep = 1
ahead (running task) = 2
ahead exited = 0

pub falls-rests : (p : Pc) → falls p ≤ rests p
falls-rests ready = omega arith
falls-rests falling_asleep = omega arith
falls-rests asleep = omega arith
falls-rests (running t) = omega arith
falls-rests exited = omega arith

pub Pc-stays :
    (p : Pc) → 0 < stays p → rests p ≡ 0 → (p ≡ ready) ⊎ ((task : ℕ) × (p ≡ running task))
Pc-stays ready h k = inl refl
Pc-stays falling_asleep h k = absurd (omega arith)
Pc-stays asleep h k = absurd (omega arith)
Pc-stays (running t) h k = inr (t, refl)
Pc-stays exited h k = absurd (omega arith)

pub Pc-left : (p : Pc) → stays p ≡ 0 → p ≡ exited
Pc-left ready h = absurd (omega arith)
Pc-left falling_asleep h = absurd (omega arith)
Pc-left asleep h = absurd (omega arith)
Pc-left (running t) h = absurd (omega arith)
Pc-left exited h = refl
