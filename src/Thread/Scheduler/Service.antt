-- ===== src/Thread/Scheduler/Service.antt =====
-- thread/scheduler.cpp: the threads of a `Scheduler`, in any interleaving of their steps.
use erizo_controller.Base.{ℕ, ◌≤◌, Bool, List, [], ◌∷◌, ◌++◌, ◌≡◌, get_elem?, set, some}
use erizo_controller.Thread.Scheduler.{
  Scheduler, new_scheduler, schedule, stop, Next, leaves, waits, waits_until, runs, enter, time_out,
}

-- A run of a task: its time, the time at which a thread took it, and the task.
pub record Run (F : Type 0) : Type 0 where
  pub due : ℕ
  pub taken_at : ℕ
  pub function : F

pub record Service (F : Type 0) : Type 0 where
  pub scheduler : Scheduler F
  pub threads : List (Next F)
  pub ran : List (Run F)

module _ {F : Type 0} where
  -- What taking a task adds to the log.
  abbrev pub log : ℕ → Next F → List (Run F)
  log now (runs t f) = record { due = t; taken_at = now; function = f } ∷ []
  log now leaves = []
  log now waits = []
  log now (waits_until t) = []

  -- A thread that waits, and is notified or starts, or has run its task enters the loop.
  pub data Enters : Next F → Type 0 where
    notified : Enters waits
    early : (t : ℕ) → Enters (waits_until t)
    ran_task : (t : ℕ) (f : F) → Enters (runs t f)

  -- What may have happened after the calls of `schedule` in the list, newest first: the calls, `stop`
  -- and the steps of the threads, in any order.
  pub data Serves (threads : List (Next F)) : List (ℕ × F) → Service F → Type 0 where
    started : Serves threads [] (record { scheduler = new_scheduler; threads = threads; ran = [] })
    scheduled :
        (t : ℕ) (f : F) (calls : List (ℕ × F)) (s : Service F)
        → Serves threads calls s
        → Serves threads ((t, f) ∷ calls) (record s { scheduler = schedule t f s.scheduler })
    stopped :
        (drain : Bool) (calls : List (ℕ × F)) (s : Service F)
        → Serves threads calls s
        → Serves threads calls (record s { scheduler = stop drain s.scheduler })
    entered :
        (i : ℕ) (n : Next F) (calls : List (ℕ × F)) (s : Service F)
        → Serves threads calls s
        → get_elem? s.threads i ≡ some n
        → Enters n
        → Serves threads calls (record s { threads = set s.threads i (enter s.scheduler) })
    timed_out :
        (i t now : ℕ) (calls : List (ℕ × F)) (s : Service F)
        → Serves threads calls s
        → get_elem? s.threads i ≡ some (waits_until t)
        → t ≤ now
        → Serves threads calls (record {
          scheduler = (time_out s.scheduler).1;
          threads = set s.threads i (time_out s.scheduler).0;
          ran = s.ran ++ log now (time_out s.scheduler).0;
        })
