-- ===== src/Thread/Scheduler.antt =====
-- thread/scheduler.cpp: the queue of delayed tasks, and what a thread in `serviceQueue` does. A time
-- is a number, a task a value of `F`. A thread holds the mutex except where it waits or runs a task.
pub mod Service
pub mod Order
pub mod Punctual
use erizo_controller.Base.{ℕ, zero, suc, Bool, true, false, ◌||◌, List, [], ◌∷◌, ltb, if◌then◌else◌}

-- `task_queue_.insert`: a multimap puts a pair behind those with the same key.
unfoldable pub insert_task : {F : Type 0} → ℕ → F → List (ℕ × F) → List (ℕ × F)
insert_task t f [] = (t, f) ∷ []
insert_task t f ((u, g) ∷ q) =
    let rest = insert_task t f q in if ltb t u then (t, f) ∷ (u, g) ∷ q else (u, g) ∷ rest

pub record Scheduler (F : Type 0) : Type 0 where
  pub task_queue : List (ℕ × F)
  pub stop_requested : Bool
  pub stop_when_empty : Bool

-- What a thread does next: it leaves `serviceQueue`, it waits for a notice alone or up to a time,
-- or it runs a task that it took from the queue.
pub data Next (F : Type 0) : Type 0 where
  leaves : Next F
  waits : Next F
  waits_until : ℕ → Next F
  runs : ℕ → F → Next F

module _ {F : Type 0} where
  abbrev pub new_scheduler : Scheduler F
  new_scheduler = record { task_queue = []; stop_requested = false; stop_when_empty = false }

  unfoldable pub schedule : ℕ → F → Scheduler F → Scheduler F
  schedule t f s = record s { task_queue = insert_task t f s.task_queue }

  -- The flags that `stop` sets.
  unfoldable pub stop : Bool → Scheduler F → Scheduler F
  stop drain s =
      if drain then record s { stop_when_empty = true } else record s { stop_requested = true }

  -- From the head of the loop, and after a notice: the tests of the three loops in their order.
  unfoldable pub enter : Scheduler F → Next F
  enter s = if s.stop_requested then leaves else elim s.task_queue [
    | [] ↦ if s.stop_when_empty then leaves else waits
    | (t, f) ∷ q ↦ waits_until t
  ]

  -- After `wait_until` timed out: the first task is taken, whatever its time.
  unfoldable pub time_out : Scheduler F → Next F × Scheduler F
  unfolding enter
  time_out s = if s.stop_requested then (leaves, s) else elim s.task_queue [
    | [] ↦ (enter s, s)
    | (t, f) ∷ q ↦ (runs t f, record s { task_queue = q })
  ]
