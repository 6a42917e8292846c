-- ===== src/Thread/Worker.antt =====
-- thread/worker.cpp: `Worker`, the functions that it posts to its `io_service` and those that it
-- gives the scheduler. A function is a value of `F`, and `ran` the log of the calls. Of `io_service`
-- nothing is used but that its one thread takes the functions that were posted, in any order. What
-- other threads do may come between its test of `isCancelled` and its call of the function.
pub mod Unscheduled
use erizo_controller.Base.{
  ℕ, zero, suc, Bool, true, false, ◌&&◌, not, Option, none, some, List, [], ◌∷◌, ◌++◌, length,
  get_elem?, set, if◌then◌else◌,
}
use erizo_controller.Thread.Scheduler.{insert_task}

-- What `post` is given: a function, or the function of a `ScheduledTaskReference`.
pub data Posted (F : Type 0) : Type 0 where
  plain : F → Posted F
  guarded : ℕ → F → Posted F

-- `scheduled` is what this worker has in the queue of the scheduler. A `ScheduledTaskReference` is a
-- place in `cancelled`. `current` is the function that the thread is about to call, after the tests, and
-- `alive` says whether `weak_this.lock()` succeeds.
pub record Worker (F : Type 0) : Type 0 where
  pub scheduled : List (ℕ × (ℕ × F))
  pub cancelled : List Bool
  pub posted : List (Posted F)
  pub current : Option (Posted F)
  pub alive : Bool
  pub ran : List (Posted F)

module _ {F : Type 0} where
  abbrev pub new_worker : Worker F
  new_worker = record {
    scheduled = [];
    cancelled = [];
    posted = [];
    current = none;
    alive = true;
    ran = [];
  }

  -- `task`
  unfoldable pub task : F → Worker F → Worker F
  task f w = record w { posted = w.posted ++ (plain f ∷ []) }

  -- `scheduleFromNow` for the time `t`, with the reference that it returns.
  unfoldable pub schedule_from_now : ℕ → F → Worker F → ℕ × Worker F
  schedule_from_now t f w = (
    length w.cancelled,
    record w {
      scheduled = insert_task t (length w.cancelled, f) w.scheduled;
      cancelled = w.cancelled ++ (false ∷ []);
    },
  )

  -- `unschedule`
  unfoldable pub unschedule : ℕ → Worker F → Worker F
  unschedule id w = record w { cancelled = set w.cancelled id true }

  -- `isCancelled`
  unfoldable pub is_cancelled : ℕ → Worker F → Bool
  is_cancelled id w = elim (get_elem? w.cancelled id) [ none ↦ false | some b ↦ b ]

  -- The scheduler runs the first of the delayed functions.
  unfoldable pub fire : Worker F → Worker F
  fire w = elim w.scheduled [
    | [] ↦ w
    | (t, x) ∷ q ↦
        if w.alive
        then record w { scheduled = q; posted = w.posted ++ (guarded x.0 x.1 ∷ []) }
        else record w { scheduled = q }
  ]

  -- Whether what was posted calls its function.
  unfoldable pub calls : Worker F → Posted F → Bool
  unfolding is_cancelled
  calls w (plain f) = true
  calls w (guarded id f) = w.alive && not (is_cancelled id w)

  abbrev pub remove_at : ℕ → List (Posted F) → List (Posted F)
  remove_at i [] = []
  remove_at zero (x ∷ q) = q
  remove_at (suc i) (x ∷ q) = x ∷ remove_at i q

  -- The thread, unless it is about to call, takes a function that was posted and makes its tests.
  unfoldable pub take_posted : ℕ → Worker F → Worker F
  unfolding calls
  take_posted i w = elim w.current [
    | some x ↦ w
    | none ↦ elim (get_elem? w.posted i) [
      | none ↦ w
      | some x ↦ record w {
        posted = remove_at i w.posted;
        current = if calls w x then some x else none;
      }
    ]
  ]

  -- The thread calls what it took.
  unfoldable pub call_current : Worker F → Worker F
  call_current w = elim w.current [
    | none ↦ w
    | some x ↦ record w { current = none; ran = w.ran ++ (x ∷ []) }
  ]

  -- The last owner gives the worker up.
  unfoldable pub destroy : Worker F → Worker F
  destroy w = record w { alive = false }

-- What happens to a worker.
pub data Event (F : Type 0) : Type 0 where
  task_event : F → Event F
  schedule_event : ℕ → F → Event F
  unschedule_event : ℕ → Event F
  take_event : ℕ → Event F
  fire_event call_event destroy_event : Event F

module _ {F : Type 0} where
  unfoldable pub happen : Event F → Worker F → Worker F
  unfolding task schedule_from_now unschedule fire take_posted call_current destroy
  happen (task_event f) w = task f w
  happen (schedule_event t f) w = (schedule_from_now t f w).1
  happen (unschedule_event id) w = unschedule id w
  happen fire_event w = fire w
  happen (take_event i) w = take_posted i w
  happen call_event w = call_current w
  happen destroy_event w = destroy w

  unfoldable pub happen_all : List (Event F) → Worker F → Worker F
  happen_all [] w = w
  happen_all (e ∷ es) w = happen_all es (happen e w)
