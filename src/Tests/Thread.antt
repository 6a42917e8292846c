-- ===== src/Tests/Thread.antt =====
-- Examples for thread/: a pool of three workers, a scheduler and a worker. A function is its number.
use erizo_controller.Base.{ℕ, false, some, List, [], ◌∷◌, ◌≡◌, refl, arith, get_elem?}
use erizo_controller.Thread.Pool.{ThreadPool, get_sequence_worker}
use erizo_controller.Thread.Pool.RoundRobin.{after, get_sequence_worker_lem}
use erizo_controller.Thread.Scheduler.{
  waits, waits_until, runs, new_scheduler, schedule, insert_task, enter, time_out,
}
use erizo_controller.Thread.Scheduler.Service.{
  Service, Serves, started, scheduled, entered, timed_out, notified,
}
use erizo_controller.Thread.Scheduler.Order.{IsKept, Serves-IsKept}
use erizo_controller.Thread.Scheduler.Punctual.{NotEarly, Serves-NotEarly}
use erizo_controller.Thread.Worker.{
  Worker, Event, plain, new_worker, fire_event, take_event, call_event, unschedule_event, happen,
  happen_all, unschedule, fire, take_posted, call_current, calls, is_cancelled,
}
use erizo_controller.Thread.Worker.Unscheduled.{times_called, calls_begun, unschedule_lem}
use erizo_controller.Thread.Simulated.{put_task}

-- A pool whose counter is about to wrap.
abbrev three : ThreadPool ℕ
three = record { index = 4294967294; workers = 70 ∷ 71 ∷ 72 ∷ [] }

get_sequence_worker_example :
    (w : ℕ) × ((get_sequence_worker (after 3 three)).0 ≡ some w)
    × (get_elem? (70 ∷ 71 ∷ 72 ∷ []) 1 ≡ some w)
get_sequence_worker_example = get_sequence_worker_lem 3 three (omega arith) (omega arith)

-- Two tasks, the later one first, and one thread that runs the earlier at its time.
abbrev both : Service ℕ
both = record {
  scheduler = schedule 20 2 (schedule 30 3 new_scheduler);
  threads = waits ∷ [];
  ran = [];
}

abbrev waiting : Service ℕ
waiting = record both { threads = waits_until 20 ∷ [] }

abbrev served : Service ℕ
served = record {
  scheduler = record new_scheduler { task_queue = (30, 3) ∷ [] };
  threads = runs 20 2 ∷ [];
  ran = record { due = 20; taken_at = 25; function = 2 } ∷ [];
}

two_calls : Serves (waits ∷ []) ((20, 2) ∷ (30, 3) ∷ []) served
unfolding schedule insert_task enter time_out
two_calls =
    timed_out 0 20 25 _ waiting
      (entered 0 waits _ both (scheduled 20 2 _ _ (scheduled 30 3 _ _ started)) refl notified) refl
      (omega arith)

Serves-IsKept_example : IsKept ((20, 2) ∷ (30, 3) ∷ []) served
Serves-IsKept_example = Serves-IsKept (waits ∷ []) ((20, 2) ∷ (30, 3) ∷ []) served two_calls

Serves-NotEarly_example : NotEarly served.ran
Serves-NotEarly_example = Serves-NotEarly ((20, 2) ∷ (30, 3) ∷ []) served two_calls

-- The same tasks with two threads, as the pool has them: both wait for the first task, and the second
-- of them takes the task of the time 30 at the time 25.
abbrev two_waiting : Service ℕ
two_waiting = record both { threads = waits_until 20 ∷ waits_until 20 ∷ [] }

abbrev two_served : Service ℕ
two_served = record {
  scheduler = new_scheduler;
  threads = runs 20 2 ∷ runs 30 3 ∷ [];
  ran =
      record { due = 20; taken_at = 25; function = 2 }
      ∷ record { due = 30; taken_at = 25; function = 3 }
      ∷ [];
}

early_with_two : Serves (waits ∷ waits ∷ []) ((20, 2) ∷ (30, 3) ∷ []) two_served
unfolding schedule insert_task enter time_out
early_with_two =
    timed_out 1 20 25 _
      (record {
        scheduler = record new_scheduler { task_queue = (30, 3) ∷ [] };
        threads = runs 20 2 ∷ waits_until 20 ∷ [];
        ran = record { due = 20; taken_at = 25; function = 2 } ∷ [];
      })
      (timed_out 0 20 25 _ two_waiting
        (entered 1 waits _ (record both { threads = waits_until 20 ∷ waits ∷ [] })
          (entered 0 waits _ (record both { threads = waits ∷ waits ∷ [] })
            (scheduled 20 2 _ _ (scheduled 30 3 _ _ started)) refl notified)
          refl notified)
        refl (omega arith))
      refl (omega arith)

-- A worker with a plain task and a delayed one.
abbrev delayed : Worker ℕ
delayed = record new_worker {
  scheduled = (20, (0, 8)) ∷ [];
  cancelled = false ∷ [];
  posted = plain 7 ∷ [];
}

abbrev some_events : List (Event ℕ)
some_events = fire_event ∷ take_event 1 ∷ call_event ∷ take_event 0 ∷ call_event ∷ []

unschedule_example : calls_begun 0 (happen_all some_events (unschedule 0 delayed)) ≡ 0
unfolding calls_begun times_called
unschedule_example = unschedule_lem 0 some_events delayed (omega arith)

-- Without `unschedule` the delayed function is called.
not_unscheduled : calls_begun 0 (happen_all some_events delayed) ≡ 1
unfolding calls_begun times_called happen_all happen fire take_posted call_current calls
    is_cancelled
not_unscheduled = refl

-- It is called too where the thread has passed the test when `unschedule` is called.
unscheduled_late :
    calls_begun 0
      (happen_all (fire_event ∷ take_event 1 ∷ unschedule_event 0 ∷ call_event ∷ []) delayed)
    ≡ 1
unfolding calls_begun times_called happen_all happen fire take_posted call_current calls
    is_cancelled unschedule
unscheduled_late = refl

-- A second function for the same time takes the place of the first.
simulated_overwritten : put_task {A = ℕ} 5 2 (put_task 5 1 []) ≡ (5, 2) ∷ []
unfolding put_task
simulated_overwritten = refl
