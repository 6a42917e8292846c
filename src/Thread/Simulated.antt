-- ===== src/Thread/Simulated.antt =====
-- thread/worker.cpp: `SimulatedWorker`, which runs functions when it is told to. The functions are
-- taken not to call the worker back; a time is a number, and a function a value of `F`.
use erizo_controller.Base.{
  ℕ, Bool, true, false, none, some, List, [], ◌∷◌, ◌++◌, length, get_elem?, set, ltb, eqb, leb, ◌≡◌,
  Bool-cases, inl, inr, arith, All, if◌then◌else◌,
}

-- `scheduled_tasks_` is a `std::map`: sorted by time, with one function for a time. A
-- `ScheduledTaskReference` is a place in `cancelled`, and `ran` is the log of the calls.
pub record SimulatedWorker (F : Type 0) : Type 0 where
  pub tasks : List F
  pub scheduled_tasks : List (ℕ × (ℕ × F))
  pub cancelled : List Bool
  pub ran : List F

-- `scheduled_tasks_[t] = x`
unfoldable pub put_task : {A : Type 0} → ℕ → A → List (ℕ × A) → List (ℕ × A)
put_task t x [] = (t, x) ∷ []
put_task t x ((u, y) ∷ q) =
    let rest = put_task t x q in
    if eqb t u then (t, x) ∷ q else if ltb t u then (t, x) ∷ (u, y) ∷ q else (u, y) ∷ rest

module _ {F : Type 0} where
  unfoldable pub simulated_task : F → SimulatedWorker F → SimulatedWorker F
  simulated_task f w = record w { tasks = w.tasks ++ (f ∷ []) }

  -- `close`
  unfoldable pub simulated_close : SimulatedWorker F → SimulatedWorker F
  simulated_close w = record w { scheduled_tasks = []; tasks = [] }

  -- `scheduleFromNow` for the time `t`, with the reference that it returns.
  unfoldable pub simulated_schedule : ℕ → F → SimulatedWorker F → ℕ × SimulatedWorker F
  simulated_schedule t f w = (
    length w.cancelled,
    record w {
      scheduled_tasks = put_task t (length w.cancelled, f) w.scheduled_tasks;
      cancelled = w.cancelled ++ (false ∷ []);
    },
  )

  unfoldable pub simulated_unschedule : ℕ → SimulatedWorker F → SimulatedWorker F
  simulated_unschedule id w = record w { cancelled = set w.cancelled id true }

  unfoldable pub execute_tasks : SimulatedWorker F → SimulatedWorker F
  execute_tasks w = record w { ran = w.ran ++ w.tasks; tasks = [] }

  -- The call of one of the scheduled functions: nothing where it is cancelled.
  unfoldable pub unless_cancelled : List Bool → ℕ × F → List F
  unless_cancelled cancelled (id, f) = elim (get_elem? cancelled id) [
    | none ↦ f ∷ []
    | some b ↦ if b then [] else f ∷ []
  ]

  -- The loop over `scheduled_tasks_`: the calls, and what stays.
  unfoldable pub split_past : ℕ → List Bool → List (ℕ × (ℕ × F)) → List F × List (ℕ × (ℕ × F))
  unfolding unless_cancelled
  split_past now cancelled [] = ([], [])
  split_past now cancelled ((t, x) ∷ q) =
      let (calls, left) = split_past now cancelled q in
      if leb t now then (unless_cancelled cancelled x ++ calls, left) else (calls, (t, x) ∷ left)

  unfoldable pub execute_past_scheduled_tasks : ℕ → SimulatedWorker F → SimulatedWorker F
  execute_past_scheduled_tasks now w =
      let (calls, left) = split_past now w.cancelled w.scheduled_tasks in
      record w { ran = w.ran ++ calls; scheduled_tasks = left }

  -- What a round leaves is not due yet.
  pub split_past-All :
      (now : ℕ) (cancelled : List Bool) (q : List (ℕ × (ℕ × F)))
      → All (λ (y : ℕ × (ℕ × F)). ltb now y.0 ≡ true) (split_past now cancelled q).1
  unfolding split_past
  split_past-All now cancelled [] = tt
  split_past-All now cancelled ((t, x) ∷ q) = elim (Bool-cases (leb t now)) [
    | inl e ↦ rw e (split_past-All now cancelled q)
    | inr e ↦ rw e (ground arith, split_past-All now cancelled q)
  ]
