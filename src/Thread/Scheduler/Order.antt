-- ===== src/Thread/Scheduler/Order.antt =====
-- thread/scheduler.cpp: the queue stays sorted by time, and no task is lost or run twice.
use erizo_controller.Base.{
  ℕ, ◌+◌, ◌≤◌, Bool, true, false, List, [], ◌∷◌, ◌++◌, ◌≡◌, refl, ap, ltb, All, Bool-cases, inl,
  inr, arith, if◌then◌else◌,
}
use erizo_controller.Thread.Scheduler.{insert_task, schedule, stop, Next, enter, time_out}
use erizo_controller.Thread.Scheduler.Service.{
  Run, Service, Serves, log, started, scheduled, stopped, entered, timed_out,
}

module _ {F : Type 0} where
  append_nil : (rs : List (Run F)) → rs ++ [] ≡ rs
  append_nil [] = refl
  append_nil (r ∷ rs) = ap (λ (x : List (Run F)). r ∷ x) (append_nil rs)

  -- Sorted by time.
  unfoldable pub IsSorted : List (ℕ × F) → Type 0
  IsSorted [] = Unit
  IsSorted ((t, f) ∷ q) = All (λ (y : ℕ × F). t ≤ y.0) q × IsSorted q

  -- How many tasks of a list pass a test.
  unfoldable pub count : (ℕ × F → Bool) → List (ℕ × F) → ℕ
  count p [] = 0
  count p (x ∷ q) = (if p x then 1 else 0) + count p q

  unfoldable pub tasks_of : List (Run F) → List (ℕ × F)
  tasks_of [] = []
  tasks_of (r ∷ rs) = (r.due, r.function) ∷ tasks_of rs

  All-insert :
      (b t : ℕ) (f : F) (q : List (ℕ × F))
      → b ≤ t
      → All (λ (y : ℕ × F). b ≤ y.0) q
      → All (λ (y : ℕ × F). b ≤ y.0) (insert_task t f q)
  unfolding insert_task
  All-insert b t f [] h k = (h, tt)
  All-insert b t f ((u, g) ∷ q) h (k, ks) = elim (Bool-cases (ltb t u)) [
    | inl e ↦ rw (insert_task, e) (h, (k, ks))
    | inr e ↦ rw (insert_task, e) (k, All-insert b t f q h ks)
  ]

  All-later :
      (a b : ℕ) (q : List (ℕ × F))
      → a ≤ b
      → All (λ (y : ℕ × F). b ≤ y.0) q
      → All (λ (y : ℕ × F). a ≤ y.0) q
  All-later a b [] h k = tt
  All-later a b (x ∷ q) h (k, ks) = (omega (arith, h, k), All-later a b q h ks)

  insert_task-IsSorted :
      (t : ℕ) (f : F) (q : List (ℕ × F)) → IsSorted q → IsSorted (insert_task t f q)
  unfolding insert_task IsSorted
  insert_task-IsSorted t f [] h = (tt, tt)
  insert_task-IsSorted t f ((u, g) ∷ q) (k, ks) = elim (Bool-cases (ltb t u)) [
    | inl e ↦
        let h : t ≤ u = ground arith in rw (insert_task, e) ((h, All-later t u q h k), (k, ks))
    | inr e ↦
        let h : u ≤ t = ground arith in
        rw (insert_task, e) (All-insert u t f q h k, insert_task-IsSorted t f q ks)
  ]

  count-insert :
      (p : ℕ × F → Bool) (t : ℕ) (f : F) (q : List (ℕ × F))
      → count p (insert_task t f q) ≡ (if p (t, f) then 1 else 0) + count p q
  unfolding insert_task count
  count-insert p t f [] = refl
  count-insert p t f ((u, g) ∷ q) = elim (Bool-cases (ltb t u)) [
    | inl e ↦ rw (insert_task, e) refl
    | inr e ↦ rw (insert_task, e) (omega (arith, count-insert p t f q))
  ]

  count-append :
      (p : ℕ × F → Bool) (rs : List (Run F)) (r : Run F)
      → count p (tasks_of (rs ++ (r ∷ [])))
        ≡ count p (tasks_of rs) + (if p (r.due, r.function) then 1 else 0)
  unfolding count tasks_of
  count-append p [] r = omega arith
  count-append p (x ∷ rs) r = omega (arith, count-append p rs r)

  -- The queue is sorted by time, and of the calls of `schedule` that pass a test as many wait in the
  -- queue or have been run.
  pub record IsKept (calls : List (ℕ × F)) (s : Service F) : Type 0 where
    pub sorted : IsSorted s.scheduler.task_queue
    pub total :
        (p : ℕ × F → Bool)
        → count p calls ≡ count p s.scheduler.task_queue + count p (tasks_of s.ran)

  time_out-IsKept :
      (calls : List (ℕ × F)) (now : ℕ) (threads : List (Next F)) (ran : List (Run F))
      (stop_now when_empty : Bool) (q : List (ℕ × F))
      → IsSorted q
      → ((p : ℕ × F → Bool) → count p calls ≡ count p q + count p (tasks_of ran))
      → let v =
          time_out
            (record { task_queue = q; stop_requested = stop_now; stop_when_empty = when_empty }) in
        IsKept calls (record { scheduler = v.1; threads = threads; ran = ran ++ log now v.0 })
  unfolding time_out enter IsSorted count
  time_out-IsKept calls now threads ran true when_empty q a b = record {
    sorted = a;
    total = λ p. rw (append_nil ran) (b p);
  }
  time_out-IsKept calls now threads ran false true [] a b = record {
    sorted = a;
    total = λ p. rw (append_nil ran) (b p);
  }
  time_out-IsKept calls now threads ran false false [] a b = record {
    sorted = a;
    total = λ p. rw (append_nil ran) (b p);
  }
  time_out-IsKept calls now threads ran false when_empty ((t, f) ∷ q) (_, a) b = record {
    sorted = a;
    total = λ p.
        omega (arith, b p, count-append p ran (record { due = t; taken_at = now; function = f }));
  }

  -- Whatever the interleaving of calls of `schedule`, `stop` and the steps of the threads: the queue
  -- stays sorted by time, and each call of `schedule` is in the queue or was run, once.
  pub Serves-IsKept :
      (threads : List (Next F)) (calls : List (ℕ × F)) (s : Service F)
      → Serves threads calls s
      → IsKept calls s
  unfolding schedule stop IsSorted count tasks_of
  Serves-IsKept threads _ _ started = record { sorted = tt; total = λ p. refl }
  Serves-IsKept threads _ _ (scheduled t f calls s h) =
      let k = Serves-IsKept threads calls s h in
      record {
        sorted = insert_task-IsSorted t f s.scheduler.task_queue k.sorted;
        total = λ p. omega (arith, count-insert p t f s.scheduler.task_queue, k.total p);
      }
  Serves-IsKept threads _ _ (stopped true calls s h) =
      let k = Serves-IsKept threads calls s h in record { sorted = k.sorted; total = k.total }
  Serves-IsKept threads _ _ (stopped false calls s h) =
      let k = Serves-IsKept threads calls s h in record { sorted = k.sorted; total = k.total }
  Serves-IsKept threads _ _ (entered i n calls s h e m) =
      let k = Serves-IsKept threads calls s h in record { sorted = k.sorted; total = k.total }
  Serves-IsKept threads _ _ (timed_out i t now calls s h e m) =
      let k = Serves-IsKept threads calls s h in
      time_out-IsKept calls now _ s.ran s.scheduler.stop_requested s.scheduler.stop_when_empty
        s.scheduler.task_queue k.sorted k.total
