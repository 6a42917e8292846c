-- ===== src/Thread/Scheduler/Punctual.antt =====
-- thread/scheduler.cpp: a scheduler with one thread runs no task before its time.
use erizo_controller.Base.{
  ℕ, zero, suc, ◌≤◌, Bool, true, false, List, [], ◌∷◌, ◌++◌, ◌≡◌, subst, ltb, get_elem?, set, some,
  All, Bool-cases, inl, inr, arith,
}
use erizo_controller.Thread.Scheduler.{
  insert_task, schedule, stop, Next, leaves, waits, waits_until, runs, enter, time_out,
}
use erizo_controller.Thread.Scheduler.Service.{
  Run, Service, Serves, log, started, scheduled, stopped, entered, timed_out,
}

head_is : {F : Type 0} (n m : Next F) → some n ≡ some m → n ≡ m
head_is n m e = cc

module _ {F : Type 0} where
  -- The first task of the queue is due at `t`.
  abbrev FirstDue : ℕ → List (ℕ × F) → Type 0
  FirstDue t [] = ⊥
  FirstDue t ((u, f) ∷ q) = u ≤ t

  -- A thread that waits up to a time does so for a task that stands first, or for a later one.
  unfoldable HasTask : List (Next F) → List (ℕ × F) → Type 0
  HasTask [] q = Unit
  HasTask (waits_until t ∷ []) q = FirstDue t q
  HasTask (waits ∷ []) q = Unit
  HasTask (leaves ∷ []) q = Unit
  HasTask (runs t f ∷ []) q = Unit
  HasTask (n ∷ m ∷ ns) q = ⊥

  abbrev pub NotEarly : List (Run F) → Type 0
  NotEarly rs = All (λ (r : Run F). r.due ≤ r.taken_at) rs

  record IsPunctual (s : Service F) : Type 0 where
    waiting : HasTask s.threads s.scheduler.task_queue
    late : NotEarly s.ran

  All-append : (rs ts : List (Run F)) → NotEarly rs → NotEarly ts → NotEarly (rs ++ ts)
  All-append [] ts h k = k
  All-append (r ∷ rs) ts (h, hs) k = (h, All-append rs ts hs k)

  insert-FirstDue :
      (t u : ℕ) (f : F) (q : List (ℕ × F)) → FirstDue t q → FirstDue t (insert_task u f q)
  unfolding insert_task
  insert-FirstDue t u f [] h = absurd h
  insert-FirstDue t u f ((v, g) ∷ q) h = elim (Bool-cases (ltb u v)) [
    | inl e ↦ rw (insert_task, e) (ground arith)
    | inr e ↦ rw (insert_task, e) h
  ]

  insert-HasTask :
      (ns : List (Next F)) (u : ℕ) (f : F) (q : List (ℕ × F))
      → HasTask ns q
      → HasTask ns (insert_task u f q)
  unfolding HasTask
  insert-HasTask [] u f q h = tt
  insert-HasTask (waits_until t ∷ []) u f q h = insert-FirstDue t u f q h
  insert-HasTask (waits ∷ []) u f q h = tt
  insert-HasTask (leaves ∷ []) u f q h = tt
  insert-HasTask (runs t g ∷ []) u f q h = tt
  insert-HasTask (n ∷ m ∷ ns) u f q h = h

  enter-HasTask :
      (ns : List (Next F)) (i : ℕ) (stop_now when_empty : Bool) (q : List (ℕ × F))
      → HasTask ns q
      → HasTask
          (set ns i (
            enter
              (record { task_queue = q; stop_requested = stop_now; stop_when_empty = when_empty })))
          q
  unfolding HasTask enter
  enter-HasTask [] i a b q h = tt
  enter-HasTask (n ∷ []) (suc i) a b q h = h
  enter-HasTask (n ∷ []) zero true b q h = tt
  enter-HasTask (n ∷ []) zero false true [] h = tt
  enter-HasTask (n ∷ []) zero false false [] h = tt
  enter-HasTask (n ∷ []) zero false b ((t, f) ∷ q) h = omega arith
  enter-HasTask (n ∷ m ∷ ns) i a b q h = absurd h

  time_out-IsPunctual :
      (ns : List (Next F)) (i t now : ℕ) (stop_now when_empty : Bool) (q : List (ℕ × F))
      (ran : List (Run F))
      → HasTask ns q
      → NotEarly ran
      → get_elem? ns i ≡ some (waits_until t)
      → t ≤ now
      → let v =
          time_out
            (record { task_queue = q; stop_requested = stop_now; stop_when_empty = when_empty }) in
        IsPunctual (record { scheduler = v.1; threads = set ns i v.0; ran = ran ++ log now v.0 })
  unfolding HasTask time_out
  time_out-IsPunctual [] i t now a b q ran h k e le = absurd (cc e)
  time_out-IsPunctual (n ∷ []) (suc i) t now a b q ran h k e le = absurd (cc e)
  time_out-IsPunctual (n ∷ m ∷ ns) i t now a b q ran h k e le = absurd h
  time_out-IsPunctual (n ∷ []) zero t now true b q ran h k e le = record {
    waiting = tt;
    late = All-append ran [] k tt;
  }
  time_out-IsPunctual (n ∷ []) zero t now false b [] ran h k e le =
      absurd (subst (λ (x : Next F). HasTask (x ∷ []) []) (head_is n (waits_until t) e) h)
  time_out-IsPunctual (n ∷ []) zero t now false b ((u, f) ∷ q) ran h k e le =
      let first : u ≤ t =
        subst (λ (x : Next F). HasTask (x ∷ []) ((u, f) ∷ q)) (head_is n (waits_until t) e) h in
      record { waiting = tt; late = All-append ran _ k (omega arith, tt) }

  Serves-IsPunctual :
      (calls : List (ℕ × F)) (s : Service F) → Serves (waits ∷ []) calls s → IsPunctual s
  unfolding HasTask schedule stop
  Serves-IsPunctual _ _ started = record { waiting = tt; late = tt }
  Serves-IsPunctual _ _ (scheduled t f calls s h) =
      let k = Serves-IsPunctual calls s h in
      record {
        waiting = insert-HasTask s.threads t f s.scheduler.task_queue k.waiting;
        late = k.late;
      }
  Serves-IsPunctual _ _ (stopped true calls s h) =
      let k = Serves-IsPunctual calls s h in record { waiting = k.waiting; late = k.late }
  Serves-IsPunctual _ _ (stopped false calls s h) =
      let k = Serves-IsPunctual calls s h in record { waiting = k.waiting; late = k.late }
  Serves-IsPunctual _ _ (entered i n calls s h e m) =
      let k = Serves-IsPunctual calls s h in
      record {
        waiting =
            enter-HasTask s.threads i s.scheduler.stop_requested s.scheduler.stop_when_empty
              s.scheduler.task_queue k.waiting;
        late = k.late;
      }
  Serves-IsPunctual _ _ (timed_out i t now calls s h e le) =
      let k = Serves-IsPunctual calls s h in
      time_out-IsPunctual s.threads i t now s.scheduler.stop_requested s.scheduler.stop_when_empty
        s.scheduler.task_queue s.ran k.waiting k.late e le

  -- With one thread in `serviceQueue`, whatever is scheduled and stopped in between: every task that
  -- was run was taken at its time or later.
  pub Serves-NotEarly :
      (calls : List (ℕ × F)) (s : Service F) → Serves (waits ∷ []) calls s → NotEarly s.ran
  Serves-NotEarly calls s h = (Serves-IsPunctual calls s h).late
