-- ===== src/Thread/Closing.antt =====
-- thread/worker.cpp and thread/thread_pool.cpp: the start and the close of a worker and of the pool. The
-- one thread of a worker is whether `service_.run()` goes on.
use erizo_controller.Base.{
  ℕ, zero, suc, Bool, true, false, none, List, [], ◌∷◌, ◌++◌, length, keep_if, ◌≡◌, refl, ap, sym,
  ◌∙◌, Bool-cases, inl, inr, if◌then◌else◌,
}
use mathlib.Core.List.{append_assoc, append-nil}
use erizo_controller.Thread.Scheduler.{Scheduler, stop}
use erizo_controller.Thread.Worker.{
  Worker, Posted, plain, guarded, calls, take_posted, call_current,
}

-- `closed` is `closed_`.
pub record WorkerThread (F : Type 0) : Type 0 where
  pub worker : Worker F
  pub running : Bool
  pub closed : Bool

module _ {F : Type 0} where
  -- The thread takes and calls this many of the functions that were posted, here the oldest first.
  unfoldable pub run_all : ℕ → Worker F → Worker F
  unfolding take_posted call_current
  run_all zero w = w
  run_all (suc n) w = run_all n (call_current (take_posted 0 w))

  -- `start`: a worker that was closed before its thread came to run runs nothing.
  unfoldable pub worker_start : WorkerThread F → WorkerThread F
  worker_start t = if t.closed then t else record t { running = true }

  -- `close`: without its `work`, `run` returns when nothing is posted any more, and `join_all` waits
  -- for it.
  unfoldable pub worker_close : WorkerThread F → WorkerThread F
  unfolding run_all
  worker_close t = record {
    worker =
        if t.running then run_all (length t.worker.posted) (call_current t.worker) else t.worker;
    running = false;
    closed = true;
  }

  -- `ThreadPool::start`
  unfoldable pub pool_start : List (WorkerThread F) → List (WorkerThread F)
  pool_start [] = []
  pool_start (t ∷ workers) = worker_start t ∷ pool_start workers

  -- The loop of `ThreadPool::close`.
  unfoldable pub close_workers : List (WorkerThread F) → List (WorkerThread F)
  close_workers [] = []
  close_workers (t ∷ workers) = worker_close t ∷ close_workers workers

  -- `ThreadPool::close`
  unfoldable pub pool_close :
      {G : Type 0} → List (WorkerThread F) → Scheduler G → List (WorkerThread F) × Scheduler G
  unfolding close_workers
  pool_close workers s = (close_workers workers, stop true s)

  -- A run of the thread calls, of the functions that wait, those that are to be called, in order, and
  -- leaves none.
  abbrev pub Drains : Worker F → Worker F → Type 0
  Drains w v = (v.posted ≡ []) × (v.ran ≡ w.ran ++ keep_if (calls w) w.posted)

  same_calls :
      (w : Worker F) (q ran : List (Posted F)) (y : Posted F)
      → calls (record w { posted = q; current = none; ran = ran }) y ≡ calls w y
  unfolding calls
  same_calls w q ran (plain f) = refl
  same_calls w q ran (guarded id f) = refl

  same_kept :
      (w : Worker F) (q ran xs : List (Posted F))
      → keep_if (calls (record w { posted = q; current = none; ran = ran })) xs
        ≡ keep_if (calls w) xs
  same_kept w q ran xs i = keep_if (λ y. same_calls w q ran y i) xs

  -- Where the thread is not about to call, as many rounds as functions wait leave none, and call those
  -- that pass the tests.
  pub run_all-Drains :
      (q : List (Posted F)) (w : Worker F)
      → Drains
          (record w { posted = q; current = none })
          (run_all (length q) (record w { posted = q; current = none }))
  unfolding run_all take_posted call_current keep_if
  run_all-Drains [] w = (refl, sym (append-nil w.ran))
  run_all-Drains (x ∷ q) w =
      elim (Bool-cases (calls (record w { posted = x ∷ q; current = none }) x)) [
        | inl t ↦
            let (none_left, called) = run_all-Drains q (record w { ran = w.ran ++ (x ∷ []) }) in
            rw (run_all, t)
              (
                none_left,
                called
                    ∙ append_assoc w.ran (x ∷ []) _
                    ∙ ap (λ (l : List (Posted F)). w.ran ++ (x ∷ l))
                        (same_kept (record w { posted = x ∷ q; current = none }) q
                          (w.ran ++ (x ∷ [])) q),
              )
        | inr f ↦
            let (none_left, called) = run_all-Drains q w in
            rw (run_all, f)
              (
                none_left,
                called
                    ∙ ap (λ (l : List (Posted F)). w.ran ++ l)
                        (same_kept (record w { posted = x ∷ q; current = none }) q w.ran q),
              )
      ]
