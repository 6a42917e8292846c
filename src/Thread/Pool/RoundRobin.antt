-- ===== src/Thread/Pool/RoundRobin.antt =====
-- thread/thread_pool.cpp: the workers that calls of `getSequenceWorker` return, one after the other.
use erizo_controller.Base.{
  ℕ, zero, suc, ◌+◌, ◌<◌, ◌%◌, ◌^◌, some, List, [], ◌∷◌, ◌≡◌, refl, ap, ◌∙◌, length, get_elem?,
  arith,
}
use erizo_controller.Thread.Pool.{ThreadPool, sequence_index, get_sequence_worker}

no_wrap : (i : ℕ) → i < 2 ^ 32 → i ≡ (i + 0) % 2 ^ 32
no_wrap i h = omega arith

next_index : (i n : ℕ) → ((i + 1) % 2 ^ 32 + n) % 2 ^ 32 ≡ (i + suc n) % 2 ^ 32
next_index i n = omega arith

module _ {W : Type 0} where
  in_list : (ws : List W) (i : ℕ) → i < length ws → (w : W) × (get_elem? ws i ≡ some w)
  in_list [] i h = absurd (omega arith)
  in_list (w ∷ ws) zero h = (w, refl)
  in_list (w ∷ ws) (suc i) h = in_list ws i (omega arith)

  -- The pool after `n` calls.
  abbrev pub after : ℕ → ThreadPool W → ThreadPool W
  after zero p = p
  after (suc n) p = after n (get_sequence_worker p).1

  worker_lem :
      (index : ℕ) (ws : List W)
      → 0 < length ws
      → (w : W) × ((get_sequence_worker (record { index = index; workers = ws })).0 ≡ some w)
        × (get_elem? ws (index % length ws) ≡ some w)
  unfolding get_sequence_worker sequence_index
  worker_lem index [] h = absurd (omega arith)
  worker_lem index (w ∷ ws) h =
      let (v, e) = in_list (w ∷ ws) (index % length (w ∷ ws)) (omega arith) in (v, e, e)

  after_lem :
      (n : ℕ) (p : ThreadPool W)
      → p.index < 2 ^ 32
      → after n p ≡ record p { index = (p.index + n) % 2 ^ 32 }
  unfolding get_sequence_worker
  after_lem zero p h = ap at_index (no_wrap p.index h)
    where
      at_index : ℕ → ThreadPool W
      at_index i = record p { index = i }
  after_lem (suc n) p h =
      after_lem n (get_sequence_worker p).1 (omega arith) ∙ ap at_index (next_index p.index n)
    where
      at_index : ℕ → ThreadPool W
      at_index i = record p { index = i }

  -- In a pool with a worker, the call of `getSequenceWorker` after `n` others returns a worker: the
  -- one at the place `(index_ + n) mod 2 ^ 32` modulo their number. So calls go round all workers in
  -- order until the 32-bit counter wraps.
  pub get_sequence_worker_lem :
      (n : ℕ) (p : ThreadPool W)
      → p.index < 2 ^ 32
      → 0 < length p.workers
      → (w : W) × ((get_sequence_worker (after n p)).0 ≡ some w)
        × (get_elem? p.workers ((p.index + n) % 2 ^ 32 % length p.workers) ≡ some w)
  get_sequence_worker_lem n p h k =
      let (w, e, at) = worker_lem ((p.index + n) % 2 ^ 32) p.workers k in
      (w, ap (λ (x : ThreadPool W). (get_sequence_worker x).0) (after_lem n p h) ∙ e, at)
