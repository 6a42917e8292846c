-- ===== src/Thread/Pool.antt =====
-- thread/thread_pool.cpp: the choice of a worker. A worker is a value of `W`.
pub mod RoundRobin
pub mod LessUsed
use erizo_controller.Base.{
  ℕ, zero, suc, ◌+◌, ◌%◌, ◌^◌, Option, none, some, List, [], ◌∷◌, length, get_elem?, ltb,
  if◌then◌else◌,
}

-- `ThreadPool`, with `index_` a `uint32_t`.
pub record ThreadPool (W : Type 0) : Type 0 where
  pub index : ℕ
  pub workers : List W

module _ {W : Type 0} where
  -- The constructor, on the workers that it makes.
  abbrev pub new_pool : List W → ThreadPool W
  new_pool workers = record { index = 0; workers = workers }

  -- `index_++ % workers_.size()`, a division by 0 in a pool of no workers.
  unfoldable pub sequence_index : ThreadPool W → Option ℕ
  sequence_index p = elim p.workers [ [] ↦ none | w ∷ ws ↦ some (p.index % length (w ∷ ws)) ]

  -- `getSequenceWorker`: the worker, `none` where the behaviour is undefined, and the pool after it.
  unfoldable pub get_sequence_worker : ThreadPool W → Option W × ThreadPool W
  unfolding sequence_index
  get_sequence_worker p = (
    elim (sequence_index p) [ none ↦ none | some i ↦ get_elem? p.workers i ],
    record p { index = (p.index + 1) % 2 ^ 32 },
  )

  -- The loop of `getLessUsedWorker`; `use_count` is how many owners a worker has beside the loop.
  unfoldable pub less_used : (W → ℕ) → W → List W → W
  less_used use_count chosen [] = chosen
  less_used use_count chosen (w ∷ ws) =
      let next = less_used use_count w ws in
      let same = less_used use_count chosen ws in
      if ltb (use_count w) (use_count chosen) then next else same

  -- `getLessUsedWorker`, undefined in a pool of no workers.
  unfoldable pub get_less_used_worker : (W → ℕ) → ThreadPool W → Option W
  unfolding less_used
  get_less_used_worker use_count p = elim p.workers [
    | [] ↦ none
    | w ∷ ws ↦ some (less_used use_count w (w ∷ ws))
  ]
