-- ===== src/Thread/Pool/LessUsed.antt =====
-- thread/thread_pool.cpp: `getLessUsedWorker` returns a worker with the fewest owners.
use erizo_controller.Base.{
  ℕ, ◌≤◌, some, List, [], ◌∷◌, ◌≡◌, refl, ltb, arith, All, inl, inr, Bool-cases,
}
use erizo_controller.Base.Members.{Among, among_head, among_next}
use erizo_controller.Thread.Pool.{ThreadPool, less_used, get_less_used_worker}

module _ {W : Type 0} (use_count : W → ℕ) where
  -- `w` is a worker of `ws`, or the one that was chosen before, and none of them has fewer owners.
  pub record IsLeast (w chosen : W) (ws : List W) : Type 0 where
    pub member : Among w (chosen ∷ ws)
    pub below_first : use_count w ≤ use_count chosen
    pub below : All (λ v. use_count w ≤ use_count v) ws

  skip_second :
      (chosen w : W) (ws : List W) (v : W) → Among v (chosen ∷ ws) → Among v (chosen ∷ w ∷ ws)
  skip_second chosen w ws v (among_head _ _ e) = among_head chosen (w ∷ ws) e
  skip_second chosen w ws v (among_next _ _ m) = among_next chosen (w ∷ ws) (among_next w ws m)

  drop_second : (w : W) (ws : List W) (v : W) → Among v (w ∷ w ∷ ws) → Among v (w ∷ ws)
  drop_second w ws v (among_head _ _ e) = among_head w ws e
  drop_second w ws v (among_next _ _ m) = m

  less_used-IsLeast : (chosen : W) (ws : List W) → IsLeast (less_used use_count chosen ws) chosen ws
  unfolding less_used
  less_used-IsLeast chosen [] = record {
    member = among_head chosen [] refl;
    below_first = omega arith;
    below = tt;
  }
  less_used-IsLeast chosen (w ∷ ws) = elim (Bool-cases (ltb (use_count w) (use_count chosen))) [
    | inl e ↦ rw e (keep_next chosen w ws _ (ground arith) (less_used-IsLeast w ws))
    | inr e ↦ rw e (keep_chosen chosen w ws _ (ground arith) (less_used-IsLeast chosen ws))
  ]
    where
      keep_next :
          (chosen w : W) (ws : List W) (v : W)
          → use_count w ≤ use_count chosen
          → IsLeast v w ws
          → IsLeast v chosen (w ∷ ws)
      keep_next chosen w ws v h k = record {
        member = among_next chosen (w ∷ ws) k.member;
        below_first = omega (arith, k.below_first);
        below = (k.below_first, k.below);
      }

      keep_chosen :
          (chosen w : W) (ws : List W) (v : W)
          → use_count chosen ≤ use_count w
          → IsLeast v chosen ws
          → IsLeast v chosen (w ∷ ws)
      keep_chosen chosen w ws v h k = record {
        member = skip_second chosen w ws v k.member;
        below_first = k.below_first;
        below = (omega (arith, k.below_first), k.below);
      }

  -- In a pool with a worker, `getLessUsedWorker` returns one of the workers, and none of them has
  -- fewer owners.
  pub get_less_used_worker-IsLeast :
      (w : W) (ws : List W) (p : ThreadPool W)
      → p.workers ≡ w ∷ ws
      → (v : W) × (get_less_used_worker use_count p ≡ some v) × IsLeast v w ws
  unfolding get_less_used_worker
  get_less_used_worker-IsLeast w ws p e =
      let k = less_used-IsLeast w (w ∷ ws) in
      (
        less_used use_count w (w ∷ ws),
        rw (get_less_used_worker, e) refl,
        record {
          member = drop_second w ws _ k.member;
          below_first = k.below_first;
          below = k.below.1;
        },
      )
