-- ===== src/Redis/Handover.antt =====
-- redis/redis_locker.cpp: a locker that takes the free lock, and then another one.
use erizo_controller.Base.{
  ◌+◌, ◌≤◌, ◌<◌, ◌^◌, pos, Bool, true, false, String, none, some, ◌≡◌, inl, inr, refl,
}
use erizo_controller.Config.{as_u64}
use erizo_controller.External.{Platform}
use erizo_controller.External.Redis.{RedisLaws, Answers}
use erizo_controller.Process.State.{World, ◌>>=◌, pure}
use erizo_controller.Process.Ends.{Ends, ends, Ends-bind}
use erizo_controller.Process.Clock.{get_system_ms}
use erizo_controller.Redis.Acl.{acl_setnx}
use erizo_controller.Redis.Decimal.{show_u64}
use erizo_controller.Redis.Contention.Invariant.{shown, shown-full}
use erizo_controller.Redis.Exclusion.{try_lock_excluded}
use erizo_controller.Redis.Locker.{Locker, new_locker, u64, try_lock}

module _ (P : Platform) (key : String) (w : World P) (ready : w.redis_ready ≡ true)
    (L : RedisLaws P.redis) (A : Answers P.redis key) (free : P.redis.text_at w.db key ≡ none) where
  free_answer : (P.redis.setnx w.db key (show_u64 (P.system_ms w.ticks))).0 ≡ pos 1
  free_answer = elim (L.setnx_free w.db key (show_u64 (P.system_ms w.ticks)) free) [
    | inl e ↦ absurd (cc (e, A.setnx w.db (show_u64 (P.system_ms w.ticks))))
    | inr e ↦ e
  ]

  try_lock_free :
      Ends
        (λ r v.
          (r.0 ≡ true)
          × (r.1.locked ≡ true)
          × (P.redis.text_at v.db key ≡ some (show_u64 (P.system_ms w.ticks)))
          × (v.redis_ready ≡ true)
          × (v.config ≡ w.config)
          × (v.ticks ≡ w.ticks + 1))
        (try_lock P key new_locker w)
  unfolding try_lock get_system_ms acl_setnx
  try_lock_free =
      rw (ready, acl_setnx, free_answer)
        (ends _ _ (refl, refl, (L.setnx_writes w.db key _ free_answer).1, refl, refl, refl))

  -- Where the server answers on a key that is free, the first `try_lock` returns true and holds the
  -- lock, and a `try_lock` of another locker that follows, while the first one's time is not past the
  -- timeout, returns false and does not hold it; the key has the first one's time. The first one's
  -- time is below 2 ^ 63, and its sum with the timeout is below 2 ^ 64.
  pub try_lock-try_lock :
      P.system_ms w.ticks < 2 ^ 63
      → P.system_ms w.ticks + as_u64 w.config.redis_lock_timeout < u64
      → P.system_ms (w.ticks + 1) ≤ P.system_ms w.ticks + as_u64 w.config.redis_lock_timeout
      → Ends
          (λ ((got, l, other_got, k) : Bool × Locker × Bool × Locker) v.
            (got ≡ true)
            × (l.locked ≡ true)
            × (other_got ≡ false)
            × (k.locked ≡ false)
            × (P.redis.text_at v.db key ≡ some (show_u64 (P.system_ms w.ticks))))
          ((try_lock P key new_locker >>= λ (got, l).
              try_lock P key new_locker >>= λ (other_got, k). pure (got, l, other_got, k))
            w)
  try_lock-try_lock small sum recent =
      Ends-bind (try_lock P key new_locker) _ w try_lock_free
        λ first v (taken, holds, at, up, config, ticks).
          Ends-bind (try_lock P key new_locker) _ v
            (try_lock_excluded P key v up (show_u64 (P.system_ms w.ticks)) (P.system_ms w.ticks) L
              at (shown-full _ small) (shown _ small) (rw config sum) (rw (config, ticks) recent)
              (A.setnx v.db _) (A.get _))
            λ second v' (refused, free', at'). ends _ _ (taken, holds, refused, free', at')
