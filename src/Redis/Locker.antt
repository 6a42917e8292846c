-- ===== src/Redis/Locker.antt =====
-- redis/redis_locker.cpp: a lock in Redis, held by the controller that wrote the time under a key.
use erizo_controller.Base.{
  ℕ, zero, suc, ◌+◌, ◌%◌, Bool, true, false, String, ◌==◌, eqb, ltb, if◌then◌else◌,
}
use erizo_controller.Base.Int.{is_zero, to_unsigned}
use erizo_controller.Config.{as_u64, countdown}
use erizo_controller.External.{Platform}
use erizo_controller.Process.State.{Exec, pure, lift, gets, ◌>>=◌, ◌>>◌}
use erizo_controller.Process.Clock.{get_system_ms}
use erizo_controller.Model.Outcome.{or_throw}
use erizo_controller.Redis.Acl.{acl_setnx, acl_get, acl_getset, acl_del}
use erizo_controller.Redis.Decimal.{show_u64, stoll}

-- `RedisLocker`
pub record Locker : Type 0 where
  pub key : String
  pub locked : Bool

abbrev pub new_locker : Locker
new_locker = record { key = ""; locked = false }

-- The modulus of `uint64_t`.
abbrev pub u64 : ℕ
u64 = 18446744073709551616

module _ (P : Platform) where
  -- `key` is not held any more: take it over, unless another did so in between.
  unfoldable pub take_empty : String → ℕ → Locker → Exec P (Bool × Locker)
  take_empty key now l = do
    (res, value) ← acl_getset P key (show_u64 now) ""
    if is_zero res then pure (true, l) else pure (value == "", record l { locked = value == "" })

  -- The holder wrote `t1`; after the timeout the lock may be taken over.
  unfoldable pub take_expired : String → ℕ → ℕ → String → Locker → Exec P (Bool × Locker)
  take_expired key now t1 old l = do
    (res, value) ← acl_getset P key (show_u64 now) old
    if is_zero res then pure (true, l) else do
      t2 ← lift (or_throw (stoll value))
      pure (eqb (to_unsigned u64 t2) t1, record l { locked = eqb (to_unsigned u64 t2) t1 })

  unfoldable pub contend : String → ℕ → Locker → Exec P (Bool × Locker)
  unfolding take_empty take_expired
  contend key now l = do
    (res, value) ← acl_get P key ""
    if is_zero res then pure (true, l) else if value == "" then take_empty key now l else do
      t ← lift (or_throw (stoll value))
      timeout ← gets (λ w. as_u64 w.config.redis_lock_timeout)
      let t1 = to_unsigned u64 t
      if ltb ((t1 + timeout) % u64) now then take_expired key now t1 value l else pure (l.locked, l)

  -- `try_lock`: its result, and the locker that it leaves.
  unfoldable pub try_lock : String → Locker → Exec P (Bool × Locker)
  unfolding contend
  try_lock key l = if l.locked then pure (true, l) else do
    now ← get_system_ms P
    res ← acl_setnx P key (show_u64 now)
    if is_zero res
        then contend key now (record l { key = key })
        else pure (true, record { key = key; locked = true })

  -- `unlock`, which the destructor calls too.
  unfoldable pub unlock : Locker → Exec P Locker
  unlock l = if l.locked then (do acl_del P l.key; pure (record l { locked = false })) else pure l

  -- The rounds of `lock` after the first; `tries` is `try_time`.
  unfoldable pub lock_loop : ℕ → String → Locker → Exec P (Bool × Locker)
  unfolding try_lock
  lock_loop zero key l = try_lock key l
  lock_loop (suc tries) key l = do
    (got, l') ← try_lock key l
    let rest = lock_loop tries key l' in if got then pure (true, l') else rest

  unfoldable pub lock : String → Locker → Exec P (Bool × Locker)
  unfolding lock_loop
  lock key l = do tries ← gets (λ w. countdown w.config.redis_lock_try_time); lock_loop tries key l

  -- The scope of a `RedisLocker` that is locked first: `failed` is returned where `lock` fails, and
  -- the destructor unlocks after `body`.
  unfoldable pub with_lock : {A : Type 0} → String → A → Exec P A → Exec P A
  with_lock key failed body = do
    (got, l) ← lock key new_locker
    r ← if got then body else pure failed
    unlock l
    pure r
