-- ===== src/Redis/Takeover.antt =====
-- redis/redis_locker.cpp: `try_lock` on the lock of a holder that is gone.
use erizo_controller.Base.{
  ℕ, ◌+◌, ◌<◌, ◌%◌, ℤ, pos, Bool, true, false, String, ◌==◌, some, ◌≡◌, refl, ap, ◌∙◌, ◌⊎◌, inl,
  inr, arith, ltb, eqb,
}
use erizo_controller.Base.Int.{is_zero, is_minus_one, to_unsigned}
use erizo_controller.Config.{Config, as_u64}
use erizo_controller.External.{Platform}
use erizo_controller.External.Redis.{RedisLaws, Answers}
use erizo_controller.Process.State.{World}
use erizo_controller.Process.Ends.{Ends, ends, Ends-bind, Ends-if}
use erizo_controller.Process.Clock.{get_system_ms}
use erizo_controller.Redis.Acl.{fill_text, acl_setnx, acl_get, acl_getset}
use erizo_controller.Redis.Decimal.{show_u64, stoll}
use erizo_controller.Redis.Exclusion.{setnx-Ran, get-Ran, getset-Ran}
use erizo_controller.Redis.Locker.{Locker, new_locker, u64, take_expired, contend, try_lock}

module _ (P : Platform) (key held : String) (t : ℕ) (L : RedisLaws P.redis)
    (A : Answers P.redis key) (full : (held == "") ≡ false) (parsed : stoll held ≡ some (pos t))
    (small : t < u64) where
  -- The locker has the lock, and the key has its time.
  abbrev Got : ℕ → Bool × Locker → World P → Type 0
  Got now r w =
      (r.0 ≡ true) × (r.1.locked ≡ true) × (P.redis.text_at w.db key ≡ some (show_u64 now))

  answered : (a : ℤ) (b : ℤ) → is_zero a ≡ true → a ≡ b → b ≡ pos 1 → ⊥
  answered a b e r one = cc (e, ap is_zero (r ∙ one))

  same_time : eqb (to_unsigned u64 (pos t)) t ≡ true
  same_time = ground arith

  take_expired-Got :
      (now : ℕ) (w : World P)
      → w.redis_ready ≡ true
      → P.redis.text_at w.db key ≡ some held
      → Ends (Got now) (take_expired P key now t held (record { key = key; locked = false }) w)
  unfolding take_expired
  take_expired-Got now w ready at =
      let (swapped, old) = L.getset_swaps w.db key (show_u64 now) (A.getset w.db (show_u64 now)) in
      Ends-bind (acl_getset P key (show_u64 now) held) _ w (getset-Ran P key _ held w ready)
        λ a w' b.
          Ends-if (is_zero a.0) _ _ w'
            (λ e. absurd (
              answered a.0 _ e (ap (λ (x : ℤ × String). x.0) b.result)
                (A.getset w.db (show_u64 now))))
            λ _.
              rw (ap (λ (x : ℤ × String). x.1) b.result, old held at, full, parsed, same_time)
                (ends _ _
                  (refl, refl, ap (λ (d : P.redis.Db). P.redis.text_at d key) b.db ∙ swapped))

  -- The test on the time, without overflow.
  long_ago :
      (now timeout : ℕ)
      → t + timeout < u64
      → t + timeout < now
      → ltb ((to_unsigned u64 (pos t) + timeout) % u64) now ≡ true
  long_ago now timeout h k = ground arith

  contend-Got :
      (now timeout : ℕ) (w : World P)
      → w.redis_ready ≡ true
      → as_u64 w.config.redis_lock_timeout ≡ timeout
      → t + timeout < u64
      → t + timeout < now
      → P.redis.text_at w.db key ≡ some held
      → Ends (Got now) (contend P key now (record { key = key; locked = false }) w)
  unfolding contend
  contend-Got now timeout w ready same h k at =
      let (read, kept) = L.get_reads w.db key held (A.get w.db) at in
      Ends-bind (acl_get P key "") _ w (get-Ran P key "" w ready) λ a w' b.
        let value : a.1 ≡ held =
          ap (λ (x : ℤ × String). x.1) b.result ∙ filled (P.redis.get w.db key).1 read in
        Ends-if (is_zero a.0) _ _ w'
          (λ e. absurd (answered a.0 _ e (ap (λ (x : ℤ × String). x.0) b.result) (A.get w.db)))
          λ _.
            Ends-if (a.1 == "") _ _ w' (λ e. absurd (cc (e, full, value)))
              λ _.
                rw
                  (
                    value,
                    parsed,
                    ap (λ (c : Config). as_u64 c.redis_lock_timeout) b.config ∙ same,
                    long_ago now timeout h k,
                    mod_small,
                  )
                  (take_expired-Got now w' b.redis_ready
                    (ap (λ (d : P.redis.Db). P.redis.text_at d key) b.db ∙ kept))
    where
      filled : (v : String) → v ≡ held → fill_text P "" v ≡ held
      filled v e = rw (e, full)

      mod_small : t % u64 ≡ t
      mod_small = omega (arith, small)

  -- A lock is not stuck for good: where the key still holds the time of a holder, more than the timeout
  -- ago and without overflow, and the server answers, the next `try_lock` gets the lock at once, and the
  -- key holds its time.
  pub try_lock_takes_over :
      (w : World P)
      → w.redis_ready ≡ true
      → t + as_u64 w.config.redis_lock_timeout < u64
      → t + as_u64 w.config.redis_lock_timeout < P.system_ms w.ticks
      → P.redis.text_at w.db key ≡ some held
      → Ends (Got (P.system_ms w.ticks)) (try_lock P key new_locker w)
  unfolding try_lock get_system_ms
  try_lock_takes_over w ready h k at =
      let now : ℕ = P.system_ms w.ticks in
      let (zero, kept) =
        refused (P.redis.setnx w.db key (show_u64 now)) (A.setnx w.db (show_u64 now))
          (L.setnx_held w.db key (show_u64 now) held at) in
      Ends-bind (acl_setnx P key (show_u64 now)) _ (record w { ticks = w.ticks + 1 })
        (setnx-Ran P key _ _ ready)
        λ res w' a.
          Ends-if (is_zero res) _ _ w'
            (λ _.
              contend-Got now (as_u64 w.config.redis_lock_timeout) w' a.redis_ready
                (ap (λ (c : Config). as_u64 c.redis_lock_timeout) a.config) h k
                (ap (λ (d : P.redis.Db). P.redis.text_at d key) a.db ∙ kept))
            λ e. absurd (cc (e, ap is_zero (a.result ∙ zero)))
    where
      refused :
          (r : ℤ × P.redis.Db)
          → is_minus_one r.0 ≡ false
          → (is_minus_one r.0 ≡ true) ⊎ ((r.0 ≡ pos 0) × (P.redis.text_at r.1 key ≡ some held))
          → (r.0 ≡ pos 0) × (P.redis.text_at r.1 key ≡ some held)
      refused r f (inl m) = absurd (cc (m, f))
      refused r f (inr x) = x
