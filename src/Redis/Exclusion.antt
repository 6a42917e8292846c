-- ===== src/Redis/Exclusion.antt =====
-- redis/redis_locker.cpp: what each command leaves, and when `try_lock` fails.
use erizo_controller.Base.{
  ℕ, ◌+◌, ◌≤◌, ◌<◌, ◌%◌, ℤ, pos, true, false, String, ◌==◌, some, ◌≡◌, refl, ap, ◌∙◌, ◌⊎◌, inl, inr,
  arith, ltb,
}
use erizo_controller.Base.Int.{is_zero, is_minus_one, to_unsigned}
use erizo_controller.Config.{as_u64}
use erizo_controller.External.{Platform}
use erizo_controller.External.Redis.{RedisLaws}
use erizo_controller.Process.State.{World}
use erizo_controller.Process.Ends.{Ends, ends, Ends-bind, Ends-if}
use erizo_controller.Process.Clock.{get_system_ms}
use erizo_controller.Redis.Acl.{fill_text, acl_setnx, acl_get, acl_getset}
use erizo_controller.Redis.Decimal.{show_u64, stoll}
use erizo_controller.Redis.Locker.{new_locker, u64, contend, try_lock}

module _ (P : Platform) where
  -- What a command that reached the server leaves.
  pub record Ran {A : Type 0} (w : World P) (a : A) (after : P.redis.Db) (r : A) (w' : World P)
      : Type 0 where
    pub result : r ≡ a
    pub db : w'.db ≡ after
    pub redis_ready : w'.redis_ready ≡ true
    pub config : w'.config ≡ w.config

  pub setnx-Ran :
      (k v : String) (w : World P)
      → w.redis_ready ≡ true
      → Ends (Ran w (P.redis.setnx w.db k v).0 (P.redis.setnx w.db k v).1) (acl_setnx P k v w)
  unfolding acl_setnx
  setnx-Ran k v w ready =
      rw (ready, acl_setnx)
        (ends _ _ (record { result = refl; db = refl; redis_ready = refl; config = refl }))

  pub get-Ran :
      (k v : String) (w : World P)
      → w.redis_ready ≡ true
      → Ends
          (Ran w
            ((P.redis.get w.db k).0, fill_text P v (P.redis.get w.db k).1)
            (P.redis.get w.db k).2)
          (acl_get P k v w)
  unfolding acl_get
  get-Ran k v w ready =
      rw (ready, acl_get)
        (ends _ _ (record { result = refl; db = refl; redis_ready = refl; config = refl }))

  pub getset-Ran :
      (k v old : String) (w : World P)
      → w.redis_ready ≡ true
      → Ends
          (Ran w
            ((P.redis.getset w.db k v).0, fill_text P old (P.redis.getset w.db k v).1)
            (P.redis.getset w.db k v).2)
          (acl_getset P k v old w)
  unfolding acl_getset
  getset-Ran k v old w ready =
      rw (ready, acl_getset)
        (ends _ _ (record { result = refl; db = refl; redis_ready = refl; config = refl }))

  still_recent :
      (held : String) (t now timeout : ℕ)
      → t + timeout < u64
      → now ≤ t + timeout
      → ltb ((to_unsigned u64 (pos t) + timeout) % u64) now ≡ false
  still_recent held t now timeout small recent = ground arith

  got_value : (v held : String) → v ≡ held → (held == "") ≡ false → fill_text P "" v ≡ held
  got_value v held e n = rw (e, n)

  contend_excluded :
      (key : String) (now : ℕ) (w : World P) (held : String) (t : ℕ)
      → RedisLaws P.redis
      → w.redis_ready ≡ true
      → P.redis.text_at w.db key ≡ some held
      → (held == "") ≡ false
      → stoll held ≡ some (pos t)
      → t + as_u64 w.config.redis_lock_timeout < u64
      → now ≤ t + as_u64 w.config.redis_lock_timeout
      → (P.redis.get w.db key).0 ≡ pos 1
      → Ends
          (λ r w'. (r.0 ≡ false) × (r.1.locked ≡ false) × (P.redis.text_at w'.db key ≡ some held))
          (contend P key now (record { key = key; locked = false }) w)
  unfolding contend
  contend_excluded key now w held t L ready at not_empty parsed small recent got =
      let kept = L.get_reads w.db key held got at in
      let filled = got_value (P.redis.get w.db key).1 held kept.0 not_empty in
      Ends-bind (acl_get P key "") _ w (get-Ran key "" w ready) λ a w' b.
        Ends-if (is_zero a.0) _ _ w'
          (λ e. cc (e, ap (λ (x : ℤ × String). is_zero x.0) b.result, ap is_zero got))
          λ _.
            Ends-if (a.1 == "") _ _ w'
              (λ e. cc (e, not_empty, ap (λ (x : ℤ × String). x.1) b.result, filled))
              λ _.
                rw
                  (
                    ap (λ (x : ℤ × String). x.1) b.result ∙ filled,
                    parsed,
                    b.config,
                    still_recent held t now _ small recent,
                  )
                  (ends _ _
                    (refl, refl, ap (λ (d : P.redis.Db). P.redis.text_at d key) b.db ∙ kept.1))

  module _ (key : String) (w : World P) (ready : w.redis_ready ≡ true) where
    -- The server's answer to the `SETNX` of `try_lock`.
    abbrev pub setnx_answer : ℤ × P.redis.Db
    setnx_answer = P.redis.setnx w.db key (show_u64 (P.system_ms w.ticks))

    held_after :
        (held : String)
        → ((is_minus_one setnx_answer.0 ≡ true)
            ⊎ ((setnx_answer.0 ≡ pos 0) × (P.redis.text_at setnx_answer.1 key ≡ some held)))
        → is_minus_one setnx_answer.0 ≡ false
        → P.redis.text_at setnx_answer.1 key ≡ some held
    held_after held (inl e) a = cc
    held_after held (inr (_, k)) a = k

    setnx_refused :
        (res : ℤ) (held : String)
        → ((is_minus_one setnx_answer.0 ≡ true)
            ⊎ ((setnx_answer.0 ≡ pos 0) × (P.redis.text_at setnx_answer.1 key ≡ some held)))
        → is_minus_one setnx_answer.0 ≡ false
        → is_zero res ≡ is_zero setnx_answer.0
        → is_zero res ≡ false
        → ⊥
    setnx_refused res held (inl e) a r f = cc
    setnx_refused res held (inr (e, _)) a r f = cc (r, f, ap is_zero e)

    -- While the key holds a time that `std::stoll` reads and that is not more than the timeout ago,
    -- without overflow of their sum, and `SETNX` and `GET` answer, `try_lock` of another locker fails:
    -- it returns false, holds nothing, and the key holds what it held.
    pub try_lock_excluded :
        (held : String) (t : ℕ)
        → RedisLaws P.redis
        → P.redis.text_at w.db key ≡ some held
        → (held == "") ≡ false
        → stoll held ≡ some (pos t)
        → t + as_u64 w.config.redis_lock_timeout < u64
        → P.system_ms w.ticks ≤ t + as_u64 w.config.redis_lock_timeout
        → is_minus_one setnx_answer.0 ≡ false
        → (P.redis.get setnx_answer.1 key).0 ≡ pos 1
        → Ends
            (λ r w'. (r.0 ≡ false) × (r.1.locked ≡ false) × (P.redis.text_at w'.db key ≡ some held))
            (try_lock P key new_locker w)
    unfolding try_lock get_system_ms contend
    try_lock_excluded held t L at not_empty parsed small recent answered got =
        Ends-bind (acl_setnx P key (show_u64 (P.system_ms w.ticks))) _
          (record w { ticks = w.ticks + 1 }) (setnx-Ran key _ _ ready)
          λ res w' a.
            Ends-if (is_zero res) _ _ w'
              (λ _.
                contend_excluded key (P.system_ms w.ticks) w' held t L a.redis_ready
                  (ap (λ (d : P.redis.Db). P.redis.text_at d key) a.db
                    ∙ held_after held (L.setnx_held w.db key _ held at) answered)
                  not_empty parsed (rw a.config small) (rw a.config recent)
                  (ap (λ (d : P.redis.Db). (P.redis.get d key).0) a.db ∙ got))
              λ e. absurd (
                setnx_refused _ held (L.setnx_held w.db key _ held at) answered
                  (ap is_zero a.result) e)
