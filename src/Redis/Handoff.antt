-- ===== src/Redis/Handoff.antt =====
-- redis/redis_locker.cpp: a lock that is given up is free for the next locker.
use erizo_controller.Base.{
  ◌+◌, ℤ, pos, true, false, String, some, ◌≡◌, ◌⊎◌, inl, inr, refl, ap, ◌∙◌,
}
use erizo_controller.Base.Int.{is_zero, is_minus_one}
use erizo_controller.External.{Platform}
use erizo_controller.External.Redis.{RedisLaws}
use erizo_controller.Process.State.{World, ◌>>=◌}
use erizo_controller.Process.Ends.{Ends, ends, Ends-bind, Ends-if}
use erizo_controller.Process.Clock.{get_system_ms}
use erizo_controller.Redis.Acl.{acl_setnx, acl_del}
use erizo_controller.Redis.Decimal.{show_u64}
use erizo_controller.Redis.Exclusion.{setnx-Ran}
use erizo_controller.Redis.Locker.{new_locker, try_lock, unlock}

module _ (P : Platform) (key : String) (w : World P) (ready : w.redis_ready ≡ true) where
  -- The server after the lock was deleted, and its answer to the `SETNX` of the next `try_lock`.
  abbrev pub freed : P.redis.Db
  freed = (P.redis.del_one w.db key).1

  abbrev pub next_answer : ℤ × P.redis.Db
  next_answer = P.redis.setnx freed key (show_u64 (P.system_ms w.ticks))

  unlock_frees :
      RedisLaws P.redis
      → is_minus_one (P.redis.del_one w.db key).0 ≡ false
      → Ends
          (λ l' w'.
            (l'.locked ≡ false) × (w'.db ≡ freed) × (w'.redis_ready ≡ true) × (w'.ticks ≡ w.ticks))
          (unlock P (record { key = key; locked = true }) w)
  unfolding unlock acl_del
  unlock_frees L answered = rw (ready, acl_del) (ends _ _ (refl, refl, refl, refl))

  answer_one :
      RedisLaws P.redis
      → is_minus_one (P.redis.del_one w.db key).0 ≡ false
      → is_minus_one next_answer.0 ≡ false
      → next_answer.0 ≡ pos 1
  answer_one L deleted answered =
      refused_or (L.setnx_free freed key _ (L.del_removes w.db key deleted))
    where
      refused_or :
          ((is_minus_one next_answer.0 ≡ true) ⊎ (next_answer.0 ≡ pos 1)) → next_answer.0 ≡ pos 1
      refused_or (inl e) = absurd (cc (e, answered))
      refused_or (inr e) = e

  -- After `unlock` of a locker that holds the lock, the lock is not stuck: where `DEL` and then `SETNX`
  -- do not fail, the next `try_lock` of another locker gets the lock at once, and the key holds its time.
  pub unlock-try_lock :
      RedisLaws P.redis
      → is_minus_one (P.redis.del_one w.db key).0 ≡ false
      → is_minus_one next_answer.0 ≡ false
      → Ends
          (λ r w'.
            (r.0 ≡ true)
            × (r.1.locked ≡ true)
            × (P.redis.text_at w'.db key ≡ some (show_u64 (P.system_ms w.ticks))))
          ((unlock P (record { key = key; locked = true }) >>= λ _. try_lock P key new_locker) w)
  unfolding try_lock get_system_ms
  unlock-try_lock L deleted answered =
      let one = answer_one L deleted answered in
      Ends-bind (unlock P (record { key = key; locked = true })) _ w (unlock_frees L deleted)
        λ _ v (_, at, up, same).
          Ends-bind (acl_setnx P key (show_u64 (P.system_ms v.ticks))) _
            (record v { ticks = v.ticks + 1 }) (setnx-Ran P key _ _ up)
            λ res v' a.
              Ends-if (is_zero res) _ _ v'
                (λ e. absurd (taken res e (a.result ∙ same_answer v at same) one))
                λ _. ends _ _ (
                  refl,
                  refl,
                  ap (λ (d : P.redis.Db). P.redis.text_at d key) (a.db ∙ same_db v at same)
                      ∙ (L.setnx_writes freed key _ one).1,
                )
    where
      same_answer :
          (v : World P)
          → v.db ≡ freed
          → v.ticks ≡ w.ticks
          → (P.redis.setnx v.db key (show_u64 (P.system_ms v.ticks))).0 ≡ next_answer.0
      same_answer v at same = rw (at, same) refl

      same_db :
          (v : World P)
          → v.db ≡ freed
          → v.ticks ≡ w.ticks
          → (P.redis.setnx v.db key (show_u64 (P.system_ms v.ticks))).1 ≡ next_answer.1
      same_db v at same = rw (at, same) refl

      taken : (res : ℤ) → is_zero res ≡ true → res ≡ next_answer.0 → next_answer.0 ≡ pos 1 → ⊥
      taken res z e one = cc (z, ap is_zero (e ∙ one))
