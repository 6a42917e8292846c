-- ===== src/Redis/Contention/Alone.antt =====
-- redis/redis_locker.cpp: `try_lock` and the moves of one locker.
use erizo_controller.Base.{
  ℕ, ◌+◌, Bool, true, false, String, ◌==◌, ◌≡◌, refl, ap, sym, ◌∙◌, eqb, Bool-cases, inl, inr,
  if◌then◌else◌,
}
use erizo_controller.Base.Int.{ℤ, is_zero, to_unsigned}
use erizo_controller.Config.{Config, as_u64}
use erizo_controller.External.{Platform}
use erizo_controller.Process.State.{World}
use erizo_controller.Process.Ends.{
  Leaves, returned, Leaves-bind, Leaves-if, Leaves-converted, Ends-Leaves,
}
use erizo_controller.Process.Clock.{get_system_ms}
use erizo_controller.Redis.Acl.{acl_setnx, acl_get, acl_getset}
use erizo_controller.Redis.Decimal.{show_u64, stoll}
use erizo_controller.Redis.Exclusion.{Ran, setnx-Ran, get-Ran, getset-Ran}
use erizo_controller.Redis.Locker.{
  Locker, new_locker, u64, take_empty, take_expired, contend, try_lock,
}
use erizo_controller.Redis.Contention.{
  Pc, idle, started, refused, found_empty, found_expired, held, unheld, ended, is_over, look,
  compare_times, Move, sets, gets, takes_empty, takes_expired,
}

module _ (P : Platform) (key : String) (timeout : ℕ) where
  -- Moves of one locker, while no other moves.
  pub data Runs (db : P.redis.Db) (p : Pc) : P.redis.Db → Pc → Type 0 where
    here : Runs db p db p
    next :
        {db' db'' : P.redis.Db} {p' p'' : Pc}
        → Runs db p db' p'
        → Move P key timeout db' p' db'' p''
        → Runs db p db'' p''

  -- What `try_lock` returns, and the locker that it leaves, where the moves end.
  abbrev pub Stands : Pc → Bool × Locker → Type 0
  Stands idle r = r ≡ (false, record { key = key; locked = false })
  Stands (held now) r = r ≡ (true, record { key = key; locked = true })
  Stands unheld r = r ≡ (true, record { key = key; locked = false })
  Stands p r = ⊥

  module _ (db0 : P.redis.Db) (p0 : Pc) where
    abbrev pub Ended : Bool × Locker → World P → Type 0
    Ended r w = (p : Pc) × Runs db0 p0 w.db p × Stands p r

    abbrev pub Failed : World P → Type 0
    Failed w = Runs db0 p0 w.db ended

    abbrev fresh : Locker
    fresh = record { key = key; locked = false }

    take_empty-Runs :
        (now : ℕ) (w : World P)
        → w.redis_ready ≡ true
        → Runs db0 p0 w.db (found_empty now)
        → Leaves Ended Failed (take_empty P key now fresh w)
    unfolding take_empty
    take_empty-Runs now w ready r =
        Leaves-bind (acl_getset P key (show_u64 now) "") _ w
          (Ends-Leaves _ (getset-Ran P key (show_u64 now) "" w ready))
          λ a w' b.
            let moved =
              λ (p : Pc)
                  (q : (if is_zero a.0 then unheld else if a.1 == "" then held now else idle) ≡ p).
                next r (
                  takes_empty now refl b.db (
                    sym q
                    ∙ ap
                        (λ (x : ℤ × String).
                          if is_zero x.0 then unheld else if x.1 == "" then held now else idle)
                        b.result)) in
            Leaves-if (is_zero a.0) _ _ w'
              (λ z. returned _ _ (unheld, moved unheld (rw z refl), refl))
              λ z. elim (Bool-cases (a.1 == "")) [
                | inl e ↦ returned _ _ (held now, moved (held now) (rw (z, e) refl), rw e refl)
                | inr e ↦ returned _ _ (idle, moved idle (rw (z, e) refl), rw e refl)
              ]

    take_expired-Runs :
        (now t1 : ℕ) (value : String) (w : World P)
        → w.redis_ready ≡ true
        → Runs db0 p0 w.db (found_expired now t1 value)
        → Leaves Ended Failed (take_expired P key now t1 value fresh w)
    unfolding take_expired compare_times
    take_expired-Runs now t1 value w ready r =
        Leaves-bind (acl_getset P key (show_u64 now) value) _ w
          (Ends-Leaves _ (getset-Ran P key (show_u64 now) value w ready))
          λ a w' b.
            let moved =
              λ (p : Pc)
                  (q : (if is_zero a.0 then unheld else compare_times P key timeout now t1 a.1)
                    ≡ p).
                next r (
                  takes_expired now t1 value refl b.db (
                    sym q
                    ∙ ap
                        (λ (x : ℤ × String).
                          if is_zero x.0 then unheld else compare_times P key timeout now t1 x.1)
                        b.result)) in
            Leaves-if (is_zero a.0) _ _ w'
              (λ z. returned _ _ (unheld, moved unheld (rw z refl), refl))
              λ z.
                Leaves-converted (stoll a.1) _ w' (λ e. moved ended (rw (z, compare_times, e) refl))
                  λ t e. elim (Bool-cases (eqb (to_unsigned u64 t) t1)) [
                    | inl s ↦
                        returned _ _
                          (held now, moved (held now) (rw (z, compare_times, e, s) refl), rw s refl)
                    | inr s ↦
                        returned _ _
                          (idle, moved idle (rw (z, compare_times, e, s) refl), rw s refl)
                  ]

    contend-Runs :
        (now : ℕ) (w : World P)
        → w.redis_ready ≡ true
        → as_u64 w.config.redis_lock_timeout ≡ timeout
        → Runs db0 p0 w.db (refused now)
        → Leaves Ended Failed (contend P key now fresh w)
    unfolding contend look
    contend-Runs now w ready same r =
        Leaves-bind (acl_get P key "") _ w (Ends-Leaves _ (get-Ran P key "" w ready)) λ a w' b.
          let moved =
            λ (p : Pc) (q : (if is_zero a.0 then unheld else look P key timeout now a.1) ≡ p).
              next r (
                gets now refl b.db (
                  sym q
                  ∙ ap
                      (λ (x : ℤ × String).
                        if is_zero x.0 then unheld else look P key timeout now x.1)
                      b.result)) in
          Leaves-if (is_zero a.0) _ _ w'
            (λ z. returned _ _ (unheld, moved unheld (rw z refl), refl))
            λ z.
              Leaves-if (a.1 == "") _ _ w'
                (λ e.
                  take_empty-Runs now w' b.redis_ready
                    (moved (found_empty now) (rw (z, look, e) refl)))
                λ e.
                  Leaves-converted (stoll a.1) _ w' (λ n. moved ended (rw (z, look, e, n) refl))
                    λ t s. rw (ap (λ (c : Config). as_u64 c.redis_lock_timeout) b.config ∙ same) (
                      Leaves-if (is_over P key timeout now (to_unsigned u64 t)) _ _ w'
                        (λ o.
                          take_expired-Runs now (to_unsigned u64 t) a.1 w' b.redis_ready
                            (moved _ (rw (z, look, e, s, o) refl)))
                        λ o. returned _ _ (idle, moved idle (rw (z, look, e, s, o) refl), refl))

module _ (P : Platform) (key : String) (w : World P) where
  first_move :
      (now : ℕ) (res : ℤ) (w' : World P) (p : Pc)
      → Ran P
          (record w { ticks = w.ticks + 1 })
          (P.redis.setnx w.db key (show_u64 now)).0
          (P.redis.setnx w.db key (show_u64 now)).1
          res
          w'
      → (if is_zero res then refused now else held now) ≡ p
      → Runs P key (as_u64 w.config.redis_lock_timeout) w.db (started now) w'.db p
  first_move now res w' p a q = next here (
      sets now refl a.db
        (sym q ∙ ap (λ (x : ℤ). if is_zero x then refused now else held now) a.result))

  -- `try_lock` of a new locker is a run of one locker's moves from the time that it reads, alone with the
  -- server, and each of its outcomes is where the run ends: it returns false without the lock (idle),
  -- true with it (held), true without it (unheld), or throws (ended).
  pub try_lock-Runs :
      w.redis_ready ≡ true
      → Leaves
          (Ended P key (as_u64 w.config.redis_lock_timeout) w.db (started (P.system_ms w.ticks)))
          (Failed P key (as_u64 w.config.redis_lock_timeout) w.db (started (P.system_ms w.ticks)))
          (try_lock P key new_locker w)
  unfolding try_lock get_system_ms
  try_lock-Runs ready =
      Leaves-bind (acl_setnx P key (show_u64 (P.system_ms w.ticks))) _
        (record w { ticks = w.ticks + 1 }) (Ends-Leaves _ (setnx-Ran P key _ _ ready))
        λ res w' a.
          Leaves-if (is_zero res) _ _ w'
            (λ z.
              contend-Runs P key (as_u64 w.config.redis_lock_timeout) w.db _ (P.system_ms w.ticks)
                w' a.redis_ready (ap (λ (c : Config). as_u64 c.redis_lock_timeout) a.config)
                (first_move _ res w' (refused (P.system_ms w.ticks)) a (rw z refl)))
            λ z. returned _ _ (
              held (P.system_ms w.ticks),
              first_move _ res w' (held (P.system_ms w.ticks)) a (rw z refl),
              refl,
            )
