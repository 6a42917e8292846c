-- ===== src/Tests/Contention.antt =====
-- Lockers over one key of the demo server.
use erizo_controller.Base.{true, ℕ, String, [], ◌∷◌, Option, none, some, false, ◌≡◌, refl, arith}
use erizo_controller.Config.{as_u64}
use erizo_controller.Process.Ends.{Ends, Leaves}
use erizo_controller.Redis.Takeover.{try_lock_takes_over}
use erizo_controller.Process.State.{World}
use erizo_controller.Demo.Server.{Db, empty_db, demo_redis_laws}
use erizo_controller.Demo.World.{demo, demo_config, start}
use erizo_controller.Redis.Decimal.{show_u64, digits_before, stoll, read_digits}
use erizo_controller.Redis.Locker.{new_locker, try_lock}
use erizo_controller.Redis.Contention.{
  idle, started, refused, found_expired, held, System, sets, gets, takes_expired, update, begins,
  moves, passes, Reach, initially, later, look, compare_times,
}
use erizo_controller.External.Redis.{Answers}
use erizo_controller.Redis.Contention.Exclusive.{mutual_exclusion}
use erizo_controller.Redis.Contention.Alone.{Ended, Failed, try_lock-Runs}
use erizo_controller.Base.Lists.{lookup}
use erizo_controller.Base.Int.{ℤ, pos, is_minus_one}

-- A key that a dead controller left.
abbrev stale : Db
stale = record { texts = ("k", "90") ∷ []; rows = [] }

never_fails :
    (o : Option String)
    → is_minus_one (elim o as (λ _. ℤ) [ none ↦ pos 1 | some v ↦ pos 0 ]) ≡ false
never_fails none = refl
never_fails (some v) = refl

demo_Answers : Answers demo.redis "k"
unfolding lookup
demo_Answers = record {
  setnx = λ db v. never_fails (lookup "k" db.texts);
  get = λ db. refl;
  getset = λ db v. refl;
}

-- Two lockers find the key expired, and both write their time; the first takes the lock.
abbrev taken : System demo "k" 5
taken = record {
  db = record { texts = ("k", "100") ∷ ("k", "100") ∷ ("k", "90") ∷ []; rows = [] };
  time = 100;
  pc =
      update
        (update
          (update
            (update
              (update
                (update (update (update (λ _. idle) 0 (started 100)) 1 (started 100)) 0
                  (refused 100))
                1 (refused 100))
              0 (found_expired 100 90 "90"))
            1 (found_expired 100 90 "90"))
          0 (held 100))
        1 idle;
}

taken-Reach : Reach demo "k" 5 2 3 taken
unfolding lookup look compare_times stoll read_digits show_u64 digits_before
taken-Reach =
    later
      (later
        (later
          (later
            (later
              (later
                (later (later (initially stale 100 (omega arith)) (begins 0 refl refl))
                  (begins 1 refl refl))
                (moves 0 stale (refused 100) (sets 100 refl refl refl) refl))
              (moves 1 stale (refused 100) (sets 100 refl refl refl) refl))
            (moves 0 stale (found_expired 100 90 "90") (gets 100 refl refl refl) refl))
          (moves 1 stale (found_expired 100 90 "90") (gets 100 refl refl refl) refl))
        (moves 0 _ (held 100) (takes_expired 100 90 "90" refl refl refl) refl))
      (moves 1 _ idle (takes_expired 100 90 "90" refl refl refl) refl)

mutual_exclusion_example : ◌≡◌ {A = ℕ} 0 0
mutual_exclusion_example =
    mutual_exclusion demo "k" 5 2 3 demo_redis_laws demo_Answers (omega arith) (omega arith)
      taken-Reach 0 0 100 100 refl refl

-- An attempt that loses late puts its older time over the holder's, and a third locker finds that
-- expired: with attempts of 3 ms and critical sections of 3 ms, at a timeout of 5 ms, two hold the lock.
-- The order is 0 reads the time, finds the key expired; 1 takes the lock; 0 loses; 2 takes the lock.
late : System demo "k" 5
late = record {
  db = record { texts = ("k", "106") ∷ ("k", "100") ∷ ("k", "103") ∷ ("k", "90") ∷ []; rows = [] };
  time = 106;
  pc =
      update
        (update
          (update
            (update
              (update
                (update
                  (update
                    (update
                      (update
                        (update (update (update (λ _. idle) 0 (started 100)) 0 (refused 100)) 0
                          (found_expired 100 90 "90"))
                        1 (started 103))
                      1 (refused 103))
                    1 (found_expired 103 90 "90"))
                  1 (held 103))
                0 idle)
              2 (started 106))
            2 (refused 106))
          2 (found_expired 106 100 "100"))
        2 (held 106);
}

late-Reach : Reach demo "k" 5 3 3 late
unfolding late lookup look compare_times stoll read_digits show_u64 digits_before
late-Reach =
    later
      (later
        (later
          (later
            (later
              (later
                (later
                  (later
                    (later
                      (later
                        (later
                          (later
                            (later (later (initially stale 100 (omega arith)) (begins 0 refl refl))
                              (moves 0 stale (refused 100) (sets 100 refl refl refl) refl))
                            (moves 0 stale (found_expired 100 90 "90") (gets 100 refl refl refl)
                              refl))
                          (passes 103 (omega arith) (omega arith) (λ i. ground arith) refl))
                        (begins 1 refl refl))
                      (moves 1 stale (refused 103) (sets 103 refl refl refl) refl))
                    (moves 1 stale (found_expired 103 90 "90") (gets 103 refl refl refl) refl))
                  (moves 1 _ (held 103) (takes_expired 103 90 "90" refl refl refl) refl))
                (moves 0 _ idle (takes_expired 100 90 "90" refl refl refl) refl))
              (passes 106 (omega arith) (omega arith) (λ i. ground arith) refl))
            (begins 2 refl refl))
          (moves 2 _ (refused 106) (sets 106 refl refl refl) refl))
        (moves 2 _ (found_expired 106 100 "100") (gets 106 refl refl refl) refl))
      (moves 2 _ (held 106) (takes_expired 106 100 "100" refl refl refl) refl)

two_hold : (late.pc 1 ≡ held 103) × (late.pc 2 ≡ held 106)
unfolding late
two_hold = (refl, refl)

try_lock-Runs_example :
    Leaves
      (Ended demo "k" 10000 empty_db (started 100))
      (Failed demo "k" 10000 empty_db (started 100))
      (try_lock demo "k" new_locker start)
unfolding as_u64
try_lock-Runs_example = try_lock-Runs demo "k" start refl

-- The key of a controller that died, ten milliseconds before.
abbrev after_death : World demo
after_death = record start {
  config = record demo_config { redis_lock_timeout = pos 5 };
  db = stale;
}

try_lock_takes_over_example :
    Ends
      (λ r w. (r.0 ≡ true) × (r.1.locked ≡ true) × (lookup "k" w.db.texts ≡ some (show_u64 100)))
      (try_lock demo "k" new_locker after_death)
unfolding lookup stoll read_digits as_u64
try_lock_takes_over_example =
    try_lock_takes_over demo "k" "90" 90 demo_redis_laws demo_Answers refl refl (omega arith)
      after_death refl (omega arith) (omega arith) refl
