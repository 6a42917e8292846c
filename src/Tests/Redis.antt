-- ===== src/Tests/Redis.antt =====
-- The lock and the rows at concrete servers.
use erizo_controller.Base.{
  pos, Bool, true, false, some, [], ◌∷◌, ◌≡◌, refl, arith, lookup, contains, none, List,
}
use erizo_controller.Config.{as_u64}
use erizo_controller.Model.Outcome.{done}
use erizo_controller.Process.State.{World, ◌>>=◌, ◌>>◌, pure}
use erizo_controller.Process.Ends.{Ends}
use erizo_controller.Redis.Helper.{get_publisher, get_all_publisher}
use erizo_controller.Redis.Decimal.{show_u64, stoll, read_digits}
use erizo_controller.Redis.Locker.{Locker, new_locker, try_lock, unlock}
use erizo_controller.Redis.Handoff.{unlock-try_lock}
use erizo_controller.Demo.Server.{without, once}
use erizo_controller.Redis.Exclusion.{try_lock_excluded}
use erizo_controller.Redis.Rows.{RowOp, put, remove, apply_all}
use erizo_controller.Redis.Rows.All.{Keyed, AllOf}
use erizo_controller.Redis.Rows.Publishers.{FitsText, HoldsRows, publisher_ops, publishers_refine}
use erizo_controller.External.Redis.{Answers, HashAnswers}
use erizo_controller.Base.{Option, String, ℤ}
use erizo_controller.Base.Int.{is_minus_one}
use erizo_controller.Redis.Handover.{try_lock-try_lock}
use erizo_controller.Model.Publisher.{Publisher}
use erizo_controller.Demo.Library.{demo_laws}
use erizo_controller.Demo.Server.{demo_redis_laws}
use erizo_controller.Demo.World.{demo, start, camera}

demo_HashAnswers : HashAnswers demo.redis "publisher_room"
demo_HashAnswers = record {
  hgetall = λ db. refl;
  hset = λ db f v. refl;
  hget = λ db f. refl;
  hdel = λ db f. refl;
  hdel_fields = λ db fs. refl;
}

abbrev other : Publisher
other = record camera { id = "cam2"; label = "screen" }

-- Two publishers are written, and one is removed again.
abbrev some_ops : List (RowOp Publisher)
some_ops = put camera ∷ put other ∷ remove ("cam" ∷ []) ∷ []

not_some : (p : Publisher) → none ≡ some p → FitsText p
not_some p e = absurd (cc e)

no_publishers : HoldsRows demo "room" (λ _. none) start
unfolding lookup once
no_publishers = record { ready = refl; at = λ id. refl; fits = λ id p e. not_some p e }

empty_map : Keyed (λ (p : Publisher). p.id) (λ _. none)
empty_map f p e = absurd (cc e)

publishers_refine_example :
    (((publisher_ops demo "room" some_ops >> get_publisher demo "room" "cam2") start).0
      ≡ done (some other))
    × Ends
        (AllOf demo (λ p. p.id) (apply_all (λ p. p.id) some_ops (λ _. none)))
        ((publisher_ops demo "room" some_ops >> get_all_publisher demo "room") start)
unfolding apply_all contains
publishers_refine_example =
    publishers_refine demo "room" demo_laws demo_redis_laws demo_HashAnswers some_ops (λ _. none)
      "cam2" start
      (
        record { port = omega arith; video = omega arith; audio = omega arith },
        (record { port = omega arith; video = omega arith; audio = omega arith }, tt),
      )
      empty_map no_publishers

-- Another controller took the lock at 90.
abbrev locked_at_90 : World demo
locked_at_90 = record start { db = record { texts = ("room", "90") ∷ []; rows = [] } }

try_lock_excluded_example :
    Ends
      (λ r w'. (r.0 ≡ false) × (r.1.locked ≡ false) × (lookup "room" w'.db.texts ≡ some "90"))
      (try_lock demo "room" new_locker locked_at_90)
unfolding lookup stoll read_digits as_u64
try_lock_excluded_example =
    try_lock_excluded demo "room" locked_at_90 refl "90" 90 demo_redis_laws refl refl refl
      (omega arith) (omega arith) refl refl

unlock-try_lock_example :
    Ends
      (λ r w'.
        (r.0 ≡ true) × (r.1.locked ≡ true) × (lookup "room" w'.db.texts ≡ some (show_u64 100)))
      ((unlock demo (record { key = "room"; locked = true }) >>= λ _.
          try_lock demo "room" new_locker)
        locked_at_90)
unfolding lookup without
unlock-try_lock_example = unlock-try_lock demo "room" locked_at_90 refl demo_redis_laws refl refl

not_minus_one :
    (o : Option String)
    → is_minus_one (elim o as (λ _. ℤ) [ none ↦ pos 1 | some v ↦ pos 0 ]) ≡ false
not_minus_one none = refl
not_minus_one (some v) = refl

room_Answers : Answers demo.redis "room"
unfolding lookup
room_Answers = record {
  setnx = λ db v. not_minus_one (lookup "room" db.texts);
  get = λ db. refl;
  getset = λ db v. refl;
}

try_lock-try_lock_example :
    Ends
      (λ ((got, l, other_got, k) : Bool × Locker × Bool × Locker) w'.
        (got ≡ true)
        × (l.locked ≡ true)
        × (other_got ≡ false)
        × (k.locked ≡ false)
        × (lookup "room" w'.db.texts ≡ some (show_u64 100)))
      ((try_lock demo "room" new_locker >>= λ (got, l).
          try_lock demo "room" new_locker >>= λ (other_got, k). pure (got, l, other_got, k))
        start)
unfolding lookup as_u64
try_lock-try_lock_example =
    try_lock-try_lock demo "room" start refl demo_redis_laws room_Answers refl (omega arith)
      (omega arith) (omega arith)
