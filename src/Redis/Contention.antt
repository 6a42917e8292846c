-- ===== src/Redis/Contention.antt =====
-- redis/redis_locker.cpp: several lockers over one key, with `try_lock` and `unlock` taken apart into
-- the moments between two commands of the server, in any order.
pub mod Invariant
pub mod Moves
pub mod Exclusive
pub mod Alone
use erizo_controller.Base.{
  ℕ, ◌+◌, ◌≤◌, ◌<◌, ◌%◌, ◌^◌, Bool, true, false, String, ◌==◌, Option, none, some, ◌≡◌, ◌≢◌, eqb,
  ltb, if◌then◌else◌,
}
use erizo_controller.Base.Int.{ℤ, is_zero, to_unsigned}
use erizo_controller.External.{Platform}
use erizo_controller.Redis.Acl.{fill_text}
use erizo_controller.Redis.Decimal.{show_u64, stoll}
use erizo_controller.Redis.Locker.{u64}

-- Where a locker stands; `now` is the time that its attempt read.
pub data Pc : Type 0 where
  idle : Pc
  started : (now : ℕ) → Pc  -- before SETNX
  refused : (now : ℕ) → Pc  -- before GET
  found_empty : (now : ℕ) → Pc  -- before GETSET, `value` empty
  found_expired : (now t1 : ℕ) (value : String) → Pc  -- before GETSET, `value` expired
  held : (now : ℕ) → Pc  -- `locked_`
  unheld : Pc  -- `try_lock` returned 1, and `locked_` is false
  ended : Pc  -- `std::stoll` threw

abbrev pub update : (ℕ → Pc) → ℕ → Pc → ℕ → Pc
update pc i p j = if eqb i j then p else pc j

module _ (P : Platform) (key : String) (timeout : ℕ) where
  -- The test of `try_lock` on the time in `value`.
  abbrev pub is_over : ℕ → ℕ → Bool
  is_over now t1 = ltb ((t1 + timeout) % u64) now

  -- What an attempt makes of the text that GET filled in.
  unfoldable pub look : ℕ → String → Pc
  look now value = if value == "" then found_empty now else elim (stoll value) [
    | none ↦ ended
    | some t ↦
        let t1 = to_unsigned u64 t in if is_over now t1 then found_expired now t1 value else idle
  ]

  -- What an attempt makes of the text that the second GETSET filled in.
  unfoldable pub compare_times : ℕ → ℕ → String → Pc
  compare_times now t1 value = elim (stoll value) [
    | none ↦ ended
    | some t ↦ if eqb (to_unsigned u64 t) t1 then held now else idle
  ]

  -- One command of one locker, with what follows it up to the next command.
  pub data Move (db : P.redis.Db) (p : Pc) (db' : P.redis.Db) (p' : Pc) : Type 0 where
    sets :
        (now : ℕ)
        → p ≡ started now
        → db' ≡ (P.redis.setnx db key (show_u64 now)).1
        → p' ≡ (if is_zero (P.redis.setnx db key (show_u64 now)).0 then refused now else held now)
        → Move db p db' p'
    gets :
        (now : ℕ)
        → p ≡ refused now
        → db' ≡ (P.redis.get db key).2
        → p' ≡ (
            if is_zero (P.redis.get db key).0
            then unheld
            else look now (fill_text P "" (P.redis.get db key).1))
        → Move db p db' p'
    takes_empty :
        (now : ℕ)
        → p ≡ found_empty now
        → db' ≡ (P.redis.getset db key (show_u64 now)).2
        → p' ≡ (
            if is_zero (P.redis.getset db key (show_u64 now)).0
            then unheld
            else if fill_text P "" (P.redis.getset db key (show_u64 now)).1 == ""
            then held now
            else idle)
        → Move db p db' p'
    takes_expired :
        (now t1 : ℕ) (value : String)
        → p ≡ found_expired now t1 value
        → db' ≡ (P.redis.getset db key (show_u64 now)).2
        → p' ≡ (
            if is_zero (P.redis.getset db key (show_u64 now)).0
            then unheld
            else compare_times now t1 (fill_text P value (P.redis.getset db key (show_u64 now)).1))
        → Move db p db' p'
    unlocks :
        (now : ℕ) → p ≡ held now → db' ≡ (P.redis.del_one db key).1 → p' ≡ idle → Move db p db' p'
    leaves : p ≡ unheld → db' ≡ db → p' ≡ idle → Move db p db' p'

  -- The server, the time that every controller reads, and the lockers, each by a number.
  pub record System : Type 0 where
    pub db : P.redis.Db
    pub time : ℕ
    pub pc : ℕ → Pc

  -- An attempt is over `attempt` ms after it read the time, and the lock is given up `hold` ms after.
  abbrev pub InTime : ℕ → ℕ → ℕ → Pc → Type 0
  InTime attempt hold time (started now) = time ≤ now + attempt
  InTime attempt hold time (refused now) = time ≤ now + attempt
  InTime attempt hold time (found_empty now) = time ≤ now + attempt
  InTime attempt hold time (found_expired now t1 value) = time ≤ now + attempt
  InTime attempt hold time (held now) = time ≤ now + hold
  InTime attempt hold time p = Unit

  -- A locker reads the time, or moves; or the time passes, but not over the end of an attempt or of a
  -- critical section. Times stay below those that overflow.
  pub data Step (attempt hold : ℕ) (s t : System) : Type 0 where
    begins :
        (i : ℕ)
        → s.pc i ≡ idle
        → t ≡ record s { pc = update s.pc i (started s.time) }
        → Step attempt hold s t
    moves :
        (i : ℕ) (db' : P.redis.Db) (p' : Pc)
        → Move s.db (s.pc i) db' p'
        → t ≡ record s { db = db'; pc = update s.pc i p' }
        → Step attempt hold s t
    passes :
        (later : ℕ)
        → s.time ≤ later
        → later + timeout < 2 ^ 63
        → ((i : ℕ) → InTime attempt hold later (s.pc i))
        → t ≡ record s { time = later }
        → Step attempt hold s t

  -- What is reached from a server with anything under the key, and no locker at work.
  pub data Reach (attempt hold : ℕ) : System → Type 0 where
    initially :
        (db : P.redis.Db) (time : ℕ)
        → time + timeout < 2 ^ 63
        → Reach attempt hold (record { db = db; time = time; pc = λ _. idle })
    later : {s t : System} → Reach attempt hold s → Step attempt hold s t → Reach attempt hold t
