-- ===== src/Redis/Contention/Moves.antt =====
-- redis/redis_locker.cpp: each command of a locker and the invariant.
use erizo_controller.Base.{
  ℕ, ◌+◌, ◌≤◌, ◌<◌, ◌^◌, true, false, String, ◌==◌, none, some, ◌≡◌, refl, sym, ◌∙◌, ◌⊎◌, inl, inr,
  subst, eqb, arith, Bool-cases, Option-cases, if◌then◌else◌,
}
use erizo_controller.Base.Int.{ℤ, pos, is_zero, to_unsigned}
use erizo_controller.External.{Platform}
use erizo_controller.External.Redis.{RedisLaws, Answers}
use erizo_controller.Redis.Acl.{fill_text}
use erizo_controller.Redis.Decimal.{show_u64, stoll}
use erizo_controller.Redis.Locker.{u64}
use erizo_controller.Redis.Contention.{
  Pc, idle, started, refused, found_empty, found_expired, held, unheld, ended, is_over, look,
  compare_times, Move, sets, gets, takes_empty, takes_expired, unlocks, leaves, update, InTime,
}
use erizo_controller.Redis.Contention.Invariant.{
  shown, shown-full, is_held, is_claim, Past, NotClaimed, Free, Inv, stays, untouched, overwrites,
  obtains,
}

same_number : (a : ℤ) (b : ℕ) → some a ≡ some (pos b) → a ≡ pos b
same_number a b e = cc

module _ (P : Platform) (key : String) (timeout : ℕ) where
  -- One rule for what `look` may come to.
  look_cases :
      (Q : Pc → Type 0) (now : ℕ) (value : String)
      → Q (found_empty now)
      → Q ended
      → Q idle
      → ((t : ℤ)
          → (value == "") ≡ false
          → stoll value ≡ some t
          → is_over P key timeout now (to_unsigned u64 t) ≡ true
          → Q (found_expired now (to_unsigned u64 t) value))
      → Q (look P key timeout now value)
  unfolding look
  look_cases Q now value a b c d = elim (Bool-cases (value == "")) [
    | inl e ↦ rw e a
    | inr e ↦ elim (Option-cases (stoll value)) [
      | inl n ↦ rw (look, e, n) b
      | inr (t, s) ↦ elim (Bool-cases (is_over P key timeout now (to_unsigned u64 t))) [
        | inl o ↦ rw (look, e, s, o) (d t e s o)
        | inr o ↦ rw (look, e, s, o) c
      ]
    ]
  ]

  compare_cases :
      (Q : Pc → Type 0) (now t1 : ℕ) (value : String)
      → Q ended
      → Q idle
      → ((t : ℤ) → stoll value ≡ some t → eqb (to_unsigned u64 t) t1 ≡ true → Q (held now))
      → Q (compare_times P key timeout now t1 value)
  unfolding compare_times
  compare_cases Q now t1 value a b c = elim (Option-cases (stoll value)) [
    | inl n ↦ rw (compare_times, n) a
    | inr (t, s) ↦ elim (Bool-cases (eqb (to_unsigned u64 t) t1)) [
      | inl o ↦ rw (compare_times, s, o) (c t s o)
      | inr o ↦ rw (compare_times, s, o) b
    ]
  ]

  set_cases :
      RedisLaws P.redis
      → Answers P.redis key
      → (db : P.redis.Db) (value : String)
      → (((P.redis.setnx db key value).0 ≡ pos 0)
          × ((u : String)
              → P.redis.text_at db key ≡ some u
              → P.redis.text_at (P.redis.setnx db key value).1 key ≡ some u))
        ⊎ (((P.redis.setnx db key value).0 ≡ pos 1)
            × (P.redis.text_at db key ≡ none)
            × (P.redis.text_at (P.redis.setnx db key value).1 key ≡ some value))
  set_cases L A db value = elim (Option-cases (P.redis.text_at db key)) [
    | inl e ↦ elim (L.setnx_free db key value e) [
      | inl m ↦ absurd (cc (m, A.setnx db value))
      | inr one ↦ inr (one, e, (L.setnx_writes db key value one).1)
    ]
    | inr (u, e) ↦ elim (L.setnx_held db key value u e) [
      | inl m ↦ absurd (cc (m, A.setnx db value))
      | inr (z, k) ↦ inl (z, λ v h. k ∙ sym e ∙ h)
    ]
  ]

  -- Where the text under the key is empty or not a time that it may be, nobody holds the lock.
  module _ (attempt hold : ℕ) {db : P.redis.Db} {time : ℕ} {pc : ℕ → Pc}
      (inv : Inv P key timeout attempt hold db time pc) where
    nobody_without : P.redis.text_at db key ≡ none → Free P key timeout attempt hold pc
    nobody_without e j n h = let k = inv.kept j n h in cc (e, k.1)

    -- A text that is under the key if somebody holds the lock is that of a time that is not over.
    nobody_if :
        (value : String)
        → ((u : String) → P.redis.text_at db key ≡ some u → value ≡ u)
        → ((t n : ℕ) (j : ℕ)
            → pc j ≡ held n
            → t < 2 ^ 63
            → n ≤ t + attempt
            → NotClaimed P key timeout attempt hold pc t
            → (value == "") ≡ false
            → stoll value ≡ some (pos t)
            → ⊥)
        → Free P key timeout attempt hold pc
    nobody_if value same never j n h =
        let (t, at, le, m, nc) = inv.kept j n h in
        let small : t < 2 ^ 63 = omega (arith, inv.clock) in
        let e = same (show_u64 t) at in
        never t n j h small m nc (rw e (shown-full t small)) (rw e (shown t small))

module _ (P : Platform) (key : String) (timeout attempt hold : ℕ) (L : RedisLaws P.redis)
    (A : Answers P.redis key) (fits : attempt + hold ≤ timeout) (longer : attempt ≤ hold)
    {db : P.redis.Db} {time : ℕ} {pc : ℕ → Pc} (inv : Inv P key timeout attempt hold db time pc)
    (i : ℕ) where
  -- The invariant, after the locker has moved to `p`.
  abbrev After : P.redis.Db → Pc → Type 0
  After db' p = Inv P key timeout attempt hold db' time (update pc i p)

  short : attempt ≤ timeout
  short = omega arith

  sets-Inv :
      (now : ℕ)
      → pc i ≡ started now
      → After
          (P.redis.setnx db key (show_u64 now)).1
          (if is_zero (P.redis.setnx db key (show_u64 now)).0 then refused now else held now)
  sets-Inv now e =
      let le = subst (Past P key timeout attempt hold time) e (inv.past i) in
      let late = subst (InTime P key timeout attempt hold time) e (inv.in_time i) in
      elim (set_cases P key timeout L A db (show_u64 now)) [
        | inl (z, same) ↦ rw z (
            untouched P key timeout attempt hold inv i _ (refused now) refl refl le late
              λ t at. same (show_u64 t) at)
        | inr (one, free, at) ↦ rw one (
            obtains P key timeout attempt hold inv i _ now short longer
              (nobody_without P key timeout attempt hold inv free) le late at)
      ]

  -- Nobody's time is over: `attempt` and `hold` are together not above the timeout.
  not_over :
      (now t n : ℕ)
      → now ≤ time
      → t < 2 ^ 63
      → n ≤ t + attempt
      → time ≤ n + hold
      → is_over P key timeout now (to_unsigned u64 (pos t)) ≡ true
      → ⊥
  not_over now t n le small m late over = ground (arith, inv.clock)

  gets-Inv :
      (now : ℕ)
      → pc i ≡ refused now
      → After (P.redis.get db key).2 (
          if is_zero (P.redis.get db key).0
          then unheld
          else look P key timeout now (fill_text P "" (P.redis.get db key).1))
  gets-Inv now e = rw (A.get db) (
      look_cases P key timeout (After _) now _ (plain (found_empty now) refl refl le late)
        (plain ended refl refl tt tt) (plain idle refl refl tt tt)
        λ t full parsed over.
          stays P key timeout attempt hold inv i _ (found_expired now _ _) refl (le, over) late
            λ j n ne h k. absurd (seen t parsed over j n h))
    where
      le : now ≤ time
      le = subst (Past P key timeout attempt hold time) e (inv.past i)

      late : time ≤ now + attempt
      late = subst (InTime P key timeout attempt hold time) e (inv.in_time i)

      plain :
          (p : Pc)
          → is_held p ≡ false
          → is_claim p ≡ false
          → Past P key timeout attempt hold time p
          → InTime P key timeout attempt hold time p
          → After (P.redis.get db key).2 p
      plain p f c pa it =
          untouched P key timeout attempt hold inv i _ p f c pa it
            λ t at. (L.get_reads db key (show_u64 t) (A.get db) at).1

      seen :
          (t : ℤ)
          → stoll (fill_text P "" (P.redis.get db key).1) ≡ some t
          → is_over P key timeout now (to_unsigned u64 t) ≡ true
          → Free P key timeout attempt hold pc
      seen t parsed over =
          nobody_if P key timeout attempt hold inv (P.redis.get db key).1
            (λ u at. (L.get_reads db key u (A.get db) at).0)
            λ t' n j h small m nc full read.
              not_over now t' n le small m
                (subst (InTime P key timeout attempt hold time) h (inv.in_time j))
                (subst (λ (x : ℤ). is_over P key timeout now (to_unsigned u64 x) ≡ true)
                  (same_number t t' (sym parsed ∙ rw full read)) over)

  -- GETSET writes the time of the attempt; without the lock it stays at that.
  module _ (now : ℕ) (le : now ≤ time) (late : time ≤ now + attempt) where
    abbrev swapped : ℤ × String × P.redis.Db
    swapped = P.redis.getset db key (show_u64 now)

    swaps :
        (P.redis.text_at swapped.2 key ≡ some (show_u64 now))
        × ((u : String) → P.redis.text_at db key ≡ some u → swapped.1 ≡ u)
    swaps = L.getset_swaps db key (show_u64 now) (A.getset db (show_u64 now))

    loses :
        (p : Pc)
        → is_held p ≡ false
        → is_claim p ≡ false
        → Past P key timeout attempt hold time p
        → InTime P key timeout attempt hold time p
        → After swapped.2 p
    loses p f c pa it =
        overwrites P key timeout attempt hold inv i _ p now short f c pa it le late swaps.0

    wins : Free P key timeout attempt hold pc → After swapped.2 (held now)
    wins free = obtains P key timeout attempt hold inv i _ now short longer free le late swaps.0

    takes_empty-Inv : After swapped.2 (
        if is_zero swapped.0
        then unheld
        else if fill_text P "" swapped.1 == ""
        then held now
        else idle)
    takes_empty-Inv =
        rw (A.getset db (show_u64 now)) (elim (Bool-cases (fill_text P "" swapped.1 == "")) [
          | inl e ↦ rw e (
              wins (
                nobody_if P key timeout attempt hold inv swapped.1 swaps.1
                  λ t n j h small m nc full read. cc (rw full at e, full)))
          | inr e ↦ rw e (loses idle refl refl tt tt)
        ])

    takes_expired-Inv :
        (t1 : ℕ) (value : String)
        → pc i ≡ found_expired now t1 value
        → After swapped.2 (
            if is_zero swapped.0
            then unheld
            else compare_times P key timeout now t1 (fill_text P value swapped.1))
    takes_expired-Inv t1 value claimed = rw (A.getset db (show_u64 now)) (
        compare_cases P key timeout (After _) now t1 (fill_text P value swapped.1)
          (loses ended refl refl tt tt) (loses idle refl refl tt tt)
          λ t parsed same. wins (
            nobody_if P key timeout attempt hold inv swapped.1 swaps.1
              λ t' n j h small m nc full read. nc i now t1 value claimed (
                met t' small (
                  subst (λ (x : ℤ). eqb (to_unsigned u64 x) t1 ≡ true)
                    (same_number t t' (sym parsed ∙ rw full read)) same))))
      where
        met : (t' : ℕ) → t' < 2 ^ 63 → eqb (to_unsigned u64 (pos t')) t1 ≡ true → t1 ≡ t'
        met t' small h = ground arith

  unlocks-Inv : (now : ℕ) → pc i ≡ held now → After (P.redis.del_one db key).1 idle
  unlocks-Inv now e =
      stays P key timeout attempt hold inv i _ idle refl tt tt
        λ j n ne h k. absurd (other j ne (inv.alone i j now n e h))
    where
      other : (j : ℕ) → eqb i j ≡ false → i ≡ j → ⊥
      other j ne same = ground arith

  leaves-Inv : After db idle
  leaves-Inv = untouched P key timeout attempt hold inv i db idle refl refl tt tt (λ t at. at)

  -- Each command of a locker keeps the invariant.
  pub Move-Inv : (db' : P.redis.Db) (p' : Pc) → Move P key timeout db (pc i) db' p' → After db' p'
  Move-Inv db' p' (sets now e d q) = rw (d, q) (sets-Inv now e)
  Move-Inv db' p' (gets now e d q) = rw (d, q) (gets-Inv now e)
  Move-Inv db' p' (takes_empty now e d q) =
      rw (d, q)
        (takes_empty-Inv now (subst (Past P key timeout attempt hold time) e (inv.past i))
          (subst (InTime P key timeout attempt hold time) e (inv.in_time i)))
  Move-Inv db' p' (takes_expired now t1 value e d q) =
      rw (d, q)
        (takes_expired-Inv now (subst (Past P key timeout attempt hold time) e (inv.past i)).0
          (subst (InTime P key timeout attempt hold time) e (inv.in_time i)) t1 value e)
  Move-Inv db' p' (unlocks now e d q) = rw (d, q) (unlocks-Inv now e)
  Move-Inv db' p' (leaves e d q) = rw (d, q) leaves-Inv
