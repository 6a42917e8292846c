-- ===== src/Redis/Contention/Invariant.antt =====
-- redis/redis_locker.cpp: what holds of several lockers between any two commands, and how it is kept by
-- a command that obtains the lock and by one that does not.
use erizo_controller.Base.{
  subst, ℕ, ◌+◌, ◌≤◌, ◌<◌, ◌^◌, Bool, true, false, String, ◌==◌, some, ◌≡◌, ◌≢◌, refl, ap, sym, ◌∙◌,
  inl, inr, eqb, ltb, eq_iff, arith, Bool-cases, if◌then◌else◌,
}
use erizo_controller.Base.Int.{pos}
use erizo_controller.External.{Platform}
use erizo_controller.Redis.Decimal.{show_u64, stoll}
use erizo_controller.Redis.Decimal.RoundTrip.{stoll-show_u64}
use erizo_controller.Redis.Contention.{
  Pc, started, refused, found_empty, found_expired, held, is_over, update, InTime,
}

pub shown : (t : ℕ) → t < 2 ^ 63 → stoll (show_u64 t) ≡ some (pos t)
shown t h =
    stoll-show_u64 t (omega arith)
    ∙ rw (let e : ltb 9223372036854775807 t ≡ false = ground arith in e)

pub shown-full : (t : ℕ) → t < 2 ^ 63 → (show_u64 t == "") ≡ false
unfolding stoll
shown-full t h = elim (Bool-cases (show_u64 t == "")) [
  | inl e ↦ absurd (cc (shown t h, ap stoll ((eq_iff (show_u64 t) "").0 e)))
  | inr e ↦ e
]

abbrev pub is_held : Pc → Bool
is_held (held now) = true
is_held p = false

abbrev pub is_claim : Pc → Bool
is_claim (found_expired now t1 value) = true
is_claim p = false

module _ {ℓ} (Q : Pc → Type ℓ) (pc : ℕ → Pc) (i : ℕ) (p : Pc) where
  at_if : (b : Bool) (j : ℕ) → Q p → Q (pc j) → Q (if b then p else pc j)
  at_if true j h k = h
  at_if false j h k = k

  everywhere : ((j : ℕ) → Q (pc j)) → Q p → (j : ℕ) → Q (update pc i p j)
  everywhere h k j = at_if (eqb i j) j k (h j)

-- A locker that holds the lock is not the one that moved to `p`.
held_elsewhere :
    (pc : ℕ → Pc) (i j : ℕ) (p : Pc) (n : ℕ)
    → is_held p ≡ false
    → update pc i p j ≡ held n
    → (eqb i j ≡ false) × (pc j ≡ held n)
held_elsewhere pc i j p n f h = elim (Bool-cases (eqb i j)) [
  | inl e ↦ absurd (cc (f, ap is_held (rw e at h)))
  | inr e ↦ (e, rw e at h)
]

same_time : (now n : ℕ) → held now ≡ held n → now ≡ n
same_time now n e = cc

module _ (P : Platform) (key : String) (timeout attempt hold : ℕ) where
  -- What a locker read is past, and an expired time was so when it was read.
  abbrev pub Past : ℕ → Pc → Type 0
  Past time (started now) = now ≤ time
  Past time (refused now) = now ≤ time
  Past time (found_empty now) = now ≤ time
  Past time (found_expired now t1 value) = (now ≤ time) × (is_over P key timeout now t1 ≡ true)
  Past time (held now) = now ≤ time
  Past time p = Unit

  -- No attempt that found `t1` expired meets the time `t`.
  abbrev pub NotClaimed : (ℕ → Pc) → ℕ → Type 0
  NotClaimed pc t = (j now t1 : ℕ) (value : String) → pc j ≡ found_expired now t1 value → t1 ≢ t

  -- The key holds a time that is not older than `n` by more than an attempt takes.
  abbrev pub Kept : P.redis.Db → ℕ → (ℕ → Pc) → ℕ → Type 0
  Kept db time pc n =
      (t : ℕ) × (P.redis.text_at db key ≡ some (show_u64 t))
      × (t ≤ time)
      × (n ≤ t + attempt)
      × NotClaimed pc t

  abbrev pub Free : (ℕ → Pc) → Type 0
  Free pc = (j n : ℕ) → pc j ≡ held n → ⊥

  pub record Inv (db : P.redis.Db) (time : ℕ) (pc : ℕ → Pc) : Type 0 where
    pub clock : time + timeout < 2 ^ 63
    pub past : (i : ℕ) → Past time (pc i)
    pub in_time : (i : ℕ) → InTime P key timeout attempt hold time (pc i)
    pub alone : (i j n m : ℕ) → pc i ≡ held n → pc j ≡ held m → i ≡ j
    pub kept : (i n : ℕ) → pc i ≡ held n → Kept db time pc n

  module _ {db : P.redis.Db} {time : ℕ} {pc : ℕ → Pc} (inv : Inv db time pc) (i : ℕ) where
    -- A time that an attempt writes is not one that another found expired.
    not_claimed :
        (now : ℕ) → attempt ≤ timeout → now ≤ time → time ≤ now + attempt → NotClaimed pc now
    not_claimed now short le late j now' t1 value e same = clash (subst (Past time) e (inv.past j))
      where
        clash : Past time (found_expired now' t1 value) → ⊥
        clash (le', over) = ground (arith, inv.clock)

    -- The moved locker aside, an attempt that claims is one that claimed before.
    pub NotClaimed-update :
        (p : Pc) (t : ℕ) → is_claim p ≡ false → NotClaimed pc t → NotClaimed (update pc i p) t
    NotClaimed-update p t f k j now t1 value e = elim (Bool-cases (eqb i j)) [
      | inl h ↦ absurd (cc (f, ap is_claim (rw h at e)))
      | inr h ↦ k j now t1 value (rw h at e)
    ]

    -- A move that obtains no lock, and leaves a time under the key to whoever holds it.
    pub stays :
        (db' : P.redis.Db) (p : Pc)
        → is_held p ≡ false
        → Past time p
        → InTime P key timeout attempt hold time p
        → ((j n : ℕ)
            → eqb i j ≡ false
            → pc j ≡ held n
            → Kept db time pc n
            → Kept db' time (update pc i p) n)
        → Inv db' time (update pc i p)
    stays db' p f past in_time keeps = record {
      clock = inv.clock;
      past = everywhere (Past time) pc i p inv.past past;
      in_time = everywhere (InTime P key timeout attempt hold time) pc i p inv.in_time in_time;
      alone = λ j k n m h h'.
          inv.alone j k n m (held_elsewhere pc i j p n f h).1 (held_elsewhere pc i k p m f h').1;
      kept = λ j n h.
          let (ne, h') = held_elsewhere pc i j p n f h in keeps j n ne h' (inv.kept j n h');
    }

    -- The same, where the time under the key is what it was.
    pub untouched :
        (db' : P.redis.Db) (p : Pc)
        → is_held p ≡ false
        → is_claim p ≡ false
        → Past time p
        → InTime P key timeout attempt hold time p
        → ((t : ℕ)
            → P.redis.text_at db key ≡ some (show_u64 t)
            → P.redis.text_at db' key ≡ some (show_u64 t))
        → Inv db' time (update pc i p)
    untouched db' p f c past in_time same =
        stays db' p f past in_time
          λ j n ne h (t, at, le, m, nc). (t, same t at, le, m, NotClaimed-update p t c nc)

    -- The same, where the locker wrote its time and goes without the lock.
    pub overwrites :
        (db' : P.redis.Db) (p : Pc) (now : ℕ)
        → attempt ≤ timeout
        → is_held p ≡ false
        → is_claim p ≡ false
        → Past time p
        → InTime P key timeout attempt hold time p
        → now ≤ time
        → time ≤ now + attempt
        → P.redis.text_at db' key ≡ some (show_u64 now)
        → Inv db' time (update pc i p)
    overwrites db' p now short f c past in_time le late at =
        stays db' p f past in_time λ j n ne h _.
          let le' : n ≤ time = subst (Past time) h (inv.past j) in
          (now, at, le, omega arith, NotClaimed-update p now c (not_claimed now short le late))

    -- The lock is free, and the locker obtains it and writes its time.
    pub obtains :
        (db' : P.redis.Db) (now : ℕ)
        → attempt ≤ timeout
        → attempt ≤ hold
        → Free pc
        → now ≤ time
        → time ≤ now + attempt
        → P.redis.text_at db' key ≡ some (show_u64 now)
        → Inv db' time (update pc i (held now))
    obtains db' now short longer free le late at = record {
      clock = inv.clock;
      past = everywhere (Past time) pc i (held now) inv.past le;
      in_time =
          everywhere (InTime P key timeout attempt hold time) pc i (held now) inv.in_time
            (omega arith);
      alone = λ j k n m h h'. sym (only j n h).0 ∙ (only k m h').0;
      kept = λ j n h. (
        now,
        at,
        le,
        omega (arith, (only j n h).1),
        NotClaimed-update (held now) now refl (not_claimed now short le late),
      );
    }
      where
        only : (j n : ℕ) → update pc i (held now) j ≡ held n → (i ≡ j) × (now ≡ n)
        only j n h = elim (Bool-cases (eqb i j)) [
          | inl e ↦ (ground arith, same_time now n (rw e at h))
          | inr e ↦ absurd (free j n (rw e at h))
        ]
