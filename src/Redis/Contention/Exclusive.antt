-- ===== src/Redis/Contention/Exclusive.antt =====
-- redis/redis_locker.cpp: who holds the lock while the commands of several lockers interleave.
use erizo_controller.Base.{ℕ, ◌+◌, ◌≤◌, ◌<◌, ◌^◌, ◌≡◌, String, refl, arith}
use erizo_controller.External.{Platform}
use erizo_controller.External.Redis.{RedisLaws, Answers}
use erizo_controller.Redis.Contention.{
  Pc, idle, started, refused, found_empty, found_expired, held, unheld, ended, System, InTime, Step,
  begins, moves, passes, Reach, initially, later,
}
use erizo_controller.Redis.Contention.Invariant.{Past, Inv, untouched}
use erizo_controller.Redis.Contention.Moves.{Move-Inv}

module _ (P : Platform) (key : String) (timeout attempt hold : ℕ) (L : RedisLaws P.redis)
    (A : Answers P.redis key) (fits : attempt + hold ≤ timeout) (longer : attempt ≤ hold) where
  abbrev Keeps : System P key timeout → Type 0
  Keeps s = Inv P key timeout attempt hold s.db s.time s.pc

  Past-le :
      (p : Pc) (time time' : ℕ)
      → time ≤ time'
      → Past P key timeout attempt hold time p
      → Past P key timeout attempt hold time' p
  Past-le idle time time' le h = tt
  Past-le (started now) time time' le h = omega arith
  Past-le (refused now) time time' le h = omega arith
  Past-le (found_empty now) time time' le h = omega arith
  Past-le (found_expired now t1 value) time time' le (h, over) = (omega arith, over)
  Past-le (held now) time time' le h = omega arith
  Past-le unheld time time' le h = tt
  Past-le ended time time' le h = tt

  passes-Keeps :
      (s : System P key timeout) (time' : ℕ)
      → s.time ≤ time'
      → time' + timeout < 2 ^ 63
      → ((i : ℕ) → InTime P key timeout attempt hold time' (s.pc i))
      → Keeps s
      → Keeps (record s { time = time' })
  passes-Keeps s time' le small it inv = record {
    clock = small;
    past = λ i. Past-le (s.pc i) s.time time' le (inv.past i);
    in_time = it;
    alone = inv.alone;
    kept = λ i n h. let (t, at, le', m, nc) = inv.kept i n h in (t, at, omega arith, m, nc);
  }

  Step-Keeps :
      {s t : System P key timeout} → Step P key timeout attempt hold s t → Keeps s → Keeps t
  Step-Keeps {s} (begins i e q) inv = rw q (
      untouched P key timeout attempt hold inv i s.db (started s.time) refl refl (omega arith)
        (omega arith) (λ t at. at))
  Step-Keeps {s} (moves i db' p' mv q) inv =
      rw q (Move-Inv P key timeout attempt hold L A fits longer inv i db' p' mv)
  Step-Keeps {s} (passes time' le small it q) inv = rw q (passes-Keeps s time' le small it inv)

  none_held : {n : ℕ} → idle ≡ held n → ⊥
  none_held e = cc

  Reach-Keeps : {s : System P key timeout} → Reach P key timeout attempt hold s → Keeps s
  Reach-Keeps (initially db time small) = record {
    clock = small;
    past = λ _. tt;
    in_time = λ _. tt;
    alone = λ i j n m h h'. absurd (none_held h);
    kept = λ i n h. absurd (none_held h);
  }
  Reach-Keeps (later r st) = Step-Keeps st (Reach-Keeps r)

  -- Where the server answers every command and keeps its documented behaviour, each attempt is over
  -- `attempt` ms after it read the time, each critical section `hold` ms after, and the two together
  -- are not above the timeout, two lockers never hold the lock at once: not in any order of the
  -- commands of any number of lockers, and whatever was under the key at first.
  pub mutual_exclusion :
      {s : System P key timeout}
      → Reach P key timeout attempt hold s
      → (i j n m : ℕ) → s.pc i ≡ held n
      → s.pc j ≡ held m
      → i ≡ j
  mutual_exclusion r = (Reach-Keeps r).alone
