-- ===== src/Thread/Worker/Unscheduled.antt =====
-- thread/worker.cpp: the calls of a function that was unscheduled.
use erizo_controller.Base.{
  ℕ, zero, suc, ◌+◌, ◌<◌, Bool, true, false, ◌&&◌, not, Option, none, some, List, [], ◌∷◌, ◌++◌,
  ◌≡◌, refl, ap, ◌∙◌, subst, length, get_elem?, set, eqb, Bool-cases, Option-cases, inl, inr, arith,
  if◌then◌else◌,
}
use erizo_controller.Thread.Worker.{
  Posted, plain, guarded, Worker, task, schedule_from_now, unschedule, is_cancelled, fire, calls,
  take_posted, call_current, destroy, Event, task_event, schedule_event, unschedule_event,
  fire_event, take_event, call_event, destroy_event, happen, happen_all,
}

get-append :
    (bs : List Bool) (i : ℕ)
    → get_elem? bs i ≡ some true
    → get_elem? (bs ++ (false ∷ [])) i ≡ some true
get-append [] i h = absurd (cc h)
get-append (b ∷ bs) zero h = h
get-append (b ∷ bs) (suc i) h = get-append bs i h

get-set_true :
    (bs : List Bool) (i j : ℕ)
    → get_elem? bs i ≡ some true
    → get_elem? (set bs j true) i ≡ some true
get-set_true [] i j h = h
get-set_true (b ∷ bs) zero zero h = refl
get-set_true (b ∷ bs) zero (suc j) h = h
get-set_true (b ∷ bs) (suc i) zero h = h
get-set_true (b ∷ bs) (suc i) (suc j) h = get-set_true bs i j h

-- A function that is called is not that of a cancelled reference.
other_id :
    (id : ℕ) (alive : Bool) (bs : List Bool) (j : ℕ)
    → (alive && not (elim (get_elem? bs j) [ none ↦ false | some b ↦ b ])) ≡ true
    → get_elem? bs id ≡ some true
    → eqb j id ≡ false
other_id id alive bs j h c = elim (Bool-cases (eqb j id)) [
  | inr e ↦ e
  | inl e ↦
      let same : j ≡ id = ground arith in
      absurd (
        never alive (
          subst (λ (o : Option Bool). (alive && not (elim o [ none ↦ false | some b ↦ b ])) ≡ true)
            (ap (get_elem? bs) same ∙ c) h))
]
  where
    never : (b : Bool) → (b && false) ≡ true → ⊥
    never true h = cc
    never false h = cc

module _ {F : Type 0} (id : ℕ) where
  -- How often the function of the reference was called.
  unfoldable pub times_called : List (Posted F) → ℕ
  times_called [] = 0
  times_called (plain f ∷ rs) = times_called rs
  times_called (guarded j f ∷ rs) = (if eqb j id then 1 else 0) + times_called rs

  times_called-append :
      (rs : List (Posted F)) (x : Posted F)
      → times_called (rs ++ (x ∷ [])) ≡ times_called rs + times_called (x ∷ [])
  unfolding times_called
  times_called-append [] x = omega arith
  times_called-append (plain g ∷ rs) x = times_called-append rs x
  times_called-append (guarded k g ∷ rs) x = omega (arith, times_called-append rs x)

  -- How often the function was called, or is about to be.
  unfoldable pub calls_begun : Worker F → ℕ
  unfolding times_called
  calls_begun w = times_called w.ran + elim w.current [ none ↦ 0 | some x ↦ times_called (x ∷ []) ]

  -- The reference is cancelled.
  abbrev IsCancelled : Worker F → Type 0
  IsCancelled w = get_elem? w.cancelled id ≡ some true

  record StaysQuiet (w w' : Worker F) : Type 0 where
    cancelled : IsCancelled w'
    same : calls_begun w' ≡ calls_begun w

  -- What passes the tests is not the function of the reference.
  passed_other :
      (w : Worker F) (x : Posted F) → IsCancelled w → calls w x ≡ true → times_called (x ∷ []) ≡ 0
  unfolding calls is_cancelled times_called
  passed_other w (plain f) c e = refl
  passed_other w (guarded j f) c e = rw (other_id id w.alive w.cancelled j e c) refl

  take-StaysQuiet :
      (i : ℕ) (w : Worker F) (current : Option (Posted F))
      → IsCancelled w
      → StaysQuiet (record w { current = current }) (take_posted i (record w { current = current }))
  unfolding take_posted calls_begun
  take-StaysQuiet i w (some x) c = record { cancelled = c; same = refl }
  take-StaysQuiet i w none c = elim (Option-cases (get_elem? w.posted i)) [
    | inl e ↦ rw (take_posted, e) (record { cancelled = c; same = refl })
    | inr (x, e) ↦ elim (Bool-cases (calls (record w { current = none }) x)) [
      | inl t ↦
          rw (take_posted, e, t)
            (record {
              cancelled = c;
              same = omega (arith, passed_other (record w { current = none }) x c t);
            })
      | inr f ↦ rw (take_posted, e, f) (record { cancelled = c; same = refl })
    ]
  ]

  call-StaysQuiet :
      (w : Worker F) (current : Option (Posted F))
      → IsCancelled w
      → StaysQuiet (record w { current = current }) (call_current (record w { current = current }))
  unfolding call_current calls_begun
  call-StaysQuiet w none c = record { cancelled = c; same = refl }
  call-StaysQuiet w (some x) c = record {
    cancelled = c;
    same = omega (arith, times_called-append w.ran x);
  }

  fire-StaysQuiet :
      (w : Worker F) (q : List (ℕ × (ℕ × F))) (alive : Bool)
      → IsCancelled w
      → StaysQuiet w (fire (record w { scheduled = q; alive = alive }))
  unfolding fire calls_begun
  fire-StaysQuiet w [] alive c = record { cancelled = c; same = refl }
  fire-StaysQuiet w ((t, (j, f)) ∷ q) true c = record { cancelled = c; same = refl }
  fire-StaysQuiet w ((t, (j, f)) ∷ q) false c = record { cancelled = c; same = refl }

  happen-StaysQuiet : (e : Event F) (w : Worker F) → IsCancelled w → StaysQuiet w (happen e w)
  unfolding happen task schedule_from_now unschedule destroy calls_begun
  happen-StaysQuiet (task_event f) w c = record { cancelled = c; same = refl }
  happen-StaysQuiet (schedule_event t f) w c = record {
    cancelled = get-append w.cancelled id c;
    same = refl;
  }
  happen-StaysQuiet (unschedule_event j) w c = record {
    cancelled = get-set_true w.cancelled id j c;
    same = refl;
  }
  happen-StaysQuiet fire_event w c = fire-StaysQuiet w w.scheduled w.alive c
  happen-StaysQuiet (take_event i) w c = take-StaysQuiet i w w.current c
  happen-StaysQuiet call_event w c = call-StaysQuiet w w.current c
  happen-StaysQuiet destroy_event w c = record { cancelled = c; same = refl }

  happen_all-cancelled :
      (es : List (Event F)) (w : Worker F)
      → get_elem? w.cancelled id ≡ some true
      → calls_begun (happen_all es w) ≡ calls_begun w
  unfolding happen_all
  happen_all-cancelled [] w c = refl
  happen_all-cancelled (e ∷ es) w c =
      let k = happen-StaysQuiet e w c in happen_all-cancelled es (happen e w) k.cancelled ∙ k.same

get-set_in : (bs : List Bool) (i : ℕ) → i < length bs → get_elem? (set bs i true) i ≡ some true
get-set_in [] i h = absurd (omega arith)
get-set_in (b ∷ bs) zero h = refl
get-set_in (b ∷ bs) (suc i) h = get-set_in bs i (omega arith)

module _ {F : Type 0} where
  -- After `unschedule` of a reference that `scheduleFromNow` returned, no call of its function begins,
  -- whatever happens to the worker afterwards: new tasks, delayed functions, and the tests and calls of
  -- its thread, in any order. The calls that were made and the one that the thread is about to make, if
  -- it had passed its tests before, stay as many as they were.
  pub unschedule_lem :
      (id : ℕ) (es : List (Event F)) (w : Worker F)
      → id < length w.cancelled
      → calls_begun id (happen_all es (unschedule id w)) ≡ calls_begun id w
  unfolding unschedule calls_begun
  unschedule_lem id es w h =
      happen_all-cancelled id es (unschedule id w) (get-set_in w.cancelled id h)
