-- ===== src/Rpc/Timeouts.antt =====
-- rabbitmq/amqp_rpc.cpp: a call, a round of the check thread, and the answer to the call.
use erizo_controller.Base.{
  ℕ, ◌+◌, ◌<◌, ◌≤◌, ◌%◌, ◌^◌, Bool, inl, inr, Bool-cases, true, false, String, some, [], ◌∷◌, ◌++◌,
  ◌≡◌, refl, ap, ◌∙◌, List, eqb, ltb, zero, suc, get_elem?, set, length, arith, if◌then◌else◌,
}
use erizo_controller.External.Json.{JsonCpp}
use erizo_controller.Rpc.{
  Callback, Rpc, rpc_with, handled, answer_slot, handle_callback, is_overdue, expire_slots,
  check_callbacks,
}
use erizo_controller.Rpc.Replies.{IsAnswer, answer_reaches, answer_taken, filled, get-set}

-- Within 64 bits a slot is overdue where more than the timeout has passed.
overdue :
    (now clock timeout func : ℕ)
    → 0 < now
    → now ≤ clock
    → clock < 2 ^ 64
    → is_overdue clock timeout (record { ts = now; func = func }) ≡ ltb (now + timeout) clock
overdue now clock timeout func t h c = ground arith

-- No slot has this callback.
abbrev pub Fresh : ℕ → List Callback → Type 0
Fresh func q = (i : ℕ) (cb : Callback) → get_elem? q i ≡ some cb → eqb cb.func func ≡ false

some-length : (q : List Callback) (i : ℕ) (cb : Callback) → get_elem? q i ≡ some cb → i < length q
some-length [] i cb h = absurd (cc h)
some-length (c ∷ q) zero cb h = omega arith
some-length (c ∷ q) (suc i) cb h = let rest = some-length q i cb h in omega (arith, rest)

same : (n : ℕ) → eqb n n ≡ true
same n = ground arith

module _ (J : JsonCpp) where
  -- What a callback was given, in order.
  abbrev pub given : ℕ → List (ℕ × J.Value) → List J.Value
  given func [] = []
  given func ((f, v) ∷ calls) = let rest = given func calls in if eqb f func then v ∷ rest else rest

  given-append :
      (func : ℕ) (xs ys : List (ℕ × J.Value))
      → given func (xs ++ ys) ≡ given func xs ++ given func ys
  given-append func [] ys = refl
  given-append func ((f, v) ∷ xs) ys = elim (Bool-cases (eqb f func)) [
    | inl e ↦ rw (e, given-append func xs ys) refl
    | inr e ↦ rw (e, given-append func xs ys) refl
  ]

  module _ (timeout func : ℕ) where
    expire_slots-Fresh :
        (clock : ℕ → ℕ) (q : List Callback)
        → Fresh func q
        → given func (expire_slots J clock timeout q).1 ≡ []
    unfolding expire_slots
    expire_slots-Fresh clock [] f = refl
    expire_slots-Fresh clock (c ∷ q) f =
        let rest = expire_slots-Fresh (λ i. clock (suc i)) q (λ i. f (suc i)) in
        elim (Bool-cases (is_overdue (clock 0) timeout c)) [
          | inl e ↦ rw (e, f 0 c refl, rest) refl
          | inr e ↦ rw (e, rest) refl
        ]

    -- Of a slot, the round calls the callback if it is overdue, and leaves it free then.
    expire_slots-set :
        (clock : ℕ → ℕ) (q : List Callback) (k now : ℕ)
        → Fresh func q
        → k < length q
        → given func (expire_slots J clock timeout (set q k (record { ts = now; func = func }))).1
          ≡ (if is_overdue (clock k) timeout (record { ts = now; func = func })
              then J.null ∷ []
              else [])
    unfolding expire_slots
    expire_slots-set clock [] k now f h = absurd (omega arith)
    expire_slots-set clock (c ∷ q) zero now f h =
        let rest = expire_slots-Fresh (λ i. clock (suc i)) q (λ i. f (suc i)) in
        elim (Bool-cases (is_overdue (clock 0) timeout (record { ts = now; func = func }))) [
          | inl e ↦ rw (e, same func, rest) refl
          | inr e ↦ rw (e, rest) refl
        ]
    expire_slots-set clock (c ∷ q) (suc k) now f h =
        let rest =
          expire_slots-set (λ i. clock (suc i)) q k now (λ i. f (suc i)) (omega (arith, h)) in
        elim (Bool-cases (is_overdue (clock 0) timeout c)) [
          | inl e ↦ rw (e, f 0 c refl) rest
          | inr e ↦ rw e rest
        ]

    expire_slots-left :
        (clock : ℕ → ℕ) (q : List Callback) (k : ℕ) (cb : Callback)
        → get_elem? q k ≡ some cb
        → get_elem? (expire_slots J clock timeout q).0 k
          ≡ some (if is_overdue (clock k) timeout cb then record cb { ts = 0 } else cb)
    unfolding expire_slots
    expire_slots-left clock [] k cb h = absurd (cc h)
    expire_slots-left clock (c ∷ q) zero cb h =
        let e : c ≡ cb = cc in
        elim (Bool-cases (is_overdue (clock 0) timeout cb)) [
          | inl o ↦ rw (e, o) refl
          | inr o ↦ rw (e, o) refl
        ]
    expire_slots-left clock (c ∷ q) (suc k) cb h =
        let rest = expire_slots-left (λ i. clock (suc i)) q k cb h in
        elim (Bool-cases (is_overdue (clock 0) timeout c)) [ inl o ↦ rw o rest | inr o ↦ rw o rest ]

  free_ignored :
      (corrid func : ℕ) (body : J.Value) (r : Rpc J)
      → get_elem? r.cb_queue corrid ≡ some (record { ts = 0; func = func })
      → answer_slot J corrid body r ≡ handled r
  unfolding answer_slot
  free_ignored corrid func body r s = rw (answer_slot, s) refl

  -- After the round, where the call waits in its slot: a late answer is dropped, another is taken.
  settled :
      (late : Bool) (now func k : ℕ) (body : J.Value) (u : Rpc J)
      → 0 < now
      → get_elem? u.cb_queue k
        ≡ some (if late then record { ts = 0; func = func } else record { ts = now; func = func })
      → given func u.called ≡ (if late then J.null ∷ [] else [])
      → (r' : Rpc J) × (answer_slot J k body u ≡ handled r')
        × (given func r'.called ≡ (if late then J.null else body) ∷ [])
        × (answer_slot J k body r' ≡ handled r')
  settled true now func k body u t s g =
      (u, free_ignored k func body u s, g, free_ignored k func body u s)
  settled false now func k body u t s g =
      let (r', taken, called, ignored) =
        answer_taken J k now func body u t (some-length u.cb_queue k _ s) s in
      (
        r',
        taken,
        rw (called, given-append func u.called ((func, body) ∷ []), g, same func) refl,
        ignored,
      )

  -- A callback of which nothing is left in the slots and that was not called yet is given one value
  -- after a call of `rpc` on a free slot, a round of the check thread and the answer with the call's
  -- id: null where the round looks at the slot more than the timeout after the call, and the answer
  -- where it does not. The answer once more changes nothing. The clock does not show 0, does not go
  -- back and stays below 2 ^ 64, and no other thread is on the slots in between.
  pub rpc_with-check_callbacks :
      (now timeout func : ℕ) (clock : ℕ → ℕ) (exchange queuename binding_key msg : String)
      (body root : J.Value) (cb : Callback) (r : Rpc J)
      → 0 < now
      → now ≤ clock (r.index % 256)
      → clock (r.index % 256) < 2 ^ 64
      → length r.cb_queue ≡ 256
      → get_elem? r.cb_queue (r.index % 256) ≡ some cb
      → eqb cb.ts 0 ≡ true
      → Fresh func r.cb_queue
      → given func r.called ≡ []
      → IsAnswer J msg (r.index % 256) root
      → (r' : Rpc J) × (handle_callback J msg (
            check_callbacks J clock timeout
              (rpc_with J now exchange queuename binding_key body func r))
          ≡ handled r')
        × (given func r'.called
            ≡ (if ltb (now + timeout) (clock (r.index % 256)) then J.null else J.member root "data")
              ∷ [])
        × (handle_callback J msg r' ≡ handled r')
  unfolding check_callbacks
  rpc_with-check_callbacks now timeout func clock exchange queuename binding_key msg body root cb r
        t back high l s z fresh none_yet a =
      let k = r.index % 256 in
      let new : Callback = record { ts = now; func = func } in
      let v = rpc_with J now exchange queuename binding_key body func r in
      let f = filled J now func exchange queuename binding_key body cb r s z in
      let o = overdue now (clock k) timeout func t back high in
      let small : k < length r.cb_queue = rw l (omega arith) in
      let (r', given', once, ignored) =
        settled (ltb (now + timeout) (clock k)) now func k (J.member root "data")
          (check_callbacks J clock timeout v) t
          (rw f.0 (
            expire_slots-left timeout func clock (set r.cb_queue k new) k new
              (get-set r.cb_queue k new small)
            ∙ ap (λ b. some (if b then record { ts = 0; func = func } else new)) o))
          (rw
            (
              f.0,
              f.1,
              given-append func r.called (expire_slots J clock timeout (set r.cb_queue k new)).1,
              none_yet,
            )
            (expire_slots-set timeout func clock r.cb_queue k now fresh small
              ∙ ap (λ b. if b then J.null ∷ [] else []) o)) in
      (r', reaches (check_callbacks J clock timeout v) ∙ given', once, reaches r' ∙ ignored)
    where
      reaches :
          (v : Rpc J)
          → handle_callback J msg v ≡ answer_slot J (r.index % 256) (J.member root "data") v
      reaches v = answer_reaches J msg (r.index % 256) root v a (ground arith) (ground arith)
