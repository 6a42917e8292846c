-- ===== src/Rpc/Replies.antt =====
-- Which callback of `AMQPRPC` an answer reaches.
use erizo_controller.Base.{
  ℕ, ◌<◌, ◌≤◌, ◌%◌, pos, negsuc, inl, inr, ◌↔◌, Bool-cases, Option-cases, true, false, ◌&&◌, ◌||◌,
  String, none, some, [], ◌∷◌, ◌++◌, ◌≡◌, refl, ap, ◌∙◌, List, eqb, ltb, zero, suc, get_elem?, set,
  length, length-set, lt→ltb, arith,
}
use erizo_controller.External.Json.{JsonCpp, int_value, object_value}
use erizo_controller.Model.Fields.{has, has_members}
use erizo_controller.Rpc.{
  Callback, Rpc, fill_slot, rpc_with, handled, overran, answer_slot, handle_callback,
}

pub get-set :
    (q : List Callback) (i : ℕ) (cb : Callback) → i < length q → get_elem? (set q i cb) i ≡ some cb
get-set [] i cb h = absurd (omega arith)
get-set (c ∷ q) zero cb h = refl
get-set (c ∷ q) (suc i) cb h = get-set q i cb (omega arith)

past_end : (q : List Callback) (i : ℕ) → length q ≡ i → get_elem? q i ≡ none
past_end [] i h = refl
past_end (c ∷ q) zero h = absurd (omega (arith, h))
past_end (c ∷ q) (suc i) h = past_end q i (omega (arith, h))

none-length : (q : List Callback) (i : ℕ) → get_elem? q i ≡ none → length q ≤ i
none-length [] i h = omega arith
none-length (c ∷ q) zero h = absurd (cc h)
none-length (c ∷ q) (suc i) h = let small = none-length q i h in omega (arith, small)

at_end : {n : ℕ} (k : ℕ) → n ≡ 256 → n ≤ k → (ltb k 0 || ltb 256 k) ≡ false → k ≡ 256
at_end k l low high = ground arith

module _ (J : JsonCpp) where
  -- An answer with the id of a slot, past the end or not.
  pub record IsAnswer (msg : String) (corrid : ℕ) (root : J.Value) : Type 0 where
    pub parsed : J.parse msg ≡ some root
    pub members : has_members J root ≡ true
    pub fields : (has J root "corrID" int_value && has J root "data" object_value) ≡ true
    pub id : J.as_int (J.member root "corrID") ≡ some (pos corrid)

  pub answer_reaches :
      (msg : String) (corrid : ℕ) (root : J.Value) (r : Rpc J)
      → IsAnswer msg corrid root
      → ltb corrid 0 ≡ false
      → ltb 256 corrid ≡ false
      → handle_callback J msg r ≡ answer_slot J corrid (J.member root "data") r
  unfolding handle_callback
  answer_reaches msg corrid root r a low high =
      rw (handle_callback, a.parsed, a.members, a.fields, a.id, low, high) refl

  answer_slot-overran :
      (corrid : ℕ) (body : J.Value) (r : Rpc J)
      → answer_slot J corrid body r ≡ overran
      → length r.cb_queue ≤ corrid
  unfolding answer_slot
  answer_slot-overran corrid body r h = elim (Option-cases (get_elem? r.cb_queue corrid)) [
    | inl e ↦ none-length r.cb_queue corrid e
    | inr (cb, e) ↦ elim (Bool-cases (ltb 0 cb.ts)) [
      | inl b ↦ absurd (cc (rw (answer_slot, e, b) at h))
      | inr b ↦ absurd (cc (rw (answer_slot, e, b) at h))
    ]
  ]

  -- What overruns came through every test.
  overran-IsAnswer :
      (msg : String) (r : Rpc J)
      → length r.cb_queue ≡ 256
      → handle_callback J msg r ≡ overran
      → (root : J.Value) × IsAnswer msg 256 root
  unfolding handle_callback
  overran-IsAnswer msg r l h = elim (Option-cases (J.parse msg)) [
    | inl e ↦ absurd (cc (rw (handle_callback, e) at h))
    | inr (root, e) ↦ elim (Bool-cases (has_members J root)) [
      | inr m ↦ absurd (cc (rw (handle_callback, e, m) at h))
      | inl m ↦
          elim (Bool-cases (has J root "corrID" int_value && has J root "data" object_value)) [
            | inr f ↦ absurd (cc (rw (handle_callback, e, m, f) at h))
            | inl f ↦ elim (Option-cases (J.as_int (J.member root "corrID"))) [
              | inl n ↦ absurd (cc (rw (handle_callback, e, m, f, n) at h))
              | inr (negsuc k, n) ↦ absurd (cc (rw (handle_callback, e, m, f, n) at h))
              | inr (pos k, n) ↦ elim (Bool-cases (ltb k 0 || ltb 256 k)) [
                | inl b ↦ absurd (cc (rw (handle_callback, e, m, f, n, b) at h))
                | inr b ↦
                    let low =
                      answer_slot-overran k (J.member root "data") r
                        (rw (handle_callback, e, m, f, n, b) at h) in
                    (
                      root,
                      record {
                        parsed = e;
                        members = m;
                        fields = f;
                        id = n ∙ ap (λ x. some (pos x)) (at_end k l low b);
                      },
                    )
              ]
            ]
          ]
    ]
  ]

  -- With its 256 slots, `handleCallback` uses a slot past the end exactly on an answer with the id 256,
  -- which its test lets through.
  pub handle_callback_overruns_iff :
      (msg : String) (r : Rpc J)
      → length r.cb_queue ≡ 256
      → (handle_callback J msg r ≡ overran) ↔ ((root : J.Value) × IsAnswer msg 256 root)
  unfolding answer_slot
  handle_callback_overruns_iff msg r l = (
    overran-IsAnswer msg r l,
    λ (root, a).
        answer_reaches msg 256 root r a refl refl
        ∙ rw (answer_slot, past_end r.cb_queue 256 l) refl,
  )

  pub answer_taken :
      (corrid now func : ℕ) (body : J.Value) (r : Rpc J)
      → 0 < now
      → corrid < length r.cb_queue
      → get_elem? r.cb_queue corrid ≡ some (record { ts = now; func = func })
      → (r' : Rpc J) × (answer_slot J corrid body r ≡ handled r')
        × (r'.called ≡ r.called ++ ((func, body) ∷ []))
        × (answer_slot J corrid body r' ≡ handled r')
  unfolding answer_slot
  answer_taken corrid now func body r t c s = (
    record r {
      called = r.called ++ ((func, body) ∷ []);
      cb_queue = set r.cb_queue corrid (record { ts = 0; func = func });
    },
    rw (answer_slot, s, lt→ltb 0 now t) refl,
    refl,
    rw (answer_slot, get-set r.cb_queue corrid (record { ts = 0; func = func }) c) refl,
  )

  pub filled :
      (now func : ℕ) (exchange queuename binding_key : String) (body : J.Value) (cb : Callback)
      (r : Rpc J)
      → get_elem? r.cb_queue (r.index % 256) ≡ some cb
      → eqb cb.ts 0 ≡ true
      → ((rpc_with J now exchange queuename binding_key body func r).cb_queue
          ≡ set r.cb_queue (r.index % 256) (record { ts = now; func = func }))
        × ((rpc_with J now exchange queuename binding_key body func r).called ≡ r.called)
  unfolding rpc_with fill_slot
  filled now func exchange queuename binding_key body cb r s z =
      (rw (fill_slot, s, z) refl, rw (fill_slot, s, z) refl)

  -- Where its slot is free, the callback of a call of `rpc` is given the answer that carries the id
  -- of the call, and the same answer once more changes nothing. The clock does not show 0.
  pub rpc_with-handle_callback :
      (now func : ℕ) (exchange queuename binding_key msg : String) (body root : J.Value)
      (cb : Callback) (r : Rpc J)
      → 0 < now
      → length r.cb_queue ≡ 256
      → get_elem? r.cb_queue (r.index % 256) ≡ some cb
      → eqb cb.ts 0 ≡ true
      → IsAnswer msg (r.index % 256) root
      → (r' : Rpc J) × (handle_callback J msg
            (rpc_with J now exchange queuename binding_key body func r)
          ≡ handled r')
        × (r'.called ≡ r.called ++ ((func, J.member root "data") ∷ []))
        × (handle_callback J msg r' ≡ handled r')
  rpc_with-handle_callback now func exchange queuename binding_key msg body root cb r t l s z a =
      let f = filled now func exchange queuename binding_key body cb r s z in
      let (r', given, called, ignored) =
        answer_taken (r.index % 256) now func (J.member root "data")
          (rpc_with J now exchange queuename binding_key body func r) t
          (rw (f.0, length-set r.cb_queue (r.index % 256) (record { ts = now; func = func }), l)
            (omega arith))
          (rw f.0 (get-set r.cb_queue (r.index % 256) _ (rw l (omega arith)))) in
      (
        r',
        reaches (rpc_with J now exchange queuename binding_key body func r) ∙ given,
        called ∙ ap (λ (x : List (ℕ × J.Value)). x ++ ((func, J.member root "data") ∷ [])) f.1,
        reaches r' ∙ ignored,
      )
    where
      reaches :
          (v : Rpc J)
          → handle_callback J msg v ≡ answer_slot J (r.index % 256) (J.member root "data") v
      reaches v = answer_reaches msg (r.index % 256) root v a (ground arith) (ground arith)
