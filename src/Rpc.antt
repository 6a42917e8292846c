-- ===== src/Rpc.antt =====
-- rabbitmq/amqp_rpc.cpp: the slots in which `AMQPRPC` keeps the callbacks that wait for an answer. A
-- callback is named by a number, and `called` is the log of the calls, with what each was given. The
-- text `dump` of a slot is for the log alone and is left out.
pub mod Replies
pub mod Timeouts
use erizo_controller.Base.{
  ℕ, zero, suc, ◌+◌, ◌-◌, ◌%◌, ◌^◌, ℤ, pos, negsuc, Bool, true, false, ◌&&◌, ◌||◌, not, String,
  Option, none, some, List, [], ◌∷◌, ◌++◌, eqb, ltb, get_elem?, set, if◌then◌else◌,
}
use erizo_controller.Base.Int.{ltb_int, to_unsigned}
use erizo_controller.External.Json.{JsonCpp, int_value, object_value}
use erizo_controller.Model.Fields.{has, has_members, object}
use erizo_controller.Process.State.{AmqpData}

-- `AMQPCallback`: the time is 0 in a free slot.
pub record Callback : Type 0 where
  pub ts : ℕ
  pub func : ℕ

abbrev pub free_slot : Callback
free_slot = record { ts = 0; func = 0 }

-- `n` free slots, as `resize` makes them.
unfoldable pub free_slots : ℕ → List Callback
free_slots zero = []
free_slots (suc n) = free_slot ∷ free_slots n

-- `now - cb.ts > timeout`, in `uint64_t`, of a slot that is taken
abbrev pub is_overdue : ℕ → ℕ → Callback → Bool
is_overdue now timeout cb = ltb 0 cb.ts && ltb timeout ((now + 2 ^ 64 - cb.ts) % 2 ^ 64)

abbrev pub to_index : ℤ → ℕ
to_index (pos n) = n
to_index (negsuc n) = 0

module _ (J : JsonCpp) where
  open J use {Value, null, of_int, of_string, member, as_int, write, parse}

  pub record Rpc : Type 0 where
    pub reply_to : String
    pub index : ℕ
    pub cb_queue : List Callback
    pub send_queue : List AmqpData
    pub called : List (ℕ × Value)

  -- After `init`.
  abbrev pub new_rpc : String → Rpc
  new_rpc reply_to = record {
    reply_to = reply_to;
    index = 0;
    cb_queue = free_slots 256;
    send_queue = [];
    called = [];
  }

  -- The callback of `rpc` waits in its slot, or is given null where the slot is taken.
  unfoldable pub fill_slot : ℕ → ℕ → ℕ → Rpc → Rpc
  fill_slot corrid now func r = elim (get_elem? r.cb_queue corrid) [
    | none ↦ r
    | some cb ↦
        if eqb cb.ts 0
        then record r { cb_queue = set r.cb_queue corrid (record { ts = now; func = func }) }
        else record r { called = r.called ++ ((func, null) ∷ []) }
  ]

  -- The message of `rpc`.
  unfoldable pub request : String → ℕ → String → String → String → Value → AmqpData
  request reply_to corrid exchange queuename binding_key body = record {
    exchange = exchange;
    queuename = queuename;
    binding_key = binding_key;
    msg = write (
        object J (
          ("corrID", of_int (pos corrid)) ∷ ("replyTo", of_string reply_to) ∷ ("data", body) ∷ []));
  }

  -- `rpc` with a callback; `now` is what `getCurrentMs` returns.
  unfoldable pub rpc_with : ℕ → String → String → String → Value → ℕ → Rpc → Rpc
  rpc_with now exchange queuename binding_key body func r =
      let corrid = r.index % 256 in
      let r' = fill_slot corrid now func (record r { index = (r.index + 1) % 2 ^ 32 }) in
      record r' {
        send_queue =
            r'.send_queue ++ (request r.reply_to corrid exchange queuename binding_key body ∷ []);
      }

  -- What `handleCallback` comes to: it returns, a conversion throws, or a slot past the end is used.
  pub data Handled : Type 0 where
    handled : Rpc → Handled
    raised : Handled
    overran : Handled

  -- The answer goes to the callback of a slot, if the slot is taken.
  unfoldable pub answer_slot : ℕ → Value → Rpc → Handled
  answer_slot corrid body r = elim (get_elem? r.cb_queue corrid) [
    | none ↦ overran
    | some cb ↦
        if ltb 0 cb.ts
        then handled (record r {
          called = r.called ++ ((cb.func, body) ∷ []);
          cb_queue = set r.cb_queue corrid (record cb { ts = 0 });
        })
        else handled r
  ]

  -- `handleCallback`, with no other thread on the slot while it runs: its `unique_lock` of the slot's
  -- mutex is a temporary, which holds nothing, so the source does not ensure that.
  unfoldable pub handle_callback : String → Rpc → Handled
  handle_callback msg r = elim (parse msg) [
    | none ↦ handled r
    | some root ↦
        if not (has_members J root)
        then raised
        else if not (has J root "corrID" int_value && has J root "data" object_value)
        then handled r
        else elim (as_int (member root "corrID")) [
          | none ↦ raised
          | some corrid ↦
              if ltb_int corrid (pos 0) || ltb_int (pos 256) corrid
              then handled r
              else answer_slot (to_index corrid) (member root "data") r
        ]
  ]

  -- One round of the check thread: the slots that it leaves, and the callbacks that it calls.
  -- `clock i` is what `getCurrentMs` returns at the slot `i`.
  unfoldable pub expire_slots : (ℕ → ℕ) → ℕ → List Callback → List Callback × List (ℕ × Value)
  expire_slots clock timeout [] = ([], [])
  expire_slots clock timeout (cb ∷ cbs) =
      let (left, calls) = expire_slots (λ i. clock (suc i)) timeout cbs in
      if is_overdue (clock 0) timeout cb
      then (record cb { ts = 0 } ∷ left, (cb.func, null) ∷ calls)
      else (cb ∷ left, calls)

  -- Here too no other thread is on the slots during the round, which the source does not ensure.
  unfoldable pub check_callbacks : (ℕ → ℕ) → ℕ → Rpc → Rpc
  check_callbacks clock timeout r =
      let (left, calls) = expire_slots clock timeout r.cb_queue in
      record r { cb_queue = left; called = r.called ++ calls }
