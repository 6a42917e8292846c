-- ===== src/Tests/Rpc.antt =====
-- The callback slots at concrete calls and answers.
use erizo_controller.Base.{ℕ, [], ◌∷◌, ◌≡◌, ◌↔◌, refl, pos, arith, ◌≤◌}
use erizo_controller.Rpc.{
  Rpc, free_slots, new_rpc, rpc_with, free_slot, handled, overran, handle_callback,
}
use erizo_controller.Base.{Bool, ap, sym, true, none, some, eqb, zero, suc}
use erizo_controller.Rpc.{check_callbacks}
use erizo_controller.Rpc.Timeouts.{Fresh, given, rpc_with-check_callbacks}
use erizo_controller.Rpc.Replies.{IsAnswer, handle_callback_overruns_iff, rpc_with-handle_callback}
use erizo_controller.Demo.Tree.{Tree, str, int, null, field}
use erizo_controller.Demo.Codec.{write}
use erizo_controller.Demo.Library.{demo_json, demo_laws}

abbrev question : Tree
question = field "method" (str "getErizo") null

abbrev one_call : Rpc demo_json
one_call =
    rpc_with demo_json 50 "exchange" "agent_1" "agent_1" question 7 (new_rpc demo_json "ec_1_rpc")

abbrev data_of : Tree
data_of = field "erizoID" (str "erizo_1") null

abbrev answer_to : ℕ → Tree
answer_to n = field "corrID" (int (pos n)) (field "data" data_of null)

is_answer : (n : ℕ) → n ≤ 2147483647 → IsAnswer demo_json (write (answer_to n)) n (answer_to n)
is_answer n h = record {
  parsed = demo_laws.parse-write (answer_to n) refl;
  members = refl;
  fields = refl;
  id = ground arith;
}

rpc_with-handle_callback_example :
    (r' : Rpc demo_json) × (handle_callback demo_json (write (answer_to 0)) one_call ≡ handled r')
    × (r'.called ≡ (7, data_of) ∷ [])
    × (handle_callback demo_json (write (answer_to 0)) r' ≡ handled r')
unfolding free_slots
rpc_with-handle_callback_example =
    rpc_with-handle_callback demo_json 50 7 "exchange" "agent_1" "agent_1" (write (answer_to 0))
      question (answer_to 0) free_slot (new_rpc demo_json "ec_1_rpc") (omega arith) refl refl refl
      (is_answer 0 (omega arith))

free_slots-Fresh : (n : ℕ) → Fresh 7 (free_slots n)
unfolding free_slots
free_slots-Fresh zero i cb e = absurd (cc e)
free_slots-Fresh (suc n) zero cb e =
    ap (λ c. elim c as (λ _. Bool) [ none ↦ true | some x ↦ eqb x.func 7 ]) (sym e)
free_slots-Fresh (suc n) (suc i) cb e = free_slots-Fresh n i cb e

-- The round comes 150 ms after the call, with a timeout of 100 ms.
rpc_with-check_callbacks_example :
    (r' : Rpc demo_json) × (handle_callback demo_json
        (write (answer_to 0))
        (check_callbacks demo_json (λ i. 200) 100 one_call)
      ≡ handled r')
    × (given demo_json 7 r'.called ≡ null ∷ [])
    × (handle_callback demo_json (write (answer_to 0)) r' ≡ handled r')
unfolding free_slots
rpc_with-check_callbacks_example =
    rpc_with-check_callbacks demo_json 50 100 7 (λ i. 200) "exchange" "agent_1" "agent_1"
      (write (answer_to 0)) question (answer_to 0) free_slot (new_rpc demo_json "ec_1_rpc")
      (omega arith) (omega arith) (omega arith) refl refl refl (free_slots-Fresh 256) refl
      (is_answer 0 (omega arith))

handle_callback_overruns_iff_example :
    (handle_callback demo_json (write (answer_to 256)) (new_rpc demo_json "ec_1_rpc") ≡ overran)
    ↔ ((root : Tree) × IsAnswer demo_json (write (answer_to 256)) 256 root)
unfolding free_slots
handle_callback_overruns_iff_example =
    handle_callback_overruns_iff demo_json (write (answer_to 256)) (new_rpc demo_json "ec_1_rpc")
      refl

-- There is an answer with this id.
overrun : handle_callback demo_json (write (answer_to 256)) (new_rpc demo_json "ec_1_rpc") ≡ overran
unfolding free_slots
overrun =
    (handle_callback_overruns_iff demo_json (write (answer_to 256)) (new_rpc demo_json "ec_1_rpc")
        refl).1
      (answer_to 256, is_answer 256 (omega arith))
