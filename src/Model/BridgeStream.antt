-- ===== src/Model/BridgeStream.antt =====
-- model/bridge_stream.h: `struct BridgeStream` with its `toJSON` and `fromJSON`.
use erizo_controller.Base.{◌&&◌, Bool, String, Option, [], ◌∷◌, ℕ, ◌^◌, pos, ℤ}
use erizo_controller.Base.Int.{to_unsigned}
use erizo_controller.External.Json.{JsonCpp, int_value, string_value}
use erizo_controller.Model.Outcome.{Outcome, done, ◌>>=◌, or_throw}
use erizo_controller.Model.Fields.{has, object, decode}

pub record BridgeStream : Type 0 where
  pub id : String
  pub sender_erizo_id : String
  pub sender_ip : String
  pub sender_port : ℕ
  pub recver_erizo_id : String
  pub recver_ip : String
  pub recver_port : ℕ
  pub src_stream_id : String
  pub label : String
  pub subscribe_count : ℤ

module _ (J : JsonCpp) where
  open J use {Value, member, write, as_int, as_string, of_int, of_string}

  -- The object that `toJSON` builds.
  unfoldable pub bridge_stream_value : BridgeStream → Value
  bridge_stream_value b = object J (
      ("id", of_string b.id)
      ∷ ("sender_erizo_id", of_string b.sender_erizo_id)
      ∷ ("sender_ip", of_string b.sender_ip)
      ∷ ("sender_port", of_int (pos b.sender_port))
      ∷ ("recver_erizo_id", of_string b.recver_erizo_id)
      ∷ ("recver_ip", of_string b.recver_ip)
      ∷ ("recver_port", of_int (pos b.recver_port))
      ∷ ("src_stream_id", of_string b.src_stream_id)
      ∷ ("label", of_string b.label)
      ∷ ("subscribe_count", of_int b.subscribe_count)
      ∷ [])

  -- `toJSON`
  unfoldable pub bridge_stream_to_json : BridgeStream → String
  bridge_stream_to_json b = write (bridge_stream_value b)

  -- The tests of `fromJSON` on the parsed object.
  unfoldable pub bridge_stream_has_fields : Value → Bool
  bridge_stream_has_fields root =
      has J root "id" string_value
      && has J root "sender_erizo_id" string_value
      && has J root "sender_ip" string_value
      && has J root "sender_port" int_value
      && has J root "recver_erizo_id" string_value
      && has J root "recver_ip" string_value
      && has J root "recver_port" int_value
      && has J root "src_stream_id" string_value
      && has J root "label" string_value
      && has J root "subscribe_count" int_value

  -- The assignments of `fromJSON`.
  unfoldable pub read_bridge_stream : Value → Outcome BridgeStream
  read_bridge_stream root = do
    id ← or_throw (as_string (member root "id"))
    sender_erizo_id ← or_throw (as_string (member root "sender_erizo_id"))
    sender_ip ← or_throw (as_string (member root "sender_ip"))
    sender_port ← or_throw (as_int (member root "sender_port"))
    recver_erizo_id ← or_throw (as_string (member root "recver_erizo_id"))
    recver_ip ← or_throw (as_string (member root "recver_ip"))
    recver_port ← or_throw (as_int (member root "recver_port"))
    src_stream_id ← or_throw (as_string (member root "src_stream_id"))
    label ← or_throw (as_string (member root "label"))
    subscribe_count ← or_throw (as_int (member root "subscribe_count"))
    done (record {
      id = id;
      sender_erizo_id = sender_erizo_id;
      sender_ip = sender_ip;
      sender_port = to_unsigned (2 ^ 16) sender_port;
      recver_erizo_id = recver_erizo_id;
      recver_ip = recver_ip;
      recver_port = to_unsigned (2 ^ 16) recver_port;
      src_stream_id = src_stream_id;
      label = label;
      subscribe_count = subscribe_count;
    })

  -- `fromJSON`: `done none` is its return value 1.
  unfoldable pub bridge_stream_from_json : String → Outcome (Option BridgeStream)
  unfolding bridge_stream_has_fields read_bridge_stream
  bridge_stream_from_json = decode J bridge_stream_has_fields read_bridge_stream
