-- ===== src/Model/Client.antt =====
-- model/client.h: `struct Client` with its `toJSON` and `fromJSON`.
use erizo_controller.Base.{◌&&◌, Bool, String, Option, [], ◌∷◌, ℕ, ◌^◌, pos}
use erizo_controller.Base.Int.{to_unsigned}
use erizo_controller.External.Json.{JsonCpp, int_value, string_value}
use erizo_controller.Route.Enums.{IpTableValue, unknown_value}
use erizo_controller.Model.Outcome.{Outcome, done, ◌>>=◌, or_throw}
use erizo_controller.Model.Fields.{has, object, decode}

pub record Client : Type 0 where
  pub id : String
  pub agent_id : String
  pub erizo_id : String
  pub bridge_ip : String
  pub bridge_port : ℕ
  pub room_id : String
  pub ip : String
  pub port : ℕ
  pub family : String
  pub reply_to : String
  pub ip_info : IpTableValue

module _ (J : JsonCpp) where
  open J use {Value, member, write, as_int, as_string, of_int, of_string}

  -- The object that `toJSON` builds.
  unfoldable pub client_value : Client → Value
  client_value c = object J (
      ("id", of_string c.id)
      ∷ ("agent_id", of_string c.agent_id)
      ∷ ("erizo_id", of_string c.erizo_id)
      ∷ ("bridge_ip", of_string c.bridge_ip)
      ∷ ("bridge_port", of_int (pos c.bridge_port))
      ∷ ("room_id", of_string c.room_id)
      ∷ ("ip", of_string c.ip)
      ∷ ("port", of_int (pos c.port))
      ∷ ("family", of_string c.family)
      ∷ ("reply_to", of_string c.reply_to)
      ∷ [])

  -- `toJSON`
  unfoldable pub client_to_json : Client → String
  client_to_json c = write (client_value c)

  -- The tests of `fromJSON` on the parsed object.
  unfoldable pub client_has_fields : Value → Bool
  client_has_fields root =
      has J root "id" string_value
      && has J root "agent_id" string_value
      && has J root "erizo_id" string_value
      && has J root "bridge_ip" string_value
      && has J root "bridge_port" int_value
      && has J root "room_id" string_value
      && has J root "ip" string_value
      && has J root "port" int_value
      && has J root "family" string_value
      && has J root "reply_to" string_value

  -- The assignments of `fromJSON`. It does not set `ip_info`, which the constructor made unknown.
  unfoldable pub read_client : Value → Outcome Client
  read_client root = do
    id ← or_throw (as_string (member root "id"))
    agent_id ← or_throw (as_string (member root "agent_id"))
    erizo_id ← or_throw (as_string (member root "erizo_id"))
    bridge_ip ← or_throw (as_string (member root "bridge_ip"))
    bridge_port ← or_throw (as_int (member root "bridge_port"))
    room_id ← or_throw (as_string (member root "room_id"))
    ip ← or_throw (as_string (member root "ip"))
    port ← or_throw (as_int (member root "port"))
    family ← or_throw (as_string (member root "family"))
    reply_to ← or_throw (as_string (member root "reply_to"))
    done (record {
      id = id;
      agent_id = agent_id;
      erizo_id = erizo_id;
      bridge_ip = bridge_ip;
      bridge_port = to_unsigned (2 ^ 16) bridge_port;
      room_id = room_id;
      ip = ip;
      port = to_unsigned (2 ^ 16) port;
      family = family;
      reply_to = reply_to;
      ip_info = unknown_value;
    })

  -- `fromJSON`: `done none` is its return value 1.
  unfoldable pub client_from_json : String → Outcome (Option Client)
  unfolding client_has_fields read_client
  client_from_json = decode J client_has_fields read_client
