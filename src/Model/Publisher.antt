-- ===== src/Model/Publisher.antt =====
-- model/publisher.h: `struct Publisher` with its `toJSON` and `fromJSON`.
use erizo_controller.Base.{◌&&◌, Bool, String, Option, [], ◌∷◌, ℕ, ◌^◌, pos}
use erizo_controller.Base.Int.{to_unsigned}
use erizo_controller.External.Json.{JsonCpp, int_value, string_value}
use erizo_controller.Model.Outcome.{Outcome, done, ◌>>=◌, or_throw}
use erizo_controller.Model.Fields.{has, object, decode}

pub record Publisher : Type 0 where
  pub id : String
  pub client_id : String
  pub erizo_id : String
  pub bridge_ip : String
  pub bridge_port : ℕ
  pub agent_id : String
  pub label : String
  pub video_ssrc : ℕ
  pub audio_ssrc : ℕ

module _ (J : JsonCpp) where
  open J use {
    Value, member, write, as_int, as_string, as_uint, of_int, of_string, of_uint, is_member,
  }

  -- The object that `toJSON` builds.
  unfoldable pub publisher_value : Publisher → Value
  publisher_value p = object J (
      ("id", of_string p.id)
      ∷ ("erizo_id", of_string p.erizo_id)
      ∷ ("bridge_ip", of_string p.bridge_ip)
      ∷ ("bridge_port", of_int (pos p.bridge_port))
      ∷ ("agent_id", of_string p.agent_id)
      ∷ ("client_id", of_string p.client_id)
      ∷ ("label", of_string p.label)
      ∷ ("video_ssrc", of_uint p.video_ssrc)
      ∷ ("audio_ssrc", of_uint p.audio_ssrc)
      ∷ [])

  -- `toJSON`
  unfoldable pub publisher_to_json : Publisher → String
  publisher_to_json p = write (publisher_value p)

  -- The tests of `fromJSON` on the parsed object.
  unfoldable pub publisher_has_fields : Value → Bool
  publisher_has_fields root =
      has J root "id" string_value
      && has J root "erizo_id" string_value
      && has J root "bridge_ip" string_value
      && has J root "bridge_port" int_value
      && has J root "agent_id" string_value
      && has J root "client_id" string_value
      && has J root "label" string_value
      && is_member root "video_ssrc"
      && is_member root "audio_ssrc"

  -- The assignments of `fromJSON`.
  unfoldable pub read_publisher : Value → Outcome Publisher
  read_publisher root = do
    id ← or_throw (as_string (member root "id"))
    erizo_id ← or_throw (as_string (member root "erizo_id"))
    bridge_ip ← or_throw (as_string (member root "bridge_ip"))
    bridge_port ← or_throw (as_int (member root "bridge_port"))
    agent_id ← or_throw (as_string (member root "agent_id"))
    client_id ← or_throw (as_string (member root "client_id"))
    label ← or_throw (as_string (member root "label"))
    video_ssrc ← or_throw (as_uint (member root "video_ssrc"))
    audio_ssrc ← or_throw (as_uint (member root "audio_ssrc"))
    done (record {
      id = id;
      client_id = client_id;
      erizo_id = erizo_id;
      bridge_ip = bridge_ip;
      bridge_port = to_unsigned (2 ^ 16) bridge_port;
      agent_id = agent_id;
      label = label;
      video_ssrc = video_ssrc;
      audio_ssrc = audio_ssrc;
    })

  -- `fromJSON`: `done none` is its return value 1.
  unfoldable pub publisher_from_json : String → Outcome (Option Publisher)
  unfolding publisher_has_fields read_publisher
  publisher_from_json = decode J publisher_has_fields read_publisher
