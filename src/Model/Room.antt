-- ===== src/Model/Room.antt =====
-- model/room.h: `struct Room` with its `toJSON` and `fromJSON`.
use erizo_controller.Base.{◌&&◌, Bool, String, Option, [], ◌∷◌}
use erizo_controller.External.Json.{JsonCpp, string_value}
use erizo_controller.Model.Outcome.{Outcome, done, ◌>>=◌, or_throw}
use erizo_controller.Model.Fields.{has, object, decode}

pub record Room : Type 0 where
  pub id : String
  pub name : String

module _ (J : JsonCpp) where
  open J use {Value, member, write, as_string, of_string}

  -- The object that `toJSON` builds.
  unfoldable pub room_value : Room → Value
  room_value r = object J (("id", of_string r.id) ∷ ("name", of_string r.name) ∷ [])

  -- `toJSON`
  unfoldable pub room_to_json : Room → String
  room_to_json r = write (room_value r)

  -- The tests of `fromJSON` on the parsed object.
  unfoldable pub room_has_fields : Value → Bool
  room_has_fields root = has J root "id" string_value && has J root "name" string_value

  -- The assignments of `fromJSON`.
  unfoldable pub read_room : Value → Outcome Room
  read_room root = do
    id ← or_throw (as_string (member root "id"))
    name ← or_throw (as_string (member root "name"))
    done (record { id = id; name = name })

  -- `fromJSON`: `done none` is its return value 1.
  unfoldable pub room_from_json : String → Outcome (Option Room)
  unfolding room_has_fields read_room
  room_from_json = decode J room_has_fields read_room
