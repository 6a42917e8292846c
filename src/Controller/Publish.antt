-- ===== src/Controller/Publish.antt =====
-- core/erizo_controller.cpp: `handlePublish`.
pub mod Atomic
use erizo_controller.Base.{ℕ, Bool, true, false, String, List, [], ◌∷◌, not, if◌then◌else◌}
use erizo_controller.External.{Platform}
use erizo_controller.External.Json.{string_value}
use erizo_controller.Model.Outcome.{or_throw}
use erizo_controller.Model.Fields.{has, array}
use erizo_controller.Model.Client.{Client}
use erizo_controller.Model.Publisher.{Publisher}
use erizo_controller.Process.State.{World, Exec, pure, lift, ◌>>=◌, ◌>>◌}
use erizo_controller.Process.Clock.{get_stream_id}
use erizo_controller.Redis.Helper.{add_publisher_row}
use erizo_controller.Redis.Locker.{with_lock}
use erizo_controller.Controller.Message.{add_publisher}

-- The publisher of a client. `video` and `audio` are what the two fields, which nothing sets, hold.
abbrev pub publisher_of : Client → String → String → ℕ → ℕ → Publisher
publisher_of c id label video audio = record {
  id = id;
  client_id = c.id;
  erizo_id = c.erizo_id;
  bridge_ip = c.bridge_ip;
  bridge_port = c.bridge_port;
  agent_id = c.agent_id;
  label = label;
  video_ssrc = video;
  audio_ssrc = audio;
}

module _ (P : Platform) where
  open P.json use {Value, null, of_string, member, as_string}

  -- The part under the lock: the row is stored, and the agent is told.
  unfoldable pub store_publisher : Client → Publisher → Exec P Value
  store_publisher c p = do
    failed ← add_publisher_row P c.room_id p
    if failed then pure null else do
      add_publisher P c p
      pure (array P.json (of_string p.id ∷ of_string p.erizo_id ∷ []))

  -- `video` and `audio` as above.
  unfoldable pub handle_publish : ℕ → ℕ → Client → Value → Exec P Value
  handle_publish video audio c root =
      if not (has P.json root "label" string_value) then pure null else do
        label ← lift (or_throw (as_string (member root "label")))
        id ← get_stream_id P
        with_lock P c.room_id null (store_publisher c (publisher_of c id label video audio))
