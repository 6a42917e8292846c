-- ===== src/Redis/Helper.antt =====
-- redis/redis_helper.cpp: the typed operations on the hashes of a room. A `true` result is the
-- return value 1, an error.
use erizo_controller.Base.{Bool, String, ◌++ₛ◌, Option, none, some, List, [], ◌∷◌, if◌then◌else◌}
use erizo_controller.Base.Int.{is_minus_one}
use erizo_controller.External.{Platform}
use erizo_controller.Process.State.{Exec, pure, lift, ◌>>=◌}
use erizo_controller.Model.Outcome.{Outcome, done, thrown}
use erizo_controller.Model.Outcome
use erizo_controller.Model.Client.{Client, client_to_json, client_from_json}
use erizo_controller.Model.Publisher.{Publisher, publisher_to_json, publisher_from_json}
use erizo_controller.Model.Subscriber.{Subscriber, subscriber_to_json, subscriber_from_json}
use erizo_controller.Model.BridgeStream.{
  BridgeStream, bridge_stream_to_json, bridge_stream_from_json,
}
use erizo_controller.Model.ErizoAgent.{ErizoAgent, agent_from_json}
use erizo_controller.Model.Heartbeat.{Heartbeat, heartbeat_to_json, heartbeat_from_json}
use erizo_controller.Redis.Acl.{acl_hset, acl_hget, acl_hdel, acl_hdel_fields, acl_hvals}

-- The loop of every `getAll…`: texts that `fromJSON` rejects are passed over.
unfoldable pub read_all {ℓ} :
    {A : Type ℓ} → (String → Outcome (Option A)) → List String → Outcome (List A)
read_all from_json [] = done []
read_all from_json (v ∷ values) =
    let rest = read_all from_json values in
    elim (from_json v) [
      | thrown ↦ thrown
      | done none ↦ rest
      | done (some a) ↦ Outcome.◌>>=◌ rest (λ rows. done (a ∷ rows))
    ]

module _ (P : Platform) where
  -- `if (hset(…) == -1) return 1; return 0;`
  unfoldable pub put_field : String → String → String → Exec P Bool
  put_field key field value = do res ← acl_hset P key field value; pure (is_minus_one res)

  unfoldable pub remove_field : String → String → Exec P Bool
  remove_field key field = do res ← acl_hdel P key field; pure (is_minus_one res)

  unfoldable pub remove_fields : String → List String → Exec P Bool
  remove_fields key fields = do res ← acl_hdel_fields P key fields; pure (is_minus_one res)

  -- `none` is the return value 1.
  unfoldable pub get_field :
      {A : Type 0} → (String → Outcome (Option A)) → String → String → Exec P (Option A)
  get_field from_json key field = do
    (res, buf) ← acl_hget P key field ""
    if is_minus_one res then pure none else lift (from_json buf)

  unfoldable pub get_all :
      {A : Type 0} → (String → Outcome (Option A)) → String → Exec P (Option (List A))
  get_all from_json key = do
    (res, values) ← acl_hvals P key
    if is_minus_one res
        then pure none
        else do rows ← lift (read_all from_json values); pure (some rows)

module _ (P : Platform) where
  unfoldable pub add_client : String → Client → Exec P Bool
  unfolding put_field
  add_client room_id c = put_field P ("client_" ++ₛ room_id) c.id (client_to_json P.json c)

  unfoldable pub remove_client_row : String → String → Exec P Bool
  unfolding remove_field
  remove_client_row room_id client_id = remove_field P ("client_" ++ₛ room_id) client_id

  unfoldable pub get_all_client : String → Exec P (Option (List Client))
  unfolding get_all
  get_all_client room_id = get_all P (client_from_json P.json) ("client_" ++ₛ room_id)

  unfoldable pub add_publisher_row : String → Publisher → Exec P Bool
  unfolding put_field
  add_publisher_row room_id p =
      put_field P ("publisher_" ++ₛ room_id) p.id (publisher_to_json P.json p)

  unfoldable pub get_publisher : String → String → Exec P (Option Publisher)
  unfolding get_field
  get_publisher room_id publisher_id =
      get_field P (publisher_from_json P.json) ("publisher_" ++ₛ room_id) publisher_id

  unfoldable pub remove_publishers : String → List String → Exec P Bool
  unfolding remove_fields
  remove_publishers room_id ids = remove_fields P ("publisher_" ++ₛ room_id) ids

  unfoldable pub get_all_publisher : String → Exec P (Option (List Publisher))
  unfolding get_all
  get_all_publisher room_id = get_all P (publisher_from_json P.json) ("publisher_" ++ₛ room_id)

  unfoldable pub add_subscriber_row : String → Subscriber → Exec P Bool
  unfolding put_field
  add_subscriber_row room_id s =
      put_field P ("subscriber_" ++ₛ room_id) s.id (subscriber_to_json P.json s)

  unfoldable pub remove_subscribers : String → List String → Exec P Bool
  unfolding remove_fields
  remove_subscribers room_id ids = remove_fields P ("subscriber_" ++ₛ room_id) ids

  unfoldable pub get_all_subscriber : String → Exec P (Option (List Subscriber))
  unfolding get_all
  get_all_subscriber room_id = get_all P (subscriber_from_json P.json) ("subscriber_" ++ₛ room_id)

  unfoldable pub get_all_erizo_agent : String → Exec P (Option (List ErizoAgent))
  unfolding get_all
  get_all_erizo_agent area =
      get_all P (agent_from_json P.json) ("erizo_agent_" ++ₛ (area ++ₛ "_heartbeat"))

  unfoldable pub add_bridge_stream : String → BridgeStream → Exec P Bool
  unfolding put_field
  add_bridge_stream room_id b =
      put_field P ("bridge_stream_" ++ₛ room_id) b.id (bridge_stream_to_json P.json b)

  unfoldable pub get_bridge_stream : String → String → Exec P (Option BridgeStream)
  unfolding get_field
  get_bridge_stream room_id bridge_stream_id =
      get_field P (bridge_stream_from_json P.json) ("bridge_stream_" ++ₛ room_id) bridge_stream_id

  unfoldable pub get_all_bridge_stream : String → Exec P (Option (List BridgeStream))
  unfolding get_all
  get_all_bridge_stream room_id =
      get_all P (bridge_stream_from_json P.json) ("bridge_stream_" ++ₛ room_id)

  unfoldable pub remove_bridge_stream : String → String → Exec P Bool
  unfolding remove_field
  remove_bridge_stream room_id bridge_stream_id =
      remove_field P ("bridge_stream_" ++ₛ room_id) bridge_stream_id

  unfoldable pub add_client_to_ec : String → Client → Exec P Bool
  unfolding put_field
  add_client_to_ec erizo_controller_id c =
      put_field P erizo_controller_id c.id (client_to_json P.json c)

  unfoldable pub remove_client_from_ec : String → String → Exec P Bool
  unfolding remove_field
  remove_client_from_ec erizo_controller_id client_id = remove_field P erizo_controller_id client_id

  unfoldable pub get_all_client_from_ec : String → Exec P (Option (List Client))
  unfolding get_all
  get_all_client_from_ec erizo_controller_id =
      get_all P (client_from_json P.json) erizo_controller_id

  unfoldable pub add_heartbeat_data : Heartbeat → Exec P Bool
  unfolding put_field
  add_heartbeat_data h = put_field P "erizo_controller_heartbeat" h.id (heartbeat_to_json P.json h)

  unfoldable pub remove_heartbeat_data : String → Exec P Bool
  unfolding remove_field
  remove_heartbeat_data id = remove_field P "erizo_controller_heartbeat" id

  unfoldable pub get_all_heartbeat_data : Exec P (Option (List Heartbeat))
  unfolding get_all
  get_all_heartbeat_data = get_all P (heartbeat_from_json P.json) "erizo_controller_heartbeat"
