-- ===== src/Model/RoundTrip/Rows.antt =====
-- model/*.h: the rows of a room and those with a time, together.
use erizo_controller.Base.{
  ◌≤◌, ◌<◌, true, none, some, ◌≡◌, inl, inr, arith, leb, Bool-cases, if◌then◌else◌,
}
use erizo_controller.External.Json.{JsonCpp, JsonLaws, max_int, max_uint, max_uint64, fits_int}
use erizo_controller.Route.Enums.{unknown_value}
use erizo_controller.Model.Outcome.{done}
use erizo_controller.Model.Client.{Client, client_to_json, client_from_json}
use erizo_controller.Model.Publisher.{Publisher, publisher_to_json, publisher_from_json}
use erizo_controller.Model.Subscriber.{Subscriber, subscriber_to_json, subscriber_from_json}
use erizo_controller.Model.BridgeStream.{
  BridgeStream, bridge_stream_to_json, bridge_stream_from_json,
}
use erizo_controller.Model.Room.{Room, room_to_json, room_from_json}
use erizo_controller.Model.ErizoAgent.{ErizoAgent, agent_to_json, agent_from_json}
use erizo_controller.Model.Heartbeat.{Heartbeat, heartbeat_to_json, heartbeat_from_json}
use erizo_controller.Model.RoundTrip.{
  client_round_trip, publisher_round_trip, subscriber_round_trip, bridge_stream_round_trip,
}
use erizo_controller.Model.RoundTrip.Timed.{
  room_round_trip, agent_round_trip, heartbeat_round_trip, early_heartbeat_rejected,
}

module _ (J : JsonCpp) (L : JsonLaws J) where
  -- Each row of a room that `toJSON` writes is what `fromJSON` reads, its ports 16-bit numbers, its
  -- SSRCs 32-bit numbers and its count an `int`, but for the `ip_info` of a client, which is lost: it
  -- comes back as unknown.
  pub rows_round_trip :
      (r : Room) (c : Client) (p : Publisher) (s : Subscriber) (b : BridgeStream)
      → c.bridge_port < 65536
      → c.port < 65536
      → p.bridge_port < 65536
      → p.video_ssrc ≤ max_uint
      → p.audio_ssrc ≤ max_uint
      → b.sender_port < 65536
      → b.recver_port < 65536
      → fits_int b.subscribe_count ≡ true
      → (room_from_json J (room_to_json J r) ≡ done (some r))
        × (client_from_json J (client_to_json J c)
            ≡ done (some (record c { ip_info = unknown_value })))
        × (publisher_from_json J (publisher_to_json J p) ≡ done (some p))
        × (subscriber_from_json J (subscriber_to_json J s) ≡ done (some s))
        × (bridge_stream_from_json J (bridge_stream_to_json J b) ≡ done (some b))
  rows_round_trip r c p s b bridge_port port publisher_port video audio sender recver count = (
    room_round_trip J L r,
    client_round_trip J L c bridge_port port,
    publisher_round_trip J L p publisher_port video audio,
    subscriber_round_trip J L s,
    bridge_stream_round_trip J L b sender recver count,
  )

  heartbeat_read :
      (b : Heartbeat)
      → b.last_update ≤ max_uint64
      → heartbeat_from_json J (heartbeat_to_json J b)
        ≡ done (if leb b.last_update max_int then none else some b)
  heartbeat_read b fits = elim (Bool-cases (leb b.last_update max_int)) [
    | inl e ↦ rw e (early_heartbeat_rejected J L b (ground arith))
    | inr e ↦ rw e (heartbeat_round_trip J L b (ground arith) fits)
  ]

  -- An agent that `toJSON` writes, with a time above 2 ^ 31 - 1 that fits 64 bits and a number of
  -- processes that fits an `int`, is what `fromJSON` reads. A heartbeat with a time that fits 64 bits is
  -- what `fromJSON` reads if the time is above 2 ^ 31 - 1, and is rejected if it is not.
  pub timed_round_trip :
      (a : ErizoAgent) (b : Heartbeat)
      → max_int < a.last_update
      → a.last_update ≤ max_uint64
      → fits_int a.erizo_process_num ≡ true
      → b.last_update ≤ max_uint64
      → (agent_from_json J (agent_to_json J a) ≡ done (some a))
        × (heartbeat_from_json J (heartbeat_to_json J b)
            ≡ done (if leb b.last_update max_int then none else some b))
  timed_round_trip a b late fits count fits' =
      (agent_round_trip J L a late fits count, heartbeat_read b fits')
