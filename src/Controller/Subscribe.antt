-- ===== src/Controller/Subscribe.antt =====
-- core/erizo_controller.cpp: `handleSubscribe`.
pub mod Atomic
use erizo_controller.Base.{
  ℕ, zero, suc, ℤ, pos, Bool, true, false, ◌||◌, not, String, ◌==◌, Option, none, some, List, [],
  ◌∷◌, eqb, find_if, if◌then◌else◌,
}
use erizo_controller.Base.Int.{succ}
use erizo_controller.External.{Platform}
use erizo_controller.External.Json.{string_value}
use erizo_controller.Model.Outcome.{or_throw}
use erizo_controller.Model.Fields.{has, array}
use erizo_controller.Model.Client.{Client}
use erizo_controller.Model.Publisher.{Publisher}
use erizo_controller.Model.Subscriber.{Subscriber}
use erizo_controller.Model.BridgeStream.{BridgeStream}
use erizo_controller.Process.State.{World, Exec, pure, lift, gets, ◌>>=◌, ◌>>◌}
use erizo_controller.Process.Clock.{get_stream_id}
use erizo_controller.Redis.Helper.{
  get_publisher, add_subscriber_row, get_all_bridge_stream, add_bridge_stream,
}
use erizo_controller.Redis.Locker.{with_lock}
use erizo_controller.Controller.Message.{
  add_virtual_publisher, add_virtual_subscriber, add_subscriber,
}
use erizo_controller.Controller.Bridge.{brings}

-- `bool is_bridge = !(client.agent_id == publisher.agent_id)`
abbrev pub needs_bridge : Client → Publisher → Bool
needs_bridge c p = not (c.agent_id == p.agent_id)

abbrev pub subscriber_of : Client → Publisher → String → String → String → Subscriber
subscriber_of c p id stream_id reply_to = record {
  id = id;
  client_id = c.id;
  erizo_id = c.erizo_id;
  agent_id = c.agent_id;
  subscribe_to = stream_id;
  reply_to = reply_to;
  is_bridge = needs_bridge c p;
}

abbrev pub bridge_of : Client → Publisher → String → String → BridgeStream
bridge_of c p id stream_id = record {
  id = id;
  sender_erizo_id = p.erizo_id;
  sender_ip = p.bridge_ip;
  sender_port = p.bridge_port;
  recver_erizo_id = c.erizo_id;
  recver_ip = c.bridge_ip;
  recver_port = c.bridge_port;
  src_stream_id = stream_id;
  label = "";
  subscribe_count = pos 1;
}

-- One round of the loop `again`.
pub data Round (A : Type 0) : Type 0 where
  again : Round A
  leave : A → Round A

module _ (P : Platform) where
  open P.json use {Value, null, of_string, of_bool, member, as_string}

  -- A bridge that nothing uses yet; `true` stands for an early `return Json::nullValue`.
  unfoldable pub open_bridge : Client → Publisher → String → Exec P Bool
  open_bridge c p stream_id = do
    id ← get_stream_id P
    row ← get_publisher P c.room_id stream_id
    elim row [
      | none ↦ pure true
      | some p' ↦ do
        failed ← add_bridge_stream P c.room_id (bridge_of c p id stream_id)
        if failed then pure true else do
          add_virtual_publisher P p' (bridge_of c p id stream_id)
          add_virtual_subscriber P (bridge_of c p id stream_id)
          pure false
    ]

  -- One subscriber more on the bridge of the stream to the subscriber's agent.
  -- `subscribe_count` is not bounded here, where the source has an `int`.
  unfoldable pub join_bridge : Client → Publisher → Subscriber → String → Exec P Bool
  join_bridge c p s stream_id = do
    rows ← get_all_bridge_stream P c.room_id
    elim rows [
      | none ↦ pure true
      | some bridges ↦ elim (find_if (brings s.subscribe_to s.erizo_id) bridges) [
        | none ↦ open_bridge c p stream_id
        | some b ↦
            add_bridge_stream P c.room_id (record b { subscribe_count = succ b.subscribe_count })
      ]
    ]

  -- After the publisher was found and is ready.
  unfoldable pub subscribe_to : Client → Publisher → String → Exec P Value
  subscribe_to c p stream_id = do
    id ← get_stream_id P
    reply_to ← gets (λ w. w.reply_to)
    let s = subscriber_of c p id stream_id reply_to
    failed ← add_subscriber_row P c.room_id s
    if failed then pure null else do
      unbridged ← if s.is_bridge then join_bridge c p s stream_id else pure false
      if unbridged then pure null else do
        add_subscriber P c p s
        pure (array P.json (of_bool true ∷ of_string s.erizo_id ∷ []))

  -- The body under the lock.
  unfoldable pub subscribe_round : Client → Value → Exec P (Round Value)
  subscribe_round c root = do
    stream_id ← lift (or_throw (as_string (member root "streamId")))
    row ← get_publisher P c.room_id stream_id
    elim row [
      | none ↦ pure (leave null)
      | some p ↦
          if eqb p.video_ssrc 0 || eqb p.audio_ssrc 0
          then pure again
          else do reply ← subscribe_to c p stream_id; pure (leave reply)
    ]

  -- `try_time` rounds more after the first.
  unfoldable pub subscribe_loop : ℕ → Client → Value → Exec P Value
  subscribe_loop zero c root = do
    round ← with_lock P c.room_id (leave null) (subscribe_round c root)
    elim round [ again ↦ pure null | leave reply ↦ pure reply ]
  subscribe_loop (suc tries) c root = do
    round ← with_lock P c.room_id (leave null) (subscribe_round c root)
    let rest = subscribe_loop tries c root
    elim round [ again ↦ rest | leave reply ↦ pure reply ]

  unfoldable pub handle_subscribe : Client → Value → Exec P Value
  handle_subscribe c root =
      if not (has P.json root "streamId" string_value) then pure null else subscribe_loop 10 c root
