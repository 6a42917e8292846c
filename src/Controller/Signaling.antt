-- ===== src/Controller/Signaling.antt =====
-- core/erizo_controller.cpp: `onSignalingMessage` and `notifyToSubscribe`, which post tasks, and
-- what the tasks do.
pub mod Broadcast
pub mod Notified
pub mod OnlyTo
pub mod Addressed
use erizo_controller.Base.{
  Bool, true, false, ◌&&◌, ◌||◌, not, String, ◌==◌, Option, none, some, List, [], ◌∷◌, ◌++◌,
  if◌then◌else◌,
}
use erizo_controller.External.{Platform}
use erizo_controller.External.Json.{string_value, object_value}
use erizo_controller.Model.Outcome.{or_throw, thrown}
use erizo_controller.Model.Fields.{has, has_members, is_kind, object}
use erizo_controller.Model.Client.{Client}
use erizo_controller.Model.Publisher.{Publisher}
use erizo_controller.Process.State.{
  World, Task, signaling_task, subscribe_task, Exec, pure, lift, modify, ◌>>=◌, ◌>>◌,
}
use erizo_controller.Redis.Helper.{get_publisher, add_publisher_row, get_all_client}
use erizo_controller.Redis.Locker.{with_lock}
use erizo_controller.Controller.Message.{rpc_not_reply}
use erizo_controller.Controller.Event.{
  initializing_event, started_event, publisher_answer_event, subscriber_answer_event,
  add_stream_event, remove_stream_event, send_events, close_connection,
}

module _ (P : Platform) where
  open P.json use {Value, of_string, is_member, member, kind, as_string, as_uint, parse}

  unfoldable pub async_task : Task → Exec P (Unit {0})
  async_task t = modify (λ w. record w { tasks = w.tasks ++ (t ∷ []) })

  -- `root[key].asString()`
  abbrev text : Value → String → Exec P String
  text root key = lift (or_throw (as_string (member root key)))

  abbrev has_text : Value → String → Bool
  has_text root key = has P.json root key string_value

  unfoldable pub on_started : Value → Exec P (List Value)
  on_started info =
      if not (has_text info "agentId" && has_text info "erizoId" && has_text info "streamId")
      then pure []
      else do
        agent_id ← text info "agentId"
        erizo_id ← text info "erizoId"
        stream_id ← text info "streamId"
        pure (
            initializing_event P.json agent_id erizo_id stream_id
            ∷ started_event P.json stream_id
            ∷ [])

  -- The part of `publisher_answer` under the lock: the SSRCs are stored.
  unfoldable pub store_answer : Value → String → String → String → Exec P (List Value)
  store_answer info room_id stream_id sdp = do
    video_ssrc ← lift (or_throw (as_uint (member info "videoSSRC")))
    audio_ssrc ← lift (or_throw (as_uint (member info "audioSSRC")))
    with_lock P room_id [] (do
      row ← get_publisher P room_id stream_id
      elim row [
        | none ↦ pure []
        | some p ↦ do
          failed ←
              add_publisher_row P room_id
                (record p { video_ssrc = video_ssrc; audio_ssrc = audio_ssrc })
          pure (if failed then [] else publisher_answer_event P.json stream_id sdp ∷ [])
      ])

  unfoldable pub on_publisher_answer : Value → Exec P (List Value)
  on_publisher_answer info =
      if not (
        has_text info "streamId"
        && has_text info "sdp"
        && has_text info "roomId"
        && is_member info "videoSSRC"
        && is_member info "audioSSRC")
      then pure []
      else do
        room_id ← text info "roomId"
        stream_id ← text info "streamId"
        sdp ← text info "sdp"
        store_answer info room_id stream_id sdp

  unfoldable pub on_subscriber_answer : Value → Exec P (List Value)
  on_subscriber_answer info =
      if not (has_text info "streamId" && has_text info "sdp" && has_text info "erizoId")
      then pure []
      else do
        sdp ← text info "sdp"
        erizo_id ← text info "erizoId"
        stream_id ← text info "streamId"
        pure (subscriber_answer_event P.json stream_id sdp erizo_id ∷ [])

  -- `notifyToSubscribe`
  unfoldable pub notify_to_subscribe : String → String → String → Exec P (Unit {0})
  notify_to_subscribe room_id client_id stream_id =
      async_task (subscribe_task room_id client_id stream_id)

  -- The room is read if the member is there, of whichever type.
  unfoldable pub on_ready : String → Value → Exec P (List Value)
  on_ready client_id info = if not (has_text info "streamId") then pure [] else do
    stream_id ← text info "streamId"
    if is_member info "roomId" || is_kind (kind (member info "roomId")) string_value
        then (do
          room_id ← text info "roomId"
          with_lock P room_id [] (do notify_to_subscribe room_id client_id stream_id; pure []))
        else pure []

  unfoldable pub on_new_publisher : Value → Exec P (List Value)
  on_new_publisher info =
      if not (has_text info "label" && has_text info "streamId") then pure [] else do
        label ← text info "label"
        stream_id ← text info "streamId"
        pure (add_stream_event P.json stream_id label ∷ [])

  unfoldable pub on_remove_subscriber : Value → Exec P (List Value)
  on_remove_subscriber info =
      if not (has_text info "streamId")
      then pure []
      else do stream_id ← text info "streamId"; pure (remove_stream_event P.json stream_id ∷ [])

  -- The chain of tests on `type`: the events that are sent to the client.
  unfoldable pub signaling_events : String → String → Value → Exec P (List Value)
  signaling_events type client_id info =
      if type == "started"
      then on_started info
      else if type == "publisher_answer"
      then on_publisher_answer info
      else if type == "subscriber_answer"
      then on_subscriber_answer info
      else if type == "ready"
      then on_ready client_id info
      else if type == "new_publisher"
      then on_new_publisher info
      else if type == "remove_subscriber"
      then on_remove_subscriber info
      else if type == "notifyErizoProcessQuit"
      then (do close_connection P client_id; pure [])
      else pure []

  -- The body of the task that `onSignalingMessage` posts.
  unfoldable pub run_signaling : String → Exec P (Unit {0})
  run_signaling msg = elim (parse msg) [
    | none ↦ pure tt
    | some root ↦
        if not (has_members P.json root)
        then lift thrown
        else if not (has P.json root "data" object_value)
        then pure tt
        else let info = member root "data" in
          if not (has_text info "type" && has_text info "clientId") then pure tt else do
            type ← text info "type"
            client_id ← text info "clientId"
            events ← signaling_events type client_id info
            send_events P client_id events
  ]

  unfoldable pub on_signaling_message : String → Exec P (Unit {0})
  on_signaling_message msg = async_task (signaling_task msg)

  -- The message to one client of the room.
  unfoldable pub tell_new_publisher : Publisher → String → Client → Exec P (Unit {0})
  tell_new_publisher p stream_id c = rpc_not_reply P c.reply_to (
      object P.json (
        ("type", of_string "new_publisher")
        ∷ ("streamId", of_string stream_id)
        ∷ ("clientId", of_string c.id)
        ∷ ("label", of_string p.label)
        ∷ []))

  -- The body of the loop over the clients.
  unfoldable pub tell_unless_same : Publisher → String → String → Client → Exec P (Unit {0})
  tell_unless_same p client_id stream_id c =
      if c.id == client_id then pure tt else tell_new_publisher p stream_id c

  unfoldable pub tell_others : Publisher → String → String → List Client → Exec P (Unit {0})
  tell_others p client_id stream_id [] = pure tt
  tell_others p client_id stream_id (c ∷ clients) = do
    tell_unless_same p client_id stream_id c
    tell_others p client_id stream_id clients

  -- The body of the task that `notifyToSubscribe` posts.
  unfoldable pub run_subscribe : String → String → String → Exec P (Unit {0})
  run_subscribe room_id client_id stream_id = do
    row ← get_publisher P room_id stream_id
    elim row [
      | none ↦ pure tt
      | some p ↦ do
        rows ← get_all_client P room_id
        elim rows [ none ↦ pure tt | some clients ↦ tell_others p client_id stream_id clients ]
    ]
