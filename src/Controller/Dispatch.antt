-- ===== src/Controller/Dispatch.antt =====
-- core/erizo_controller.cpp: `onMessage`, `handleSignaling` and `onClose`, and the thread pool's run
-- of one posted task.
pub mod Rejects
use erizo_controller.Base.{
  ℕ, Bool, true, false, ◌&&◌, ◌||◌, not, String, ◌==◌, Option, none, some, List, [], ◌∷◌, ltb,
  if◌then◌else◌,
}
use erizo_controller.External.{Platform}
use erizo_controller.External.Json.{array_value, string_value, object_value}
use erizo_controller.Model.Outcome.{or_throw}
use erizo_controller.Model.Fields.{has, is_kind, is_null}
use erizo_controller.Model.Client.{Client}
use erizo_controller.Process.State.{
  World, Task, signaling_task, subscribe_task, expire_task, Exec, pure, lift, ◌>>=◌, ◌>>◌,
}
use erizo_controller.Controller.Message.{process_signaling}
use erizo_controller.Controller.Token.{handle_token}
use erizo_controller.Controller.Publish.{handle_publish}
use erizo_controller.Controller.Subscribe.{handle_subscribe}
use erizo_controller.Controller.Signaling.{run_signaling, run_subscribe}
use erizo_controller.Controller.Remove.{remove_client, remove_expire_erizo_controller}

module _ (P : Platform) where
  open P.json use {Value, kind, size, element, member, as_string, write, parse}

  unfoldable pub handle_signaling : Client → Value → Exec P (Unit {0})
  handle_signaling c root =
      if not (has P.json root "streamId" string_value && has P.json root "msg" object_value)
      then pure tt
      else do
        stream_id ← lift (or_throw (as_string (member root "streamId")))
        process_signaling P c.erizo_id c.id stream_id (member root "msg")

  -- The end of `onMessage`: a reply is written, and no reply disconnects.
  abbrev pub answer_or_disconnect : Value → String
  answer_or_disconnect reply = if is_null P.json reply then "disconnect" else write reply

  -- The tests on a message that was parsed: `["event", {…}, …]`.
  abbrev pub is_event : Value → Bool
  is_event root =
      is_kind (kind root) array_value
      && not (ltb (size root) 2)
      && is_kind (kind (element root 0)) string_value
      && is_kind (kind (element root 1)) object_value

  -- The chain of tests on the event. `video` and `audio` are as in `handle_publish`.
  unfoldable pub dispatch : ℕ → ℕ → Client → String → Value → Exec P (String × Client)
  dispatch video audio c event info =
      if event == "token"
      then (do (reply, c') ← handle_token P c; pure (answer_or_disconnect reply, c'))
      else if event == "publish"
      then (do reply ← handle_publish P video audio c info; pure (answer_or_disconnect reply, c))
      else if event == "subscribe"
      then (do
        reply ← handle_subscribe P c info
        pure (if is_null P.json reply then "keep" else write reply, c))
      else if event == "signaling_message"
      then (do handle_signaling c info; pure ("keep", c))
      else pure ("disconnect", c)

  -- `onMessage`: the text for the socket handler, and the client that it leaves.
  unfoldable pub on_message : ℕ → ℕ → Client → String → Exec P (String × Client)
  on_message video audio c msg = elim (parse msg) [
    | none ↦ pure ("disconnect", c)
    | some root ↦ if not (is_event root) then pure ("disconnect", c) else do
      event ← lift (or_throw (as_string (element root 0)))
      dispatch video audio c event (element root 1)
  ]

  unfoldable pub on_close : Client → Exec P (Unit {0})
  on_close c = remove_client P c

  -- A worker of the thread pool runs a task that `asyncTask` posted.
  unfoldable pub run_task : Task → Exec P (Unit {0})
  run_task (signaling_task msg) = run_signaling P msg
  run_task (subscribe_task room_id client_id stream_id) =
      run_subscribe P room_id client_id stream_id
  run_task (expire_task id) = remove_expire_erizo_controller P id
