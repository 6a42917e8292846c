-- ===== src/Controller/Token.antt =====
-- core/erizo_controller.cpp: `handleToken`.
use erizo_controller.Base.{
  pos, true, false, String, none, some, List, [], ◌∷◌, ◌++◌, map, if◌then◌else◌,
}
use erizo_controller.External.{Platform}
use erizo_controller.Model.Fields.{object, array}
use erizo_controller.Model.Client.{Client}
use erizo_controller.Model.Publisher.{Publisher}
use erizo_controller.Process.State.{Exec, pure, gets, ◌>>=◌}
use erizo_controller.Redis.Helper.{add_client, add_client_to_ec, get_all_publisher}
use erizo_controller.Controller.Alloc.{alloc_agent, alloc_erizo}

module _ (P : Platform) where
  open P.json use {Value, null, of_string, of_int, of_bool}

  unfoldable pub stream_entry : Publisher → Value
  stream_entry p = object P.json (
      ("id", of_string p.id)
      ∷ ("audio", of_bool true)
      ∷ ("video", of_bool true)
      ∷ ("data", of_bool true)
      ∷ ("label", of_string p.label)
      ∷ ("screen", of_string "")
      ∷ [])

  -- `data["streams"]` is there only if a publisher is.
  unfoldable pub stream_list : List Publisher → List (String × Value)
  stream_list [] = []
  stream_list (p ∷ publishers) = ("streams", array P.json (map stream_entry (p ∷ publishers))) ∷ []

  unfoldable pub token_reply : Client → List Publisher → Value
  token_reply c publishers = array P.json (
      of_string "success"
      ∷ object P.json (
          stream_list publishers
          ++ (("id", of_string c.room_id)
              ∷ ("clientId", of_string c.id)
              ∷ ("singlePC", of_bool false)
              ∷ ("defaultVideoBW", of_int (pos 300))
              ∷ ("maxVideoBW", of_int (pos 300))
              ∷ (
                "iceServers",
                array P.json
                    (object P.json (("url", of_string "stun:stun.l.google.com:19302") ∷ []) ∷ []),
              )
              ∷ []))
      ∷ [])

  -- The rows of the client, and the reply, after the agent's answer.
  unfoldable pub enter_room : Client → Exec P Value
  enter_room c = do
    failed ← add_client P c.room_id c
    if failed then pure null else do
      id ← gets (λ w. w.id)
      failed_ec ← add_client_to_ec P id c
      if failed_ec then pure null else do
        rows ← get_all_publisher P c.room_id
        elim rows [ none ↦ pure null | some publishers ↦ pure (token_reply c publishers) ]

  -- `handleToken`: the reply, and the client that it leaves.
  unfoldable pub handle_token : Client → Exec P (Value × Client)
  handle_token client = do
    reply_to ← gets (λ w. w.reply_to)
    let c = record client { room_id = "test_room_id"; reply_to = reply_to }
    (no_agent, c') ← alloc_agent P c
    if no_agent then pure (null, c') else do
      (no_erizo, c'') ← alloc_erizo P c'
      if no_erizo then pure (null, c'') else do reply ← enter_room c''; pure (reply, c'')
