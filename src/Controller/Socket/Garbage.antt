-- ===== src/Controller/Socket/Garbage.antt =====
-- core/erizo_controller.cpp and websocket/: a message that is no event, from the frame to the answer.
use erizo_controller.Base.{
  ℕ, ◌<◌, pos, true, false, String, some, [], ◌∷◌, ◌++◌, ◌≡◌, refl, ap, ◌∙◌,
}
use erizo_controller.External.{Platform}
use erizo_controller.Model.Outcome.{done}
use erizo_controller.Process.State.{World}
use erizo_controller.Controller.Dispatch.{is_event, on_message}
use erizo_controller.Controller.Dispatch.Rejects.{on_message_rejects}
use erizo_controller.Controller.Socket.{controller_frame}
use erizo_controller.Websocket.Handler.{Connection, send_message, send_reply}
use erizo_controller.Websocket.Handler.Acknowledged.{event_message, on_frame_lem}

module _ (P : Platform) where
  -- A frame with a message id below 2 ^ 31, from whose bracket on JsonCpp parses nothing or nothing
  -- that is an event, is answered with `41`, which disconnects, on an open socket; nothing else changes.
  pub controller_frame_garbage :
      (video audio n : ℕ) (s : String) (h : Connection) (w : World P)
      → n < 2147483648
      → h.connected ≡ true
      → ((root : P.json.Value)
          → P.json.parse (String.◌∷◌ "[" s) ≡ some root
          → is_event P root ≡ false)
      → controller_frame P video audio (event_message n s) h w
        ≡ (done (record h { sent = h.sent ++ ("41" ∷ []) }), w)
  unfolding controller_frame send_reply send_message
  controller_frame_garbage video audio n s h w small ready rejected =
      on_frame_lem P (on_message P video audio) n s "disconnect" h.client h w w small
        (on_message_rejects P video audio h.client (String.◌∷◌ "[" s) w rejected)
      ∙ ap (λ (x : Connection). (done x, w)) (closed ready)
    where
      closed :
          h.connected ≡ true
          → send_reply (some (pos n)) "disconnect" h ≡ record h { sent = h.sent ++ ("41" ∷ []) }
      closed ready = rw ready refl
