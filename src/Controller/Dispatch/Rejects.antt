-- ===== src/Controller/Dispatch/Rejects.antt =====
-- `onMessage` of core/erizo_controller.cpp on messages that are not events.
use erizo_controller.Base.{ℕ, false, String, none, some, ◌≡◌, refl}
use erizo_controller.External.{Platform}
use erizo_controller.Model.Outcome.{done}
use erizo_controller.Model.Client.{Client}
use erizo_controller.Process.State.{World}
use erizo_controller.Controller.Dispatch.{is_event, on_message}

module _ (P : Platform) where
  -- A message that JsonCpp cannot parse, or whose value is not an array of at least two elements
  -- that starts with a string and an object, is answered by "disconnect", and neither the client
  -- nor the process changes.
  pub on_message_rejects :
      (video audio : ℕ) (c : Client) (msg : String) (w : World P)
      → ((root : P.json.Value) → P.json.parse msg ≡ some root → is_event P root ≡ false)
      → on_message P video audio c msg w ≡ (done ("disconnect", c), w)
  unfolding on_message
  on_message_rejects video audio c msg w h =
      elim (P.json.parse msg)
          as (λ o.
            P.json.parse msg ≡ o → on_message P video audio c msg w ≡ (done ("disconnect", c), w)) [
              | none ↦ λ e. rw (on_message, e)
              | some root ↦ λ e. rw (on_message, e, h root e)
            ]
        refl
