-- ===== src/Controller/Socket.antt =====
-- core/erizo_controller.cpp: the handlers that `init` gives the Socket.IO server.
pub mod Garbage
use erizo_controller.Base.{ℕ, String}
use erizo_controller.External.{Platform}
use erizo_controller.Process.State.{World, Exec}
use erizo_controller.Controller.Dispatch.{on_message, on_close}
use erizo_controller.Websocket.Handler.{Connection, on_frame}
use erizo_controller.Websocket.Server.{Clients, on_text, on_disconnection}

module _ (P : Platform) where
  -- A frame of a client, with `onMessage` as the message handler; `video` and `audio` as there.
  unfoldable pub controller_frame : ℕ → ℕ → String → Connection → Exec P Connection
  controller_frame video audio = on_frame P (on_message P video audio)

  unfoldable pub controller_text : ℕ → ℕ → String → String → Clients → Exec P Clients
  controller_text video audio = on_text P (on_message P video audio) (on_close P)

  -- The end of a connection, with `onClose` as the close handler.
  unfoldable pub controller_disconnection : ℕ → ℕ → String → Clients → Exec P Clients
  controller_disconnection video audio = on_disconnection P (on_message P video audio) (on_close P)
