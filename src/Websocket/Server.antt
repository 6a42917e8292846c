-- ===== src/Websocket/Server.antt =====
-- websocket/socket_io_server.cpp: the connections by the ids of their clients, the callbacks of the
-- hub, and the rounds of the send thread over the queue that handlers fill.
pub mod Delivered
use erizo_controller.Base.{
  ℕ, Bool, true, false, not, String, ◌==◌, Option, none, some, List, [], ◌∷◌, if◌then◌else◌,
}
use erizo_controller.External.{Platform}
use erizo_controller.Model.Client.{Client}
use erizo_controller.Process.State.{World, SioData, Exec, pure, gets, modify, ◌>>=◌, ◌>>◌}
use erizo_controller.Websocket.Handler.{Connection, send_message, unset_web_socket, on_frame}

-- `clients_`, a `std::map`; its order is not used.
abbrev pub Clients : Type 0
Clients = List (String × Connection)

-- `clients_.find(id)`
unfoldable pub find_client : String → Clients → Option Connection
find_client id [] = none
find_client id ((j, h) ∷ clients) = if j == id then some h else find_client id clients

-- `clients_[id] = h`
unfoldable pub put_client : String → Connection → Clients → Clients
put_client id h [] = (id, h) ∷ []
put_client id h ((j, old) ∷ clients) =
    let rest = put_client id h clients in if j == id then (j, h) ∷ clients else (j, old) ∷ rest

-- `clients_.erase(id)`
unfoldable pub erase_client : String → Clients → Clients
erase_client id [] = []
erase_client id ((j, h) ∷ clients) =
    let rest = erase_client id clients in if j == id then clients else (j, h) ∷ rest

-- `onConnection`, after the handler was made.
unfoldable pub on_connection : Connection → Clients → Clients
on_connection h clients = put_client h.client.id h clients

-- The body of the send thread's loop over the queue.
unfoldable pub deliver : SioData → Clients → Clients
deliver d clients = elim (find_client d.client_id clients) [
  | none ↦ clients
  | some h ↦ put_client d.client_id (send_message d.message h) clients
]

unfoldable pub deliver_all : List SioData → Clients → Clients
deliver_all [] clients = clients
deliver_all (d ∷ queue) clients = deliver_all queue (deliver d clients)

module _ (P : Platform) where
  -- The handlers that the constructor sets.
  abbrev pub no_message_handler : Client → String → Exec P (String × Client)
  no_message_handler c event = pure ("disconnect", c)

  abbrev pub no_close_handler : Client → Exec P (Unit {0})
  no_close_handler c = pure tt

  -- One round of the send thread: the queue is emptied.
  unfoldable pub send_round : Clients → Exec P Clients
  send_round clients = do
    queue ← gets (λ w. w.events)
    modify (λ w. record w { events = [] })
    pure (deliver_all queue clients)

module _ (P : Platform) (on_message : Client → String → Exec P (String × Client))
    (on_close : Client → Exec P (Unit {0})) where
  -- The hub's `onMessage` for a text on the socket of the client `id`.
  unfoldable pub on_text : String → String → Clients → Exec P Clients
  on_text id msg clients = elim (find_client id clients) [
    | none ↦ pure clients
    | some h ↦ do h' ← on_frame P on_message msg h; pure (put_client id h' clients)
  ]

  -- `onDisconnection` of the client `id`: the handler runs after the socket is taken from it.
  unfoldable pub on_disconnection : String → Clients → Exec P Clients
  on_disconnection id clients = elim (find_client id clients) [
    | none ↦ pure clients
    | some h ↦ do on_close (unset_web_socket h).client; pure (erase_client id clients)
  ]

  -- The loop of `close` over the clients that are left.
  unfoldable pub close_clients : Clients → Exec P (Unit {0})
  close_clients [] = pure tt
  close_clients ((id, h) ∷ clients) = do on_close h.client; close_clients clients

-- `SocketIOServer`; `running` is `run_`.
pub record SocketIoServer : Type 0 where
  pub clients : Clients
  pub running : Bool
  pub initialized : Bool

abbrev pub new_server : SocketIoServer
new_server = record { clients = []; running = false; initialized = false }

-- `init`, which returns 0 and starts the threads of the hubs.
unfoldable pub server_init : SocketIoServer → SocketIoServer
server_init s = if s.initialized then s else record s { running = true; initialized = true }

module _ (P : Platform) (on_message : Client → String → Exec P (String × Client))
    (on_close : Client → Exec P (Unit {0})) where
  -- `close`, after the threads have ended.
  unfoldable pub server_close : SocketIoServer → Exec P SocketIoServer
  unfolding close_clients
  server_close s = if not s.initialized then pure s else do
    close_clients P on_message on_close s.clients
    pure (record { clients = []; running = false; initialized = false })
