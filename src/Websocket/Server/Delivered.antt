-- ===== src/Websocket/Server/Delivered.antt =====
-- websocket/socket_io_server.cpp: every connection is sent the messages of the queue for its client.
use erizo_controller.Base.{
  arith, Bool, true, false, String, ◌==◌, eq_iff, some, List, [], ◌∷◌, ◌++◌, ◌≡◌, refl, ap, sym,
  ◌∙◌, Bool-cases, Option-cases, inl, inr, if◌then◌else◌,
}
use erizo_controller.External.{Platform}
use erizo_controller.Process.State.{World, SioData}
use erizo_controller.Model.Outcome.{done}
use erizo_controller.Websocket.Handler.{Connection, send_message}
use erizo_controller.Websocket.Server.{
  Clients, find_client, put_client, deliver, deliver_all, send_round,
}

-- The messages of a queue for one client, in order.
unfoldable pub messages_for : String → List SioData → List String
messages_for id [] = []
messages_for id (d ∷ queue) =
    let rest = messages_for id queue in if d.client_id == id then d.message ∷ rest else rest

find-put :
    (id j : String) (h : Connection) (clients : Clients)
    → find_client j (put_client id h clients) ≡ (if id == j then some h else find_client j clients)
unfolding find_client put_client
find-put id j h [] = refl
find-put id j h ((i, old) ∷ clients) =
    ground (arith, find-put id j h clients, eq_iff i id, eq_iff i j, eq_iff id j)

-- A connection after messages that are sent one after the other.
abbrev pub send_all : List String → Connection → Connection
send_all [] h = h
send_all (m ∷ ms) h = send_all ms (send_message m h)

append_nil : (xs : List String) → xs ++ [] ≡ xs
append_nil [] = refl
append_nil (x ∷ xs) = ap (λ (l : List String). x ∷ l) (append_nil xs)

append_one :
    (xs : List String) (m : String) (ms : List String) → (xs ++ (m ∷ [])) ++ ms ≡ xs ++ (m ∷ ms)
append_one [] m ms = refl
append_one (x ∷ xs) m ms = ap (λ (l : List String). x ∷ l) (append_one xs m ms)

abbrev with_sent : Connection → List String → Connection
with_sent h ms = record h { sent = ms }

send_all-connected :
    (ms : List String) (h : Connection)
    → h.connected ≡ true
    → send_all ms h ≡ record h { sent = h.sent ++ ms }
unfolding send_message
send_all-connected [] h c = ap (with_sent h) (sym (append_nil h.sent))
send_all-connected (m ∷ ms) h c =
    ap (send_all ms) (ap (λ (b : Bool). if b then with_sent h (h.sent ++ (m ∷ [])) else h) c)
    ∙ send_all-connected ms (with_sent h (h.sent ++ (m ∷ []))) c
    ∙ ap (with_sent h) (append_one h.sent m ms)

deliver_same :
    (d : SioData) (id : String) (h : Connection) (clients : Clients)
    → find_client id clients ≡ some h
    → (d.client_id == id) ≡ true
    → find_client id (deliver d clients) ≡ some (send_message d.message h)
unfolding deliver
deliver_same d id h clients e t =
    let same : d.client_id ≡ id = (eq_iff d.client_id id).0 t in
    rw (deliver, ap (λ (x : String). find_client x clients) same ∙ e)
      (find-put d.client_id id (send_message d.message h) clients ∙ rw t refl)

deliver_other :
    (d : SioData) (id : String) (clients : Clients)
    → (d.client_id == id) ≡ false
    → find_client id (deliver d clients) ≡ find_client id clients
unfolding deliver
deliver_other d id clients t = elim (Option-cases (find_client d.client_id clients)) [
  | inl n ↦ rw (deliver, n) refl
  | inr (g, n) ↦
      rw (deliver, n) (find-put d.client_id id (send_message d.message g) clients ∙ rw t refl)
]

deliver_all_lem :
    (queue : List SioData) (id : String) (h : Connection) (clients : Clients)
    → find_client id clients ≡ some h
    → find_client id (deliver_all queue clients) ≡ some (send_all (messages_for id queue) h)
unfolding deliver_all messages_for
deliver_all_lem [] id h clients e = e
deliver_all_lem (d ∷ queue) id h clients e = elim (Bool-cases (d.client_id == id)) [
  | inl t ↦ rw t (
      deliver_all_lem queue id (send_message d.message h) (deliver d clients)
        (deliver_same d id h clients e t))
  | inr t ↦ rw t (deliver_all_lem queue id h (deliver d clients) (deliver_other d id clients t ∙ e))
]

-- A round of the send thread empties the queue, and each client of the map whose socket is open is
-- sent the messages of the queue for it, each once and in the order of the queue, and no others.
pub send_round_lem :
    (P : Platform) (clients : Clients) (w : World P)
    → (after : Clients) × (send_round P clients w ≡ (done after, record w { events = [] }))
      × ((id : String) (h : Connection)
          → find_client id clients ≡ some h
          → h.connected ≡ true
          → find_client id after ≡ some (record h { sent = h.sent ++ messages_for id w.events }))
unfolding send_round
send_round_lem P clients w = (
  deliver_all w.events clients,
  refl,
  λ id h e c.
      deliver_all_lem w.events id h clients e
      ∙ ap some (send_all-connected (messages_for id w.events) h c),
)
