-- ===== src/Websocket/Handler.antt =====
-- websocket/socket_io_client_handler.cpp: the connection of one client. What `uWS` sends is a list.
pub mod Acknowledged
use Prim.Native.Char.{code}
use Prim.Native.String
use erizo_controller.Base.{
  ℕ, zero, suc, ◌-◌, ℤ, pos, negsuc, Bool, true, false, not, String, ◌++ₛ◌, ◌==◌, Option, none,
  some, List, [], ◌∷◌, ◌++◌, eqb, ltb, if◌then◌else◌,
}
use erizo_controller.External.{Platform}
use erizo_controller.External.Json.{JsonCpp, fits_int}
use erizo_controller.Route.Enums.{IpTableValue, unknown_value}
use erizo_controller.Model.Outcome.{or_throw}
use erizo_controller.Model.Fields.{object}
use erizo_controller.Model.Client.{Client}
use erizo_controller.Process.State.{World, Exec, pure, lift, ◌>>=◌}
use erizo_controller.Redis.Decimal.{show_u64, stoll}

-- `SocketIOClientHandler`: `connected` is `ws_ != nullptr`, and `sent` what was sent, oldest first.
pub record Connection : Type 0 where
  pub client : Client
  pub connected : Bool
  pub sent : List String

-- `sendMessage`
unfoldable pub send_message : String → Connection → Connection
send_message msg h = if h.connected then record h { sent = h.sent ++ (msg ∷ []) } else h

-- `setWebSocket(nullptr)`
abbrev pub unset_web_socket : Connection → Connection
unset_web_socket h = record h { connected = false }

-- `msg[i]`, which is 0 at the end of the text.
unfoldable pub char_at : String → ℕ → ℕ
char_at String.[] i = 0
char_at (String.◌∷◌ c s) zero = code c
char_at (String.◌∷◌ c s) (suc i) = char_at s i

-- `find_first_of('[')`
unfoldable pub find_bracket : String → Option ℕ
find_bracket String.[] = none
find_bracket (String.◌∷◌ c s) =
    let rest = find_bracket s in
    if eqb (code c) b'[' then some 0 else elim rest [ none ↦ none | some i ↦ some (suc i) ]

-- `substr(i)` and `substr(0, n)`
unfoldable pub drop_text : ℕ → String → String
drop_text zero s = s
drop_text (suc n) String.[] = String.[]
drop_text (suc n) (String.◌∷◌ c s) = drop_text n s

unfoldable pub take_text : ℕ → String → String
take_text zero s = String.[]
take_text (suc n) String.[] = String.[]
take_text (suc n) (String.◌∷◌ c s) = String.◌∷◌ c (take_text n s)

-- `std::stoi`: `none` where it throws.
unfoldable pub stoi : String → Option ℤ
stoi s = elim (stoll s) [ none ↦ none | some i ↦ if fits_int i then some i else none ]

-- `oss << mid`
unfoldable pub show_int : ℤ → String
show_int (pos n) = show_u64 n
show_int (negsuc n) = "-" ++ₛ show_u64 (suc n)

-- The constructor on the address of the socket. `new_id` and `sid` are what `getUUID` returns,
-- `process_ip` is `Route::processIP`, `search_address` the search of `Utils`, `none` where it finds
-- nothing, and `upgrades` the empty array; `client` has the
-- values that a new `Client` has.
module _ (J : JsonCpp) (process_ip : String → IpTableValue)
    (search_address : String → Option String) (upgrades : J.Value) where
  unfoldable pub ip_info_of : String → String → IpTableValue
  ip_info_of family address =
      if family == "IPv4"
      then process_ip address
      else elim (search_address address) [ none ↦ unknown_value | some ip ↦ process_ip ip ]

  unfoldable pub handshake : String → J.Value
  handshake sid = object J (
      ("sid", J.of_string sid)
      ∷ ("upgrades", upgrades)
      ∷ ("pingInterval", J.of_int (pos 50000))
      ∷ ("pingTimeout", J.of_int (pos 10000))
      ∷ [])

  unfoldable pub new_connection : String → String → String → ℕ → String → Client → Connection
  unfolding send_message ip_info_of
  new_connection new_id sid address port family client =
      let h : Connection = record {
        client = record client {
          id = "cli_" ++ₛ new_id;
          ip = address;
          port = port;
          family = family;
          ip_info = ip_info_of family address;
        };
        connected = true;
        sent = [];
      } in
      send_message "40" (send_message ("0" ++ₛ J.write (handshake sid)) h)

-- The end of `handleMessage`: `res` is what the message handler returned.
unfoldable pub send_reply : Option ℤ → String → Connection → Connection
unfolding send_message
send_reply mid res h =
    if res == "disconnect" then send_message "41" h else if res == "keep" then h else elim mid [
      | none ↦ send_message ("43" ++ₛ res) h
      | some i ↦ send_message ("43" ++ₛ (show_int i ++ₛ res)) h
    ]

-- `on_message` is `on_message_hdl_`: it is given the client, which it may change, and the event.
module _ (P : Platform) (on_message : Client → String → Exec P (String × Client)) where
  -- The id of a message, whose bracket stands at `i`; an id that is no number throws.
  unfoldable pub message_id : String → ℕ → Exec P (Option ℤ)
  message_id msg i =
      if ltb 2 i
      then (do mid ← lift (or_throw (stoi (take_text i (drop_text 2 msg)))); pure (some mid))
      else pure none

  unfoldable pub handle_message : String → Connection → Exec P Connection
  handle_message msg h =
      if not (eqb (char_at msg 1) b'2') then pure h else elim (find_bracket msg) [
        | none ↦ pure h
        | some i ↦ do
          mid ← message_id msg i
          (res, client) ← on_message h.client (drop_text i msg)
          pure (send_reply mid res (record h { client = client }))
      ]

  -- `onMessage`: a ping is answered, a message is handled, other frames are dropped.
  unfoldable pub on_frame : String → Connection → Exec P Connection
  on_frame msg h =
      if eqb (char_at msg 0) b'2'
      then pure (send_message "3" h)
      else if eqb (char_at msg 0) b'4'
      then handle_message msg h
      else pure h
