-- ===== src/Websocket/Handler/Acknowledged.antt =====
-- websocket/socket_io_client_handler.cpp: the reply to a message carries the message's id.
use Prim.Native.Char.{code}
use erizo_controller.Base.{
  ℕ, zero, suc, ◌/◌, ◌%◌, ◌<◌, pos, true, false, String, ◌++ₛ◌, ◌==◌, some, [], ◌∷◌, ◌++◌, ◌≡◌,
  refl, ap, ◌∙◌, arith, eqb, ltb, Bool-cases, ltb→lt, inl, inr, if◌then◌else◌,
}
use erizo_controller.Process.Clock.{digit_char}
use erizo_controller.Redis.Decimal.{digits_before, show_u64, read_digits}
use erizo_controller.Redis.Decimal.RoundTrip.{digit_cases, stoll-before}
use erizo_controller.External.Json.{fits_int}
use erizo_controller.External.{Platform}
use erizo_controller.Model.Client.{Client}
use erizo_controller.Model.Outcome.{done}
use erizo_controller.Process.State.{World, Exec}
use erizo_controller.Websocket.Handler.{
  find_bracket, drop_text, take_text, stoi, Connection, char_at, send_message, send_reply, show_int,
  message_id, handle_message, on_frame,
}

-- The place `k` of a text, behind the digits of a number.
unfoldable after_digits : ℕ → ℕ → ℕ → ℕ
after_digits zero n k = k
after_digits (suc f) n k =
    let rest = after_digits f (n / 10) (suc k) in if ltb n 10 then suc k else rest

digit_no_bracket : (d : ℕ) → d < 10 → eqb (code (digit_char d)) b'[' ≡ false
digit_no_bracket d h =
    digit_cases (λ e. eqb (code (digit_char e)) b'[' ≡ false) refl refl refl refl refl refl refl
      refl refl refl d h

find-digit :
    (d k : ℕ) (s : String)
    → d < 10
    → find_bracket s ≡ some k
    → find_bracket (String.◌∷◌ (digit_char d) s) ≡ some (suc k)
unfolding find_bracket
find-digit d k s h e = rw (digit_no_bracket d h, e) refl

find-digits_before :
    (f n k : ℕ) (s : String)
    → find_bracket s ≡ some k
    → find_bracket (digits_before f n s) ≡ some (after_digits f n k)
unfolding digits_before after_digits
find-digits_before zero n k s e = e
find-digits_before (suc f) n k s e = elim (Bool-cases (ltb n 10)) [
  | inl t ↦ rw t (find-digit n k s (ltb→lt n 10 t) e)
  | inr t ↦ rw t (find-digits_before f (n / 10) (suc k) _ (find-digit (n % 10) k s (omega arith) e))
]

take-digits_before :
    (f n k : ℕ) (s : String)
    → take_text (after_digits f n k) (digits_before f n s) ≡ digits_before f n (take_text k s)
unfolding digits_before after_digits take_text
take-digits_before zero n k s = refl
take-digits_before (suc f) n k s = elim (Bool-cases (ltb n 10)) [
  | inl t ↦ rw t refl
  | inr t ↦ rw t (take-digits_before f (n / 10) (suc k) (String.◌∷◌ (digit_char (n % 10)) s))
]

drop-digits_before :
    (f n k : ℕ) (s : String) → drop_text (after_digits f n k) (digits_before f n s) ≡ drop_text k s
unfolding digits_before after_digits drop_text
drop-digits_before zero n k s = refl
drop-digits_before (suc f) n k s = elim (Bool-cases (ltb n 10)) [
  | inl t ↦ rw t refl
  | inr t ↦ rw t (drop-digits_before f (n / 10) (suc k) (String.◌∷◌ (digit_char (n % 10)) s))
]

-- A number before a bracket is read as itself.
stoi-digits_before :
    (n : ℕ) (s : String)
    → n < 2147483648
    → stoi (digits_before 20 n (String.◌∷◌ "[" s)) ≡ some (pos n)
unfolding stoi read_digits
stoi-digits_before n s h =
    let small : ltb 9223372036854775807 n ≡ false = ground arith in
    let fits : fits_int (pos n) ≡ true = ground arith in
    rw (stoi, stoll-before n (String.◌∷◌ "[" s) (omega arith) refl, small, fits) refl

after_digits-suc : (f n k : ℕ) → after_digits f n (suc k) ≡ suc (after_digits f n k)
unfolding after_digits
after_digits-suc zero n k = refl
after_digits-suc (suc f) n k = elim (Bool-cases (ltb n 10)) [
  | inl t ↦ rw t refl
  | inr t ↦ rw t (after_digits-suc f (n / 10) (suc k))
]

after_digits-more : (f n k : ℕ) → ltb k (after_digits (suc f) n k) ≡ true
unfolding after_digits
after_digits-more zero n k = ground arith
after_digits-more (suc f) n k = elim (Bool-cases (ltb n 10)) [
  | inl t ↦ rw t (ground arith)
  | inr t ↦ rw t (let h = after_digits-more f (n / 10) (suc k) in ground (arith, h))
]

-- The message with the id `n` and the event `[` and `s`.
unfoldable pub event_message : ℕ → String → String
event_message n s = String.◌∷◌ "4" (String.◌∷◌ "2" (digits_before 20 n (String.◌∷◌ "[" s)))

char_at-event_message :
    (n : ℕ) (s : String)
    → (char_at (event_message n s) 0 ≡ b'4') × (char_at (event_message n s) 1 ≡ b'2')
unfolding event_message char_at
char_at-event_message n s = (refl, refl)

find-event_message :
    (n : ℕ) (s : String) → find_bracket (event_message n s) ≡ some (after_digits 20 n 2)
unfolding event_message find_bracket
find-event_message n s =
    rw
      (
        find-digits_before 20 n 0 (String.◌∷◌ "[" s) refl,
        after_digits-suc 20 n 1,
        after_digits-suc 20 n 0,
      )
      refl

take-event_message :
    (n : ℕ) (s : String)
    → n < 2147483648
    → stoi (take_text (after_digits 20 n 2) (drop_text 2 (event_message n s))) ≡ some (pos n)
unfolding event_message drop_text take_text
take-event_message n s h =
    ap stoi (take-digits_before 20 n 2 (String.◌∷◌ "[" s)) ∙ stoi-digits_before n (take_text 1 s) h

drop-event_message :
    (n : ℕ) (s : String) → drop_text (after_digits 20 n 2) (event_message n s) ≡ String.◌∷◌ "[" s
unfolding event_message drop_text
drop-event_message n s =
    rw (after_digits-suc 20 n 1, after_digits-suc 20 n 0)
      (drop-digits_before 20 n 0 (String.◌∷◌ "[" s))

module _ (P : Platform) (on_message : Client → String → Exec P (String × Client)) where
  -- A message with an id below 2 ^ 31 hands its event to the message handler.
  pub on_frame_lem :
      (n : ℕ) (s res : String) (client : Client) (h : Connection) (w w' : World P)
      → n < 2147483648
      → on_message h.client (String.◌∷◌ "[" s) w ≡ (done (res, client), w')
      → on_frame P on_message (event_message n s) h w
        ≡ (done (send_reply (some (pos n)) res (record h { client = client })), w')
  unfolding on_frame handle_message message_id
  on_frame_lem n s res client h w w' small handled =
      rw
        (
          (char_at-event_message n s).0,
          (char_at-event_message n s).1,
          find-event_message n s,
          after_digits-more 19 n 2,
          take-event_message n s small,
          drop-event_message n s,
          handled,
        )
        refl

  -- A message with an id below 2 ^ 31 hands its event to the message handler, and where that returns
  -- a reply, other than the two words that stand for none, the client is sent `43`, the same
  -- id and the reply. The state is the one that the handler leaves.
  pub on_frame-event_message :
      (n : ℕ) (s res : String) (client : Client) (h : Connection) (w w' : World P)
      → n < 2147483648
      → h.connected ≡ true
      → on_message h.client (String.◌∷◌ "[" s) w ≡ (done (res, client), w')
      → (res == "disconnect") ≡ false
      → (res == "keep") ≡ false
      → on_frame P on_message (event_message n s) h w ≡ (
        done
            (record h { client = client; sent = h.sent ++ (("43" ++ₛ (show_u64 n ++ₛ res)) ∷ []) }),
        w',
      )
  unfolding send_reply send_message show_int
  on_frame-event_message n s res client h w w' small ready handled d k =
      on_frame_lem n s res client h w w' small handled
      ∙ ap (λ (x : Connection). (done x, w')) (replied d k ready)
    where
      replied :
          (res == "disconnect") ≡ false
          → (res == "keep") ≡ false
          → h.connected ≡ true
          → send_reply (some (pos n)) res (record h { client = client })
            ≡ record h { client = client; sent = h.sent ++ (("43" ++ₛ (show_u64 n ++ₛ res)) ∷ []) }
      replied d k ready = rw (d, k, ready) refl
