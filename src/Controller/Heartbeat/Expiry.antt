-- ===== src/Controller/Heartbeat/Expiry.antt =====
-- Which controllers a round of the heartbeat thread takes for expired.
use erizo_controller.Base.{
  ℕ, ◌+◌, ◌<◌, ◌^◌, true, String, ◌==◌, List, [], ◌∷◌, ◌++◌, ◌≡◌, ◌⊎◌, ◌↔◌, arith, ltb→lt, lt→ltb,
  if◌then◌else◌,
}
use erizo_controller.External.{Platform}
use erizo_controller.Model.Heartbeat.{Heartbeat}
use erizo_controller.Process.State.{Task, expire_task}
use erizo_controller.Process.Ends.{Ends}
use erizo_controller.Controller.Heartbeat.{is_expired}

-- With times and timeout below 2 ^ 63, a controller counts as expired exactly if its last heartbeat
-- was written at all before this round read the clock, or lies more than the timeout ahead of it.
pub is_expired_iff :
    (now timeout : ℕ) (h : Heartbeat)
    → now < 2 ^ 63
    → timeout < 2 ^ 63
    → h.last_update < 2 ^ 63
    → (is_expired now timeout h ≡ true) ↔ ((h.last_update < now) ⊎ (now + timeout < h.last_update))
unfolding is_expired
is_expired_iff now timeout h a b c =
    (λ e. omega (arith, ltb→lt timeout _ e), λ e. lt→ltb timeout _ (omega arith))

module _ (P : Platform) where
  -- The task for one heartbeat, if it is another controller's and has expired.
  abbrev pub expiry_of : String → ℕ → ℕ → Heartbeat → List Task
  expiry_of id now timeout h =
      if h.id == id then [] else if is_expired now timeout h then expire_task h.id ∷ [] else []

  abbrev pub expiries : String → ℕ → ℕ → List Heartbeat → List Task
  expiries id now timeout [] = []
  expiries id now timeout (h ∷ hs) = expiry_of id now timeout h ++ expiries id now timeout hs
