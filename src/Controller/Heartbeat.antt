-- ===== src/Controller/Heartbeat.antt =====
-- core/erizo_controller.cpp: the heartbeat thread that `init` starts, round by round.
pub mod Expiry
use erizo_controller.Base.{
  ℕ, zero, suc, ◌+◌, ◌-◌, ◌%◌, ◌^◌, Bool, true, false, String, ◌==◌, Option, none, some, List, [],
  ◌∷◌, ltb, if◌then◌else◌,
}
use erizo_controller.Config.{as_u64}
use erizo_controller.External.{Platform}
use erizo_controller.Model.Heartbeat.{Heartbeat}
use erizo_controller.Process.State.{World, expire_task, Exec, pure, gets, ◌>>=◌, ◌>>◌}
use erizo_controller.Process.Clock.{get_system_ms}
use erizo_controller.Redis.Helper.{
  add_heartbeat_data, remove_heartbeat_data, get_all_heartbeat_data,
}
use erizo_controller.Redis.Locker.{new_locker, lock, unlock}
use erizo_controller.Controller.Signaling.{async_task}

-- `a - b` in `uint64_t`
abbrev pub sub_u64 : ℕ → ℕ → ℕ
sub_u64 a b = (a + 2 ^ 64 - b) % 2 ^ 64

-- `data.last_update - now > timeout`
unfoldable pub is_expired : ℕ → ℕ → Heartbeat → Bool
is_expired now timeout h = ltb timeout (sub_u64 h.last_update now)

-- `now - heartbeat_.last_update > update_interval`
unfoldable pub is_due : ℕ → ℕ → Heartbeat → Bool
is_due now interval h = ltb interval (sub_u64 now h.last_update)

module _ (P : Platform) where
  -- The body of the loop over the heartbeats that were read.
  unfoldable pub expire_other : ℕ → ℕ → Heartbeat → Exec P (Unit {0})
  expire_other now timeout h = do
    id ← gets (λ w. w.id)
    if h.id == id
        then pure tt
        else if is_expired now timeout h
        then (do remove_heartbeat_data P h.id; async_task P (expire_task h.id))
        else pure tt

  unfoldable pub expire_others : ℕ → ℕ → List Heartbeat → Exec P (Unit {0})
  expire_others now timeout [] = pure tt
  expire_others now timeout (h ∷ heartbeats) = do
    expire_other now timeout h
    expire_others now timeout heartbeats

  -- `heartbeat_.last_update = now` and its row, if it is due; `true` stands for the error.
  unfoldable pub refresh : ℕ → Heartbeat → Exec P (Bool × Heartbeat)
  refresh now h = do
    interval ← gets (λ w. as_u64 w.config.erizo_controller_update_interval)
    if is_due now interval h
        then (do
          failed ← add_heartbeat_data P (record h { last_update = now })
          pure (failed, record h { last_update = now }))
        else pure (false, h)

  -- One round of `while (run_)`: whether the thread goes on, and `heartbeat_`.
  unfoldable pub heartbeat_round : Heartbeat → Exec P (Bool × Heartbeat)
  heartbeat_round h = do
    now ← get_system_ms P
    (got, l) ← lock P "erizo_controller_heartbeat_locker" new_locker
    if got
        then (do
          (failed, h') ← refresh now h
          if failed then (do unlock P l; pure (false, h')) else do
            rows ← get_all_heartbeat_data P
            elim rows [
              | none ↦ do unlock P l; pure (false, h')
              | some heartbeats ↦ do
                timeout ← gets (λ w. as_u64 w.config.erizo_controller_timeout)
                expire_others now timeout heartbeats
                unlock P l
                pure (true, h')
            ])
        else (do unlock P l; pure (false, h))

  -- The heartbeat thread, with `rounds` rounds before `run_` is cleared: an error ends it early, and
  -- then the row of this controller stays.
  unfoldable pub heartbeat_thread : ℕ → Heartbeat → Exec P (Unit {0})
  heartbeat_thread zero h = do id ← gets (λ w. w.id); remove_heartbeat_data P id; pure tt
  heartbeat_thread (suc rounds) h = do
    (goes_on, h') ← heartbeat_round h
    elim goes_on [ true ↦ heartbeat_thread rounds h' | false ↦ pure tt ]
