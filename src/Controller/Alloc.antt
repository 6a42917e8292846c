-- ===== src/Controller/Alloc.antt =====
-- core/erizo_controller.cpp: the choice of an agent for a client, and the agent's answer.
pub mod Asks
pub mod Choice
pub mod Chosen
use erizo_controller.Base.{
  ℕ, zero, suc, ◌+◌, ◌-◌, ◌%◌, ◌^◌, ℤ, pos, negsuc, Bool, true, false, ◌&&◌, not, String, Option,
  none, some, List, [], ◌∷◌, ltb, keep_if, if◌then◌else◌,
}
use erizo_controller.Base.Int.{ltb_int, to_int32}
use erizo_controller.External.{Platform}
use erizo_controller.External.Json.{Kind, string_value, int_value}
use erizo_controller.Config.{Config, as_u64, find_server}
use erizo_controller.Route.Enums.{area_code}
use erizo_controller.Model.Outcome.{Outcome, done, thrown, or_throw}
use erizo_controller.Model.Fields.{has, object, is_null}
use erizo_controller.Model.Client.{Client}
use erizo_controller.Model.ErizoAgent.{ErizoAgent}
use erizo_controller.Process.State.{World, Exec, pure, lift, gets, ◌>>=◌}
use erizo_controller.Process.Clock.{get_system_ms}
use erizo_controller.Redis.Helper.{get_all_erizo_agent}
use erizo_controller.Controller.Message.{rpc}
use erizo_controller.Controller.Answer.{read_erizo}

-- `now - agent.last_update < timeout`, in `uint64_t`
unfoldable pub is_alive : ℕ → ℕ → ErizoAgent → Bool
is_alive now timeout a = ltb ((now + 2 ^ 64 - a.last_update) % 2 ^ 64) timeout

-- `std::sort` by `erizo_process_num`.
unfoldable pub insert_agent : ErizoAgent → List ErizoAgent → List ErizoAgent
insert_agent a [] = a ∷ []
insert_agent a (b ∷ bs) =
    let rest = insert_agent a bs in
    if ltb_int b.erizo_process_num a.erizo_process_num then b ∷ rest else a ∷ b ∷ bs

unfoldable pub sort_agents : List ErizoAgent → List ErizoAgent
sort_agents [] = []
sort_agents (a ∷ agents) = insert_agent a (sort_agents agents)

-- `agents_alive[0]` after the sort, if an agent is alive.
unfoldable pub choose_agent : ℕ → ℕ → List ErizoAgent → Option ErizoAgent
choose_agent now timeout agents = elim (sort_agents (keep_if (is_alive now timeout) agents)) [
  | [] ↦ none
  | a ∷ _ ↦ some a
]

module _ (P : Platform) where
  open P.json use {Value, of_string}

  -- `allocAgent`: the result `true` is its return value 1, and the client is the one it leaves.
  unfoldable pub alloc_agent : Client → Exec P (Bool × Client)
  alloc_agent c = do
    config ← gets (λ w. w.config)
    elim (find_server (to_int32 (area_code c.ip_info.area)) config.server_mapping) [
      | none ↦ pure (true, c)
      | some area_name ↦ do
        rows ← get_all_erizo_agent P area_name
        elim rows [
          | none ↦ pure (true, c)
          | some agents ↦ do
            now ← get_system_ms P
            elim (choose_agent now (as_u64 config.erizo_agent_timeout) agents) [
              | none ↦ pure (true, c)
              | some a ↦ pure (false, record c { agent_id = a.id })
            ]
        ]
    ]

  -- One question to the agent.
  unfoldable pub ask_erizo : Client → Exec P (Option Client)
  ask_erizo c = do
    root ←
        rpc P c.agent_id
          (object P.json (("method", of_string "getErizo") ∷ ("roomID", of_string c.room_id) ∷ []))
    lift (read_erizo P.json c root)

  -- `do { … } while (ret && try_time);`, with one question more than `tries`.
  unfoldable pub ask_loop : ℕ → Client → Exec P (Bool × Client)
  ask_loop zero c = do
    answer ← ask_erizo c
    elim answer [ some c' ↦ pure (false, c') | none ↦ pure (true, c) ]
  ask_loop (suc tries) c = do
    answer ← ask_erizo c
    let rest = ask_loop tries c
    elim answer [ some c' ↦ pure (false, c') | none ↦ rest ]

  unfoldable pub alloc_erizo : Client → Exec P (Bool × Client)
  alloc_erizo c = ask_loop 2 c
