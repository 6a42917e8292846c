-- ===== src/Controller/Alloc/Chosen.antt =====
-- core/erizo_controller.cpp: `allocAgent` as a whole, from the rows of an area to the client.
use erizo_controller.Base.{
  ℕ, ◌+◌, Bool, true, false, String, ◌++ₛ◌, Option, none, some, List, ◌∷◌, ◌≡◌, refl, subst, map,
}
use erizo_controller.Base.Int.{is_minus_one, to_int32}
use erizo_controller.Config.{as_u64, find_server}
use erizo_controller.External.{Platform}
use erizo_controller.External.Redis.{RedisLaws}
use erizo_controller.Route.Enums.{area_code}
use erizo_controller.Model.Outcome.{Outcome, done}
use erizo_controller.Model.Client.{Client}
use erizo_controller.Model.ErizoAgent.{ErizoAgent, agent_from_json}
use erizo_controller.Process.State.{World}
use erizo_controller.Process.Ends.{Ends, ends, Ends-bind, Ends-option}
use erizo_controller.Process.Clock.{get_system_ms}
use erizo_controller.Redis.Acl.{acl_hvals}
use erizo_controller.Redis.Helper.{read_all, get_all, get_all_erizo_agent}
use erizo_controller.Controller.Alloc.{choose_agent, alloc_agent}
use erizo_controller.Controller.Alloc.Choice.{IsChoice, choose_agent-IsChoice}

pub read_all-cons :
    {A : Type 0} (from_json : String → Outcome (Option A)) (text : String) (a : A)
    (texts : List String) (rows : List A)
    → from_json text ≡ done (some a)
    → read_all from_json texts ≡ done rows
    → read_all from_json (text ∷ texts) ≡ done (a ∷ rows)
unfolding read_all
read_all-cons from_json text a texts rows e h = rw (read_all, e, h) refl

module _ (P : Platform) where
  -- The key of the rows of an area.
  abbrev pub area_key : String → String
  area_key area = "erizo_agent_" ++ₛ (area ++ₛ "_heartbeat")

  get_all-reads :
      (key : String) (agents : List ErizoAgent) (w : World P)
      → RedisLaws P.redis
      → w.redis_ready ≡ true
      → is_minus_one (P.redis.hgetall w.db key).0 ≡ false
      → read_all
          (agent_from_json P.json)
          (map (λ (e : String × String). e.1) (P.redis.hash_at w.db key))
        ≡ done agents
      → Ends
          (λ r w'. (r ≡ some agents) × (w'.ticks ≡ w.ticks))
          (get_all P (agent_from_json P.json) key w)
  unfolding get_all acl_hvals
  get_all-reads key agents w L ready answered rows =
      rw (ready, answered, L.hgetall_reads w.db key answered, rows) (ends _ _ (refl, refl))

  -- What `allocAgent` makes of a choice.
  abbrev pub allocated : Client → Option ErizoAgent → Bool × Client
  allocated c none = (true, c)
  allocated c (some a) = (false, record c { agent_id = a.id })

  -- Where the area of the client has a server, Redis answers, and no row of the area's agents throws,
  -- `allocAgent` returns 1 and leaves the client as it was if none of the agents in these rows is
  -- alive; otherwise it returns 0, and the client has the id of one that is alive, and no live agent
  -- of the rows has fewer processes.
  pub alloc_agent_lem :
      (c : Client) (w : World P) (area : String) (agents : List ErizoAgent)
      → RedisLaws P.redis
      → w.redis_ready ≡ true
      → find_server (to_int32 (area_code c.ip_info.area)) w.config.server_mapping ≡ some area
      → is_minus_one (P.redis.hgetall w.db (area_key area)).0 ≡ false
      → read_all
          (agent_from_json P.json)
          (map (λ (e : String × String). e.1) (P.redis.hash_at w.db (area_key area)))
        ≡ done agents
      → Ends
          (λ r _.
            (o : Option ErizoAgent) × IsChoice
              (P.system_ms w.ticks)
              (as_u64 w.config.erizo_agent_timeout)
              agents
              o
            × (r ≡ allocated c o))
          (alloc_agent P c w)
  unfolding alloc_agent get_all_erizo_agent get_system_ms
  alloc_agent_lem c w area agents L ready server answered rows =
      let now : ℕ = P.system_ms w.ticks in
      let timeout : ℕ = as_u64 w.config.erizo_agent_timeout in
      Ends-option (find_server (to_int32 (area_code c.ip_info.area)) w.config.server_mapping) _ _ w
        (λ e. absurd (cc (e, server)))
        λ area' e.
          let here : area' ≡ area = cc (e, server) in
          Ends-bind {R = λ r w'. (r ≡ some agents) × (w'.ticks ≡ w.ticks)}
            (get_all P (agent_from_json P.json) (area_key area')) _ w
            (rw here (get_all-reads (area_key area) agents w L ready answered rows))
            λ r w' (read, same).
              Ends-option r _ _ w' (λ n. absurd (cc (n, read)))
                λ agents' s.
                  let all : agents' ≡ agents = cc (s, read) in
                  let choice : IsChoice now timeout agents
                      (choose_agent (P.system_ms w'.ticks) timeout agents') =
                    rw (same, all) (choose_agent-IsChoice now timeout agents) in
                  Ends-option (choose_agent (P.system_ms w'.ticks) timeout agents') _ _
                    (record w' { ticks = w'.ticks + 1 })
                    (λ n. ends _ _ (none, subst (IsChoice now timeout agents) n choice, refl))
                    λ a h. ends _ _ (some a, subst (IsChoice now timeout agents) h choice, refl)
