-- ===== src/Controller/Start/Addressed.antt =====
-- core/erizo_controller.cpp: what a controller that has started is reached by.
use Prim.Native.String.{len}
use text.Mathlib.TextPositions.{len-append}
use erizo_controller.Base.{
  ℕ, ◌+◌, Bool, true, false, ◌&&◌, String, ◌==◌, ◌++ₛ◌, some, ◌≡◌, refl, ap, ◌⊎◌, inl, inr,
  Bool-cases, eq_iff, arith,
}
use mathlib.Core.Option.{map}
use erizo_controller.External.Json.{JsonCpp}
use erizo_controller.Config.{Config}
use erizo_controller.Amqp.Client.{Broker, new_cli}
use erizo_controller.Amqp.Client.Connected.{broker_ready, cli_init_lem}
use erizo_controller.Amqp.Receiver.{AmqpRecv, recv_init}
use erizo_controller.Amqp.Sender.{AmqpRpc, rpc_init}
use erizo_controller.Controller.Start.{ErizoController, start_signaling, controller_init}

append-full : (s t : String) (k : ℕ) → len s + len t ≡ k + 1 → ((s ++ₛ t) == "") ≡ false
append-full s t k h = elim (Bool-cases ((s ++ₛ t) == "")) [
  | inl e ↦ absurd (omega (arith, len-append s t, ap len ((eq_iff (s ++ₛ t) "").0 e), h))
  | inr e ↦ e
]

id-full : (uuid : String) → (("ec_" ++ₛ uuid) == "") ≡ false
id-full uuid = append-full "ec_" uuid (2 + len uuid) (omega arith)

key-full : (id : String) → ((id ++ₛ "_rpc") == "") ≡ false
key-full id = append-full id "_rpc" (len id + 3) (omega arith)

module _ (J : JsonCpp) (rpc_broker signaling_broker : Broker) (config : Config)
    (uuid : String) where
  -- Every call of librabbitmq succeeds on the two connections.
  unfoldable pub brokers_ready : Bool
  brokers_ready =
      broker_ready rpc_broker config config.uniquecast_exchange "direct"
        (("ec_" ++ₛ uuid) ++ₛ "_rpc")
      && broker_ready signaling_broker config config.uniquecast_exchange "direct" ("ec_" ++ₛ uuid)

  abbrev started : ErizoController J → Bool × ErizoController J
  started = controller_init J rpc_broker signaling_broker config uuid

  -- Where the controller was not started before, there are two cases: each call of librabbitmq
  -- succeeds, and `init` returns 0 and leaves a controller that is initialised, that beats under its
  -- id, whose signaling listens to this id and whose answers come to the id with "_rpc"; or one of
  -- them fails, and `init` returns 1 and leaves the controller not initialised.
  pub controller_init_lem :
      (c : ErizoController J)
      → c.initialized ≡ false
      → ((brokers_ready ≡ true)
          × ((started c).0 ≡ false)
          × ((started c).1.initialized ≡ true)
          × ((started c).1.heartbeat.id ≡ (started c).1.id)
          × (map (λ (r : AmqpRecv). r.reply_to) (started c).1.amqp_signaling
              ≡ some (started c).1.id)
          × (map (λ (r : AmqpRpc J). r.slots.reply_to) (started c).1.amqp
              ≡ some ((started c).1.id ++ₛ "_rpc")))
        ⊎ ((brokers_ready ≡ false) × ((started c).0 ≡ true) × ((started c).1.initialized ≡ false))
  unfolding controller_init start_signaling rpc_init recv_init brokers_ready
  controller_init_lem c h =
      elim (cli_init_lem rpc_broker config config.uniquecast_exchange "direct"
        (("ec_" ++ₛ uuid) ++ₛ "_rpc") new_cli refl (key-full _)) [
          | inr (f, r, _) ↦ rw (h, f, r) (inr (refl, refl, refl))
          | inl (t, r, _, a) ↦
              elim (cli_init_lem signaling_broker config config.uniquecast_exchange "direct"
                ("ec_" ++ₛ uuid) new_cli refl (id-full uuid)) [
                  | inr (f, r', _) ↦ rw (h, t, r, f, r') (inr (refl, refl, refl))
                  | inl (t', r', _, a') ↦
                      rw (h, t, r, t', r') (inl (refl, refl, refl, refl, ap some a', ap some a))
                ]
        ]
