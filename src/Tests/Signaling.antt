-- ===== src/Tests/Signaling.antt =====
-- The task of a signaling message at a concrete message.
use erizo_controller.Controller.Signaling.{run_signaling, run_subscribe}
use erizo_controller.Controller.Signaling.Addressed.{TellsNamed, run_signaling_lem}
use erizo_controller.Demo.Tree.{Tree, str, null, field}
use erizo_controller.Demo.Codec.{write}
use erizo_controller.Demo.World.{demo, start, alice, bob, camera}
use erizo_controller.Base.{◌≡◌}
use erizo_controller.Process.State.{World}
use erizo_controller.Process.Ends.{Leaves}
use erizo_controller.Redis.Helper.{add_publisher_row, add_client}
use erizo_controller.Controller.Signaling.Notified.{Announced, run_subscribe_lem}

-- An agent has started a process for a stream of a client.
abbrev started_message : Tree
started_message =
    field "data"
      (field "type" (str "started") (
        field "clientId" (str "cli_alice") (
          field "agentId" (str "agent_1")
            (field "erizoId" (str "erizo_1") (field "streamId" (str "cam") null)))))
      null

run_signaling_example :
    TellsNamed demo
      (write started_message)
      start
      (run_signaling demo (write started_message) start).1
run_signaling_example = run_signaling_lem demo (write started_message) start

-- The camera of alice and both clients are in the room.
abbrev full_room : World demo
full_room =
    (add_client demo "room" bob
      (add_client demo "room" alice (add_publisher_row demo "room" camera start).1).1).1

run_subscribe_example :
    Leaves
      (λ _. Announced demo "room" "cli_alice" "cam" full_room)
      (λ w'. w'.sent ≡ full_room.sent)
      (run_subscribe demo "room" "cli_alice" "cam" full_room)
run_subscribe_example = run_subscribe_lem demo "room" "cli_alice" "cam" full_room
