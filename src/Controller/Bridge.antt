-- ===== src/Controller/Bridge.antt =====
-- core/erizo_controller.cpp: the bridges that carry a stream from the agent of its publisher to the
-- agent of its subscribers, and their counts.
use erizo_controller.Base.{
  Bool, true, false, ◌&&◌, String, none, some, ◌==◌, find_if, if◌then◌else◌,
}
use erizo_controller.Base.Int.{is_nonpos, pred}
use erizo_controller.External.{Platform}
use erizo_controller.Model.BridgeStream.{BridgeStream}
use erizo_controller.Process.State.{Exec, pure, ◌>>=◌, ◌>>◌}
use erizo_controller.Redis.Helper.{get_all_bridge_stream, add_bridge_stream, remove_bridge_stream}
use erizo_controller.Controller.Message.{remove_virtual_publisher, remove_virtual_subscriber}

-- The bridge that brings a stream to an agent, the test of `find_if`.
abbrev pub brings : String → String → BridgeStream → Bool
brings stream_id erizo_id b = b.src_stream_id == stream_id && b.recver_erizo_id == erizo_id

-- The bridge that takes a stream away from an agent.
abbrev pub takes : String → String → BridgeStream → Bool
takes stream_id erizo_id b = b.src_stream_id == stream_id && b.sender_erizo_id == erizo_id

module _ (P : Platform) where
  -- Both halves of a bridge are taken down, and its row is removed.
  unfoldable pub tear_down : String → BridgeStream → Exec P Bool
  tear_down room_id b = do
    remove_virtual_subscriber P b
    remove_virtual_publisher P b
    remove_bridge_stream P room_id b.id

  -- One subscriber less on a bridge: `subscribe_count--`.
  unfoldable pub release_bridge : String → BridgeStream → Exec P Bool
  release_bridge room_id b =
      let b' = record b { subscribe_count = pred b.subscribe_count } in
      if is_nonpos b'.subscribe_count then tear_down room_id b' else add_bridge_stream P room_id b'

  -- `removeBridgeStreamSub`; `true` is its return value 1.
  unfoldable pub remove_bridge_stream_sub : String → String → String → Exec P Bool
  remove_bridge_stream_sub room_id subscribe_to erizo_id = do
    rows ← get_all_bridge_stream P room_id
    elim rows [
      | none ↦ pure true
      | some bridges ↦ elim (find_if (brings subscribe_to erizo_id) bridges) [
        | none ↦ pure false
        | some b ↦ release_bridge room_id b
      ]
    ]

  -- `removeBridgeStreamPub`
  unfoldable pub remove_bridge_stream_pub : String → String → String → Exec P Bool
  remove_bridge_stream_pub room_id stream_id erizo_id = do
    rows ← get_all_bridge_stream P room_id
    elim rows [
      | none ↦ pure true
      | some bridges ↦ elim (find_if (takes stream_id erizo_id) bridges) [
        | none ↦ pure false
        | some b ↦ tear_down room_id b
      ]
    ]
