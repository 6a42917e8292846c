-- ===== src/Model/RoundTrip/Timed.antt =====
-- model/room.h, model/erizo_agent.h and `HEARTBEAT`: what `toJSON` writes, `fromJSON` reads back.
-- `last_update` is the one exception: below 2 ^ 31 the reader gives it another type, and the text is
-- rejected.
use erizo_controller.Base.{ℕ, ◌≤◌, ◌<◌, pos, true, false, none, some, ◌≡◌, arith, leb}
use erizo_controller.External.Json.{JsonCpp, JsonLaws, max_int, max_uint64, fits_int}
use erizo_controller.Model.Outcome.{done}
use erizo_controller.Model.Fields.{decode-write, decode-reject}
use erizo_controller.Model.Room.{
  Room, room_to_json, room_from_json, room_value, room_has_fields, read_room,
}
use erizo_controller.Model.ErizoAgent.{
  ErizoAgent, agent_to_json, agent_from_json, agent_value, agent_has_fields, read_agent,
}
use erizo_controller.Model.Heartbeat.{
  Heartbeat, heartbeat_to_json, heartbeat_from_json, heartbeat_value, heartbeat_has_fields,
  read_heartbeat,
}

module _ (J : JsonCpp) (L : JsonLaws J) where
  uint_kept : (n : ℕ) → max_int < n → J.reread (J.of_uint n) ≡ J.of_uint n
  uint_kept n h = let e : leb n max_int ≡ false = ground arith in rw (L.reread-uint n) (rw e)

  uint64_back : (n : ℕ) → n ≤ max_uint64 → J.as_uint64 (J.of_uint n) ≡ some n
  uint64_back n h = L.uint64-uint n (ground arith)

  uint_as_int : (n : ℕ) → n ≤ max_int → J.reread (J.of_uint n) ≡ J.of_int (pos n)
  uint_as_int n h = let e : leb n max_int ≡ true = ground arith in rw (L.reread-uint n) (rw e)

  module _ (r : Room) where
    room_value_fields : room_has_fields J (J.reread (room_value J r)) ≡ true
    unfolding room_has_fields room_value
    room_value_fields = simp (
      L.is_member-reread, L.member-reread, L.is_member-put, L.member-put, L.reread-string,
      L.kind-string,
    )

    read_room_value : read_room J (J.reread (room_value J r)) ≡ done r
    unfolding read_room room_value
    read_room_value = simp (L.member-reread, L.member-put, L.reread-string, L.string-string)

    -- A room that `toJSON` writes is what `fromJSON` reads.
    pub room_round_trip : room_from_json J (room_to_json J r) ≡ done (some r)
    unfolding room_from_json room_to_json
    room_round_trip =
        decode-write J _ _ (room_value J r) _ L (unfold room_value in L.kind-put _ _ _)
          room_value_fields read_room_value

  module _ (a : ErizoAgent) (h : max_int < a.last_update) (k : a.last_update ≤ max_uint64)
      (n : fits_int a.erizo_process_num ≡ true) where
    agent_value_fields : agent_has_fields J (J.reread (agent_value J a)) ≡ true
    unfolding agent_has_fields agent_value
    agent_value_fields = simp (
      L.is_member-reread,
      L.member-reread,
      L.is_member-put,
      L.member-put,
      L.reread-string,
      L.kind-string,
      uint_kept a.last_update h,
      L.kind-uint,
    )

    read_agent_value : read_agent J (J.reread (agent_value J a)) ≡ done a
    unfolding read_agent agent_value
    read_agent_value = simp (
      L.member-reread,
      L.member-put,
      L.reread-string,
      L.string-string,
      uint_kept a.last_update h,
      uint64_back a.last_update k,
      L.reread-int,
      L.int-int a.erizo_process_num n,
    )

    -- An agent that is written with a time above 2 ^ 31 - 1, which fits 64 bits, is read back whole.
    pub agent_round_trip : agent_from_json J (agent_to_json J a) ≡ done (some a)
    unfolding agent_from_json agent_to_json
    agent_round_trip =
        decode-write J _ _ (agent_value J a) _ L (unfold agent_value in L.kind-put _ _ _)
          agent_value_fields read_agent_value

  module _ (b : Heartbeat) (h : max_int < b.last_update) (k : b.last_update ≤ max_uint64) where
    heartbeat_value_fields : heartbeat_has_fields J (J.reread (heartbeat_value J b)) ≡ true
    unfolding heartbeat_has_fields heartbeat_value
    heartbeat_value_fields = simp (
      L.is_member-reread,
      L.member-reread,
      L.is_member-put,
      L.member-put,
      L.reread-string,
      L.kind-string,
      uint_kept b.last_update h,
      L.kind-uint,
    )

    read_heartbeat_value : read_heartbeat J (J.reread (heartbeat_value J b)) ≡ done b
    unfolding read_heartbeat heartbeat_value
    read_heartbeat_value = simp (
      L.member-reread,
      L.member-put,
      L.reread-string,
      L.string-string,
      uint_kept b.last_update h,
      uint64_back b.last_update k,
    )

    -- A heartbeat that `toJSON` writes with a time above 2 ^ 31 - 1, which fits 64 bits, is what
    -- `fromJSON` reads.
    pub heartbeat_round_trip : heartbeat_from_json J (heartbeat_to_json J b) ≡ done (some b)
    unfolding heartbeat_from_json heartbeat_to_json
    heartbeat_round_trip =
        decode-write J _ _ (heartbeat_value J b) _ L (unfold heartbeat_value in L.kind-put _ _ _)
          heartbeat_value_fields read_heartbeat_value

  -- A heartbeat that `toJSON` writes with a time of at most 2 ^ 31 - 1 is rejected by `fromJSON`:
  -- the reader makes an `int` of the time, and `fromJSON` wants an unsigned number.
  pub early_heartbeat_rejected :
      (b : Heartbeat)
      → b.last_update ≤ max_int
      → heartbeat_from_json J (heartbeat_to_json J b) ≡ done none
  unfolding heartbeat_from_json heartbeat_to_json
  early_heartbeat_rejected b h =
      decode-reject J _ _ (heartbeat_value J b) L (unfold heartbeat_value in L.kind-put _ _ _) (
        unfold heartbeat_has_fields heartbeat_value in
        simp (
          L.is_member-reread,
          L.member-reread,
          L.is_member-put,
          L.member-put,
          L.reread-string,
          L.kind-string,
          uint_as_int b.last_update h,
          L.kind-int,
        ))
