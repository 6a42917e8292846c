-- ===== src/Model/RoundTrip.antt =====
-- model/client.h, publisher.h, subscriber.h and bridge_stream.h: what `toJSON` writes, `fromJSON`
-- reads back.
pub mod Timed
pub mod Rows
use erizo_controller.Base.{
  ℕ, ◌≤◌, ◌<◌, ◌%◌, pos, true, false, none, some, ◌≡◌, arith, leb, Bool-cases, inl, inr,
}
use erizo_controller.External.Json.{JsonCpp, JsonLaws, max_int, max_uint, max_uint64, fits_int}
use erizo_controller.Route.Enums.{unknown_value}
use erizo_controller.Model.Outcome.{done}
use erizo_controller.Model.Fields.{decode-write}
use erizo_controller.Model.Publisher.{
  Publisher, publisher_to_json, publisher_from_json, publisher_value, publisher_has_fields,
  read_publisher,
}
use erizo_controller.Model.Subscriber.{
  Subscriber, subscriber_to_json, subscriber_from_json, subscriber_value, subscriber_has_fields,
  read_subscriber,
}
use erizo_controller.Model.BridgeStream.{
  BridgeStream, bridge_stream_to_json, bridge_stream_from_json, bridge_stream_value,
  bridge_stream_has_fields, read_bridge_stream,
}
use erizo_controller.Model.Client.{
  Client, client_to_json, client_from_json, client_value, client_has_fields, read_client,
}

module _ (J : JsonCpp) (L : JsonLaws J) where
  -- A port fits the `int` that it is written as.
  port_back : (n : ℕ) → n < 65536 → J.as_int (J.of_int (pos n)) ≡ some (pos n)
  port_back n h = L.int-int (pos n) (ground arith)

  port_mod : (n : ℕ) → n < 65536 → n % 65536 ≡ n
  port_mod n h = omega arith

  -- An unsigned 32-bit number is read as itself, whichever type the reader gives it.
  uint_back : (n : ℕ) → n ≤ max_uint → J.as_uint (J.reread (J.of_uint n)) ≡ some n
  uint_back n h = elim (Bool-cases (leb n max_int)) [
    | inl e ↦ rw (L.reread-uint n) (rw e (L.uint-int n e))
    | inr e ↦ rw (L.reread-uint n) (rw e (L.uint-uint n (ground arith)))
  ]

  module _ (c : Client) (h : c.bridge_port < 65536) (k : c.port < 65536) where
    client_value_fields : client_has_fields J (J.reread (client_value J c)) ≡ true
    unfolding client_has_fields client_value
    client_value_fields = simp (
      L.is_member-reread, L.member-reread, L.is_member-put, L.member-put, L.reread-string,
      L.reread-int, L.kind-string, L.kind-int,
    )

    read_client_value :
        read_client J (J.reread (client_value J c)) ≡ done (record c { ip_info = unknown_value })
    unfolding read_client client_value
    read_client_value = simp (
      L.member-reread,
      L.member-put,
      L.reread-string,
      L.reread-int,
      L.string-string,
      port_back c.bridge_port h,
      port_back c.port k,
      port_mod c.bridge_port h,
      port_mod c.port k,
    )

    -- A client that `toJSON` writes, with both ports 16-bit numbers, is what `fromJSON` reads, but
    -- for `ip_info`, which is lost: it comes back as unknown.
    pub client_round_trip :
        client_from_json J (client_to_json J c) ≡ done (some (record c { ip_info = unknown_value }))
    unfolding client_from_json client_to_json
    client_round_trip =
        decode-write J _ _ (client_value J c) _ L (unfold client_value in L.kind-put _ _ _)
          client_value_fields read_client_value

  module _ (p : Publisher) (h : p.bridge_port < 65536) (v : p.video_ssrc ≤ max_uint)
      (a : p.audio_ssrc ≤ max_uint) where
    publisher_value_fields : publisher_has_fields J (J.reread (publisher_value J p)) ≡ true
    unfolding publisher_has_fields publisher_value
    publisher_value_fields = simp (
      L.is_member-reread, L.member-reread, L.is_member-put, L.member-put, L.reread-string,
      L.kind-string, L.reread-int, L.kind-int,
    )

    read_publisher_value : read_publisher J (J.reread (publisher_value J p)) ≡ done p
    unfolding read_publisher publisher_value
    read_publisher_value = simp (
      L.member-reread,
      L.member-put,
      L.reread-string,
      L.string-string,
      L.reread-int,
      port_back p.bridge_port h,
      port_mod p.bridge_port h,
      uint_back p.video_ssrc v,
      uint_back p.audio_ssrc a,
    )

    -- A publisher that `toJSON` writes, its port a 16-bit number and its SSRCs 32-bit numbers, is
    -- what `fromJSON` reads, whichever type the reader gives the SSRCs.
    pub publisher_round_trip : publisher_from_json J (publisher_to_json J p) ≡ done (some p)
    unfolding publisher_from_json publisher_to_json
    publisher_round_trip =
        decode-write J _ _ (publisher_value J p) _ L (unfold publisher_value in L.kind-put _ _ _)
          publisher_value_fields read_publisher_value

  module _ (s : Subscriber) where
    subscriber_value_fields : subscriber_has_fields J (J.reread (subscriber_value J s)) ≡ true
    unfolding subscriber_has_fields subscriber_value
    subscriber_value_fields = simp (
      L.is_member-reread, L.member-reread, L.is_member-put, L.member-put, L.reread-string,
      L.kind-string, L.reread-bool, L.kind-bool,
    )

    read_subscriber_value : read_subscriber J (J.reread (subscriber_value J s)) ≡ done s
    unfolding read_subscriber subscriber_value
    read_subscriber_value = simp (
      L.member-reread, L.member-put, L.reread-string, L.string-string, L.reread-bool, L.bool-bool,
    )

    -- A subscriber that `toJSON` writes is what `fromJSON` reads.
    pub subscriber_round_trip : subscriber_from_json J (subscriber_to_json J s) ≡ done (some s)
    unfolding subscriber_from_json subscriber_to_json
    subscriber_round_trip =
        decode-write J _ _ (subscriber_value J s) _ L (unfold subscriber_value in L.kind-put _ _ _)
          subscriber_value_fields read_subscriber_value

  module _ (b : BridgeStream) (h : b.sender_port < 65536) (k : b.recver_port < 65536)
      (n : fits_int b.subscribe_count ≡ true) where
    bridge_stream_value_fields :
        bridge_stream_has_fields J (J.reread (bridge_stream_value J b)) ≡ true
    unfolding bridge_stream_has_fields bridge_stream_value
    bridge_stream_value_fields = simp (
      L.is_member-reread, L.member-reread, L.is_member-put, L.member-put, L.reread-string,
      L.kind-string, L.reread-int, L.kind-int,
    )

    read_bridge_stream_value : read_bridge_stream J (J.reread (bridge_stream_value J b)) ≡ done b
    unfolding read_bridge_stream bridge_stream_value
    read_bridge_stream_value = simp (
      L.member-reread,
      L.member-put,
      L.reread-string,
      L.string-string,
      L.reread-int,
      port_back b.sender_port h,
      port_mod b.sender_port h,
      port_back b.recver_port k,
      port_mod b.recver_port k,
      L.int-int b.subscribe_count n,
    )

    -- A bridge stream that `toJSON` writes, its ports 16-bit numbers and its count an `int`, is what
    -- `fromJSON` reads.
    pub bridge_stream_round_trip :
        bridge_stream_from_json J (bridge_stream_to_json J b) ≡ done (some b)
    unfolding bridge_stream_from_json bridge_stream_to_json
    bridge_stream_round_trip =
        decode-write J _ _ (bridge_stream_value J b) _ L
          (unfold bridge_stream_value in L.kind-put _ _ _) bridge_stream_value_fields
          read_bridge_stream_value
