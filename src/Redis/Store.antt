-- ===== src/Redis/Store.antt =====
-- The rows of redis/redis_helper.cpp: what was stored is what is read.
use erizo_controller.Base.{
  ◌≤◌, ◌<◌, pos, true, false, String, ◌++ₛ◌, ◌==◌, Option, some, ◌≡◌, refl, eq_refl, lookup,
}
use erizo_controller.Base.Int.{is_minus_one}
use erizo_controller.External.{Platform}
use erizo_controller.External.Json.{JsonLaws, max_uint}
use erizo_controller.External.Redis.{RedisLaws}
use erizo_controller.Model.Outcome.{Outcome, done}
use erizo_controller.Model.Publisher.{
  Publisher, publisher_value, publisher_to_json, publisher_from_json,
}
use erizo_controller.Model.RoundTrip.{publisher_round_trip}
use erizo_controller.Process.State.{World, ◌>>◌}
use erizo_controller.Redis.Acl.{acl_hset, acl_hget}
use erizo_controller.Redis.Helper.{put_field, get_field, add_publisher_row, get_publisher}

module _ (P : Platform) where
  -- The state after a row was put, when the server answered.
  abbrev pub after_put : World P → String → String → String → World P
  after_put w key field value = record w { db = (P.redis.hset w.db key field value).1 }

  pub put_field_ran :
      (key field value : String) (w : World P)
      → w.redis_ready ≡ true
      → is_minus_one (P.redis.hset w.db key field value).0 ≡ false
      → put_field P key field value w ≡ (done false, after_put w key field value)
  unfolding put_field acl_hset
  put_field_ran key field value w ready set = rw (ready, set)

  pub get_field_reads :
      {A : Type 0} (from_json : String → Outcome (Option A)) (key field value : String) (a : A)
      (w : World P)
      → RedisLaws P.redis
      → w.redis_ready ≡ true
      → (P.redis.hget w.db key field).0 ≡ pos 1
      → lookup field (P.redis.hash_at w.db key) ≡ some value
      → (value == "") ≡ false
      → from_json value ≡ done (some a)
      → get_field P from_json key field w
        ≡ (done (some a), record w { db = (P.redis.hget w.db key field).2 })
  unfolding get_field acl_hget
  get_field_reads from_json key field value a w L ready got stored filled decoded =
      rw (ready, got, L.hget_reads w.db key field value got stored, filled, decoded) refl

  pub publisher_text_full :
      JsonLaws P.json → (p : Publisher) → (publisher_to_json P.json p == "") ≡ false
  unfolding publisher_to_json
  publisher_text_full J p =
      J.write-full (publisher_value P.json p) (unfold publisher_value in J.kind-put _ _ _)

  abbrev pub stored : World P → String → Publisher → World P
  stored w room_id p = after_put w ("publisher_" ++ₛ room_id) p.id (publisher_to_json P.json p)

  -- A publisher that `addPublisher` stored, its port a 16-bit number and its SSRCs 32-bit numbers,
  -- is what `getPublisher` then reads in the room, where both commands of the server succeed.
  pub get-add_publisher :
      (room_id : String) (p : Publisher) (w : World P)
      → JsonLaws P.json
      → RedisLaws P.redis
      → p.bridge_port < 65536
      → p.video_ssrc ≤ max_uint
      → p.audio_ssrc ≤ max_uint
      → w.redis_ready ≡ true
      → is_minus_one
          (P.redis.hset w.db ("publisher_" ++ₛ room_id) p.id (publisher_to_json P.json p)).0
        ≡ false
      → (P.redis.hget (stored w room_id p).db ("publisher_" ++ₛ room_id) p.id).0 ≡ pos 1
      → ((add_publisher_row P room_id p >> get_publisher P room_id p.id) w).0 ≡ done (some p)
  unfolding add_publisher_row get_publisher
  get-add_publisher room_id p w J L port video audio ready set got =
      rw (put_field_ran ("publisher_" ++ₛ room_id) p.id (publisher_to_json P.json p) w ready set) (
        rw
          (get_field_reads (publisher_from_json P.json) ("publisher_" ++ₛ room_id) p.id
            (publisher_to_json P.json p) p (stored w room_id p) L ready got
            (rw
              (
                L.hset_stores w.db ("publisher_" ++ₛ room_id) p.id (publisher_to_json P.json p)
                    ("publisher_" ++ₛ room_id) p.id set,
                eq_refl ("publisher_" ++ₛ room_id),
                eq_refl p.id,
              )
              refl)
            (publisher_text_full J p) (publisher_round_trip P.json J p port video audio))
          refl)
