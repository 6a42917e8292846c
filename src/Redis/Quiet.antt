-- ===== src/Redis/Quiet.antt =====
-- Commands, typed operations and the lock touch the server alone: the queues stay as they are.
use erizo_controller.Base.{
  ℕ, zero, suc, Bool, true, false, String, Option, List, refl, if◌then◌else◌,
}
use erizo_controller.External.{Platform}
use erizo_controller.Model.Outcome.{Outcome, done}
use erizo_controller.Process.State.{World}
use erizo_controller.Process.Frame.{SameQueues, SameQueues-refl, IsQuiet, quiet_rules}
use erizo_controller.Process.Clock.{get_system_ms, call_rand, more_digits, get_stream_id}
use erizo_controller.Redis.Acl.{
  answer, acl_setnx, acl_get, acl_getset, acl_del, acl_hset, acl_hget, acl_hdel, acl_hdel_fields,
  acl_hvals,
}
use erizo_controller.Model.BridgeStream.{BridgeStream}
use erizo_controller.Model.Subscriber.{Subscriber}
use erizo_controller.Model.Publisher.{Publisher}
use erizo_controller.Redis.Helper.{
  get_publisher, get_all_bridge_stream, add_bridge_stream, remove_bridge_stream, add_subscriber_row,
  add_publisher_row, put_field, remove_field, remove_fields, get_field, get_all,
}
use erizo_controller.Redis.Locker.{
  Locker, take_empty, take_expired, contend, try_lock, unlock, lock_loop, lock,
}

module _ (P : Platform) where
  -- The two branches of every command.
  command-quiet :
      {A : Type 0} (b : Bool) (w : World P) (a c : A) (db : P.redis.Db)
      → SameQueues w (if b then answer P w a db else (done c, w)).1
  command-quiet true w a c db = record {
    config = refl;
    id = refl;
    reply_to = refl;
    redis_ready = refl;
    sent = refl;
    events = refl;
    tasks = refl;
  }
  command-quiet false w a c db = SameQueues-refl w

  pub setnx-IsQuiet : (k v : String) → IsQuiet (acl_setnx P k v)
  unfolding acl_setnx
  setnx-IsQuiet k v = record { at = λ w. command-quiet w.redis_ready w _ _ _ }

  pub get-IsQuiet : (k v : String) → IsQuiet (acl_get P k v)
  unfolding acl_get
  get-IsQuiet k v = record { at = λ w. command-quiet w.redis_ready w _ _ _ }

  pub getset-IsQuiet : (k v o : String) → IsQuiet (acl_getset P k v o)
  unfolding acl_getset
  getset-IsQuiet k v o = record { at = λ w. command-quiet w.redis_ready w _ _ _ }

  pub del-IsQuiet : (k : String) → IsQuiet (acl_del P k)
  unfolding acl_del
  del-IsQuiet k = record { at = λ w. command-quiet w.redis_ready w _ _ _ }

  pub hset-IsQuiet : (k f v : String) → IsQuiet (acl_hset P k f v)
  unfolding acl_hset
  hset-IsQuiet k f v = record { at = λ w. command-quiet w.redis_ready w _ _ _ }

  pub hget-IsQuiet : (k f v : String) → IsQuiet (acl_hget P k f v)
  unfolding acl_hget
  hget-IsQuiet k f v = record { at = λ w. command-quiet w.redis_ready w _ _ _ }

  pub hdel-IsQuiet : (k f : String) → IsQuiet (acl_hdel P k f)
  unfolding acl_hdel
  hdel-IsQuiet k f = record { at = λ w. command-quiet w.redis_ready w _ _ _ }

  pub hdel_fields-IsQuiet : (k : String) (fs : List String) → IsQuiet (acl_hdel_fields P k fs)
  unfolding acl_hdel_fields
  hdel_fields-IsQuiet k fs = record { at = λ w. command-quiet w.redis_ready w _ _ _ }

  pub hvals-IsQuiet : (k : String) → IsQuiet (acl_hvals P k)
  unfolding acl_hvals
  hvals-IsQuiet k = record { at = λ w. command-quiet w.redis_ready w _ _ _ }

  pub put_field-IsQuiet : (k f v : String) → IsQuiet (put_field P k f v)
  unfolding put_field
  put_field-IsQuiet k f v = search (quiet_rules, hset-IsQuiet)

  pub remove_field-IsQuiet : (k f : String) → IsQuiet (remove_field P k f)
  unfolding remove_field
  remove_field-IsQuiet k f = search (quiet_rules, hdel-IsQuiet)

  pub remove_fields-IsQuiet : (k : String) (fs : List String) → IsQuiet (remove_fields P k fs)
  unfolding remove_fields
  remove_fields-IsQuiet k fs = search (quiet_rules, hdel_fields-IsQuiet)

  pub get_field-IsQuiet :
      {A : Type 0} (from_json : String → Outcome (Option A)) (k f : String)
      → IsQuiet (get_field P from_json k f)
  unfolding get_field
  get_field-IsQuiet from_json k f = search (quiet_rules, hget-IsQuiet)

  pub get_all-IsQuiet :
      {A : Type 0} (from_json : String → Outcome (Option A)) (k : String)
      → IsQuiet (get_all P from_json k)
  unfolding get_all
  get_all-IsQuiet from_json k = search (quiet_rules, hvals-IsQuiet)

  pub get_system_ms-IsQuiet : IsQuiet (get_system_ms P)
  unfolding get_system_ms
  get_system_ms-IsQuiet = record {
    at = λ w. record {
      config = refl;
      id = refl;
      reply_to = refl;
      redis_ready = refl;
      sent = refl;
      events = refl;
      tasks = refl;
    };
  }

  call_rand-IsQuiet : IsQuiet (call_rand P)
  unfolding call_rand
  call_rand-IsQuiet = record {
    at = λ w. record {
      config = refl;
      id = refl;
      reply_to = refl;
      redis_ready = refl;
      sent = refl;
      events = refl;
      tasks = refl;
    };
  }

  more_digits-IsQuiet : (n : ℕ) (t : String) → IsQuiet (more_digits P n t)
  unfolding more_digits
  more_digits-IsQuiet zero t = search quiet_rules
  more_digits-IsQuiet (suc n) t = search (quiet_rules, call_rand-IsQuiet, more_digits-IsQuiet n)

  pub get_stream_id-IsQuiet : IsQuiet (get_stream_id P)
  unfolding get_stream_id
  get_stream_id-IsQuiet = search (quiet_rules, call_rand-IsQuiet, more_digits-IsQuiet)

  take_empty-IsQuiet : (k : String) (now : ℕ) (l : Locker) → IsQuiet (take_empty P k now l)
  unfolding take_empty
  take_empty-IsQuiet k now l = search (quiet_rules, getset-IsQuiet)

  take_expired-IsQuiet :
      (k : String) (now t : ℕ) (old : String) (l : Locker) → IsQuiet (take_expired P k now t old l)
  unfolding take_expired
  take_expired-IsQuiet k now t old l = search (quiet_rules, getset-IsQuiet)

  contend-IsQuiet : (k : String) (now : ℕ) (l : Locker) → IsQuiet (contend P k now l)
  unfolding contend
  contend-IsQuiet k now l =
      search (quiet_rules, get-IsQuiet, take_empty-IsQuiet, take_expired-IsQuiet) depth 10

  pub try_lock-IsQuiet : (k : String) (l : Locker) → IsQuiet (try_lock P k l)
  unfolding try_lock
  try_lock-IsQuiet k l = search (quiet_rules, get_system_ms-IsQuiet, setnx-IsQuiet, contend-IsQuiet)

  pub unlock-IsQuiet : (l : Locker) → IsQuiet (unlock P l)
  unfolding unlock
  unlock-IsQuiet l = search (quiet_rules, del-IsQuiet)

  lock_loop-IsQuiet : (n : ℕ) (k : String) (l : Locker) → IsQuiet (lock_loop P n k l)
  unfolding lock_loop
  lock_loop-IsQuiet zero k l = try_lock-IsQuiet k l
  lock_loop-IsQuiet (suc n) k l = search (quiet_rules, try_lock-IsQuiet, lock_loop-IsQuiet n)

  pub lock-IsQuiet : (k : String) (l : Locker) → IsQuiet (lock P k l)
  unfolding lock
  lock-IsQuiet k l = search (quiet_rules, lock_loop-IsQuiet)

module _ (P : Platform) where
  pub get_publisher-IsQuiet : (room_id id : String) → IsQuiet (get_publisher P room_id id)
  unfolding get_publisher
  get_publisher-IsQuiet room_id id = get_field-IsQuiet P _ _ _

  pub get_all_bridge_stream-IsQuiet : (room_id : String) → IsQuiet (get_all_bridge_stream P room_id)
  unfolding get_all_bridge_stream
  get_all_bridge_stream-IsQuiet room_id = get_all-IsQuiet P _ _

  pub add_bridge_stream-IsQuiet :
      (room_id : String) (b : BridgeStream) → IsQuiet (add_bridge_stream P room_id b)
  unfolding add_bridge_stream
  add_bridge_stream-IsQuiet room_id b = put_field-IsQuiet P _ _ _

  pub remove_bridge_stream-IsQuiet :
      (room_id id : String) → IsQuiet (remove_bridge_stream P room_id id)
  unfolding remove_bridge_stream
  remove_bridge_stream-IsQuiet room_id id = remove_field-IsQuiet P _ _

  pub add_subscriber_row-IsQuiet :
      (room_id : String) (s : Subscriber) → IsQuiet (add_subscriber_row P room_id s)
  unfolding add_subscriber_row
  add_subscriber_row-IsQuiet room_id s = put_field-IsQuiet P _ _ _

  pub add_publisher_row-IsQuiet :
      (room_id : String) (p : Publisher) → IsQuiet (add_publisher_row P room_id p)
  unfolding add_publisher_row
  add_publisher_row-IsQuiet room_id p = put_field-IsQuiet P _ _ _
