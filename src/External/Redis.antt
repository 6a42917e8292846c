-- ===== src/External/Redis.antt =====
-- The Redis cluster behind `acl::redis_client_cluster`: a state that only its commands touch, and
-- the commands as the program calls them. A number is the call's `int` result; a text that the
-- call fills in stands beside it, and is empty where the server has none. Any call may fail.
use erizo_controller.Base.{
  ℤ, pos, true, false, String, Option, none, some, List, ◌≡◌, ◌⊎◌, ◌==◌, if◌then◌else◌,
}
use erizo_controller.Base.Int.{is_minus_one}
use erizo_controller.Base.Lists.{lookup, contains}
use erizo_controller.Base.Members.{Among}

pub record RedisServer : Type 1 where
  pub Db : Type 0
  -- strings: key, value
  pub setnx : Db → String → String → ℤ × Db
  pub set : Db → String → String → ℤ × Db
  pub get : Db → String → ℤ × String × Db
  pub getset : Db → String → String → ℤ × String × Db
  pub del_one : Db → String → ℤ × Db
  -- hashes: key, field, value
  pub hset : Db → String → String → String → ℤ × Db
  pub hget : Db → String → String → ℤ × String × Db
  pub hdel : Db → String → String → ℤ × Db
  pub hdel_fields : Db → String → List String → ℤ × Db
  -- the fields and values of a hash, in the order of the `std::map` that is filled
  pub hgetall : Db → String → ℤ × List (String × String) × Db
  -- what the server holds: a text under a key, and the fields of a hash
  pub text_at : Db → String → Option String
  pub hash_at : Db → String → List (String × String)

-- What Redis documents, for calls that succeed. `HSET`, `HDEL` and `HGETALL` succeed unless they answer
-- -1, `HGET` fills in nothing where there is no field, `SETNX` answers 1 where it wrote and 0 where the key was held, `GET`, `GETSET` and `HGET` answer 1.
pub record RedisLaws (R : RedisServer) : Type 0 where
  pub hset_stores :
      (db : R.Db) (key field value key' field' : String)
      → is_minus_one (R.hset db key field value).0 ≡ false
      → lookup field' (R.hash_at (R.hset db key field value).1 key') ≡ (
          if key == key'
          then (if field == field' then some value else lookup field' (R.hash_at db key'))
          else lookup field' (R.hash_at db key'))
  pub hdel_removes :
      (db : R.Db) (key field key' field' : String)
      → is_minus_one (R.hdel db key field).0 ≡ false
      → lookup field' (R.hash_at (R.hdel db key field).1 key') ≡ (
          if key == key'
          then (if field == field' then none else lookup field' (R.hash_at db key'))
          else lookup field' (R.hash_at db key'))
  pub hdel_fields_removes :
      (db : R.Db) (key : String) (fields : List String) (key' field' : String)
      → is_minus_one (R.hdel_fields db key fields).0 ≡ false
      → lookup field' (R.hash_at (R.hdel_fields db key fields).1 key') ≡ (
          if key == key'
          then (if contains field' fields then none else lookup field' (R.hash_at db key'))
          else lookup field' (R.hash_at db key'))
  pub hget_misses :
      (db : R.Db) (key field : String)
      → lookup field (R.hash_at db key) ≡ none
      → (R.hget db key field).1 ≡ ""
  pub hget_reads :
      (db : R.Db) (key field value : String)
      → (R.hget db key field).0 ≡ pos 1
      → lookup field (R.hash_at db key) ≡ some value
      → (R.hget db key field).1 ≡ value
  pub setnx_writes :
      (db : R.Db) (key value : String)
      → (R.setnx db key value).0 ≡ pos 1
      → (R.text_at db key ≡ none) × (R.text_at (R.setnx db key value).1 key ≡ some value)
  pub setnx_held :
      (db : R.Db) (key value held : String)
      → R.text_at db key ≡ some held
      → (is_minus_one (R.setnx db key value).0 ≡ true)
        ⊎ (((R.setnx db key value).0 ≡ pos 0)
            × (R.text_at (R.setnx db key value).1 key ≡ some held))
  pub setnx_free :
      (db : R.Db) (key value : String)
      → R.text_at db key ≡ none
      → (is_minus_one (R.setnx db key value).0 ≡ true) ⊎ ((R.setnx db key value).0 ≡ pos 1)
  pub del_removes :
      (db : R.Db) (key : String)
      → is_minus_one (R.del_one db key).0 ≡ false
      → R.text_at (R.del_one db key).1 key ≡ none
  pub get_reads :
      (db : R.Db) (key held : String)
      → (R.get db key).0 ≡ pos 1
      → R.text_at db key ≡ some held
      → ((R.get db key).1 ≡ held) × (R.text_at (R.get db key).2 key ≡ some held)
  pub hgetall_reads :
      (db : R.Db) (key : String)
      → is_minus_one (R.hgetall db key).0 ≡ false
      → (R.hgetall db key).1 ≡ R.hash_at db key
  -- a hash has a field once
  pub hash_once :
      (db : R.Db) (key field value : String)
      → Among (field, value) (R.hash_at db key)
      → lookup field (R.hash_at db key) ≡ some value
  pub getset_swaps :
      (db : R.Db) (key value : String)
      → (R.getset db key value).0 ≡ pos 1
      → (R.text_at (R.getset db key value).2 key ≡ some value)
        × ((held : String) → R.text_at db key ≡ some held → (R.getset db key value).1 ≡ held)

-- The server answers every command on the key.
pub record Answers (R : RedisServer) (key : String) : Type 0 where
  pub setnx : (db : R.Db) (value : String) → is_minus_one (R.setnx db key value).0 ≡ false
  pub get : (db : R.Db) → (R.get db key).0 ≡ pos 1
  pub getset : (db : R.Db) (value : String) → (R.getset db key value).0 ≡ pos 1

-- The server answers every command on the hash.
pub record HashAnswers (R : RedisServer) (key : String) : Type 0 where
  pub hgetall : (db : R.Db) → is_minus_one (R.hgetall db key).0 ≡ false
  pub hset : (db : R.Db) (field value : String) → is_minus_one (R.hset db key field value).0 ≡ false
  pub hget : (db : R.Db) (field : String) → (R.hget db key field).0 ≡ pos 1
  pub hdel : (db : R.Db) (field : String) → is_minus_one (R.hdel db key field).0 ≡ false
  pub hdel_fields :
      (db : R.Db) (fields : List String) → is_minus_one (R.hdel_fields db key fields).0 ≡ false
