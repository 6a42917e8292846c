-- ===== src/Demo/Server.antt =====
-- The Redis server of the examples, which never fails, and that it meets `RedisLaws`.
use erizo_controller.Base.{
  ℤ, pos, String, ◌==◌, Option, none, some, List, [], ◌∷◌, ◌≡◌, refl, inr, arith, eq_iff, eq_refl,
  lookup, contains, Bool-cases, false, inl, ap, if◌then◌else◌,
}
use erizo_controller.Base.Members.{Among, among_head, among_next, Among-cons}
use erizo_controller.External.Redis.{RedisServer, RedisLaws}

-- Strings, and the rows of all hashes: key, field, value.
pub record Db : Type 0 where
  pub texts : List (String × String)
  pub rows : List (String × List (String × String))

abbrev pub empty_db : Db
empty_db = record { texts = []; rows = [] }

-- The newest entry of a key counts; a removed text is empty and is passed over by `text_of`.
abbrev or_empty : Option (List (String × String)) → List (String × String)
or_empty none = []
or_empty (some h) = h

unfoldable pub without : String → List (String × String) → List (String × String)
without k [] = []
without k ((j, v) ∷ m) = let rest = without k m in if j == k then rest else (j, v) ∷ rest

-- The first entry of each field.
unfoldable pub once : List (String × String) → List (String × String)
once [] = []
once ((j, v) ∷ m) = (j, v) ∷ without j (once m)

abbrev hash_of : Db → String → List (String × String)
hash_of db key = once (or_empty (lookup key db.rows))

unfoldable pub without_all : List String → List (String × String) → List (String × String)
without_all [] m = m
without_all (k ∷ ks) m = without_all ks (without k m)

abbrev with_hash : Db → String → List (String × String) → Db
with_hash db key h = record db { rows = (key, h) ∷ db.rows }

abbrev or_blank : Option String → String
or_blank none = ""
or_blank (some v) = v

abbrev held : Option String → ℤ
held none = pos 1
held (some v) = pos 0

abbrev pub demo_redis : RedisServer
demo_redis = record {
  Db = Db;
  setnx = λ db k v. (
    held (lookup k db.texts),
    elim (lookup k db.texts) [ none ↦ record db { texts = (k, v) ∷ db.texts } | some u ↦ db ],
  );
  set = λ db k v. (pos 1, record db { texts = (k, v) ∷ db.texts });
  get = λ db k. (pos 1, or_blank (lookup k db.texts), db);
  getset = λ db k v. (pos 1, or_blank (lookup k db.texts), record db { texts = (k, v) ∷ db.texts });
  del_one = λ db k. (pos 1, record db { texts = without k db.texts });
  hset = λ db k f v. (pos 1, with_hash db k ((f, v) ∷ without f (hash_of db k)));
  hget = λ db k f. (pos 1, or_blank (lookup f (hash_of db k)), db);
  hdel = λ db k f. (pos 1, with_hash db k (without f (hash_of db k)));
  hdel_fields = λ db k fs. (pos 1, with_hash db k (without_all fs (hash_of db k)));
  hgetall = λ db k. (pos 1, hash_of db k, db);
  text_at = λ db k. lookup k db.texts;
  hash_at = λ db k. hash_of db k;
}

lookup-without :
    (k j : String) (m : List (String × String))
    → lookup j (without k m) ≡ (if k == j then none else lookup j m)
unfolding lookup without
lookup-without k j [] = ground arith
lookup-without k j ((i, v) ∷ m) =
    ground (arith, lookup-without k j m, eq_iff i k, eq_iff i j, eq_iff k j)

lookup-once : (j : String) (m : List (String × String)) → lookup j (once m) ≡ lookup j m
unfolding lookup once
lookup-once j [] = refl
lookup-once j ((i, v) ∷ m) = ground (arith, lookup-without i j (once m), lookup-once j m)

Among-without :
    (f v k : String) (m : List (String × String))
    → Among (f, v) (without k m)
    → Among (f, v) m × ((k == f) ≡ false)
unfolding without
Among-without f v k [] a = elim a [ ]
Among-without f v k ((i, u) ∷ m) a = elim (Bool-cases (i == k)) [
  | inl e ↦ let (b, n) = Among-without f v k m (rw e at a) in (among_next (i, u) m b, n)
  | inr e ↦ elim (Among-cons (rw e at a)) [
    | inl same ↦ (
      among_head (i, u) m same,
      ground (arith, eq_iff i k, eq_iff k f, ap (λ (x : String × String). x.0) same),
    )
    | inr b ↦ let (c, n) = Among-without f v k m b in (among_next (i, u) m c, n)
  ]
]

once-Among :
    (f v : String) (m : List (String × String)) → Among (f, v) (once m) → lookup f (once m) ≡ some v
unfolding lookup once
once-Among f v [] a = elim a [ ]
once-Among f v ((i, u) ∷ m) a = elim (Among-cons a) [
  | inl e ↦
      ground (
        arith,
        eq_iff i f,
        ap (λ (x : String × String). x.0) e,
        ap (λ (x : String × String). x.1) e,
      )
  | inr b ↦
      let (c, n) = Among-without f v i (once m) b in
      rw (n, lookup-without i f (once m), n) (once-Among f v m c)
]

lookup-without_all :
    (ks : List String) (j : String) (m : List (String × String))
    → lookup j (without_all ks m) ≡ (if contains j ks then none else lookup j m)
unfolding without_all contains
lookup-without_all [] j m = refl
lookup-without_all (k ∷ ks) j m =
    ground (arith, lookup-without_all ks j (without k m), lookup-without k j m)

lookup-with_hash :
    (db : Db) (k : String) (h : List (String × String)) (k' f : String)
    → lookup f (hash_of (with_hash db k h) k')
      ≡ (if k == k' then lookup f h else lookup f (hash_of db k'))
unfolding lookup
lookup-with_hash db k h k' f = elim (Bool-cases (k == k')) [
  | inl e ↦ rw (e, lookup-once f h) refl
  | inr e ↦ rw e refl
]

pub demo_redis_laws : RedisLaws demo_redis
unfolding lookup
demo_redis_laws = record {
  hset_stores = λ db k f v k' f' h. ground (
    arith,
    eq_iff k k',
    eq_iff f f',
    lookup-with_hash db k ((f, v) ∷ without f (hash_of db k)) k' f',
    lookup-without f f' (hash_of db k),
  );
  hdel_removes = λ db k f k' f' h. ground (
    arith,
    eq_iff k k',
    eq_iff f f',
    lookup-with_hash db k (without f (hash_of db k)) k' f',
    lookup-without f f' (hash_of db k),
  );
  hdel_fields_removes = λ db k fs k' f' h. ground (
    arith,
    eq_iff k k',
    lookup-with_hash db k (without_all fs (hash_of db k)) k' f',
    lookup-without_all fs f' (hash_of db k),
  );
  hget_misses = λ db k f e. rw e;
  hget_reads = λ db k f v h e. rw e;
  setnx_writes = λ db k v h. (ground arith, ground (arith, eq_refl k));
  setnx_held = λ db k v u e. inr (ground arith, ground arith);
  setnx_free = λ db k v e. inr (rw e);
  del_removes = λ db k h. ground (arith, lookup-without k k db.texts, eq_refl k);
  get_reads = λ db k u h e. (rw e, e);
  hgetall_reads = λ db k h. refl;
  hash_once = λ db k f v a. once-Among f v (or_empty (lookup k db.rows)) a;
  getset_swaps = λ db k v h. (ground (arith, eq_refl k), λ u e. rw e);
}
