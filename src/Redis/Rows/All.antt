-- ===== src/Redis/Rows/All.antt =====
-- redis/redis_helper.cpp: what every `getAll…` makes of the texts of a hash.
use erizo_controller.Base.{
  String, Option, none, some, List, [], ◌∷◌, ◌≡◌, ◌↔◌, refl, ap, sym, ◌∙◌, inl, inr, lookup,
  contains, Option-cases, Bool-cases, ◌==◌, eq_iff,
}
use mathlib.Core.Option
use mathlib.Core.List
use erizo_controller.Base.Members.{Among, among_head, among_next, Among-cons}
use erizo_controller.External.{Platform}
use erizo_controller.External.Redis.{RedisLaws, HashAnswers}
use erizo_controller.Model.Outcome.{Outcome, done}
use erizo_controller.Process.State.{World}
use erizo_controller.Process.Ends.{Ends, ends}
use erizo_controller.Redis.Acl.{acl_hvals}
use erizo_controller.Redis.Helper.{read_all, get_all}
use erizo_controller.Redis.Rows.{RowOp, put, remove, apply, apply_all, Represents}

abbrev or_blank : Option String → String
or_blank none = ""
or_blank (some v) = v

lookup-Among : (f v : String) (es : List (String × String)) → lookup f es ≡ some v → Among (f, v) es
unfolding lookup
lookup-Among f v [] e = absurd (cc e)
lookup-Among f v ((g, u) ∷ es) e = elim (Bool-cases (g == f)) [
  | inl t ↦ among_head (g, u) es (cc ((eq_iff g f).0 t, rw t at e))
  | inr n ↦ among_next (g, u) es (lookup-Among f v es (rw n at e))
]

-- Each row stands under its id.
abbrev pub Keyed : {A : Type 0} → (A → String) → (String → Option A) → Type 0
Keyed {A} id_of rows = (f : String) (a : A) → rows f ≡ some a → id_of a ≡ f

module _ {A : Type 0} (id_of : A → String) where
  apply-Keyed :
      (op : RowOp A) (rows : String → Option A)
      → Keyed id_of rows
      → Keyed id_of (apply id_of op rows)
  apply-Keyed (put a) rows k f b e = elim (Bool-cases (id_of a == f)) [
    | inl t ↦ let same : a ≡ b = cc (rw t at e) in rw (sym same) ((eq_iff (id_of a) f).0 t)
    | inr n ↦ k f b (rw n at e)
  ]
  apply-Keyed (remove ids) rows k f b e = elim (Bool-cases (contains f ids)) [
    | inl t ↦ absurd (cc (rw t at e))
    | inr n ↦ k f b (rw n at e)
  ]

  pub apply_all-Keyed :
      (ops : List (RowOp A)) (rows : String → Option A)
      → Keyed id_of rows
      → Keyed id_of (apply_all id_of ops rows)
  unfolding apply_all
  apply_all-Keyed [] rows k = k
  apply_all-Keyed (op ∷ ops) rows k =
      apply_all-Keyed ops (apply id_of op rows) (apply-Keyed op rows k)

-- The entries of a hash whose texts are rows.
module _ {A : Type 0} (from_json : String → Outcome (Option A)) where
  abbrev Readable : List (String × String) → Type 0
  Readable es = (f v : String) → Among (f, v) es → (a : A) × (from_json v ≡ done (some a))

  abbrev pub ReadOf : List (String × String) → List A → Type 0
  ReadOf es rows =
      (a : A)
      → Among a rows
        ↔ ((f : String) × (v : String) × Among (f, v) es × (from_json v ≡ done (some a)))

  ReadOf-cons :
      (f v : String) (es : List (String × String)) (a : A) (rows : List A)
      → from_json v ≡ done (some a)
      → ReadOf es rows
      → ReadOf ((f, v) ∷ es) (a ∷ rows)
  ReadOf-cons f v es a rows e m b = (
    λ k. elim (Among-cons k) [
      | inl same ↦ (f, v, among_head (f, v) es refl, rw same e)
      | inr l ↦ let (g, u, l', e') = (m b).0 l in (g, u, among_next (f, v) es l', e')
    ],
    λ (g, u, k, e'). elim (Among-cons k) [
      | inl same ↦ among_head a rows (cc (e, e', ap (λ (x : String × String). from_json x.1) same))
      | inr l ↦ among_next a rows ((m b).1 (g, u, l, e'))
    ],
  )

  read_all-ReadOf :
      (es : List (String × String))
      → Readable es
      → (rows : List A) × (read_all from_json (List.map (λ (e : String × String). e.1) es)
          ≡ done rows)
        × ReadOf es rows
  unfolding read_all
  read_all-ReadOf [] h = ([], refl, λ a. (λ m. elim m [ ], λ (f, v, m, e). elim m [ ]))
  read_all-ReadOf ((f, v) ∷ es) h =
      let (a, e) = h f v (among_head (f, v) es refl) in
      let (rows, r, m) = read_all-ReadOf es (λ g u k. h g u (among_next (f, v) es k)) in
      (a ∷ rows, rw (e, r) refl, ReadOf-cons f v es a rows e m)

module _ (P : Platform) {A : Type 0} (id_of : A → String) where
  -- The result of a `getAll…`: the rows of the map, each under its id.
  abbrev pub AllOf : (String → Option A) → Option (List A) → World P → Type 0
  AllOf rows r _ =
      (found : List A) × (r ≡ some found) × ((a : A) → Among a found ↔ (rows (id_of a) ≡ some a))

module _ (P : Platform) {A : Type 0} (id_of : A → String) (to_json : A → String)
    (from_json : String → Outcome (Option A)) (Fits : A → Type 0) (key : String)
    (L : RedisLaws P.redis) (H : HashAnswers P.redis key)
    (back : (a : A) → Fits a → from_json (to_json a) ≡ done (some a)) where
  -- An entry of the hash is a row of the map.
  entry :
      (rows : String → Option A) (w : World P)
      → Represents P to_json Fits key rows w
      → (f v : String) → Among (f, v) (P.redis.hash_at w.db key)
      → (a : A) × (rows f ≡ some a) × (from_json v ≡ done (some a))
  entry rows w r f v m =
      let stored = sym (r.at f) ∙ L.hash_once w.db key f v m in
      elim (Option-cases (rows f)) [
        | inl e ↦ absurd (cc (rw e at stored))
        | inr (a, e) ↦ (a, e, cc (back a (r.fits f a e), ap or_blank (rw e at stored)))
      ]

  entry_of :
      (rows : String → Option A) (w : World P)
      → Represents P to_json Fits key rows w
      → (a : A) → rows (id_of a) ≡ some a
      → (f : String) × (v : String) × Among (f, v) (P.redis.hash_at w.db key)
        × (from_json v ≡ done (some a))
  entry_of rows w r a e = (
    id_of a,
    to_json a,
    lookup-Among (id_of a) (to_json a) (P.redis.hash_at w.db key)
        (r.at (id_of a) ∙ ap (Option.map to_json) e),
    back a (r.fits (id_of a) a e),
  )

  pub get_all-Represents :
      (rows : String → Option A) (w : World P)
      → Keyed id_of rows
      → Represents P to_json Fits key rows w
      → Ends (AllOf P id_of rows) (get_all P from_json key w)
  unfolding get_all acl_hvals
  get_all-Represents rows w keyed r =
      let (found, e, m) =
        read_all-ReadOf from_json (P.redis.hash_at w.db key)
          (λ f v k. let (a, _, b) = entry rows w r f v k in (a, b)) in
      rw (r.ready, H.hgetall w.db, L.hgetall_reads w.db key (H.hgetall w.db), e)
        (ends _ _ (
          found,
          refl,
          λ a. (
            λ k.
                let (f, v, k', b) = (m a).0 k in
                let (a', s, b') = entry rows w r f v k' in cc (s, b, b', ap rows (keyed f a' s)),
            λ s. (m a).1 (entry_of rows w r a s),
          ),
        ))
