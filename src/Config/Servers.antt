-- ===== src/Config/Servers.antt =====
-- common/config.cpp: what `server_mapping` holds after `init`.
use erizo_controller.Base.{
  ℕ, zero, suc, ℤ, pos, negsuc, Bool, true, false, String, Option, some, List, [], ◌∷◌, ◌≡◌, refl,
  sym, ◌∙◌, Bool-cases, Option-cases, inl, inr, arith, ◌+◌, ◌≤◌, ◌<◌, subst, ◌⊎◌, ap, if◌then◌else◌,
}
use erizo_controller.Base.Int.{eqb_int}
use erizo_controller.External.Json.{JsonCpp}
use erizo_controller.Model.Outcome.{done, bind_done, done_back, not_thrown}
use erizo_controller.Config.{find_server, put_server}
use erizo_controller.Config.Load.{is_server, read_server, read_servers}

eqb_int-eq : (i j : ℤ) → eqb_int i j ≡ true → i ≡ j
eqb_int-eq (pos a) (pos b) h = let e : a ≡ b = ground arith in rw e refl
eqb_int-eq (negsuc a) (negsuc b) h = let e : a ≡ b = ground arith in rw e refl
eqb_int-eq (pos a) (negsuc b) h = cc
eqb_int-eq (negsuc a) (pos b) h = cc

eqb_int-same : (i : ℤ) → eqb_int i i ≡ true
eqb_int-same (pos a) = ground arith
eqb_int-same (negsuc a) = ground arith

first_or_later : (i l : ℕ) → i ≤ l → (i ≡ l) ⊎ (suc i ≤ l)
first_or_later i l h = ground arith

eqb_int-apart : (i j k : ℤ) → eqb_int i j ≡ false → (eqb_int i k ≡ true → eqb_int j k ≡ false)
eqb_int-apart (pos a) (pos b) (pos c) h k = ground arith
eqb_int-apart (negsuc a) (negsuc b) (negsuc c) h k = ground arith
eqb_int-apart (pos a) (negsuc b) (pos c) h k = refl
eqb_int-apart (negsuc a) (pos b) (negsuc c) h k = refl
eqb_int-apart (pos a) j (negsuc c) h k = cc
eqb_int-apart (negsuc a) j (pos c) h k = cc

-- A name that is stored is found under its id alone.
find_server-put_server :
    (id : ℤ) (name : String) (j : ℤ) (m : List (ℤ × String))
    → find_server j (put_server id name m) ≡ (if eqb_int id j then some name else find_server j m)
unfolding find_server put_server
find_server-put_server id name j [] = refl
find_server-put_server id name j ((i, old) ∷ m) = elim (Bool-cases (eqb_int i id)) [
  | inl e ↦ rw (put_server, e) (rw (eqb_int-eq i id e) (other_name (eqb_int id j)))
  | inr e ↦
      rw (put_server, e)
        (rw (find_server-put_server id name j m) (apart_name _ _ (eqb_int-apart i id j e)))
]
  where
    other_name :
        (b : Bool)
        → (if b then some name else find_server j m)
          ≡ (if b then some name else (if b then some old else find_server j m))
    other_name true = refl
    other_name false = refl

    apart_name :
        (a b : Bool)
        → (a ≡ true → b ≡ false)
        → (if a then some old else (if b then some name else find_server j m))
          ≡ (if b then some name else (if a then some old else find_server j m))
    apart_name true true h = absurd (cc (h refl))
    apart_name true false h = refl
    apart_name false b h = refl

module _ (J : JsonCpp) where
  open J use {Value, member, element, as_int, as_string}

  -- An item that `init` takes, with its id and its name.
  pub record IsNamed (item : Value) (id : ℤ) (name : String) : Type 0 where
    pub server : is_server J item ≡ true
    pub id_read : as_int (member item "id") ≡ some id
    pub name_read : as_string (member item "name") ≡ some name

  -- The items from `i` on, `n` of them, and the name that they leave under `id`: that of the last
  -- of them with this id, or what was there.
  pub data LastName (items : Value) (n i : ℕ) (id : ℤ) (old : Option String)
      : Option String → Type 0 where
    named :
        (k : ℕ) (name : String)
        → i ≤ k
        → k < i + n
        → IsNamed (element items k) id name
        → ((l : ℕ) (other : String) → k < l → l < i + n → ¬ (IsNamed (element items l) id other))
        → LastName items n i id old (some name)
    unnamed :
        ((l : ℕ) (other : String) → i ≤ l → l < i + n → ¬ (IsNamed (element items l) id other))
        → LastName items n i id old old

  some_back : {A : Type 0} {a b : A} → some a ≡ some b → a ≡ b
  some_back e = cc

  -- What one item leaves.
  data Stored (item : Value) (id : ℤ) (old : Option String) : Option String → Type 0 where
    stored : (name : String) → IsNamed item id name → Stored item id old (some name)
    skipped : ((other : String) → ¬ (IsNamed item id other)) → Stored item id old old

  read_server-Stored :
      (item : Value) (m m' : List (ℤ × String)) (id : ℤ)
      → read_server J item m ≡ done m'
      → Stored item id (find_server id m) (find_server id m')
  unfolding read_server
  read_server-Stored item m m' id h = elim (Bool-cases (is_server J item)) [
    | inr f ↦
        subst (λ (x : List (ℤ × String)). Stored item id (find_server id m) (find_server id x))
          (done_back (rw (read_server, f) at h)) (skipped λ other n. cc (f, n.server))
    | inl s ↦ elim (Option-cases (as_int (member item "id"))) [
      | inl e ↦ absurd (not_thrown (rw (read_server, s, e) at h))
      | inr (j, e) ↦ elim (Option-cases (as_string (member item "name"))) [
        | inl f ↦ absurd (not_thrown (rw (read_server, s, e, f) at h))
        | inr (name, f) ↦
            subst (λ (x : List (ℤ × String)). Stored item id (find_server id m) (find_server id x))
              (done_back (rw (read_server, s, e, f) at h))
              (rw (find_server-put_server j name id m) (of_id j name s e f (eqb_int j id) refl))
      ]
    ]
  ]
    where
      of_id :
          (j : ℤ) (name : String)
          → is_server J item ≡ true
          → as_int (member item "id") ≡ some j
          → as_string (member item "name") ≡ some name
          → (b : Bool) → eqb_int j id ≡ b
          → Stored item id (find_server id m) (if b then some name else find_server id m)
      of_id j name s e f true k =
          stored name
            (record { server = s; id_read = rw (e, eqb_int-eq j id k) refl; name_read = f })
      of_id j name s e f false k = skipped λ other n.
          cc (k, eqb_int-same id, ap (λ (x : ℤ). eqb_int x id) (some_back (sym e ∙ n.id_read)))

  -- The names after one item and those after the rest.
  after_first :
      (items : Value) (n i : ℕ) (id : ℤ) (old mid new : Option String)
      → Stored (element items i) id old mid
      → LastName items n (suc i) id mid new
      → LastName items (suc n) i id old new
  after_first items n i id old mid new s (named k name a b c d) =
      named k name (omega arith) (omega arith) c λ l other p q. d l other p (omega arith)
  after_first items n i id old _ _ (stored name t) (unnamed d) =
      named i name (omega arith) (omega arith) t
        λ l other p q. d l other (omega arith) (omega arith)
  after_first items n i id old _ _ (skipped t) (unnamed d) = unnamed λ l other p q.
      elim (first_or_later i l p) [
        | inl e ↦ subst (λ (x : ℕ). ¬ (IsNamed (element items x) id other)) e (t other)
        | inr m ↦ d l other m (omega arith)
      ]

  pub read_servers-LastName :
      (n i : ℕ) (items : Value) (m m' : List (ℤ × String)) (id : ℤ)
      → read_servers J n i items m ≡ done m'
      → LastName items n i id (find_server id m) (find_server id m')
  unfolding read_servers
  read_servers-LastName zero i items m m' id h =
      subst (λ (x : List (ℤ × String)). LastName items 0 i id (find_server id m) (find_server id x))
        (done_back h) (unnamed λ l other p q. absurd (omega arith))
  read_servers-LastName (suc n) i items m m' id h =
      let (m1, e, k) = bind_done (read_server J (element items i) m) _ h in
      after_first items n i id _ _ _ (read_server-Stored (element items i) m m1 id e)
        (read_servers-LastName n (suc i) items m1 m' id k)
