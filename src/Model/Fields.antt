-- ===== src/Model/Fields.antt =====
-- The tests and the building of objects that every `fromJSON` and `toJSON` of model/*.h share.
use erizo_controller.Base.{
  Bool, true, false, ◌&&◌, ◌||◌, not, String, Option, none, some, List, [], ◌∷◌, ◌≡◌, if◌then◌else◌,
}
use erizo_controller.Model.Outcome.{Outcome, done, thrown, ◌>>=◌}
use erizo_controller.External.Json.{
  Kind, null_value, int_value, uint_value, real_value, string_value, boolean_value, array_value,
  object_value, JsonCpp, JsonLaws,
}

-- `==` on `Json::ValueType`
abbrev pub is_kind : Kind → Kind → Bool
is_kind null_value null_value = true
is_kind int_value int_value = true
is_kind uint_value uint_value = true
is_kind real_value real_value = true
is_kind string_value string_value = true
is_kind boolean_value boolean_value = true
is_kind array_value array_value = true
is_kind object_value object_value = true
is_kind _ _ = false

module _ (J : JsonCpp) where
  -- `root.isMember(k) && root[k].type() == t`
  abbrev pub has : J.Value → String → Kind → Bool
  has root k t = J.is_member root k && is_kind (J.kind (J.member root k)) t

  -- `isMember` and `operator[]` with a text throw on a value of another kind.
  abbrev pub has_members : J.Value → Bool
  has_members root = is_kind (J.kind root) object_value || is_kind (J.kind root) null_value

  -- A run of `root[k] = x;`.
  abbrev pub fill : J.Value → List (String × J.Value) → J.Value
  fill root [] = root
  fill root ((k, x) ∷ fields) = fill (J.put root k x) fields

  abbrev pub object : List (String × J.Value) → J.Value
  object fields = fill J.null fields

  -- The shape of every `fromJSON`: parse, test the fields, assign them. `done none` is `return 1`.
  unfoldable pub decode {ℓ} :
      {A : Type ℓ} → (J.Value → Bool) → (J.Value → Outcome A) → String → Outcome (Option A)
  decode has_fields read json = elim (J.parse json) [
    | none ↦ done none
    | some root ↦
        if not (has_members root)
        then thrown
        else if has_fields root
        then (do a ← read root; done (some a))
        else done none
  ]

  -- A text that was written from an object is accepted, if the object read again passes the tests.
  pub decode-write {ℓ} :
      {A : Type ℓ} (has_fields : J.Value → Bool) (read : J.Value → Outcome A) (v : J.Value) (a : A)
      → JsonLaws J
      → J.kind v ≡ object_value
      → has_fields (J.reread v) ≡ true
      → read (J.reread v) ≡ done a
      → decode has_fields read (J.write v) ≡ done (some a)
  unfolding decode
  decode-write has_fields read v a L o h r =
      rw (L.parse-write v o, decode) (rw (L.kind-reread v o) (rw h (rw r)))

  -- An object that does not pass the tests is rejected.
  pub decode-reject {ℓ} :
      {A : Type ℓ} (has_fields : J.Value → Bool) (read : J.Value → Outcome A) (v : J.Value)
      → JsonLaws J
      → J.kind v ≡ object_value
      → has_fields (J.reread v) ≡ false
      → decode has_fields read (J.write v) ≡ done none
  unfolding decode
  decode-reject has_fields read v L o h =
      rw (L.parse-write v o, decode) (rw (L.kind-reread v o) (rw h))

module _ (J : JsonCpp) where
  -- A run of `args[0] = x; args[1] = y; …`.
  abbrev pub extend : J.Value → List J.Value → J.Value
  extend args [] = args
  extend args (x ∷ xs) = extend (J.append args x) xs

  abbrev pub array : List J.Value → J.Value
  array xs = extend J.null xs

  -- `v == Json::nullValue`
  abbrev pub is_null : J.Value → Bool
  is_null v = is_kind (J.kind v) null_value
