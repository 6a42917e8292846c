-- ===== src/External/Json.antt =====
-- jsoncpp (`json/json.h`), which the program links: its values and operations as a record, and its
-- documented behaviour as a record of laws. None of it is code of the repository.
use erizo_controller.Base.{
  ℕ, ℤ, pos, negsuc, Bool, true, false, String, Option, some, ◌≡◌, ◌==◌, leb, if◌then◌else◌,
}

-- `Json::ValueType`
pub data Kind : Type 0 where
  null_value int_value uint_value real_value string_value boolean_value array_value object_value :
      Kind

pub record JsonCpp : Type 1 where
  pub Value : Type 0
  pub kind : Value → Kind
  -- `Json::nullValue` and the constructors from a C++ value
  pub null : Value
  pub of_string : String → Value
  pub of_bool : Bool → Value
  pub of_int : ℤ → Value
  pub of_uint : ℕ → Value
  -- `isMember`, `operator[]` for reading and writing
  pub is_member : Value → String → Bool
  pub member : Value → String → Value
  pub put : Value → String → Value → Value
  pub size : Value → ℕ
  pub element : Value → ℕ → Value
  pub append : Value → Value → Value
  -- the conversions, `none` where jsoncpp throws
  pub as_string : Value → Option String
  pub as_bool : Value → Option Bool
  pub as_int : Value → Option ℤ
  pub as_uint : Value → Option ℕ
  pub as_uint64 : Value → Option ℕ
  -- `FastWriter::write`, and `Reader::parse` in strict mode
  pub write : Value → String
  pub parse : String → Option Value
  -- what the reader makes of a value that was written: numbers lose the type they were given
  pub reread : Value → Value

-- `Json::Value::maxInt` and `maxUInt`
abbrev pub max_int : ℕ
max_int = 2147483647

abbrev pub max_uint : ℕ
max_uint = 4294967295

abbrev pub max_uint64 : ℕ
max_uint64 = 18446744073709551615

-- The range of `Int`.
abbrev pub fits_int : ℤ → Bool
fits_int (pos n) = leb n max_int
fits_int (negsuc n) = leb n max_int

pub record JsonLaws (J : JsonCpp) : Type 0 where
  pub kind-string : (s : String) → J.kind (J.of_string s) ≡ string_value
  pub kind-bool : (b : Bool) → J.kind (J.of_bool b) ≡ boolean_value
  pub kind-int : (i : ℤ) → J.kind (J.of_int i) ≡ int_value
  pub kind-uint : (n : ℕ) → J.kind (J.of_uint n) ≡ uint_value
  pub kind-put : (v : J.Value) (k : String) (x : J.Value) → J.kind (J.put v k x) ≡ object_value
  -- reading a member that is not there gives null
  pub kind-member :
      (v : J.Value) (k : String) → J.is_member v k ≡ false → J.kind (J.member v k) ≡ null_value
  pub string-kind :
      (v : J.Value) → J.kind v ≡ string_value → (s : String) × (J.as_string v ≡ some s)
  pub string-string : (s : String) → J.as_string (J.of_string s) ≡ some s
  pub bool-bool : (b : Bool) → J.as_bool (J.of_bool b) ≡ some b
  pub int-int : (i : ℤ) → fits_int i ≡ true → J.as_int (J.of_int i) ≡ some i
  pub uint-int : (n : ℕ) → leb n max_int ≡ true → J.as_uint (J.of_int (pos n)) ≡ some n
  pub uint-uint : (n : ℕ) → leb n max_uint ≡ true → J.as_uint (J.of_uint n) ≡ some n
  pub uint64-uint : (n : ℕ) → leb n max_uint64 ≡ true → J.as_uint64 (J.of_uint n) ≡ some n
  pub is_member-null : (k : String) → J.is_member J.null k ≡ false
  pub is_member-put :
      (v : J.Value) (k j : String) (x : J.Value)
      → J.is_member (J.put v k x) j ≡ (if k == j then true else J.is_member v j)
  pub member-put :
      (v : J.Value) (k j : String) (x : J.Value)
      → J.member (J.put v k x) j ≡ (if k == j then x else J.member v j)
  pub parse-write :
      (v : J.Value) → J.kind v ≡ object_value → J.parse (J.write v) ≡ some (J.reread v)
  pub kind-reread : (v : J.Value) → J.kind v ≡ object_value → J.kind (J.reread v) ≡ object_value
  pub write-full : (v : J.Value) → J.kind v ≡ object_value → (J.write v == "") ≡ false
  pub is_member-reread : (v : J.Value) (k : String) → J.is_member (J.reread v) k ≡ J.is_member v k
  pub member-reread : (v : J.Value) (k : String) → J.member (J.reread v) k ≡ J.reread (J.member v k)
  pub reread-string : (s : String) → J.reread (J.of_string s) ≡ J.of_string s
  pub reread-bool : (b : Bool) → J.reread (J.of_bool b) ≡ J.of_bool b
  pub reread-int : (i : ℤ) → J.reread (J.of_int i) ≡ J.of_int i
  -- a number without a sign comes back as an `int` where it fits
  pub reread-uint :
      (n : ℕ) → J.reread (J.of_uint n) ≡ (if leb n max_int then J.of_int (pos n) else J.of_uint n)
