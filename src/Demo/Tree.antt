-- ===== src/Demo/Tree.antt =====
-- A small JSON library that meets `JsonLaws`, for running the model: values as trees, and a text
-- format that can be read back. An object is a chain of `field`s, an array a chain of `item`s.
use erizo_controller.Base.{
  ℕ, zero, suc, ℤ, pos, Bool, true, false, String, ◌==◌, Option, none, some, leb, if◌then◌else◌,
}
use erizo_controller.External.Json.{
  Kind, null_value, int_value, uint_value, string_value, boolean_value, array_value, object_value,
  max_int, max_uint, max_uint64, fits_int,
}

pub data Tree : Type 0 where
  null : Tree
  flag : Bool → Tree
  int : ℤ → Tree
  uint : ℕ → Tree
  str : String → Tree
  field : String → Tree → Tree → Tree
  item : Tree → Tree → Tree

abbrev pub kind : Tree → Kind
kind null = null_value
kind (flag b) = boolean_value
kind (int i) = int_value
kind (uint n) = uint_value
kind (str s) = string_value
kind (field k x rest) = object_value
kind (item x rest) = array_value

abbrev pub is_member : Tree → String → Bool
is_member (field k x rest) j = if k == j then true else is_member rest j
is_member _ j = false

abbrev pub member : Tree → String → Tree
member (field k x rest) j = if k == j then x else member rest j
member _ j = null

abbrev pub size : Tree → ℕ
size (item x rest) = suc (size rest)
size _ = 0

abbrev pub element : Tree → ℕ → Tree
element (item x rest) zero = x
element (item x rest) (suc i) = element rest i
element _ i = null

abbrev pub append : Tree → Tree → Tree
append (item x rest) y = item x (append rest y)
append _ y = item y null

abbrev pub as_string : Tree → Option String
as_string (str s) = some s
as_string null = some ""
as_string _ = none

abbrev pub as_bool : Tree → Option Bool
as_bool (flag b) = some b
as_bool _ = none

abbrev pub as_int : Tree → Option ℤ
as_int (int i) = if fits_int i then some i else none
as_int (uint n) = if leb n max_int then some (pos n) else none
as_int null = some (pos 0)
as_int _ = none

abbrev pub as_uint : Tree → Option ℕ
as_uint (int (pos n)) = if leb n max_uint then some n else none
as_uint (uint n) = if leb n max_uint then some n else none
as_uint null = some 0
as_uint _ = none

abbrev pub as_uint64 : Tree → Option ℕ
as_uint64 (int (pos n)) = if leb n max_uint64 then some n else none
as_uint64 (uint n) = if leb n max_uint64 then some n else none
as_uint64 null = some 0
as_uint64 _ = none

abbrev pub reread : Tree → Tree
reread (uint n) = if leb n max_int then int (pos n) else uint n
reread (field k x rest) = field k (reread x) (reread rest)
reread (item x rest) = item (reread x) (reread rest)
reread v = v
