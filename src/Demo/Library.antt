-- ===== src/Demo/Library.antt =====
-- The JSON library of the examples, and that it meets `JsonLaws`.
use erizo_controller.Base.{
  true, false, Bool-cases, inl, inr, String, ◌==◌, Option, none, some, ◌≡◌, refl, arith,
  if◌then◌else◌,
}
use erizo_controller.External.Json.{JsonCpp, JsonLaws, object_value, null_value, string_value}
use erizo_controller.Demo.Tree
use erizo_controller.Demo.Tree.{Tree, null, flag, int, uint, str, field, item}
use erizo_controller.Demo.Codec.{read, write, read-write, write_field-full}

-- An assignment to a member; the newest stands first.
abbrev put : Tree → String → Tree → Tree
put (field j y rest) k x = field k x (field j y rest)
put _ k x = field k x null

-- The reader, which takes objects and arrays alone.
abbrev accept : Tree → Option Tree
accept (field k x rest) = some (Tree.reread (field k x rest))
accept (item x rest) = some (Tree.reread (item x rest))
accept _ = none

abbrev pub demo_json : JsonCpp
demo_json = record {
  Value = Tree;
  kind = Tree.kind;
  null = null;
  of_string = str;
  of_bool = flag;
  of_int = int;
  of_uint = uint;
  is_member = Tree.is_member;
  member = Tree.member;
  put = put;
  size = Tree.size;
  element = Tree.element;
  append = Tree.append;
  as_string = Tree.as_string;
  as_bool = Tree.as_bool;
  as_int = Tree.as_int;
  as_uint = Tree.as_uint;
  as_uint64 = Tree.as_uint64;
  write = write;
  parse = λ t. accept (read t);
  reread = Tree.reread;
}

is_member-put :
    (v : Tree) (k j : String) (x : Tree)
    → Tree.is_member (put v k x) j ≡ (if k == j then true else Tree.is_member v j)
is_member-put (field i y rest) k j x = refl
is_member-put _ k j x = refl

member-put :
    (v : Tree) (k j : String) (x : Tree)
    → Tree.member (put v k x) j ≡ (if k == j then x else Tree.member v j)
member-put (field i y rest) k j x = refl
member-put _ k j x = refl

kind-put : (v : Tree) (k : String) (x : Tree) → Tree.kind (put v k x) ≡ object_value
kind-put (field i y rest) k x = refl
kind-put _ k x = refl

parse-write :
    (v : Tree) → Tree.kind v ≡ object_value → accept (read (write v)) ≡ some (Tree.reread v)
parse-write (field k x rest) h = rw (read-write (field k x rest))
parse-write null h = cc
parse-write (flag b) h = cc
parse-write (int i) h = cc
parse-write (uint n) h = cc
parse-write (str s) h = cc
parse-write (item x rest) h = cc

kind-reread : (v : Tree) → Tree.kind v ≡ object_value → Tree.kind (Tree.reread v) ≡ object_value
kind-reread (field k x rest) h = refl
kind-reread null h = cc
kind-reread (flag b) h = cc
kind-reread (int i) h = cc
kind-reread (uint n) h = cc
kind-reread (str s) h = cc
kind-reread (item x rest) h = cc

write-full : (v : Tree) → Tree.kind v ≡ object_value → (write v == "") ≡ false
write-full (field k x rest) h = write_field-full k x rest
write-full null h = cc
write-full (flag b) h = cc
write-full (int i) h = cc
write-full (uint n) h = cc
write-full (str s) h = cc
write-full (item x rest) h = cc

is_member-reread : (v : Tree) (k : String) → Tree.is_member (Tree.reread v) k ≡ Tree.is_member v k
is_member-reread (field i x rest) k = rw (is_member-reread rest k)
is_member-reread (uint n) k = ground arith
is_member-reread null k = refl
is_member-reread (flag b) k = refl
is_member-reread (int i) k = refl
is_member-reread (str s) k = refl
is_member-reread (item x rest) k = refl

member-reread :
    (v : Tree) (k : String) → Tree.member (Tree.reread v) k ≡ Tree.reread (Tree.member v k)
member-reread (field i x rest) k = ground (arith, member-reread rest k)
member-reread (uint n) k = ground arith
member-reread null k = refl
member-reread (flag b) k = refl
member-reread (int i) k = refl
member-reread (str s) k = refl
member-reread (item x rest) k = refl

kind-member :
    (v : Tree) (k : String) → Tree.is_member v k ≡ false → Tree.kind (Tree.member v k) ≡ null_value
kind-member (field i x rest) k h = elim (Bool-cases (i == k)) [
  | inl e ↦ absurd (cc (rw e at h))
  | inr e ↦ rw e (kind-member rest k (rw e at h))
]
kind-member null k h = refl
kind-member (flag b) k h = refl
kind-member (int i) k h = refl
kind-member (uint n) k h = refl
kind-member (str s) k h = refl
kind-member (item x rest) k h = refl

string-kind : (v : Tree) → Tree.kind v ≡ string_value → (s : String) × (Tree.as_string v ≡ some s)
string-kind (str s) h = (s, refl)
string-kind null h = absurd (cc h)
string-kind (flag b) h = absurd (cc h)
string-kind (int i) h = absurd (cc h)
string-kind (uint n) h = absurd (cc h)
string-kind (field k x rest) h = absurd (cc h)
string-kind (item x rest) h = absurd (cc h)

pub demo_laws : JsonLaws demo_json
demo_laws = record {
  kind-string = λ s. refl;
  kind-bool = λ b. refl;
  kind-int = λ i. refl;
  kind-uint = λ n. refl;
  kind-put = kind-put;
  kind-member = kind-member;
  string-kind = string-kind;
  string-string = λ s. refl;
  bool-bool = λ b. refl;
  int-int = λ i h. rw h;
  uint-int = λ n h. ground arith;
  uint-uint = λ n h. ground arith;
  uint64-uint = λ n h. ground arith;
  is_member-null = λ k. refl;
  is_member-put = is_member-put;
  member-put = member-put;
  parse-write = parse-write;
  kind-reread = kind-reread;
  write-full = write-full;
  is_member-reread = is_member-reread;
  member-reread = member-reread;
  reread-string = λ s. refl;
  reread-bool = λ b. refl;
  reread-int = λ i. refl;
  reread-uint = λ n. refl;
}
