-- ===== src/Process/Path.antt =====
-- common/utils.h: `initPath`, which goes to the directory of the program's file.
use Prim.Native.Char.{Char, code}
use Prim.Native.String.append
use erizo_controller.Base.{
  Bool, true, false, String, ◌++ₛ◌, Option, none, some, ◌≡◌, refl, eqb, not, ap, if◌then◌else◌,
}

-- What the system answers: whether `chdir` to /proc/<pid> succeeds, the line that `fgets` reads of the
-- listing, or nothing where `popen` or `fgets` fails, and whether `chdir` to a path succeeds.
pub record Files : Type 0 where
  pub enters_proc : Bool
  pub listed : Option String
  pub enters : String → Bool

abbrev pub is_slash : Char → Bool
is_slash c = eqb (code c) b'/'

-- `path.substr(0, path.find_last_of('/'))`, `none` where there is no slash.
unfoldable pub before_last_slash : String → Option String
before_last_slash String.[] = none
before_last_slash (String.◌∷◌ c s) = elim (before_last_slash s) [
  | some dir ↦ some (String.◌∷◌ c dir)
  | none ↦ if is_slash c then some "" else none
]

abbrev or_whole : String → Option String → String
or_whole s none = s
or_whole s (some dir) = dir

-- The directory that `initPath` goes to last: a line without a slash is taken as it is.
abbrev pub directory : String → String
directory line = or_whole line (before_last_slash line)

-- `initPath`; `true` is the return value 1.
unfoldable pub init_path : Files → Bool
init_path fs =
    if not fs.enters_proc
    then true
    else elim fs.listed [ none ↦ true | some line ↦ not (fs.enters (directory line)) ]

-- No character of a text is a slash.
abbrev pub NoSlash : String → Type 0
NoSlash String.[] = Unit
NoSlash (String.◌∷◌ c s) = (is_slash c ≡ false) × NoSlash s

no_slash : (s : String) → NoSlash s → before_last_slash s ≡ none
unfolding before_last_slash
no_slash String.[] h = refl
no_slash (String.◌∷◌ c s) (e, h) = rw (no_slash s h, e) refl

before_slash :
    (dir name : String)
    → NoSlash name
    → before_last_slash (dir ++ₛ (String.◌∷◌ "/" name)) ≡ some dir
unfolding before_last_slash
before_slash String.[] name h = rw (append.nil (String.◌∷◌ "/" name), no_slash name h) refl
before_slash (String.◌∷◌ c dir) name h =
    rw (append.cons c dir (String.◌∷◌ "/" name), before_last_slash, before_slash dir name h) refl

-- The directory of a line is what stands before its last slash.
pub directory_lem :
    (dir name : String) → NoSlash name → directory (dir ++ₛ (String.◌∷◌ "/" name)) ≡ dir
directory_lem dir name h = ap (or_whole (dir ++ₛ (String.◌∷◌ "/" name))) (before_slash dir name h)
