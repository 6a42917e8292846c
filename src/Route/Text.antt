-- ===== src/Route/Text.antt =====
-- route/Utility.cpp: `StringUtil`.
pub mod Split
use Prim.Native.Char.{Char, code}
use Prim.Native.String
use erizo_controller.Base.{
  ℕ, Bool, true, false, ◌&&◌, ◌||◌, String, ◌==◌, List, [], ◌∷◌, eqb, if◌then◌else◌,
}
use erizo_controller.Redis.Decimal.{is_space}

-- Whether a character is one of `delim`, as `find_first_of` asks.
unfoldable pub is_delim : String → Char → Bool
is_delim String.[] c = false
is_delim (String.◌∷◌ d delim) c = eqb (code d) (code c) || is_delim delim c

-- A character in front of the first piece.
abbrev pub extend_first : Char → List String → List String
extend_first c [] = String.◌∷◌ c String.[] ∷ []
extend_first c (piece ∷ pieces) = String.◌∷◌ c piece ∷ pieces

-- `split`: the pieces between the delimiters. The last one is there even if it is empty, since
-- `npos - last` is not 0.
unfoldable pub split : String → String → List String
split delim String.[] = "" ∷ []
split delim (String.◌∷◌ c s) =
    let pieces = split delim s in if is_delim delim c then "" ∷ pieces else extend_first c pieces

unfoldable pub all_space : String → Bool
all_space String.[] = true
all_space (String.◌∷◌ c s) = is_space (code c) && all_space s

unfoldable pub drop_spaces : String → String
drop_spaces String.[] = String.[]
drop_spaces (String.◌∷◌ c s) =
    let rest = drop_spaces s in if is_space (code c) then rest else String.◌∷◌ c s

-- `trimLeft`: a text of spaces alone is returned as it is.
unfoldable pub trim_left : String → String
unfolding all_space drop_spaces
trim_left s = if all_space s then s else drop_spaces s

-- `trimRight`
unfoldable pub trim_right : String → String
unfolding all_space
trim_right String.[] = String.[]
trim_right (String.◌∷◌ c s) =
    let rest = trim_right s in
    if is_space (code c) && all_space s then String.[] else String.◌∷◌ c rest

unfoldable pub trim : String → String
trim s = trim_right (trim_left s)
