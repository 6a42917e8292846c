-- ===== src/Route/Text/Split.antt =====
-- route/Utility.cpp: `split` finds the pieces that a text was joined from.
use Prim.Native.Char.{Char}
use erizo_controller.Base.{Bool, not, ◌&&◌, true, false, String, List, [], ◌∷◌, ◌≡◌, refl, ap, ◌∙◌}
use erizo_controller.Route.Text.{is_delim, split}

-- `a` before `b`.
unfoldable pub before : String → String → String
before String.[] b = b
before (String.◌∷◌ c a) b = String.◌∷◌ c (before a b)

-- No character of the text is a delimiter.
unfoldable pub is_piece : String → String → Bool
is_piece delim String.[] = true
is_piece delim (String.◌∷◌ c s) = not (is_delim delim c) && is_piece delim s

abbrev pub IsPiece : String → String → Type 0
IsPiece delim s = is_piece delim s ≡ true

both : (a b : Bool) → (not a && b) ≡ true → (a ≡ false) × (b ≡ true)
both false b h = (refl, h)
both true b h = absurd (cc h)

split-IsPiece : (delim s : String) → IsPiece delim s → split delim s ≡ s ∷ []
unfolding split is_piece
split-IsPiece delim String.[] p = refl
split-IsPiece delim (String.◌∷◌ c s) p =
    let (f, q) = both (is_delim delim c) (is_piece delim s) p in
    rw (f, split-IsPiece delim s q) refl

split-before :
    (delim a b : String) (d : Char)
    → IsPiece delim a
    → is_delim delim d ≡ true
    → split delim (before a (String.◌∷◌ d b)) ≡ a ∷ split delim b
unfolding split is_piece before
split-before delim String.[] b d p t = rw t refl
split-before delim (String.◌∷◌ c a) b d p t =
    let (f, q) = both (is_delim delim c) (is_piece delim a) p in
    rw (f, split-before delim a b d q t) refl

-- The pieces with the delimiter `d` between them.
unfoldable pub join : Char → List String → String
join d [] = ""
join d (s ∷ []) = s
join d (s ∷ t ∷ pieces) = before s (String.◌∷◌ d (join d (t ∷ pieces)))

abbrev pub ArePieces : String → List String → Type 0
ArePieces delim [] = Unit
ArePieces delim (s ∷ pieces) = IsPiece delim s × ArePieces delim pieces

-- What is joined from at least one piece, with a delimiter between them that none of them holds, is
-- split into the same pieces.
pub split-join :
    (delim : String) (d : Char) (s : String) (pieces : List String)
    → is_delim delim d ≡ true
    → ArePieces delim (s ∷ pieces)
    → split delim (join d (s ∷ pieces)) ≡ s ∷ pieces
unfolding join
split-join delim d s [] t (p, _) = split-IsPiece delim s p
split-join delim d s (u ∷ pieces) t (p, ps) =
    split-before delim s (join d (u ∷ pieces)) d p t
    ∙ ap (λ (l : List String). s ∷ l) (split-join delim d u pieces t ps)
