-- ===== src/Route/Table/Lookup.antt =====
-- Lookups in the table of route/IpTable.cpp.
use erizo_controller.Base.{
  ℕ, ◌≤◌, ◌<◌, Bool, true, false, ◌&&◌, Option, none, some, [], ◌∷◌, leb, All, ◌≡◌, refl, ◌⊎◌, sym,
  ap, ◌∙◌, Bool-cases, inl, inr, arith, if◌then◌else◌,
}
use erizo_controller.Route.Enums.{IpTableValue}
use erizo_controller.Route.Table.{IpTableKey, IpTableMap, point, key_eq, key_lt, insert, find}

-- The ranges of a table lie apart, in rising order.
abbrev pub IsApart : IpTableMap → Type 0
IsApart [] = Unit
IsApart ((j, u) ∷ table) = (j.from ≤ j.to) × All (λ e. j.to < e.0.from) table × IsApart table

abbrev pub covers : ℕ → IpTableKey → Bool
covers ip k = leb k.from ip && leb ip k.to

-- The value of the first range that covers an address.
unfoldable pub scan : ℕ → IpTableMap → Option IpTableValue
scan ip [] = none
scan ip ((j, u) ∷ table) = let rest = scan ip table in if covers ip j then some u else rest

All-above :
    (m n : ℕ) (table : IpTableMap)
    → m ≤ n
    → All (λ e. n < e.0.from) table
    → All (λ e. m < e.0.from) table
All-above m n [] h a = tt
All-above m n (e ∷ table) h (b, a) = (omega arith, All-above m n table h a)

scan-above : (ip : ℕ) (table : IpTableMap) → All (λ e. ip < e.0.from) table → scan ip table ≡ none
unfolding scan
scan-above ip [] a = refl
scan-above ip ((j, u) ∷ table) (b, a) = ground (arith, scan-above ip table a)

lt_lower : (j k : IpTableKey) → j.from ≤ j.to → k.from ≤ k.to → j.to < k.from → key_lt j k ≡ true
unfolding key_lt key_eq
lt_lower j k v w h = ground arith

lt_upper : (j k : IpTableKey) → j.from ≤ j.to → k.from ≤ k.to → j.to < k.from → key_lt k j ≡ false
unfolding key_lt key_eq
lt_upper j k v w h = ground arith

lt_inside : (ip : ℕ) (j : IpTableKey) → covers ip j ≡ true → key_lt j (point ip) ≡ false
unfolding key_lt key_eq
lt_inside ip j h = ground arith

lt_around : (ip : ℕ) (j : IpTableKey) → covers ip j ≡ true → key_lt (point ip) j ≡ false
unfolding key_lt key_eq
lt_around ip j h = ground arith

-- Where an address lies from a range.
place : (ip : ℕ) (j : IpTableKey) → (covers ip j ≡ true) ⊎ ((j.to < ip) ⊎ (ip < j.from))
place ip j = elim (Bool-cases (covers ip j)) [ inl e ↦ inl e | inr e ↦ inr (ground arith) ]

covers-lower : (ip : ℕ) (j : IpTableKey) → j.to < ip → covers ip j ≡ false
covers-lower ip j h = ground arith

covers-upper : (ip : ℕ) (j : IpTableKey) → ip < j.from → covers ip j ≡ false
covers-upper ip j h = ground arith

-- In a table whose ranges lie apart in rising order, `find` finds the range that covers the
-- address, if there is one.
pub find-scan :
    (ip : ℕ) (table : IpTableMap) → IsApart table → find (point ip) table ≡ scan ip table
unfolding find scan
find-scan ip [] h = refl
find-scan ip ((j, u) ∷ table) (v, a, h) = elim (place ip j) [
  | inl e ↦ rw (find, scan, lt_inside ip j e, lt_around ip j e, e) refl
  | inr (inl e) ↦
      rw (find, scan, lt_lower j (point ip) v (omega arith) e, covers-lower ip j e)
        (find-scan ip table h)
  | inr (inr e) ↦
      rw
        (
          find,
          scan,
          lt_upper (point ip) j (omega arith) v e,
          lt_lower (point ip) j (omega arith) v e,
          covers-upper ip j e,
        )
        (sym (scan-above ip table (All-above ip j.to table (omega arith) a)))
]

-- A new range that lies apart from all of a table.
abbrev pub IsNew : IpTableKey → IpTableMap → Type 0
IsNew k table = All (λ e. (e.0.to < k.from) ⊎ (k.to < e.0.from)) table

All-insert :
    (n : ℕ) (k : IpTableKey) (v : IpTableValue) (table : IpTableMap)
    → n < k.from
    → All (λ e. n < e.0.from) table
    → All (λ e. n < e.0.from) (insert k v table)
unfolding insert
All-insert n k v [] h a = (h, tt)
All-insert n k v ((j, u) ∷ table) h (b, a) = elim (Bool-cases (key_lt j k)) [
  | inl e ↦ rw (insert, e) (b, All-insert n k v table h a)
  | inr e ↦ elim (Bool-cases (key_lt k j)) [
    | inl f ↦ rw (insert, e, f) (h, (b, a))
    | inr f ↦ rw (insert, e, f) (b, a)
  ]
]

insert-IsApart :
    (k : IpTableKey) (v : IpTableValue) (table : IpTableMap)
    → k.from ≤ k.to
    → IsApart table
    → IsNew k table
    → IsApart (insert k v table)
unfolding insert
insert-IsApart k v [] w h n = (w, tt, tt)
insert-IsApart k v ((j, u) ∷ table) w (d, a, h) (inl e, n) =
    rw (insert, lt_lower j k d w e)
      (d, All-insert j.to k v table e a, insert-IsApart k v table w h n)
insert-IsApart k v ((j, u) ∷ table) w (d, a, h) (inr e, n) =
    rw (insert, lt_upper k j w d e, lt_lower k j w d e)
      (w, (e, All-above k.to j.to table (omega arith) a), (d, a, h))

inside_high : (ip : ℕ) (j k : IpTableKey) → covers ip j ≡ true → j.to < k.from → ip < k.from
inside_high ip j k e h = ground arith

swapped :
    (ip : ℕ) (j k : IpTableKey) (x y r : Option IpTableValue)
    → j.to < k.from
    → (if covers ip j then x else if covers ip k then y else r)
      ≡ (if covers ip k then y else if covers ip j then x else r)
swapped ip j k x y r h = elim (place ip j) [
  | inl e ↦ rw (e, covers-upper ip k (inside_high ip j k e h)) refl
  | inr (inl e) ↦ rw (covers-lower ip j e) refl
  | inr (inr e) ↦ rw (covers-upper ip j e) refl
]

scan-insert :
    (ip : ℕ) (k : IpTableKey) (v : IpTableValue) (table : IpTableMap)
    → k.from ≤ k.to
    → IsApart table
    → IsNew k table
    → scan ip (insert k v table) ≡ (if covers ip k then some v else scan ip table)
unfolding insert scan
scan-insert ip k v [] w h n = refl
scan-insert ip k v ((j, u) ∷ table) w (d, a, h) (inl e, n) =
    rw (insert, lt_lower j k d w e, scan, scan-insert ip k v table w h n)
      (swapped ip j k (some u) (some v) (scan ip table) e)
scan-insert ip k v ((j, u) ∷ table) w (d, a, h) (inr e, n) =
    rw (insert, lt_upper k j w d e, lt_lower k j w d e) refl

-- A range that lies apart from those of the table is taken in: the table keeps its order, the
-- addresses of the range get its value, and all others what they had.
pub find-insert :
    (ip : ℕ) (k : IpTableKey) (v : IpTableValue) (table : IpTableMap)
    → k.from ≤ k.to
    → IsApart table
    → IsNew k table
    → IsApart (insert k v table)
      × (find (point ip) (insert k v table)
          ≡ (if covers ip k then some v else find (point ip) table))
find-insert ip k v table w h n = (
  insert-IsApart k v table w h n,
  find-scan ip (insert k v table) (insert-IsApart k v table w h n)
      ∙ scan-insert ip k v table w h n
      ∙ ap (λ r. if covers ip k then some v else r) (sym (find-scan ip table h)),
)
