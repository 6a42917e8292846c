-- ===== src/Demo/Codec.antt =====
-- The text format of the trees of `Tree.antt`, and that it can be read back.
use Prim.Native.Char.{Char, code}
use erizo_controller.Base.{
  ℕ, zero, suc, ◌+◌, ◌≤◌, pos, negsuc, true, false, String, ◌≡◌, refl, ap, ◌∙◌, ◌==◌, inl, inr,
  Bool-cases, eq_iff, arith, eqb, if◌then◌else◌,
}
use erizo_controller.Demo.Tree.{Tree, null, flag, int, uint, str, field, item}

infixr 66 ◌▹◌
abbrev ◌▹◌ : Char → String → String
c ▹ s = String.◌∷◌ c s

encode_nat : ℕ → String → String
encode_nat zero t = "b" ▹ t
encode_nat (suc n) t = "a" ▹ encode_nat n t

encode_text : String → String → String
encode_text String.[] t = "b" ▹ t
encode_text (String.◌∷◌ c s) t = "a" ▹ c ▹ encode_text s t

encode : Tree → String → String
encode null t = "n" ▹ t
encode (flag true) t = "t" ▹ t
encode (flag false) t = "f" ▹ t
encode (int (pos n)) t = "p" ▹ encode_nat n t
encode (int (negsuc n)) t = "m" ▹ encode_nat n t
encode (uint n) t = "u" ▹ encode_nat n t
encode (str s) t = "s" ▹ encode_text s t
encode (field k x rest) t = "{" ▹ encode_text k (encode x (encode rest t))
encode (item x rest) t = "[" ▹ encode x (encode rest t)

depth : Tree → ℕ
depth (field k x rest) = suc (depth x + depth rest)
depth (item x rest) = suc (depth x + depth rest)
depth _ = 1

decode_nat : String → ℕ × String
decode_nat String.[] = (0, "")
decode_nat (String.◌∷◌ c t) =
    let (n, rest) = decode_nat t in if eqb (code c) b'a' then (suc n, rest) else (0, t)

decode_text : String → String × String
decode_text (String.◌∷◌ c (String.◌∷◌ d t)) =
    let (s, rest) = decode_text t in if eqb (code c) b'a' then (d ▹ s, rest) else ("", d ▹ t)
decode_text (String.◌∷◌ c String.[]) = ("", "")
decode_text String.[] = ("", "")

-- Trees by their first character.
decode_at : (String → Tree × String) → ℕ → String → Tree × String
decode_at again c t =
    if eqb c b't'
    then (flag true, t)
    else if eqb c b'f'
    then (flag false, t)
    else if eqb c b'p'
    then (let (n, u) = decode_nat t in (int (pos n), u))
    else if eqb c b'm'
    then (let (n, u) = decode_nat t in (int (negsuc n), u))
    else if eqb c b'u'
    then (let (n, u) = decode_nat t in (uint n, u))
    else if eqb c b's'
    then (let (s, u) = decode_text t in (str s, u))
    else if eqb c b'{'
    then (let (k, u) = decode_text t in
        let (x, v) = again u in let (rest, w) = again v in (field k x rest, w))
    else if eqb c b'['
    then (let (x, v) = again t in let (rest, w) = again v in (item x rest, w))
    else (null, t)

decode : ℕ → String → Tree × String
unfolding decode_at
decode zero t = (null, t)
decode (suc fuel) String.[] = (null, "")
decode (suc fuel) (String.◌∷◌ c t) = decode_at (decode fuel) (code c) t

decode-encode_nat : (n : ℕ) (t : String) → decode_nat (encode_nat n t) ≡ (n, t)
unfolding decode_nat encode_nat
decode-encode_nat zero t = refl
decode-encode_nat (suc n) t = rw (decode-encode_nat n t)

decode-encode_text : (s t : String) → decode_text (encode_text s t) ≡ (s, t)
unfolding decode_text encode_text
decode-encode_text String.[] String.[] = refl
decode-encode_text String.[] (String.◌∷◌ c t) = refl
decode-encode_text (String.◌∷◌ c s) t = rw (decode-encode_text s t)

decode-encode : (f : ℕ) (v : Tree) (t : String) → depth v ≤ f → decode f (encode v t) ≡ (v, t)
unfolding decode encode depth
decode-encode zero null t h = absurd (omega arith)
decode-encode zero (flag b) t h = absurd (omega arith)
decode-encode zero (int i) t h = absurd (omega arith)
decode-encode zero (uint n) t h = absurd (omega arith)
decode-encode zero (str s) t h = absurd (omega arith)
decode-encode zero (field k x rest) t h = absurd (omega arith)
decode-encode zero (item x rest) t h = absurd (omega arith)
decode-encode (suc f) null t h = refl
decode-encode (suc f) (flag true) t h = refl
decode-encode (suc f) (flag false) t h = refl
decode-encode (suc f) (int (pos n)) t h = rw (decode-encode_nat n t)
decode-encode (suc f) (int (negsuc n)) t h = rw (decode-encode_nat n t)
decode-encode (suc f) (uint n) t h = rw (decode-encode_nat n t)
decode-encode (suc f) (str s) t h = rw (decode-encode_text s t)
decode-encode (suc f) (field k x rest) t h = rw (
  decode-encode_text k (encode x (encode rest t)),
  decode-encode f x (encode rest t) (omega arith),
  decode-encode f rest t (omega arith),
)
decode-encode (suc f) (item x rest) t h =
    rw (decode-encode f x (encode rest t) (omega arith), decode-encode f rest t (omega arith))

-- The fuel of the reader is written first.
pub write : Tree → String
write v = encode_nat (depth v) (encode v "")

decode_all : ℕ × String → Tree
decode_all (f, u) = (decode f u).0

pub read : String → Tree
read t = decode_all (decode_nat t)

pub read-write : (v : Tree) → read (write v) ≡ v
unfolding read write decode_all
read-write v =
    ap decode_all (decode-encode_nat (depth v) (encode v ""))
    ∙ ap (λ (r : Tree × String). r.0) (decode-encode (depth v) v "" (omega arith))

cons-full : (c : Char) (s : String) → (c ▹ s == "") ≡ false
cons-full c s = elim (Bool-cases (c ▹ s == "")) [
  | inl e ↦ absurd (cc ((eq_iff (c ▹ s) "").0 e))
  | inr e ↦ e
]

pub write_field-full : (k : String) (x rest : Tree) → (write (field k x rest) == "") ≡ false
unfolding write depth encode_nat
write_field-full k x rest = cons-full _ _

-- A text that does not begin with a depth holds nothing.
pub read-bracket : (s : String) → read ("[" ▹ s) ≡ null
unfolding read decode_all decode_nat decode
read-bracket s = refl
