-- ===== src/Base/Strings.antt =====
-- Go strings as lists of code points (a string that is valid UTF-8, rune by rune), and the
-- functions of Go's packages strings and unicode that the program calls on them.
use Prim.Native.Nat.{ℕ, ◌+◌}
use Prim.Native.Char.{code}
use Prim.Native.String.{String}
use mathlib.Core.Path.{◌≡◌}
use mathlib.Core.Logic.{◌↔◌}
use mathlib.Core.Bool.{Bool, true, false, ◌&&◌, ◌||◌}
use mathlib.Core.Option.{Option, none, some}
use mathlib.Core.List.{List, [], ◌∷◌, ◌++◌, map, reverse}
use native.Mathlib.Omega.{arith}
use k8s_ai.Base.Tests.{Eq, ◌==◌, nat_eq, if◌then◌else◌, leb, ltb}
use k8s_ai.Base.Lists.{length, drop}

abbrev pub Text : Type 0
Text = List ℕ

abbrev pub codes : String → Text
codes String.[] = []
codes (String.◌∷◌ c s) = code c ∷ codes s

unfoldable pub text_beq : Text → Text → Bool
text_beq [] [] = true
text_beq [] (d ∷ t) = false
text_beq (c ∷ s) [] = false
text_beq (c ∷ s) (d ∷ t) = c == d && text_beq s t

pub text_beq_iff : (s t : Text) → (text_beq s t ≡ true) ↔ (s ≡ t)
unfolding text_beq
text_beq_iff [] [] = ground arith
text_beq_iff [] (d ∷ t) = ground arith
text_beq_iff (c ∷ s) [] = ground arith
text_beq_iff (c ∷ s) (d ∷ t) = ground (arith, text_beq_iff s t)

instance abbrev pub text_eq : Eq Text
text_eq = record { same = text_beq; same_iff = text_beq_iff }

-- `unicode.IsSpace`: the characters with the property White_Space.
unfoldable pub is_space : ℕ → Bool
is_space c =
    (leb 0x9 c && leb c 0xd)
    || c == 0x20
    || c == 0x85
    || c == 0xa0
    || c == 0x1680
    || (leb 0x2000 c && leb c 0x200a)
    || c == 0x2028
    || c == 0x2029
    || c == 0x202f
    || c == 0x205f
    || c == 0x3000

-- `unicode.ToLower` where its result is an ASCII letter; other code points are left as they are,
-- which changes no comparison with an ASCII literal.
unfoldable pub lower_rune : ℕ → ℕ
lower_rune c =
    if leb b'A' c && leb c b'Z'
    then c + 32
    else if c == 0x130
    then b'i'
    else if c == 0x212a
    then b'k'
    else c

-- `strings.ToLower`.
unfoldable pub to_lower : Text → Text
to_lower s = map lower_rune s

-- `strings.HasPrefix(s, prefix)`.
unfoldable pub has_prefix : Text → Text → Bool
has_prefix s [] = true
has_prefix [] (p ∷ ps) = false
has_prefix (c ∷ s) (p ∷ ps) = c == p && has_prefix s ps

-- `strings.TrimPrefix(s, prefix)`.
unfoldable pub trim_prefix : Text → Text → Text
trim_prefix s p = if has_prefix s p then drop (length p) s else s

-- `strings.HasSuffix(s, suffix)`.
unfoldable pub has_suffix : Text → Text → Bool
has_suffix s p = has_prefix (reverse s) (reverse p)

-- `strings.TrimSuffix(s, suffix)`.
unfoldable pub trim_suffix : Text → Text → Text
trim_suffix s p = reverse (trim_prefix (reverse s) (reverse p))

-- `strings.Contains(s, sub)`.
unfoldable pub has_infix : Text → Text → Bool
has_infix [] sub = has_prefix [] sub
has_infix (c ∷ s) sub = has_prefix (c ∷ s) sub || has_infix s sub

unfoldable pub trim_left : Text → Text
trim_left [] = []
trim_left (c ∷ s) = if is_space c then trim_left s else c ∷ s

-- `strings.TrimSpace`.
unfoldable pub trim_space : Text → Text
trim_space s = reverse (trim_left (reverse (trim_left s)))

-- `i := strings.Index(s, c)` with `s[:i]` and `s[i+1:]` where `i >= 0`.
unfoldable pub cut : ℕ → Text → Option (Text × Text)
cut c [] = none
cut c (d ∷ s) =
    let rest = cut c s in
    if d == c then some ([], s) else elim rest [ none ↦ none | some (l, r) ↦ some (d ∷ l, r) ]

-- A token that is not empty is appended.
abbrev pub flush : Text → List Text → List Text
flush [] ts = ts
flush (c ∷ s) ts = (c ∷ s) ∷ ts

unfoldable pub fields_from : (ℕ → Bool) → Text → Text → List Text
fields_from sep cur [] = flush cur []
fields_from sep cur (c ∷ s) =
    let rest = fields_from sep (if sep c then [] else cur ++ (c ∷ [])) s in
    if sep c then flush cur rest else rest

-- `strings.FieldsFunc(s, sep)`.
unfoldable pub fields_by : (ℕ → Bool) → Text → List Text
fields_by sep s = fields_from sep [] s

-- `strings.Fields`.
unfoldable pub fields : Text → List Text
fields s = fields_by is_space s

abbrev rune_bytes : ℕ → ℕ
rune_bytes c = if ltb c 0x80 then 1 else if ltb c 0x800 then 2 else if ltb c 0x10000 then 3 else 4

-- `len(s)`: the length in bytes of the UTF-8 encoding.
unfoldable pub byte_length : Text → ℕ
byte_length [] = 0
byte_length (c ∷ s) = rune_bytes c + byte_length s

-- Everything that a run on concrete text computes with.
unfoldable pub strings : Unit {0}
unfolding text_beq is_space lower_rune to_lower has_prefix trim_prefix has_suffix trim_suffix
    has_infix trim_left trim_space cut fields_from fields_by fields byte_length
strings = tt
