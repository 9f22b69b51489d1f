-- ===== src/Objects/Key.antt =====
-- internal/objectstore/keys.go: the keys of stored objects, `prefix/category/scope/sha256.ext`. A
-- regular expression is written out as a test of the runes and segments that it describes.
use k8s_ai.Base.{
  ℕ, zero, suc, Bool, true, false, not, ◌&&◌, ◌||◌, List, [], ◌∷◌, ◌++◌, Option, none, some, Text,
  codes, ◌==◌, nat_eq, text_eq, if◌then◌else◌, ltb, leb, all, contains, is_empty, length,
  has_prefix, trim_space, to_lower, byte_length, join, split_at, last_text, after_last, Result, ok,
  err, guard, ◌>>=◌, ◌>>◌, drop, take, trim_suffix,
}

-- `ErrKeyInvalid`, with what the message says.
pub data KeyError : Type 0 where
  empty_key too_long bad_characters too_few_segments dot_segment bad_category bad_hash : KeyError
  prefix_too_long no_scope bad_sha bad_extension bad_scope bad_list_prefix : KeyError

-- `Spec`, as far as keys go.
pub record Spec : Type 0 where
  pub category : Text
  pub scope : List Text
  pub ext : Text

abbrev pub default_prefix : Text
default_prefix = codes "k8sai"

unfoldable pub categories : List Text
categories = codes "reports" ∷ codes "attachments" ∷ codes "exports" ∷ codes "sessions" ∷ []

unfoldable pub valid_category : Text → Bool
valid_category category = contains categories category

abbrev pub slash : ℕ
slash = 0x2f

abbrev pub dot : ℕ
dot = 0x2e

abbrev pub is_digit : ℕ → Bool
is_digit c = leb 0x30 c && leb c 0x39

abbrev pub is_lower : ℕ → Bool
is_lower c = leb 0x61 c && leb c 0x7a

-- `[a-z0-9._-]`.
unfoldable pub is_key_rune : ℕ → Bool
is_key_rune c = is_lower c || is_digit c || c == dot || c == 0x5f || c == 0x2d

unfoldable pub is_hex : ℕ → Bool
is_hex c = is_digit c || (leb 0x61 c && leb c 0x66)

-- `keySegmentRe`.
unfoldable pub is_segment : Text → Bool
is_segment s = not (is_empty s) && all is_key_rune s

-- `keyRe`: segments, with a slash between each two.
unfoldable pub matches_key : Text → Bool
matches_key key = all is_segment (split_at slash key)

-- `strings.Trim(seg, ".") == ""`.
unfoldable pub is_dots : Text → Bool
is_dots seg = all (λ c. c == dot) seg

-- At least `n` hexadecimal digits at the front, `hashRe` at 64.
unfoldable pub hex_front : ℕ → Text → Bool
hex_front zero s = true
hex_front (suc n) [] = false
hex_front (suc n) (c ∷ s) = is_hex c && hex_front n s

-- `IsSHA256`.
unfoldable pub is_sha256 : Text → Bool
is_sha256 s = length s == 64 && all is_hex s

abbrev pub second : List Text → Text
second [] = []
second (a ∷ []) = []
second (a ∷ b ∷ rest) = b

-- `ValidateKey`.
unfoldable pub validate_key : Text → Result KeyError (Unit {0})
validate_key key = do
  guard (not (is_empty key)) empty_key
  guard (leb (byte_length key) 191) too_long
  guard (matches_key key) bad_characters
  guard (leb 3 (length (split_at slash key))) too_few_segments
  guard (all (λ seg. not (is_dots seg)) (split_at slash key)) dot_segment
  guard (valid_category (second (split_at slash key))) bad_category
  guard (hex_front 64 (last_text (split_at slash key))) bad_hash

-- `CategoryOf`.
unfoldable pub category_of : Text → Text
category_of key =
    let category = second (split_at slash key) in if valid_category category then category else []

-- `shaOfKey`.
unfoldable pub sha_of_key : Text → Text
sha_of_key key =
    let tail = after_last slash key in if ltb (length tail) 64 then [] else take 64 tail

-- `strings.LastIndex(s, ".")`, as the text from there on.
unfoldable pub from_last_dot : Text → Option Text
from_last_dot [] = none
from_last_dot (c ∷ s) = elim (from_last_dot s) [
  | some t ↦ some t
  | none ↦ if c == dot then some (c ∷ s) else none
]

-- `extOfKey` on the last segment: a dot at its front counts as none.
unfoldable pub ext_of_tail : Text → Text
ext_of_tail tail = elim (from_last_dot tail) [
  | none ↦ []
  | some ext ↦ if length ext == length tail then [] else ext
]

unfoldable pub ext_of_key : Text → Text
ext_of_key key = ext_of_tail (after_last slash key)

-- `segments[2:len(segments)-1]`.
abbrev pub but_last : List Text → List Text
but_last [] = []
but_last (s ∷ []) = []
but_last (s ∷ t ∷ ss) = s ∷ but_last (t ∷ ss)

unfoldable pub scope_of : List Text → List Text
scope_of segments = but_last (drop 2 segments)

-- `SpecFromKey`.
unfoldable pub spec_from_key : Text → Result KeyError Spec
spec_from_key key = do
  validate_key key
  guard (not (is_empty (scope_of (split_at slash key)))) no_scope
  ok (record {
    category = second (split_at slash key);
    scope = scope_of (split_at slash key);
    ext = ext_of_key key;
  })

-- `extRe`: a dot, a letter or digit, and at most fifteen letters, digits and dots.
unfoldable pub is_extension : Text → Bool
is_extension [] = false
is_extension (c ∷ []) = false
is_extension (c ∷ d ∷ rest) =
    c == dot
    && (is_lower d || is_digit d)
    && leb (length rest) 15
    && all (λ r. is_lower r || is_digit r || r == dot) rest

abbrev pub with_dot : Text → Text
with_dot ext = if has_prefix ext (dot ∷ []) then ext else dot ∷ ext

-- `NormalizeExt`.
unfoldable pub normalize_ext : Text → Result KeyError Text
normalize_ext raw =
    let ext = to_lower (trim_space raw) in
    if is_empty ext
    then ok []
    else if is_dots (with_dot ext) || not (is_extension (with_dot ext))
    then err bad_extension
    else ok (with_dot ext)

-- The assembly of a key from its parts.
unfoldable pub assemble : Text → Text → List Text → Text → Text → Text
assemble prefix category scope sha ext =
    join (slash ∷ []) (prefix ∷ category ∷ (scope ++ ((sha ++ ext) ∷ [])))

abbrev pub prefix_or_default : Text → Text
prefix_or_default raw =
    let prefix = trim_space raw in if is_empty prefix then default_prefix else prefix

-- `BuildKey`.
unfoldable pub build_key : Text → Text → List Text → Text → Text → Result KeyError Text
build_key raw category scope sha ext = do
  let prefix = prefix_or_default raw
  guard (leb (byte_length prefix) 32) prefix_too_long
  guard (valid_category category) bad_category
  guard (not (is_empty scope)) no_scope
  guard (is_sha256 sha) bad_sha
  normalized ← normalize_ext ext
  validate_key (assemble prefix category scope sha normalized)
  ok (assemble prefix category scope sha normalized)

abbrev pub scope_segment : Text → Bool
scope_segment seg = is_segment seg && not (is_dots seg)

-- `validateSpecHead`.
unfoldable pub validate_spec_head : Spec → Result KeyError Text
validate_spec_head spec = do
  guard (valid_category spec.category) bad_category
  guard (not (is_empty spec.scope)) no_scope
  guard (all scope_segment spec.scope) bad_scope
  normalize_ext spec.ext

-- `ValidateListPrefix`.
unfoldable pub validate_list_prefix : Text → Result KeyError (Unit {0})
validate_list_prefix prefix = do
  guard (not (is_empty prefix)) bad_list_prefix
  guard (leb (byte_length prefix) 191) too_long
  guard (not (is_empty (trim_suffix prefix (slash ∷ [])))) bad_list_prefix
  guard (all scope_segment (split_at slash (trim_suffix prefix (slash ∷ [])))) bad_list_prefix

-- `strings.TrimLeft(s, "/")` and its mirror.
abbrev pub trim_left_slashes : Text → Text
trim_left_slashes [] = []
trim_left_slashes (c ∷ s) = let rest = trim_left_slashes s in if c == slash then rest else (c ∷ s)

abbrev pub trim_right_slashes : Text → Text
trim_right_slashes [] = []
trim_right_slashes (c ∷ s) = put_back c (trim_right_slashes s)
  where
    put_back : ℕ → Text → Text
    put_back c [] = if c == slash then [] else c ∷ []
    put_back c (d ∷ t) = c ∷ d ∷ t

-- `NormalizePrefix`.
unfoldable pub normalize_prefix : Text → Result KeyError Text
normalize_prefix raw =
    let prefix = trim_right_slashes (trim_left_slashes (trim_space raw)) in
    if is_empty prefix then ok default_prefix else validate_list_prefix prefix >> ok prefix
