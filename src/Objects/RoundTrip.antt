-- ===== src/Objects/RoundTrip.antt =====
-- internal/objectstore/keys.go: `SpecFromKey` and `shaOfKey` on the keys that `BuildKey` makes.
use k8s_ai.Base.{
  ℕ, ◌≡◌, refl, sym, ap, ◌∙◌, ◌≤◌, subst, ◌⊎◌, Bool, true, false, not, ◌||◌, inl, inr, List, [],
  ◌∷◌, ◌++◌, Text, ◌==◌, nat_eq, text_eq, if◌then◌else◌, leb, arith, contains, is_empty, length,
  nat_beq_iff, drop, take, split_at, split_at-join, last_text, after_last, IsPlain, Result, ok, err,
  guard->>, >>-both, >>=-eq-ok, byte_length, trim_space, to_lower,
}
use k8s_ai.Objects.Key.{
  valid_category, slash, dot, is_digit, is_lower, is_hex, is_sha256, ext_of_tail, ext_of_key,
  but_last, scope_of, second, is_extension, with_dot, normalize_ext, assemble, is_dots,
  prefix_or_default, build_key, spec_from_key, sha_of_key, validate_key, prefix_too_long,
  bad_category, no_scope, bad_sha, bad_extension,
}
use k8s_ai.Objects.Parts.{
  last_text_back, but_last_back, take_front, length_append, ext_of_tail_back, ext_of_tail_none,
  contains-all, contains_append, category_plain,
}

injective : {F V : Type 0} {v w : V} → ◌≡◌ {A = Result F V} (ok v) (ok w) → v ≡ w
injective h = cc

-- What a successful `BuildKey` has checked.
pub record Built (category : Text) (scope : List Text) (sha ext key prefix : Text) : Type 0 where
  pub normal : Text
  pub is_category : valid_category category ≡ true
  pub has_scope : is_empty scope ≡ false
  pub is_sha : is_sha256 sha ≡ true
  pub normalized : normalize_ext ext ≡ ok normal
  pub valid : validate_key key ≡ ok tt
  pub assembled : assemble prefix category scope sha normal ≡ key

pub build_key-checked :
    (raw category : Text) (scope : List Text) (sha ext key : Text)
    → build_key raw category scope sha ext ≡ ok key
    → Built category scope sha ext key (prefix_or_default raw)
unfolding build_key
build_key-checked raw category scope sha ext key h =
    let (u1, h1) = guard->> (leb (byte_length (prefix_or_default raw)) 32) prefix_too_long _ h in
    let (u2, h2) = guard->> (valid_category category) bad_category _ h1 in
    let (u3, h3) = guard->> (not (is_empty scope)) no_scope _ h2 in
    let (u4, h4) = guard->> (is_sha256 sha) bad_sha _ h3 in
    let (normal, n, h5) = >>=-eq-ok (normalize_ext ext) _ h4 in
    let (v, a) =
      >>-both (validate_key (assemble (prefix_or_default raw) category scope sha normal)) _ h5 in
    record {
      normal = normal;
      is_category = u2;
      has_scope = ground arith;
      is_sha = u4;
      normalized = n;
      valid = subst (λ k. validate_key k ≡ ok tt) (injective a) v;
      assembled = injective a;
    }

digits_plain :
    (sha : Text) (c : ℕ) → is_hex c ≡ false → is_sha256 sha ≡ true → contains sha c ≡ false
unfolding is_sha256
digits_plain sha c miss h = contains-all is_hex c miss sha (ground arith)

extension_shape :
    (ext : Text)
    → is_extension ext ≡ true
    → (e : Text) × (ext ≡ dot ∷ e) × (contains ext slash ≡ false)
unfolding is_extension
extension_shape [] h = cc
extension_shape (c ∷ []) h = cc
extension_shape (c ∷ d ∷ rest) h =
    let clean =
      contains-all (λ r. is_lower r || is_digit r || r == dot) slash refl rest (ground arith) in
    (d ∷ rest, ap (λ x. x ∷ d ∷ rest) ((nat_beq_iff c dot).0 (ground arith)), ground arith)

-- A normalized extension is empty, or a dot and runes none of which is a slash.
normalize_ext-cases :
    (ext normal : Text)
    → normalize_ext ext ≡ ok normal
    → (normal ≡ []) ⊎ ((e : Text) × (normal ≡ dot ∷ e) × (contains normal slash ≡ false))
unfolding normalize_ext
normalize_ext-cases ext normal h =
    let found = with_dot (to_lower (trim_space ext)) in
    elim (choose (is_empty (to_lower (trim_space ext))) (is_dots found || not (is_extension found))
      found h) [
        | inl e ↦ inl e
        | inr (d, e) ↦
            let (rest, shape, plain) = extension_shape found (ground arith) in
            inr (rest, sym e ∙ shape, subst (λ t. contains t slash ≡ false) e plain)
      ]
  where
    choose :
        (a b : Bool) (w : Text)
        → (if a then ok [] else if b then err bad_extension else ok w) ≡ ok normal
        → (normal ≡ []) ⊎ ((b ≡ false) × (w ≡ normal))
    choose true b w k = inl (sym (injective k))
    choose false true w k = cc
    choose false false w k = inr (refl, injective k)

append-IsPlain :
    (ss : List Text) (s : Text)
    → IsPlain slash ss
    → contains s slash ≡ false
    → IsPlain slash (ss ++ (s ∷ []))
append-IsPlain [] s h k = (k, tt)
append-IsPlain (t ∷ ss) s h k = (h.0, append-IsPlain ss s h.1 k)

split_key :
    (prefix category : Text) (scope : List Text) (sha normal : Text)
    → contains prefix slash ≡ false
    → valid_category category ≡ true
    → IsPlain slash scope
    → contains (sha ++ normal) slash ≡ false
    → split_at slash (assemble prefix category scope sha normal)
      ≡ prefix ∷ category ∷ (scope ++ ((sha ++ normal) ∷ []))
unfolding assemble
split_key prefix category scope sha normal p c s n =
    split_at-join slash prefix (category ∷ (scope ++ ((sha ++ normal) ∷ [])))
      (p, (category_plain category c, append-IsPlain scope (sha ++ normal) s n))

-- The extension has no dot but the one at its front.
abbrev pub IsSimple : Text → Type 0
IsSimple normal = contains (drop 1 normal) dot ≡ false

-- The name of the file is cut into the hash and the extension again.
tail_parts :
    (sha normal : Text)
    → length sha ≡ 64
    → contains sha dot ≡ false
    → (normal ≡ []) ⊎ ((e : Text) × (normal ≡ dot ∷ e) × (contains normal slash ≡ false))
    → IsSimple normal
    → (take 64 (sha ++ normal) ≡ sha) × (ext_of_tail (sha ++ normal) ≡ normal)
tail_parts sha normal long plain shape simple =
    (subst (λ n. take n (sha ++ normal) ≡ sha) long (take_front sha normal), ext shape)
  where
    ext :
        (normal ≡ []) ⊎ ((e : Text) × (normal ≡ dot ∷ e) × (contains normal slash ≡ false))
        → ext_of_tail (sha ++ normal) ≡ normal
    ext (inl q) = subst (λ n. ext_of_tail (sha ++ n) ≡ n) (sym q) (ext_of_tail_none sha plain)
    ext (inr (e, q, clean)) =
        subst (λ n. ext_of_tail (sha ++ n) ≡ n) (sym q)
          (ext_of_tail_back sha e long (subst IsSimple q simple))

is_sha256-length : (sha : Text) → is_sha256 sha ≡ true → length sha ≡ 64
unfolding is_sha256
is_sha256-length sha h = (nat_beq_iff (length sha) 64).0 (ground arith)

no_slash :
    {normal : Text}
    → (normal ≡ []) ⊎ ((e : Text) × (normal ≡ dot ∷ e) × (contains normal slash ≡ false))
    → contains normal slash ≡ false
no_slash (inl e) = rw e
no_slash (inr (e, q, clean)) = clean

-- What the two readers find in a valid key of known segments.
read_parts :
    (prefix category : Text) (scope : List Text) (tail key sha normal : Text)
    → split_at slash key ≡ prefix ∷ category ∷ (scope ++ (tail ∷ []))
    → validate_key key ≡ ok tt
    → is_empty scope ≡ false
    → 64 ≤ length tail
    → take 64 tail ≡ sha
    → ext_of_tail tail ≡ normal
    → (spec_from_key key ≡ ok (record { category = category; scope = scope; ext = normal }))
      × (sha_of_key key ≡ sha)
unfolding spec_from_key sha_of_key ext_of_key scope_of after_last
read_parts prefix category scope tail key sha normal q v has long hash ext =
    let last : last_text (split_at slash key) ≡ tail =
      ap last_text q ∙ last_text_back (prefix ∷ category ∷ scope) tail in
    let middle : but_last (drop 2 (split_at slash key)) ≡ scope =
      ap (λ l. but_last (drop 2 l)) q ∙ but_last_back scope tail in
    (
      rw (spec_from_key, v, scope_of, ext_of_key, after_last, middle, has, last, ext, ap second q),
      rw (sha_of_key, after_last, last, hash) (ground arith),
    )

-- A key that was built from a prefix and scope segments without slashes and an extension with no
-- dot but the one at its front is read back as the same category, scope, normalized extension and
-- digest.
pub spec_from_key-build_key :
    (raw category : Text) (scope : List Text) (sha ext normal key : Text)
    → build_key raw category scope sha ext ≡ ok key
    → normalize_ext ext ≡ ok normal
    → contains (prefix_or_default raw) slash ≡ false
    → IsPlain slash scope
    → IsSimple normal
    → (spec_from_key key ≡ ok (record { category = category; scope = scope; ext = normal }))
      × (sha_of_key key ≡ sha)
unfolding is_hex
spec_from_key-build_key raw category scope sha ext normal key h n p s simple =
    let built = build_key-checked raw category scope sha ext key h in
    let e : built.normal ≡ normal = injective (sym built.normalized ∙ n) in
    let long : length sha ≡ 64 = is_sha256-length sha built.is_sha in
    let cases = normalize_ext-cases ext normal n in
    let digits = digits_plain sha in
    let parts = tail_parts sha normal long (digits dot refl built.is_sha) cases simple in
    let q =
      split_key (prefix_or_default raw) category scope sha normal p built.is_category s
        (contains_append sha normal slash (digits slash refl built.is_sha) (no_slash cases)) in
    read_parts (prefix_or_default raw) category scope (sha ++ normal) key sha normal
      (ap (split_at slash)
          (sym built.assembled ∙ ap (assemble (prefix_or_default raw) category scope sha) e)
        ∙ q)
      built.valid built.has_scope
      (subst (λ l. 64 ≤ l) (sym (length_append sha normal)) (ground arith)) parts.0 parts.1
