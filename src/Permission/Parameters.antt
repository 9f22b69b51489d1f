-- ===== src/Permission/Parameters.antt =====
-- internal/permission/permission.go: the segments {id} of a pattern.
use mathlib.Core.List.{reverse, reverse-append, reverse-reverse}
use k8s_ai.Base.{
  ℕ, ◌+◌, ◌<◌, true, [], ◌∷◌, ◌++◌, Text, codes, nat_eq, nat_beq_iff, ltb, has_prefix, has_suffix,
  byte_length, ◌≡◌, ◌≢◌, refl, sym, ap, ◌∙◌, arith,
}
use k8s_ai.Permission.{is_parameter}

abbrev pub in_braces : Text → Text
in_braces name = b'{' ∷ (name ++ (b'}' ∷ []))

byte_length-append : (s t : Text) → byte_length (s ++ t) ≡ byte_length s + byte_length t
unfolding byte_length
byte_length-append [] t = omega arith
byte_length-append (c ∷ s) t = omega (arith, byte_length-append s t)

byte_length_positive : (s : Text) → s ≢ [] → 0 < byte_length s
unfolding byte_length
byte_length_positive [] h = absurd (h refl)
byte_length_positive (c ∷ s) h = ground arith

first_code : (c d : ℕ) (w : Text) → has_prefix (c ∷ w) (d ∷ []) ≡ true → c ≡ d
unfolding has_prefix
first_code c d w q = (nat_beq_iff c d).0 (ground arith)

-- What ends in a brace.
brace_end : (s : Text) → has_suffix s (codes "}") ≡ true → (w : Text) × (s ≡ w ++ (b'}' ∷ []))
unfolding has_suffix has_prefix
brace_end s h = by_reverse (reverse s) refl h
  where
    by_reverse :
        (u : Text)
        → reverse s ≡ u
        → has_prefix u (reverse (codes "}")) ≡ true
        → (w : Text) × (s ≡ w ++ (b'}' ∷ []))
    by_reverse [] e q = cc q
    by_reverse (c ∷ w) e q = (
      reverse w,
      sym (reverse-reverse s)
          ∙ ap reverse (e ∙ ap (λ d. d ∷ w) (first_code c b'}' w q))
          ∙ reverse-append (b'}' ∷ []) w,
    )

abbrev first_of : Text → ℕ
first_of [] = 0
first_of (c ∷ s) = c

braced :
    (c : ℕ) (s w : Text)
    → c ∷ s ≡ w ++ (b'}' ∷ [])
    → c ≡ b'{'
    → 2 < byte_length (c ∷ s)
    → (name : Text) × (name ≢ []) × (c ∷ s ≡ in_braces name)
unfolding byte_length
braced c s [] e opens long = let q : c ≡ b'}' = ap first_of e in absurd (omega (arith, q, opens))
braced c s (d ∷ name) e opens long = (name, full, same)
  where
    same : c ∷ s ≡ in_braces name
    same = e ∙ ap (λ x. x ∷ (name ++ (b'}' ∷ []))) (sym (ap first_of e) ∙ opens)

    full : name ≢ []
    full empty =
        let two : byte_length (c ∷ s) ≡ 2 = ap byte_length (same ∙ ap in_braces empty) in
        omega (arith, two, long)

pub is_parameter-in_braces :
    (seg : Text) → is_parameter seg ≡ true → (name : Text) × (name ≢ []) × (seg ≡ in_braces name)
unfolding is_parameter has_prefix byte_length
is_parameter-in_braces [] h = cc h
is_parameter-in_braces (c ∷ s) h =
    let (w, e) = brace_end (c ∷ s) (ground arith) in
    braced c s w e (first_code c b'{' s (ground arith)) (ground arith)

pub in_braces-is_parameter : (name : Text) → name ≢ [] → is_parameter (in_braces name) ≡ true
unfolding is_parameter has_prefix has_suffix byte_length
in_braces-is_parameter name h =
    let many = byte_length_positive name h in
    let total = byte_length-append name (b'}' ∷ []) in
    let long : ltb 2 (byte_length (in_braces name)) ≡ true = ground (arith, many, total) in
    let ends : has_suffix (in_braces name) (codes "}") ≡ true =
      ap (λ u. has_prefix u (codes "}")) (reverse-append (b'{' ∷ name) (b'}' ∷ [])) in
    ground (arith, long, ends)
