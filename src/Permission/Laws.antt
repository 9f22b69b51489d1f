-- ===== src/Permission/Laws.antt =====
-- internal/permission/permission.go: the paths that a pattern matches.
use k8s_ai.Base.{
  true, List, [], ◌∷◌, ◌++◌, Text, codes, ◌==◌, nat_eq, text_eq, text_beq_iff, ◌≡◌, ◌≢◌, refl, ap,
  ◌∙◌, ◌⊎◌, inl, inr, ◌↔◌, arith, Bool-cases,
}
use k8s_ai.Permission.Parameters.{in_braces, is_parameter-in_braces, in_braces-is_parameter}
use k8s_ai.Permission.{is_parameter, segments_match}

-- A segment of a pattern that is no wildcard stands for itself, and {id} for any one segment.
abbrev pub Fits : Text → Text → Type 0
Fits seg t = (seg ≡ t) ⊎ ((name : Text) × (name ≢ []) × (seg ≡ in_braces name))

-- Segment by segment, as many of the one as of the other.
abbrev pub FitsAll : List Text → List Text → Type 0
FitsAll [] [] = Unit
FitsAll [] (t ∷ tp) = ⊥
FitsAll (s ∷ pp) [] = ⊥
FitsAll (s ∷ pp) (t ∷ tp) = Fits s t × FitsAll pp tp

-- A wildcard somewhere in the pattern: what stands before it fits the front of the path.
pub record HasFront (pp tp : List Text) : Type 0 where
  pub front : List Text
  pub behind : List Text
  pub split : pp ≡ front ++ (codes "*" ∷ behind)
  pub fitted : List Text
  pub rest : List Text
  pub path : tp ≡ fitted ++ rest
  pub fits : FitsAll front fitted

HasFront-later :
    (s t : Text) (pp tp : List Text) → Fits s t → HasFront pp tp → HasFront (s ∷ pp) (t ∷ tp)
HasFront-later s t pp tp f h = record {
  front = s ∷ h.front;
  behind = h.behind;
  split = ap (λ l. s ∷ l) h.split;
  fitted = t ∷ h.fitted;
  rest = h.rest;
  path = ap (λ l. t ∷ l) h.path;
  fits = (f, h.fits);
}

HasFront-here : (s : Text) (pp tp : List Text) → s == codes "*" ≡ true → HasFront (s ∷ pp) tp
HasFront-here s pp tp star = record {
  front = [];
  behind = pp;
  split = ap (λ x. x ∷ pp) ((text_beq_iff s (codes "*")).0 star);
  fitted = [];
  rest = tp;
  path = refl;
  fits = tt;
}

Fits-further :
    (s t : Text) (pp tp : List Text)
    → Fits s t
    → FitsAll pp tp ⊎ HasFront pp tp
    → FitsAll (s ∷ pp) (t ∷ tp) ⊎ HasFront (s ∷ pp) (t ∷ tp)
Fits-further s t pp tp f (inl all) = inl (f, all)
Fits-further s t pp tp f (inr h) = inr (HasFront-later s t pp tp f h)

segments_match-FitsAll :
    (pp tp : List Text) → segments_match pp tp ≡ true → FitsAll pp tp ⊎ HasFront pp tp
unfolding segments_match
segments_match-FitsAll [] [] h = inl tt
segments_match-FitsAll [] (t ∷ tp) h = cc h
segments_match-FitsAll (s ∷ pp) [] h = inr (HasFront-here s pp [] h)
segments_match-FitsAll (s ∷ pp) (t ∷ tp) h = elim (Bool-cases (s == codes "*")) [
  | inl star ↦ inr (HasFront-here s pp (t ∷ tp) star)
  | inr fixed ↦ elim (Bool-cases (s == t)) [
    | inl same ↦
        Fits-further s t pp tp (inl ((text_beq_iff s t).0 same))
          (segments_match-FitsAll pp tp (ground arith))
    | inr other ↦
        Fits-further s t pp tp (inr (is_parameter-in_braces s (ground arith)))
          (segments_match-FitsAll pp tp (ground arith))
  ]
]

-- A segment that fits is passed by the loop.
Fits-passed :
    (s t : Text) (pp tp : List Text)
    → Fits s t
    → segments_match pp tp ≡ true
    → segments_match (s ∷ pp) (t ∷ tp) ≡ true
unfolding segments_match
Fits-passed s t pp tp (inl e) m = ground (arith, text_beq_iff s t)
Fits-passed s t pp tp (inr (name, full, e)) m =
    let p : is_parameter s ≡ true = ap is_parameter e ∙ in_braces-is_parameter name full in
    ground (arith, p)

FitsAll-segments_match : (pp tp : List Text) → FitsAll pp tp → segments_match pp tp ≡ true
unfolding segments_match
FitsAll-segments_match [] [] f = refl
FitsAll-segments_match [] (t ∷ tp) f = absurd f
FitsAll-segments_match (s ∷ pp) [] f = absurd f
FitsAll-segments_match (s ∷ pp) (t ∷ tp) (f, all) =
    Fits-passed s t pp tp f (FitsAll-segments_match pp tp all)

wildcard_passes : (behind tp : List Text) → segments_match (codes "*" ∷ behind) tp ≡ true
unfolding segments_match
wildcard_passes behind [] = (text_beq_iff (codes "*") (codes "*")).1 refl
wildcard_passes behind (t ∷ tp) = rw ((text_beq_iff (codes "*") (codes "*")).1 refl)

front_passes :
    (front fitted behind rest : List Text)
    → FitsAll front fitted
    → segments_match (front ++ (codes "*" ∷ behind)) (fitted ++ rest) ≡ true
front_passes [] [] behind rest f = wildcard_passes behind rest
front_passes [] (t ∷ tp) behind rest f = absurd f
front_passes (s ∷ pp) [] behind rest f = absurd f
front_passes (s ∷ pp) (t ∷ tp) behind rest (f, all) =
    Fits-passed s t (pp ++ (codes "*" ∷ behind)) (tp ++ rest) f (front_passes pp tp behind rest all)

HasFront-segments_match : (pp tp : List Text) → HasFront pp tp → segments_match pp tp ≡ true
HasFront-segments_match pp tp h =
    ap (λ l. segments_match l tp) h.split
    ∙ ap (segments_match (h.front ++ (codes "*" ∷ h.behind))) h.path
    ∙ front_passes h.front h.fitted h.behind h.rest h.fits

-- The loop over the segments accepts a path exactly if pattern and path have equally many segments
-- that fit one by one, or the pattern has a segment * anywhere and the segments before it fit the
-- front of the path; a segment fits itself, and one of braces around a text that is not empty fits
-- any segment.
pub segments_match_iff :
    (pp tp : List Text) → (segments_match pp tp ≡ true) ↔ (FitsAll pp tp ⊎ HasFront pp tp)
segments_match_iff pp tp = (
  segments_match-FitsAll pp tp,
  elim [ inl f ↦ FitsAll-segments_match pp tp f | inr h ↦ HasFront-segments_match pp tp h ],
)
