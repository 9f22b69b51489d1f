-- ===== src/Base/Split.antt =====
-- `strings.Split` at one rune, and its laws with `strings.Join`.
use Prim.Native.Nat.{ℕ}
use mathlib.Core.Path.{◌≡◌, refl, sym, ap, ◌∙◌}
use mathlib.Core.Logic.{inl, inr}
use mathlib.Core.Bool.{false}
use mathlib.Core.List.{List, [], ◌∷◌, ◌++◌}
use native.Mathlib.Omega.{arith}
use k8s_ai.Base.Tests.{◌==◌, nat_eq, if◌then◌else◌, Bool-cases, nat_beq_iff}
use k8s_ai.Base.Lists.{contains}
use k8s_ai.Base.Strings.{Text}
use k8s_ai.Base.Sorting.{join}

-- A rune in front of the first segment.
abbrev pub onto_first : ℕ → List Text → List Text
onto_first c [] = (c ∷ []) ∷ []
onto_first c (s ∷ ss) = (c ∷ s) ∷ ss

-- `strings.Split(s, sep)`, which has a segment for each gap, empty ones included.
unfoldable pub split_at : ℕ → Text → List Text
split_at sep [] = [] ∷ []
split_at sep (c ∷ s) =
    let rest = split_at sep s in if c == sep then [] ∷ rest else onto_first c rest

-- The last segment.
abbrev pub last_text : List Text → Text
last_text [] = []
last_text (s ∷ []) = s
last_text (s ∷ t ∷ ss) = last_text (t ∷ ss)

-- What follows the last `sep`, or the whole text.
unfoldable pub after_last : ℕ → Text → Text
after_last sep s = last_text (split_at sep s)

split_at_plain : (sep : ℕ) (s : Text) → contains s sep ≡ false → split_at sep s ≡ s ∷ []
unfolding split_at
split_at_plain sep [] h = refl
split_at_plain sep (c ∷ s) h = ground (arith, split_at_plain sep s)

split_at_front :
    (sep : ℕ) (s rest : Text)
    → contains s sep ≡ false
    → split_at sep (s ++ (sep ∷ rest)) ≡ s ∷ split_at sep rest
unfolding split_at
split_at_front sep [] rest h = ground arith
split_at_front sep (c ∷ s) rest h = ground (arith, split_at_front sep s rest)

-- No segment holds the separator.
abbrev pub IsPlain : ℕ → List Text → Type 0
IsPlain sep [] = Unit
IsPlain sep (s ∷ ss) = (contains s sep ≡ false) × IsPlain sep ss

-- Splitting undoes joining.
pub split_at-join :
    (sep : ℕ) (s : Text) (ss : List Text)
    → IsPlain sep (s ∷ ss)
    → split_at sep (join (sep ∷ []) (s ∷ ss)) ≡ s ∷ ss
unfolding join
split_at-join sep s [] h = split_at_plain sep s h.0
split_at-join sep s (t ∷ ss) h =
    split_at_front sep s (join (sep ∷ []) (t ∷ ss)) h.0
    ∙ ap (λ l. s ∷ l) (split_at-join sep t ss h.1)

join-onto_first :
    (sep c : ℕ) (s : Text) (ss : List Text)
    → join (sep ∷ []) (onto_first c (s ∷ ss)) ≡ c ∷ join (sep ∷ []) (s ∷ ss)
unfolding join
join-onto_first sep c s [] = refl
join-onto_first sep c s (t ∷ ss) = refl

split_at-cases : (sep : ℕ) (s : Text) → (t : Text) × (ss : List Text) × (split_at sep s ≡ t ∷ ss)
unfolding split_at
split_at-cases sep [] = ([], [], refl)
split_at-cases sep (c ∷ s) =
    let (t, ss, e) = split_at-cases sep s in
    elim (Bool-cases (c == sep)) [
      | inl q ↦ ([], split_at sep s, rw (split_at, q))
      | inr q ↦ (c ∷ t, ss, rw (split_at, q, e))
    ]

-- Joining undoes splitting.
pub join-split_at : (sep : ℕ) (s : Text) → join (sep ∷ []) (split_at sep s) ≡ s
unfolding split_at join
join-split_at sep [] = refl
join-split_at sep (c ∷ s) =
    let (t, ss, e) = split_at-cases sep s in
    let rest : join (sep ∷ []) (t ∷ ss) ≡ s = ap (join (sep ∷ [])) (sym e) ∙ join-split_at sep s in
    elim (Bool-cases (c == sep)) [
      | inl q ↦ rw (q, e, join, rest, (nat_beq_iff c sep).0 q)
      | inr q ↦ rw (q, e) (join-onto_first sep c t ss ∙ ap (λ l. c ∷ l) rest)
    ]
