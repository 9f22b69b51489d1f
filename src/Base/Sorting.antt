-- ===== src/Base/Sorting.antt =====
-- `sort.Strings` as an insertion sort: Go orders strings bytewise, which on UTF-8 is the order of
-- the code points. Also `strings.Join`.
use k8s_ai.Base.Strings.{Text, text_eq}
use k8s_ai.Base.Tests.{◌==◌, nat_eq, ltb, if◌then◌else◌, Bool-cases}
use k8s_ai.Base.Lists.{contains}
use mathlib.Core.Path.{◌≡◌, refl}
use mathlib.Core.Logic.{inl, inr}
use mathlib.Core.Bool.{Bool, true, false, ◌&&◌, ◌||◌}
use mathlib.Core.List.{List, [], ◌∷◌, ◌++◌}
use native.Mathlib.Omega.{arith}

unfoldable pub text_leb : Text → Text → Bool
text_leb [] t = true
text_leb (c ∷ s) [] = false
text_leb (c ∷ s) (d ∷ t) = ltb c d || (c == d && text_leb s t)

unfoldable pub insert_text : Text → List Text → List Text
insert_text a [] = a ∷ []
insert_text a (b ∷ l) = if text_leb a b then a ∷ b ∷ l else b ∷ insert_text a l

unfoldable pub sort_texts : List Text → List Text
sort_texts [] = []
sort_texts (a ∷ l) = insert_text a (sort_texts l)

unfoldable pub join : Text → List Text → Text
join sep [] = []
join sep (s ∷ []) = s
join sep (s ∷ t ∷ l) = s ++ (sep ++ join sep (t ∷ l))

text_leb_total : (s t : Text) → text_leb s t ≡ false → text_leb t s ≡ true
unfolding text_leb
text_leb_total [] t h = cc
text_leb_total (c ∷ s) [] h = refl
text_leb_total (c ∷ s) (d ∷ t) h = ground (arith, text_leb_total s t)

-- Each text is at most the one that follows it.
abbrev pub IsSorted : List Text → Type 0
IsSorted [] = Unit
IsSorted (a ∷ []) = Unit
IsSorted (a ∷ b ∷ l) = (text_leb a b ≡ true) × IsSorted (b ∷ l)

insert_text-IsSorted : (a : Text) (l : List Text) → IsSorted l → IsSorted (insert_text a l)
unfolding insert_text
insert_text-IsSorted a [] h = tt
insert_text-IsSorted a (b ∷ []) h = elim (Bool-cases (text_leb a b)) [
  | inl e ↦ rw e (e, tt)
  | inr e ↦ rw e (text_leb_total a b e, tt)
]
insert_text-IsSorted a (b ∷ c ∷ l) h =
    ground (arith, text_leb_total a b, insert_text-IsSorted a (c ∷ l) h.1)

pub sort_texts-IsSorted : (l : List Text) → IsSorted (sort_texts l)
unfolding sort_texts
sort_texts-IsSorted [] = tt
sort_texts-IsSorted (a ∷ l) = insert_text-IsSorted a (sort_texts l) (sort_texts-IsSorted l)

contains-insert_text :
    (a : Text) (l : List Text) (x : Text) → contains (insert_text a l) x ≡ contains (a ∷ l) x
unfolding insert_text
contains-insert_text a [] x = refl
contains-insert_text a (b ∷ l) x = ground (arith, contains-insert_text a l x)

-- Sorting keeps the members.
pub contains-sort_texts : (l : List Text) (x : Text) → contains (sort_texts l) x ≡ contains l x
unfolding sort_texts
contains-sort_texts [] x = refl
contains-sort_texts (a ∷ l) x =
    ground (arith, contains-insert_text a (sort_texts l) x, contains-sort_texts l x)
