-- ===== src/Objects/Parts.antt =====
-- internal/objectstore/keys.go: the parts of a key that was assembled, found again.
use k8s_ai.Base.{
  ℕ, ◌+◌, ◌≡◌, refl, ap, arith, Bool, true, false, List, [], ◌∷◌, ◌++◌, Memᴰ, none, some, Text,
  ◌==◌, nat_eq, text_eq, nat_beq_iff, all, contains, contains→Memᴰ, Bool-cases, inl, inr, length,
  take, append-nil, last_text,
}
use k8s_ai.Objects.Key.{
  categories, valid_category, slash, dot, from_last_dot, ext_of_tail, but_last,
}

pub last_text_back : (ss : List Text) (s : Text) → last_text (ss ++ (s ∷ [])) ≡ s
last_text_back [] s = refl
last_text_back (t ∷ []) s = refl
last_text_back (t ∷ u ∷ ss) s = last_text_back (u ∷ ss) s

pub but_last_back : (ss : List Text) (s : Text) → but_last (ss ++ (s ∷ [])) ≡ ss
but_last_back [] s = refl
but_last_back (t ∷ []) s = refl
but_last_back (t ∷ u ∷ ss) s = ap (λ l. t ∷ l) (but_last_back (u ∷ ss) s)

pub take_front : (s t : Text) → take (length s) (s ++ t) ≡ s
take_front [] t = refl
take_front (c ∷ s) t = ap (λ l. c ∷ l) (take_front s t)

pub length_append : (s t : Text) → length (s ++ t) ≡ length s + length t
length_append [] t = omega arith
length_append (c ∷ s) t = ground (arith, length_append s t)

pub contains_append :
    (s t : Text) (c : ℕ) → contains s c ≡ false → contains t c ≡ false → contains (s ++ t) c ≡ false
contains_append [] t c h k = k
contains_append (d ∷ s) t c h k = ground (arith, contains_append s t c)

pub contains-all :
    (p : ℕ → Bool) (c : ℕ) → p c ≡ false → (s : Text) → all p s ≡ true → contains s c ≡ false
contains-all p c miss [] h = refl
contains-all p c miss (d ∷ s) h = elim (Bool-cases (d == c)) [
  | inl e ↦ ground (arith, nat_beq_iff d c, contains-all p c miss s)
  | inr e ↦ ground (arith, contains-all p c miss s)
]

pub category_plain :
    (category : Text) → valid_category category ≡ true → contains category slash ≡ false
unfolding valid_category categories
category_plain category h = elim (contains→Memᴰ categories category h) [
  | Memᴰ.head e ↦ rw e
  | Memᴰ.tail (Memᴰ.head e) ↦ rw e
  | Memᴰ.tail (Memᴰ.tail (Memᴰ.head e)) ↦ rw e
  | Memᴰ.tail (Memᴰ.tail (Memᴰ.tail (Memᴰ.head e))) ↦ rw e
  | Memᴰ.tail (Memᴰ.tail (Memᴰ.tail (Memᴰ.tail m))) ↦ elim m [ ]
]

undotted : (s : Text) → contains s dot ≡ false → from_last_dot s ≡ none
unfolding from_last_dot
undotted [] h = refl
undotted (c ∷ s) h = ground (arith, undotted s)

from_last_dot_front :
    (s e : Text) → contains e dot ≡ false → from_last_dot (s ++ (dot ∷ e)) ≡ some (dot ∷ e)
unfolding from_last_dot
from_last_dot_front [] e h = rw (undotted e h)
from_last_dot_front (c ∷ s) e h = rw (from_last_dot_front s e h)

-- An extension after the digits of a hash is found again, unless it holds a second dot.
pub ext_of_tail_back :
    (sha e : Text)
    → length sha ≡ 64
    → contains e dot ≡ false
    → ext_of_tail (sha ++ (dot ∷ e)) ≡ dot ∷ e
unfolding ext_of_tail
ext_of_tail_back sha e h k =
    rw (ext_of_tail, from_last_dot_front sha e k, length_append sha (dot ∷ e), h) (ground arith)

pub ext_of_tail_none : (sha : Text) → contains sha dot ≡ false → ext_of_tail (sha ++ []) ≡ []
unfolding ext_of_tail
ext_of_tail_none sha h = rw (ext_of_tail, append-nil, undotted sha h)
