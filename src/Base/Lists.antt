-- ===== src/Base/Lists.antt =====
-- Lists measured and tested by native numbers and Booleans, with the laws the components share.
use Prim.Native.Nat.{ℕ, suc, zero, ◌≤◌}
use mathlib.Core.Path.{◌≡◌, refl, sym, subst}
use mathlib.Core.Logic.{inl, inr}
use mathlib.Core.Bool.{Bool, true, false, ◌&&◌, ◌||◌}
use mathlib.Core.Option.{Option, none, some}
use mathlib.Core.List.{List, [], ◌∷◌, Memᴰ}
use native.Mathlib.Omega.{arith}
use k8s_ai.Base.Tests.{Eq, ◌==◌, if◌then◌else◌, Bool-cases}

module _ {ℓ} {A : Type ℓ} where
  abbrev pub length : List A → ℕ
  length [] = 0
  length (x ∷ xs) = suc (length xs)

  abbrev pub drop : ℕ → List A → List A
  drop zero xs = xs
  drop (suc n) [] = []
  drop (suc n) (x ∷ xs) = drop n xs

  abbrev pub take : ℕ → List A → List A
  take zero xs = []
  take (suc n) [] = []
  take (suc n) (x ∷ xs) = x ∷ take n xs

  abbrev pub any : (A → Bool) → List A → Bool
  any p [] = false
  any p (x ∷ xs) = p x || any p xs

  abbrev pub all : (A → Bool) → List A → Bool
  all p [] = true
  all p (x ∷ xs) = p x && all p xs

  abbrev pub filter : (A → Bool) → List A → List A
  filter p [] = []
  filter p (x ∷ xs) = let rest = filter p xs in if p x then x ∷ rest else rest

  abbrev pub find? : (A → Bool) → List A → Option A
  find? p [] = none
  find? p (x ∷ xs) = if p x then some x else find? p xs

  abbrev pub is_empty : List A → Bool
  is_empty [] = true
  is_empty (x ∷ xs) = false

  pub any→Memᴰ : (p : A → Bool) (xs : List A) → any p xs ≡ true → (x : A) × Memᴰ x xs × (p x ≡ true)
  any→Memᴰ p [] h = cc
  any→Memᴰ p (x ∷ xs) h = elim (Bool-cases (p x)) [
    | inl e ↦ (x, Memᴰ.head refl, e)
    | inr e ↦ let (y, m, q) = any→Memᴰ p xs (rw (e, ◌||◌) at h) in (y, Memᴰ.tail m, q)
  ]

  pub any-Memᴰ : (p : A → Bool) (xs : List A) {x : A} → Memᴰ x xs → p x ≡ true → any p xs ≡ true
  any-Memᴰ p [] m h = elim m [ ]
  any-Memᴰ p (y ∷ xs) (Memᴰ.head e) h = ground (arith)
  any-Memᴰ p (y ∷ xs) (Memᴰ.tail m) h = ground (arith, any-Memᴰ p xs m h)

  pub any-false : (p : A → Bool) (xs : List A) {x : A} → any p xs ≡ false → Memᴰ x xs → p x ≡ false
  any-false p [] h m = elim m [ ]
  any-false p (y ∷ xs) h (Memᴰ.head e) = ground (arith)
  any-false p (y ∷ xs) h (Memᴰ.tail m) = any-false p xs (ground arith) m

  pub all-Memᴰ : (p : A → Bool) (xs : List A) {x : A} → all p xs ≡ true → Memᴰ x xs → p x ≡ true
  all-Memᴰ p [] h m = elim m [ ]
  all-Memᴰ p (y ∷ xs) h (Memᴰ.head e) = ground arith
  all-Memᴰ p (y ∷ xs) h (Memᴰ.tail m) = all-Memᴰ p xs (ground arith) m

  pub filter-Memᴰ :
      (p : A → Bool) (xs : List A) {x : A} → Memᴰ x (filter p xs) → Memᴰ x xs × (p x ≡ true)
  filter-Memᴰ p [] m = elim m [ ]
  filter-Memᴰ p (y ∷ xs) {x} m = elim (Bool-cases (p y)) [
    | inl e ↦ split e (filter-Memᴰ p xs) (rw (e, if◌then◌else◌) at m)
    | inr e ↦ let (n, h) = filter-Memᴰ p xs (rw (e, if◌then◌else◌) at m) in (Memᴰ.tail n, h)
  ]
    where
      split :
          p y ≡ true
          → (Memᴰ x (filter p xs) → Memᴰ x xs × (p x ≡ true))
          → Memᴰ x (y ∷ filter p xs)
          → Memᴰ x (y ∷ xs) × (p x ≡ true)
      split e ih (Memᴰ.head q) = (Memᴰ.head q, subst (λ z. p z ≡ true) (sym q) e)
      split e ih (Memᴰ.tail n) = let (n', h) = ih n in (Memᴰ.tail n', h)

  pub find?-filter :
      (p q : A → Bool) (xs : List A)
      → ((x : A) → p x ≡ true → q x ≡ false)
      → find? p (filter q xs) ≡ none
  find?-filter p q [] h = refl
  find?-filter p q (x ∷ xs) h = ground (arith, h x, find?-filter p q xs h)

  pub length-filter : (p : A → Bool) (xs : List A) → length (filter p xs) ≤ length xs
  length-filter p [] = omega arith
  length-filter p (x ∷ xs) = ground (arith, length-filter p xs)

  pub filter_same :
      (p : A → Bool) (xs : List A) → length (filter p xs) ≡ length xs → filter p xs ≡ xs
  filter_same p [] h = refl
  filter_same p (x ∷ xs) h = ground (arith, length-filter p xs, filter_same p xs)

module _ {ℓ} {A : Type ℓ} ⦃e : Eq A⦄ where
  abbrev pub contains : List A → A → Bool
  contains [] a = false
  contains (x ∷ xs) a = x == a || contains xs a

  pub contains→Memᴰ : (xs : List A) (a : A) → contains xs a ≡ true → Memᴰ a xs
  contains→Memᴰ [] a h = cc
  contains→Memᴰ (x ∷ xs) a h = elim (Bool-cases (x == a)) [
    | inl q ↦ Memᴰ.head (sym ((e.same_iff x a).0 q))
    | inr q ↦ Memᴰ.tail (contains→Memᴰ xs a (rw (q, ◌||◌) at h))
  ]

  pub Memᴰ→contains : (xs : List A) (a : A) → Memᴰ a xs → contains xs a ≡ true
  Memᴰ→contains [] a m = elim m [ ]
  Memᴰ→contains (x ∷ xs) a (Memᴰ.head p) = ground (arith, e.same_iff x a)
  Memᴰ→contains (x ∷ xs) a (Memᴰ.tail m) = ground (arith, Memᴰ→contains xs a m)
