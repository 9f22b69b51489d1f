-- ===== src/Base/Errors.antt =====
-- Go's pair of a value and an error, as a sum, with `if err != nil { return err }` as bind.
use mathlib.Core.Path.{◌≡◌, refl}
use mathlib.Core.Bool.{Bool, true, false}

pub data Result {ℓ} (Failure : Type 0) (Value : Type ℓ) : Type ℓ where
  err : Failure → Result Failure Value
  ok : Value → Result Failure Value

infixl 5 ◌>>=◌ ◌>>◌
-- The rest of a function runs on the value, and an error is returned at once.
abbrev pub ◌>>=◌ {ℓ κ} :
    {F : Type 0} {V : Type ℓ} {W : Type κ} → Result F V → (V → Result F W) → Result F W
err why >>= rest = err why
ok value >>= rest = rest value

-- A call that is made for its error alone.
abbrev pub ◌>>◌ {ℓ} : {F : Type 0} {W : Type ℓ} → Result F (Unit {0}) → Result F W → Result F W
err why >> rest = err why
ok done >> rest = rest

-- `if !test { return why }`.
abbrev pub guard : {F : Type 0} → Bool → F → Result F (Unit {0})
guard false why = err why
guard true why = ok tt

pub guard-eq-ok : {F : Type 0} (test : Bool) (why : F) → guard test why ≡ ok tt → test ≡ true
guard-eq-ok false why h = cc
guard-eq-ok true why h = refl

-- A chain that succeeds has succeeded in its first part, whose value its rest was given.
pub >>=-eq-ok {ℓ κ} :
    {F : Type 0} {V : Type ℓ} {W : Type κ} (first : Result F V) (rest : V → Result F W) {w : W}
    → (first >>= rest) ≡ ok w
    → (v : V) × (first ≡ ok v) × (rest v ≡ ok w)
>>=-eq-ok (err why) rest h = cc
>>=-eq-ok (ok value) rest h = (value, refl, h)

pub >>-eq-ok {ℓ} :
    {F : Type 0} {W : Type ℓ} (first : Result F (Unit {0})) (rest : Result F W) {w : W}
    → (first >> rest) ≡ ok w
    → rest ≡ ok w
>>-eq-ok (err why) rest h = cc
>>-eq-ok (ok done) rest h = h

-- A guard that was passed held, and the rest was run.
pub guard->> {ℓ} :
    {F : Type 0} {W : Type ℓ} (test : Bool) (why : F) (rest : Result F W) {w : W}
    → (guard test why >> rest) ≡ ok w
    → (test ≡ true) × (rest ≡ ok w)
guard->> false why rest h = cc
guard->> true why rest h = (refl, h)

-- Both parts of a chain that succeeds have succeeded.
pub >>-both {ℓ} :
    {F : Type 0} {W : Type ℓ} (first : Result F (Unit {0})) (rest : Result F W) {w : W}
    → (first >> rest) ≡ ok w
    → (first ≡ ok tt) × (rest ≡ ok w)
>>-both (err why) rest h = cc
>>-both (ok done) rest h = (refl, h)
