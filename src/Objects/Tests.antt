-- ===== src/Objects/Tests.antt =====
-- The laws of the object store at concrete keys and rows.
use k8s_ai.Base.{◌≡◌, refl, List, [], ◌∷◌, ◌++◌, Text, text_eq, codes, ok}
use k8s_ai.Objects.Key.{build_key, spec_from_key, sha_of_key}
use k8s_ai.Objects.RoundTrip.{spec_from_key-build_key}
use k8s_ai.Objects.Safety.{validate_key-IsSound, IsSound}
use k8s_ai.Objects.Unfold.{keys}

abbrev pub sha : Text
sha = codes "0123456789abcdef0123456789abcdef0123456789abcdef0123456789abcdef"

abbrev pub key : Text
key = codes "k8sai/reports/u1/s1/" ++ sha ++ codes ".md"

abbrev pub scope : List Text
scope = codes "u1" ∷ codes "s1" ∷ []

spec_from_key-build_key_example :
    (spec_from_key key
      ≡ ok (record { category = codes "reports"; scope = scope; ext = codes ".md" }))
    × (sha_of_key key ≡ sha)
unfolding keys
spec_from_key-build_key_example =
    spec_from_key-build_key [] (codes "reports") scope sha (codes " MD ") (codes ".md") key refl
      refl refl (refl, (refl, tt)) refl

validate_key-IsSound_example :
    IsSound key
      (codes "k8sai" ∷ codes "reports" ∷ codes "u1" ∷ codes "s1" ∷ (sha ++ codes ".md") ∷ [])
unfolding keys
validate_key-IsSound_example = validate_key-IsSound key refl

-- An extension with two dots is allowed, but only its last part is read back.
two_dots :
    (build_key [] (codes "exports") scope sha (codes ".tar.gz")
      ≡ ok (codes "k8sai/exports/u1/s1/" ++ sha ++ codes ".tar.gz"))
    × (spec_from_key (codes "k8sai/exports/u1/s1/" ++ sha ++ codes ".tar.gz")
        ≡ ok (record { category = codes "exports"; scope = scope; ext = codes ".gz" }))
unfolding keys
two_dots = (refl, refl)
