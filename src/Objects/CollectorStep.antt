-- ===== src/Objects/CollectorStep.antt =====
-- internal/service/blobgc.go: what `collect` does to one candidate, where nothing is committed meanwhile.
use k8s_ai.Base.{
  ℕ, ◌+◌, ◌≡◌, refl, ap, inl, inr, true, false, not, Bool-cases, [], ◌∷◌, none, Text, nat_eq,
  text_eq, if◌then◌else◌, filter, length, ok,
}
use k8s_ai.Objects.Key.{validate_key}
use k8s_ai.Objects.Row.{deleting, Row, Table, update, affects}
use k8s_ai.Objects.Registry.{check_key, claim_deleting, claimable, forget, forget_one, is_claimed}
use k8s_ai.Objects.Collector.{World, Gc, without, remove, collect, is_valid_key}
use k8s_ai.Objects.CollectorSafety.{Result-split}

abbrev pub undisturbed : ℕ → World → World
undisturbed k w = w

-- The row after a claim of it.
abbrev pub claimed_row : ℕ → Row → Row
claimed_row now r = record r { state = deleting; updated_at = now }

abbrev pub after_claim : ℕ → ℕ → Row → Table → Table
after_claim now cutoff meta t =
    update meta.blob_key (claimable meta.ref_count cutoff) (claimed_row now) t

abbrev pub after_forget : Text → Table → Table
after_forget key t = filter (λ r. not (is_claimed key r)) t

valid_check : (key : Text) → is_valid_key key ≡ true → check_key key ≡ ok tt
unfolding is_valid_key check_key
valid_check key h = elim (Result-split (validate_key key)) [
  | inl (why, e) ↦ cc (rw (is_valid_key, e) at h)
  | inr (done, e) ↦ rw (check_key, e)
]

-- The table and the contents after one candidate.
abbrev pub collected : ℕ → ℕ → Row → World → World
collected now cutoff meta w =
    if affects meta.blob_key (claimable meta.ref_count cutoff) w.table
    then without meta.blob_key
        (record w { table = after_forget meta.blob_key (after_claim now cutoff meta w.table) })
    else record w { table = after_claim now cutoff meta w.table }

claim-valid :
    (now : ℕ) (key : Text) (count cutoff : ℕ) (t : Table)
    → check_key key ≡ ok tt
    → claim_deleting now key count cutoff t
      ≡ ok (
        affects key (claimable count cutoff) t,
        update key (claimable count cutoff) (claimed_row now) t,
      )
unfolding claim_deleting
claim-valid now key count cutoff t e = rw (claim_deleting, e)

forget-valid :
    (key : Text) (t : Table)
    → check_key key ≡ ok tt
    → forget (key ∷ []) t ≡ ((length (filter (is_claimed key) t) + 0, after_forget key t), none)
unfolding forget forget_one
forget-valid key t e = rw (forget, forget_one, e)

remove-world :
    (now cutoff : ℕ) (driver : Text) (meta : Row) (g : Gc)
    → check_key meta.blob_key ≡ ok tt
    → let r = remove undisturbed now cutoff driver false meta g in
      (r.world
        ≡ without meta.blob_key
            (record g.world { table = after_forget meta.blob_key g.world.table }))
      × (r.failure ≡ g.failure)
unfolding remove
remove-world now cutoff driver meta g e =
    let f = forget-valid meta.blob_key g.world.table e in
    (
      rw (remove, f) (ap (λ p. without meta.blob_key (record g.world { table = p.0.1 })) f),
      rw (remove, f) refl,
    )

pub collect-world :
    (now cutoff : ℕ) (driver : Text) (meta : Row) (g : Gc)
    → is_valid_key meta.blob_key ≡ true
    → let r = collect undisturbed now cutoff driver false meta g in
      (r.world ≡ collected now cutoff meta g.world) × (r.failure ≡ g.failure)
unfolding collect
collect-world now cutoff driver meta g valid =
    let ok_key = valid_check meta.blob_key valid in
    let c = claim-valid now meta.blob_key meta.ref_count cutoff g.world.table ok_key in
    elim (Bool-cases (affects meta.blob_key (claimable meta.ref_count cutoff) g.world.table)) [
      | inl e ↦ (
        rw (collect, c, e) ((remove-world now cutoff driver meta _ ok_key).0),
        rw (collect, c, e) ((remove-world now cutoff driver meta _ ok_key).1),
      )
      | inr e ↦ (rw (collect, c, e) refl, rw (collect, c, e) refl)
    ]
