-- ===== src/Objects/CollectorLive.antt =====
-- internal/service/blobgc.go: a run of the collector that nobody disturbs removes what can be collected.
use k8s_ai.Base.{
  ℕ, ◌-◌, ◌≡◌, refl, ap, ◌∙◌, subst, arith, inl, inr, Bool, true, false, not, ◌&&◌, List, [], ◌∷◌,
  none, some, Text, ◌==◌, nat_eq, text_eq, all, filter, Result, ok, guard->>, >>=-eq-ok,
}
use k8s_ai.Objects.Key.{normalize_prefix}
use k8s_ai.Objects.Row.{Row, Table, row_of, older, has_no_owner, insert_row, order_by_deleted}
use k8s_ai.Objects.Registry.{claimable, list_collectable}
use k8s_ai.Objects.Refs.{Ref}
use k8s_ai.Objects.Rows.{test_row}
use k8s_ai.Objects.Invariant.{WellFormed}
use k8s_ai.Objects.Collector.{
  World, Gc, GcError, no_grace, no_result, or_bad_prefix, drop_orphan, drop_orphans, sweep,
  sweep_root, gc_run, is_valid_key, without,
}
use k8s_ai.Objects.CollectorLaws.{has_content}
use k8s_ai.Objects.CollectorSafety.{Result-split}
use k8s_ai.Objects.CollectorGaps.{listed_iff, stays_gone}
use k8s_ai.Objects.CollectorStep.{undisturbed}
use k8s_ai.Objects.CollectorDone.{IsGone, waits, can_collect, visit_all-IsGone}

-- The row belongs to the backend and its key is a valid one.
abbrev pub is_own_row : Text → Row → Bool
is_own_row driver r = r.driver == driver && is_valid_key r.blob_key

all-insert_row :
    (p : Row → Bool) (r : Row) (rs : List Row)
    → p r ≡ true
    → all p rs ≡ true
    → all p (insert_row r rs) ≡ true
all-insert_row p r [] h k = ground arith
all-insert_row p r (q ∷ rs) h k = ground (arith, all-insert_row p r rs)

all-order_by_deleted :
    (p : Row → Bool) (rs : List Row) → all p rs ≡ true → all p (order_by_deleted rs) ≡ true
unfolding order_by_deleted
all-order_by_deleted p [] h = refl
all-order_by_deleted p (r ∷ rs) h =
    all-insert_row p r (order_by_deleted rs) (ground arith)
      (all-order_by_deleted p rs (ground arith))

collectable_rows :
    (driver : Text) (cutoff : ℕ) (t : Table)
    → all (is_own_row driver) t ≡ true
    → all
        (can_collect driver)
        (filter (λ r. r.ref_count == 0 && older cutoff r && has_no_owner r) t)
      ≡ true
collectable_rows driver cutoff [] h = refl
collectable_rows driver cutoff (r ∷ t) h = ground (arith, collectable_rows driver cutoff t)

drop_orphans-table :
    (now cutoff : ℕ) (driver : Text) (rs : List Ref) (g : Gc)
    → (drop_orphans undisturbed now cutoff driver false rs g).world.table ≡ g.world.table
unfolding drop_orphans drop_orphan without
drop_orphans-table now cutoff driver [] g = refl
drop_orphans-table now cutoff driver (r ∷ rs) g =
    drop_orphans-table now cutoff driver rs (drop_orphan undisturbed now cutoff driver false r g)

sweep-IsGone :
    (lists : Text → List Ref → List Ref) (now cutoff : ℕ) (driver prefix key : Text) (g : Gc)
    → IsGone key g.world
    → IsGone key (sweep lists undisturbed now cutoff driver false prefix g).world
unfolding sweep sweep_root has_content
sweep-IsGone lists now cutoff driver prefix key g gone =
    elim (Result-split (normalize_prefix prefix)) [
      | inl (why, e) ↦ rw (sweep, e) gone
      | inr (root, e) ↦
          rw (sweep, e)
            (record {
              no_row = ap (row_of key) (drop_orphans-table now cutoff driver _ _) ∙ gone.no_row;
              no_content =
                  stays_gone undisturbed now cutoff driver key (λ k w. refl) _ _ gone.no_content;
            })
    ]

-- In a run that is no dry run and that nobody disturbs, on a well-formed table whose rows are all
-- of the backend and have valid keys, an object without references that is orphaned or missing and
-- whose time of deletion is before the cut-off loses its row and its content.
pub gc_run-IsGone :
    (lists : Text → List Ref → List Ref) (now grace : ℕ) (driver prefix key : Text) (w : World)
    (r : Row) (g : Gc)
    → WellFormed w.table
    → all (is_own_row driver) w.table ≡ true
    → row_of key w.table ≡ some r
    → claimable 0 (now - grace) r ≡ true
    → gc_run lists undisturbed now driver
        (record { grace = grace; prefix = prefix; dry_run = false })
        w
      ≡ ok g
    → IsGone key g.world
unfolding gc_run list_collectable claimable
gc_run-IsGone lists now grace driver prefix key w r g formed own found ready h =
    let cutoff = now - grace in
    let (positive, h1) = guard->> (not (grace == 0)) no_grace _ h in
    let (root, p, h2) = >>=-eq-ok (or_bad_prefix (normalize_prefix prefix)) _ h1 in
    let start : Gc = record { clock = 1; world = w; result = no_result; failure = none } in
    let listed =
      listed_iff cutoff key w.table formed
      ∙ ap (test_row (λ q. q.ref_count == 0 && older cutoff q && has_no_owner q)) found
      ∙ ready in
    let (gone, fine) =
      visit_all-IsGone now cutoff driver key (list_collectable cutoff w.table) start
        (all-order_by_deleted (can_collect driver) _ (collectable_rows driver cutoff w.table own))
        refl formed.keys (inl (listed, waits r found ready)) in
    subst (IsGone key) (ap (λ x. x.world) (first (rw fine at h2)))
      (sweep-IsGone lists now cutoff driver root key _ gone)
  where
    first : {a b : Gc} → ◌≡◌ {A = Result GcError Gc} (ok a) (ok b) → a ≡ b
    first e = cc
