-- ===== src/Objects/CollectorDone.antt =====
-- internal/service/blobgc.go: what a run of the collector does remove, where nothing is committed meanwhile.
use k8s_ai.Base.{
  ℕ, suc, ◌≡◌, refl, sym, ap, ◌∙◌, subst, arith, ◌⊎◌, inl, inr, Bool, true, false, not, ◌&&◌,
  Bool-cases, Option-cases, List, [], ◌∷◌, none, some, Text, ◌==◌, nat_eq, nat_beq_iff, text_eq,
  text_beq, text_beq_iff, if◌then◌else◌, any, all,
}
use k8s_ai.Objects.Row.{same_state, Row, Table, row_of, affects}
use k8s_ai.Objects.Registry.{claimable, is_claimed}
use k8s_ai.Objects.Rows.{
  Keeps, map_row, changed, test_row, affects_iff, row_of-filter, row_of-update, row_of-key, flip,
  distinct-update, distinct-filter, distinct,
}
use k8s_ai.Objects.Inserts.{other_row, hit_row}
use k8s_ai.Objects.Collector.{World, Gc, without, visit, visit_all, is_valid_key}
use k8s_ai.Objects.CollectorLaws.{has_content}
use k8s_ai.Objects.CollectorGaps.{stays_removed, any_removed}
use k8s_ai.Objects.CollectorStep.{undisturbed, claimed_row, after_claim, collected, collect-world}

-- No row and no content of the key is left.
pub record IsGone (key : Text) (w : World) : Type 0 where
  pub no_row : row_of key w.table ≡ none
  pub no_content : has_content key w ≡ false

claimed_keys : (now : ℕ) → Keeps (claimed_row now)
claimed_keys now r = refl

collected-distinct :
    (now cutoff : ℕ) (meta : Row) (w : World)
    → distinct w.table ≡ true
    → distinct (collected now cutoff meta w).table ≡ true
unfolding without
collected-distinct now cutoff meta w d =
    let u =
      distinct-update meta.blob_key (claimable meta.ref_count cutoff) (claimed_row now) w.table
        (claimed_keys now)
      ∙ d in
    elim (Bool-cases (affects meta.blob_key (claimable meta.ref_count cutoff) w.table)) [
      | inl e ↦ rw e (
          distinct-filter (λ r. not (is_claimed meta.blob_key r))
            (after_claim now cutoff meta w.table) u)
      | inr e ↦ rw e u
    ]

-- A candidate of another key leaves the row of a key as it is.
collected-other :
    (now cutoff : ℕ) (meta : Row) (w : World) (key : Text)
    → distinct w.table ≡ true
    → text_beq key meta.blob_key ≡ false
    → row_of key (collected now cutoff meta w).table ≡ row_of key w.table
unfolding without is_claimed
collected-other now cutoff meta w key d differs =
    let t = after_claim now cutoff meta w.table in
    let u =
      distinct-update meta.blob_key (claimable meta.ref_count cutoff) (claimed_row now) w.table
        (claimed_keys now)
      ∙ d in
    let same =
      other_row meta.blob_key key (claimable meta.ref_count cutoff) (claimed_row now) w.table
        (claimed_keys now) differs in
    elim (Bool-cases (affects meta.blob_key (claimable meta.ref_count cutoff) w.table)) [
      | inr e ↦ rw e same
      | inl e ↦ rw e (row_of-filter key (λ r. not (is_claimed meta.blob_key r)) t u ∙ kept t ∙ same)
    ]
  where
    kept :
        (t : Table)
        → (if test_row (λ r. not (is_claimed meta.blob_key r)) (row_of key t)
            then row_of key t
            else none)
          ≡ row_of key t
    kept t = elim (Option-cases (row_of key t)) [
      | inl e ↦ rw e
      | inr (r, e) ↦
          let other : text_beq r.blob_key meta.blob_key ≡ false =
            subst (λ k. text_beq k meta.blob_key ≡ false) (sym (row_of-key key t e)) differs in
          rw (e, is_claimed, other)
    ]

-- What is gone stays gone.
collected-IsGone :
    (now cutoff : ℕ) (meta : Row) (w : World) (key : Text)
    → distinct w.table ≡ true
    → IsGone key w
    → IsGone key (collected now cutoff meta w)
unfolding without has_content
collected-IsGone now cutoff meta w key d g =
    let t = after_claim now cutoff meta w.table in
    let u =
      distinct-update meta.blob_key (claimable meta.ref_count cutoff) (claimed_row now) w.table
        (claimed_keys now)
      ∙ d in
    let absent : row_of key t ≡ none =
      row_of-update meta.blob_key key (claimable meta.ref_count cutoff) (claimed_row now) w.table
        (claimed_keys now)
      ∙ ap (map_row (changed meta.blob_key (claimable meta.ref_count cutoff) (claimed_row now)))
          g.no_row in
    elim (Bool-cases (affects meta.blob_key (claimable meta.ref_count cutoff) w.table)) [
      | inl e ↦ rw e (record {
        no_row = rw (row_of-filter key (λ r. not (is_claimed meta.blob_key r)) t u, absent);
        no_content = stays_removed key meta.blob_key w.contents g.no_content;
      })
      | inr e ↦ rw e (record { no_row = absent; no_content = g.no_content })
    ]

-- A claimable object is gone after its candidate.
collected_lem :
    (now cutoff : ℕ) (meta r : Row) (w : World)
    → distinct w.table ≡ true
    → row_of meta.blob_key w.table ≡ some r
    → claimable meta.ref_count cutoff r ≡ true
    → IsGone meta.blob_key (collected now cutoff meta w)
unfolding without has_content is_claimed same_state
collected_lem now cutoff meta r w d e c =
    let cond = claimable meta.ref_count cutoff in
    let t = after_claim now cutoff meta w.table in
    let u = distinct-update meta.blob_key cond (claimed_row now) w.table (claimed_keys now) ∙ d in
    let hit = hit_row meta.blob_key cond (claimed_row now) w.table (claimed_keys now) e c in
    let affected : affects meta.blob_key cond w.table ≡ true =
      affects_iff meta.blob_key cond w.table d ∙ ap (test_row cond) e ∙ c in
    let same = (text_beq_iff r.blob_key meta.blob_key).1 (row_of-key meta.blob_key w.table e) in
    rw affected (record {
      no_row =
          rw (row_of-filter meta.blob_key (λ q. not (is_claimed meta.blob_key q)) t u, hit, same);
      no_content = any_removed meta.blob_key w.contents;
    })

-- The object is still to be collected, or it is gone.
pub data Pending (cutoff : ℕ) (key : Text) (w : World) : Type 0 where
  waits :
      (r : Row) → row_of key w.table ≡ some r → claimable 0 cutoff r ≡ true → Pending cutoff key w
  gone : IsGone key w → Pending cutoff key w

-- A candidate that the backend can collect.
abbrev pub can_collect : Text → Row → Bool
can_collect driver m = m.driver == driver && is_valid_key m.blob_key && m.ref_count == 0

-- A candidate of a run that acts is collected.
visit-world :
    (now cutoff : ℕ) (driver : Text) (meta : Row) (g : Gc)
    → can_collect driver meta ≡ true
    → let r = visit undisturbed now cutoff driver false meta g in
      (r.world ≡ collected now cutoff meta g.world) × (r.failure ≡ g.failure)
unfolding visit
visit-world now cutoff driver meta g h =
    let same : (meta.driver == driver) ≡ true = ground arith in
    let c =
      collect-world now cutoff driver meta
        (record g { result = record g.result { candidates = suc g.result.candidates } })
        (ground arith) in
    (rw (visit, same) c.0, rw (visit, same) c.1)

-- One candidate brings its own object away and leaves those of other keys waiting.
progress :
    (now cutoff : ℕ) (driver key : Text) (meta : Row) (metas : List Row) (w : World)
    → can_collect driver meta ≡ true
    → distinct w.table ≡ true
    → (any (λ m. m.blob_key == key) (meta ∷ metas) ≡ true × Pending cutoff key w) ⊎ IsGone key w
    → (any (λ m. m.blob_key == key) metas ≡ true × Pending cutoff key (collected now cutoff meta w))
      ⊎ IsGone key (collected now cutoff meta w)
progress now cutoff driver key meta metas w a d (inr g) =
    inr (collected-IsGone now cutoff meta w key d g)
progress now cutoff driver key meta metas w a d (inl (h, gone g)) =
    inr (collected-IsGone now cutoff meta w key d g)
progress now cutoff driver key meta metas w a d (inl (h, waits r e c)) =
    elim (Bool-cases (text_beq meta.blob_key key)) [
      | inr q ↦ inl (
        rw q at h,
        waits r (collected-other now cutoff meta w key d (flip meta.blob_key key q) ∙ e) c,
      )
      | inl q ↦
          let same = (text_beq_iff meta.blob_key key).0 q in
          let zero_count : meta.ref_count ≡ 0 = (nat_beq_iff meta.ref_count 0).0 (ground arith) in
          inr (
            subst (λ k. IsGone k (collected now cutoff meta w)) same
              (collected_lem now cutoff meta r w d
                (subst (λ k. row_of k w.table ≡ some r) (sym same) e)
                (subst (λ n. claimable n cutoff r ≡ true) (sym zero_count) c)))
    ]

-- Every candidate is gone after the loop.
pub visit_all-IsGone :
    (now cutoff : ℕ) (driver key : Text) (metas : List Row) (g : Gc)
    → all (can_collect driver) metas ≡ true
    → g.failure ≡ none
    → distinct g.world.table ≡ true
    → (any (λ m. m.blob_key == key) metas ≡ true × Pending cutoff key g.world) ⊎ IsGone key g.world
    → let r = visit_all undisturbed now cutoff driver false metas g in
      IsGone key r.world × (r.failure ≡ none)
unfolding visit_all
visit_all-IsGone now cutoff driver key [] g a f d (inl (h, p)) = cc h
visit_all-IsGone now cutoff driver key [] g a f d (inr p) = (p, f)
visit_all-IsGone now cutoff driver key (meta ∷ metas) g a f d p =
    let (world, fails) = visit-world now cutoff driver meta g (ground arith) in
    rw (visit_all, f)
      (visit_all-IsGone now cutoff driver key metas
        (visit undisturbed now cutoff driver false meta g) (ground arith) (fails ∙ f)
        (ap (λ w. distinct w.table) world ∙ collected-distinct now cutoff meta g.world d)
        (carry (progress now cutoff driver key meta metas g.world (ground arith) d p) world))
  where
    carry :
        {w : World}
        → (any (λ m. m.blob_key == key) metas ≡ true × Pending cutoff key w) ⊎ IsGone key w
        → (visit undisturbed now cutoff driver false meta g).world ≡ w
        → (any (λ m. m.blob_key == key) metas ≡ true
            × Pending cutoff key (visit undisturbed now cutoff driver false meta g).world)
          ⊎ IsGone key (visit undisturbed now cutoff driver false meta g).world
    carry q e =
        subst
          (λ x. (any (λ m. m.blob_key == key) metas ≡ true × Pending cutoff key x) ⊎ IsGone key x)
          (sym e) q
