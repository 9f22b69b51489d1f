-- ===== src/Objects/CollectorLaws.antt =====
-- internal/service/blobgc.go: what a run of the collector cannot take away.
use k8s_ai.Base.{
  ℕ, suc, ◌<◌, ◌≡◌, refl, sym, ap, ◌∙◌, subst, arith, inl, inr, Bool, true, false, not, ◌&&◌,
  Bool-cases, Option-cases, List, [], ◌∷◌, Text, ◌==◌, nat_eq, nat_beq_iff, text_eq, text_beq,
  text_beq_iff, any, filter, Result, ok, >>-both,
}
use k8s_ai.Objects.Row.{StoreError, Row, Table, affects, has_no_owner}
use k8s_ai.Objects.Registry.{claim_deleting, claimable, forget, forget_one, check_key}
use k8s_ai.Objects.Refs.{Ref}
use k8s_ai.Objects.Rows.{has_key, row_of-absent, all-row_of}
use k8s_ai.Objects.Inserts.{affected_row}
use k8s_ai.Objects.Invariant.{WellFormed, is_fine, is_leaving, leaves}
use k8s_ai.Objects.Ledger.{refs, count_row, committed_with}
use k8s_ai.Objects.Acquire.{Result-cases}
use k8s_ai.Objects.Quiet.{Quiet, claim-Quiet, forget-Quiet}
use k8s_ai.Objects.Collector.{
  World, Gc, without, remove, collect, visit, visit_all, is_own, orphans_of,
}

unfoldable pub has_content : Text → World → Bool
has_content key w = any (λ c. c.key == key) w.contents

-- An object that some row refers to and that the backend holds.
pub record Held (key : Text) (w : World) : Type 0 where
  pub formed : WellFormed w.table
  pub counted : 0 < refs key w.table
  pub present : has_content key w ≡ true

any_without :
    (key other : Text) (cs : List Ref)
    → text_beq other key ≡ false
    → any (λ c. c.key == key) (filter (λ c. not (c.key == other)) cs) ≡ any (λ c. c.key == key) cs
any_without key other [] h = refl
any_without key other (c ∷ cs) h = elim (Bool-cases (text_beq c.key other)) [
  | inl e ↦
      let differs : text_beq c.key key ≡ false =
        subst (λ k. text_beq k key ≡ false) (sym ((text_beq_iff c.key other).0 e)) h in
      rw (e, differs) (any_without key other cs h)
  | inr e ↦ rw (e, any_without key other cs h)
]

pub without-Held :
    (key other : Text) (w : World)
    → text_beq other key ≡ false
    → Held key w
    → Held key (without other w)
unfolding without has_content
without-Held key other w h held = record {
  formed = held.formed;
  counted = held.counted;
  present = any_without key other w.contents h ∙ held.present;
}

-- A claimable row has no reference.
claimable_free :
    (count cutoff : ℕ) (r : Row)
    → is_fine r ≡ true
    → claimable count cutoff r ≡ true
    → r.ref_count ≡ 0
unfolding is_fine is_leaving leaves claimable has_no_owner
claimable_free count cutoff r f c = (nat_beq_iff r.ref_count 0).0 (ground arith)

-- A claim that succeeds is of an object without references.
claim_free :
    (key : Text) (count cutoff : ℕ) (t : Table)
    → WellFormed t
    → affects key (claimable count cutoff) t ≡ true
    → refs key t ≡ 0
unfolding refs
claim_free key count cutoff t w h =
    let (r, e, c) = affected_row key (claimable count cutoff) t w.keys h in
    ap count_row e ∙ claimable_free count cutoff r (all-row_of is_fine key t w.fine e) c

keep_object :
    (key : Text) (w : World) (t : Table)
    → Quiet w.table t
    → Held key w
    → Held key (record w { table = t })
unfolding has_content
keep_object key w t q held = record {
  formed = q.formed;
  counted = subst (λ n. 0 < n) (sym (q.same key)) held.counted;
  present = held.present;
}

forget-one-Quiet : (key : Text) (t : Table) → WellFormed t → Quiet t ((forget (key ∷ []) t).0.1)
unfolding forget
forget-one-Quiet key t w = elim (Result-cases (forget_one key t)) [
  | inl (why, e) ↦
      rw (forget, e) (subst (Quiet t) (ap (λ r. committed_with r t) e) (forget-Quiet key t w))
  | inr ((n, next), e) ↦
      rw (forget, e) (subst (Quiet t) (ap (λ r. committed_with r t) e) (forget-Quiet key t w))
]

-- A claim reports whether it has affected the row.
claim-reports :
    (now : ℕ) (key : Text) (count cutoff : ℕ) (t : Table) {b : Bool} {next : Table}
    → claim_deleting now key count cutoff t ≡ ok (b, next)
    → affects key (claimable count cutoff) t ≡ b
unfolding claim_deleting
claim-reports now key count cutoff t h = first ((>>-both (check_key key) _ h).1)
  where
    first :
        {a b : Bool} {x y : Table}
        → ◌≡◌ {A = Result StoreError (Bool × Table)} (ok (a, x)) (ok (b, y))
        → a ≡ b
    first e = cc

-- An object with references is not the one that was claimed.
claimed_other :
    (now : ℕ) (of : Text) (count cutoff : ℕ) (t : Table) {next : Table} (key : Text)
    → WellFormed t
    → 0 < refs key t
    → claim_deleting now of count cutoff t ≡ ok (true, next)
    → text_beq of key ≡ false
claimed_other now of count cutoff t key w more h = elim (Bool-cases (text_beq of key)) [
  | inr e ↦ e
  | inl e ↦
      let free = claim_free of count cutoff t w (claim-reports now of count cutoff t h) in
      absurd (subst (λ k. refs k t ≡ 0) ((text_beq_iff of key).0 e) free)
]
  where
    absurd : refs key t ≡ 0 → text_beq of key ≡ false
    absurd z = ground arith

-- A counted object has a row.
pub counted_row : (key : Text) (t : Table) → 0 < refs key t → has_key key t ≡ true
unfolding refs
counted_row key t more = elim (Bool-cases (has_key key t)) [
  | inl e ↦ e
  | inr e ↦ absurd (ap count_row (row_of-absent key t e))
]
  where
    absurd : refs key t ≡ 0 → has_key key t ≡ true
    absurd z = ground arith

and_not : (a : Bool) {b : Bool} → b ≡ true → (a && not b) ≡ false
and_not a h = ground arith

-- No orphan has a key that has a row.
pub spares :
    (key : Text) (root : Text) (t : Table) (listed : List Ref)
    → has_key key t ≡ true
    → any (λ r. r.key == key) (orphans_of root t listed) ≡ false
unfolding orphans_of
spares key root t [] h = refl
spares key root t (r ∷ listed) h = elim (Bool-cases (text_beq r.key key)) [
  | inl e ↦
      let row : has_key r.key t ≡ true =
        subst (λ k. has_key k t ≡ true) (sym ((text_beq_iff r.key key).0 e)) h in
      rw (and_not (is_own root r) row) (spares key root t listed h)
  | inr e ↦ elim (Bool-cases (is_own root r && not (has_key r.key t))) [
    | inl c ↦ rw (c, e) (spares key root t listed h)
    | inr c ↦ rw c (spares key root t listed h)
  ]
]

module _ (others : ℕ → World → World) (now cutoff : ℕ) (driver : Text) (dry_run : Bool) (key : Text)
    (calm : (k : ℕ) (w : World) → Held key w → Held key (others k w)) where
  remove-Held :
      (meta : Row) (g : Gc)
      → text_beq meta.blob_key key ≡ false
      → Held key g.world
      → Held key (remove others now cutoff driver dry_run meta g).world
  unfolding remove
  remove-Held meta g h held =
      let before = others (suc g.clock) g.world in
      let hb = calm (suc g.clock) g.world held in
      let table = (forget (meta.blob_key ∷ []) before.table).0.1 in
      let forgotten : World = record before { table = table } in
      let hf =
        keep_object key before table (forget-one-Quiet meta.blob_key before.table hb.formed) hb in
      elim (Option-cases ((forget (meta.blob_key ∷ []) before.table).1)) [
        | inr (why, e) ↦ rw (remove, e) hf
        | inl e ↦
            rw (remove, e)
              (without-Held key meta.blob_key _ h (calm (suc (suc g.clock)) forgotten hf))
      ]

  collect-Held :
      (meta : Row) (g : Gc)
      → Held key g.world
      → Held key (collect others now cutoff driver dry_run meta g).world
  unfolding collect
  collect-Held meta g held =
      let before = others g.clock g.world in
      let hb = calm g.clock g.world held in
      let r = claim_deleting now meta.blob_key meta.ref_count cutoff before.table in
      let q = claim-Quiet now meta.blob_key meta.ref_count cutoff before.table hb.formed in
      elim (Result-cases r) [
        | inl (why, e) ↦ rw (collect, e) hb
        | inr ((true, table), e) ↦
            rw (collect, e)
              (remove-Held meta _
                (claimed_other now meta.blob_key meta.ref_count cutoff before.table key hb.formed
                  hb.counted e)
                (keep_object key before table
                  (subst (Quiet before.table) (ap (λ x. committed_with x before.table) e) q) hb))
        | inr ((false, table), e) ↦
            rw (collect, e)
              (keep_object key before table
                (subst (Quiet before.table) (ap (λ x. committed_with x before.table) e) q) hb)
      ]

  visit-Held :
      (meta : Row) (g : Gc)
      → Held key g.world
      → Held key (visit others now cutoff driver dry_run meta g).world
  unfolding visit collect remove
  visit-Held meta g held = elim (Bool-cases (meta.driver == driver)) [
    | inr e ↦ rw (visit, e) held
    | inl e ↦ elim (Bool-cases dry_run) [
      | inl d ↦ rw (visit, e, d) held
      | inr d ↦ rw (visit, e, d) (collect-Held meta _ held)
    ]
  ]

  pub visit_all-Held :
      (metas : List Row) (g : Gc)
      → Held key g.world
      → Held key (visit_all others now cutoff driver dry_run metas g).world
  unfolding visit_all
  visit_all-Held [] g held = held
  visit_all-Held (meta ∷ metas) g held = elim (Option-cases g.failure) [
    | inr (why, e) ↦ rw (visit_all, e) held
    | inl e ↦
        rw (visit_all, e)
          (visit_all-Held metas (visit others now cutoff driver dry_run meta g)
            (visit-Held meta g held))
  ]
