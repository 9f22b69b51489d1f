-- ===== src/Objects/CollectorGaps.antt =====
-- internal/store/objects.go and internal/service/blobgc.go: rows that the collector never sees, and contents that it
-- deletes under a row.
use k8s_ai.Base.{
  ℕ, suc, ◌-◌, ◌≡◌, refl, sym, ap, ◌∙◌, subst, arith, inl, inr, Bool, true, false, not, ◌&&◌, ◌||◌,
  Bool-cases, List, [], ◌∷◌, none, some, Text, ◌==◌, nat_eq, nat_beq, text_eq, text_beq,
  text_beq_iff, any, filter, ok,
}
use k8s_ai.Objects.Row.{
  State, missing, ready, same_state, Row, Table, row_of, update, affects, older, has_no_owner,
  deleted_before, insert_row, order_by_deleted,
}
use k8s_ai.Objects.Registry.{list_collectable}
use k8s_ai.Objects.Refs.{Ref, release, is_held, is_idle, decr_ref_count, mark_orphan}
use k8s_ai.Objects.Rows.{affects_iff, test_row}
use k8s_ai.Objects.Inserts.{affected_row, hit_row, missed_row}
use k8s_ai.Objects.Invariant.{WellFormed}
use k8s_ai.Objects.LedgerLaws.{release-done}
use k8s_ai.Objects.Balance.{release-WellFormed}
use k8s_ai.Objects.Collector.{World, Gc, without, drop_orphan, drop_orphans, orphans_of, sweep_root}
use k8s_ai.Objects.CollectorLaws.{has_content}

swap : (a b c : Bool) → (a || (b || c)) ≡ (b || (a || c))
swap true true c = refl
swap true false c = refl
swap false b c = refl

any-insert_row :
    (p : Row → Bool) (r : Row) (rs : List Row) → any p (insert_row r rs) ≡ (p r || any p rs)
any-insert_row p r [] = refl
any-insert_row p r (q ∷ rs) = elim (Bool-cases (deleted_before r q)) [
  | inl e ↦ rw e refl
  | inr e ↦ rw (e, any-insert_row p r rs) (swap (p q) (p r) (any p rs))
]

pub any-order_by_deleted : (p : Row → Bool) (rs : List Row) → any p (order_by_deleted rs) ≡ any p rs
unfolding order_by_deleted
any-order_by_deleted p [] = refl
any-order_by_deleted p (r ∷ rs) =
    any-insert_row p r (order_by_deleted rs) ∙ ap (λ b. p r || b) (any-order_by_deleted p rs)

any-filter : (p q : Row → Bool) (rs : List Row) → any p (filter q rs) ≡ any (λ r. p r && q r) rs
any-filter p q [] = refl
any-filter p q (r ∷ rs) = ground (arith, any-filter p q rs)

-- The candidates of a table have the key exactly if its row passes the condition.
pub listed_iff :
    (cutoff : ℕ) (key : Text) (t : Table)
    → WellFormed t
    → any (λ q. q.blob_key == key) (list_collectable cutoff t)
      ≡ test_row (λ r. r.ref_count == 0 && older cutoff r && has_no_owner r) (row_of key t)
unfolding list_collectable affects
listed_iff cutoff key t w =
    let cond : Row → Bool = λ r. r.ref_count == 0 && older cutoff r && has_no_owner r in
    any-order_by_deleted (λ q. q.blob_key == key) (filter cond t)
    ∙ any-filter (λ q. q.blob_key == key) cond t
    ∙ affects_iff key cond t w.keys

unlisted :
    (cutoff : ℕ) (r : Row)
    → r.deleted_at ≡ none
    → (r.ref_count == 0 && older cutoff r && has_no_owner r) ≡ false
unlisted cutoff r e = let young : older cutoff r ≡ false = rw (older, e) refl in ground arith

-- After a release of an object that is marked as missing and has no time of deletion, in a well-
-- formed table, the object is no candidate of the collector at any cut-off.
pub release_missing :
    (now : ℕ) (key : Text) (t next : Table) (r : Row) (cutoff : ℕ)
    → WellFormed t
    → row_of key t ≡ some r
    → r.state ≡ missing
    → r.deleted_at ≡ none
    → release now key t ≡ ok next
    → any (λ q. q.blob_key == key) (list_collectable cutoff next) ≡ false
unfolding decr_ref_count mark_orphan is_idle same_state
release_missing now key t next r cutoff w found lost unmarked h =
    let (held, e) = release-done now key t h in
    let down : Row → Row = λ q. record q { ref_count = q.ref_count - 1; updated_at = now } in
    let (q, f, c) = affected_row key is_held t w.keys held in
    let same : q ≡ r = some_eq (sym f ∙ found) in
    let one = hit_row key is_held down t (λ q. refl) f c in
    let two =
      missed_row key is_idle
        (λ q. record q { state = State.orphaned; deleted_at = some now; updated_at = now })
        (update key is_held down t) (λ q. refl) one
        (subst (λ s. nat_beq (q.ref_count - 1) 0 && same_state s ready ≡ false)
          (sym lost ∙ ap (λ x. x.state) (sym same)) (ground arith)) in
    listed_iff cutoff key next (release-WellFormed now key t w h)
    ∙ (ap (test_row (λ x. x.ref_count == 0 && older cutoff x && has_no_owner x))
          (ap (row_of key) (sym e) ∙ two)
        ∙ unlisted cutoff (down q) (ap (λ x. x.deleted_at) same ∙ unmarked))
  where
    some_eq : {a b : Row} → some a ≡ some b → a ≡ b
    some_eq x = cc

pub any_removed :
    (key : Text) (cs : List Ref)
    → any (λ c. c.key == key) (filter (λ c. not (c.key == key)) cs) ≡ false
any_removed key [] = refl
any_removed key (c ∷ cs) = ground (arith, any_removed key cs)

pub stays_removed :
    (key other : Text) (cs : List Ref)
    → any (λ c. c.key == key) cs ≡ false
    → any (λ c. c.key == key) (filter (λ c. not (c.key == other)) cs) ≡ false
stays_removed key other [] h = refl
stays_removed key other (c ∷ cs) h = ground (arith, stays_removed key other cs)

module _ (others : ℕ → World → World) (now cutoff : ℕ) (driver : Text) (key : Text)
    (table_only : (k : ℕ) (w : World) → (others k w).contents ≡ w.contents) where
  pub stays_gone :
      (rs : List Ref) (g : Gc)
      → has_content key g.world ≡ false
      → has_content key (drop_orphans others now cutoff driver false rs g).world ≡ false
  unfolding drop_orphans drop_orphan without has_content
  stays_gone [] g h = h
  stays_gone (r ∷ rs) g h = stays_gone rs (drop_orphan others now cutoff driver false r g) (
      stays_removed key r.key (others g.clock g.world).contents
        (subst (λ cs. any (λ c. c.key == key) cs ≡ false) (sym (table_only g.clock g.world)) h))

  drop_orphans-deletes :
      (rs : List Ref) (g : Gc)
      → any (λ r. r.key == key) rs ≡ true
      → has_content key (drop_orphans others now cutoff driver false rs g).world ≡ false
  unfolding drop_orphans drop_orphan without has_content
  drop_orphans-deletes [] g h = cc
  drop_orphans-deletes (r ∷ rs) g h = elim (Bool-cases (text_beq r.key key)) [
    | inl e ↦ stays_gone rs (drop_orphan others now cutoff driver false r g) (
        subst
          (λ k.
            any (λ c. c.key == key)
              (filter (λ c. not (c.key == k)) (others g.clock g.world).contents)
            ≡ false)
          (sym ((text_beq_iff r.key key).0 e)) (any_removed key (others g.clock g.world).contents))
    | inr e ↦ drop_orphans-deletes rs (drop_orphan others now cutoff driver false r g) (rw e at h)
  ]

-- If the transactions that are committed meanwhile change the table only, the sweep of a run that
-- is no dry run deletes the content of each orphan, that is of each object that the backend lists
-- with a valid key of the run's own prefix and that had no row when the table was read, even if a
-- row for it is committed after that.
pub sweep-deletes :
    (lists : Text → List Ref → List Ref) (others : ℕ → World → World) (now cutoff : ℕ)
    (driver root key : Text) (g : Gc)
    → ((k : ℕ) (w : World) → (others k w).contents ≡ w.contents)
    → let at_rows = others g.clock g.world in
      any
          (λ r. r.key == key)
          (orphans_of root at_rows.table (lists root (others (suc g.clock) at_rows).contents))
        ≡ true
      → has_content key (sweep_root lists others now cutoff driver false root g).world ≡ false
unfolding sweep_root
sweep-deletes lists others now cutoff driver root key g table_only h =
    drop_orphans-deletes others now cutoff driver key table_only _ _ h
