-- ===== src/Objects/CollectorSafety.antt =====
-- internal/service/blobgc.go: a whole run of the collector, among the transactions of others.
use k8s_ai.Base.{
  ℕ, suc, ◌-◌, ◌≡◌, refl, subst, arith, ◌⊎◌, inl, inr, Bool, false, not, Bool-cases, Option-cases,
  List, [], ◌∷◌, none, Text, ◌==◌, nat_eq, text_eq, text_beq, any, Result, ok, err, guard->>,
  >>=-eq-ok,
}
use k8s_ai.Objects.Key.{normalize_prefix}
use k8s_ai.Objects.Registry.{list_collectable}
use k8s_ai.Objects.Refs.{Ref}
use k8s_ai.Objects.Collector.{
  World, GcOptions, GcError, no_grace, Gc, visit_all, drop_orphan, drop_orphans, orphans_of,
  sweep_root, sweep, gc_run, no_result, or_bad_prefix,
}
use k8s_ai.Objects.CollectorLaws.{Held, without-Held, counted_row, spares, visit_all-Held}

pub Result-split :
    {E A : Type 0} (r : Result E A) → ((why : E) × (r ≡ err why)) ⊎ ((a : A) × (r ≡ ok a))
Result-split (err why) = inl (why, refl)
Result-split (ok a) = inr (a, refl)

module _ (others : ℕ → World → World) (now cutoff : ℕ) (driver : Text) (dry_run : Bool) (key : Text)
    (calm : (k : ℕ) (w : World) → Held key w → Held key (others k w)) where
  drop_orphan-Held :
      (r : Ref) (g : Gc)
      → text_beq r.key key ≡ false
      → Held key g.world
      → Held key (drop_orphan others now cutoff driver dry_run r g).world
  unfolding drop_orphan
  drop_orphan-Held r g h held = elim (Bool-cases dry_run) [
    | inl d ↦ rw (drop_orphan, d) held
    | inr d ↦ rw (drop_orphan, d) (without-Held key r.key _ h (calm g.clock g.world held))
  ]

  drop_orphans-Held :
      (rs : List Ref) (g : Gc)
      → any (λ r. r.key == key) rs ≡ false
      → Held key g.world
      → Held key (drop_orphans others now cutoff driver dry_run rs g).world
  unfolding drop_orphans
  drop_orphans-Held [] g h held = held
  drop_orphans-Held (r ∷ rs) g h held =
      drop_orphans-Held rs (drop_orphan others now cutoff driver dry_run r g) (ground arith)
        (drop_orphan-Held r g (ground arith) held)

  sweep-Held :
      (lists : Text → List Ref → List Ref) (prefix : Text) (g : Gc)
      → Held key g.world
      → Held key (sweep lists others now cutoff driver dry_run prefix g).world
  unfolding sweep sweep_root
  sweep-Held lists prefix g held = elim (Result-split (normalize_prefix prefix)) [
    | inl (why, e) ↦ rw (sweep, e) held
    | inr (root, e) ↦
        let at_rows = others g.clock g.world in
        let hr = calm g.clock g.world held in
        let at_list = others (suc g.clock) at_rows in
        rw (sweep, e)
          (drop_orphans-Held (orphans_of root at_rows.table (lists root at_list.contents)) _
            (spares key root at_rows.table (lists root at_list.contents)
              (counted_row key at_rows.table hr.counted))
            (calm (suc g.clock) at_rows hr))
  ]

-- An object that has a reference and a content keeps both in a run of the collector, if the
-- transactions that are committed between its statements leave it a reference, its content and a
-- well-formed table.
pub gc_run-Held :
    (lists : Text → List Ref → List Ref) (others : ℕ → World → World) (now : ℕ) (driver : Text)
    (opts : GcOptions) (w : World) (g : Gc) (key : Text)
    → ((k : ℕ) (x : World) → Held key x → Held key (others k x))
    → Held key w
    → gc_run lists others now driver opts w ≡ ok g
    → Held key g.world
unfolding gc_run
gc_run-Held lists others now driver opts w g key calm held h =
    let (grace, h1) = guard->> (not (opts.grace == 0)) no_grace _ h in
    let (prefix, p, h2) = >>=-eq-ok (or_bad_prefix (normalize_prefix opts.prefix)) _ h1 in
    let start : Gc = record { clock = 1; world = others 0 w; result = no_result; failure = none } in
    let seen =
      visit_all others now (now - opts.grace) driver opts.dry_run
        (list_collectable (now - opts.grace) (others 0 w).table) start in
    let hs =
      visit_all-Held others now (now - opts.grace) driver opts.dry_run key calm
        (list_collectable (now - opts.grace) (others 0 w).table) start (calm 0 w held) in
    elim (Option-cases seen.failure) [
      | inr (why, e) ↦ subst (λ x. Held key x.world) (first (rw e at h2)) hs
      | inl e ↦
          subst (λ x. Held key x.world) (first (rw e at h2))
            (sweep-Held others now (now - opts.grace) driver opts.dry_run key calm lists prefix seen
              hs)
    ]
  where
    first : {a b : Gc} → ◌≡◌ {A = Result GcError Gc} (ok a) (ok b) → a ≡ b
    first e = cc
