-- ===== src/Objects/Collector.antt =====
-- internal/service/blobgc.go: a run of the collector on a backend that keeps its contents beside
-- the table (dir and s3). `others k` is what is committed before statement number `k` of the run.
-- A backend that fails ends the run early and is no case here.
use k8s_ai.Base.{
  ℕ, suc, ◌+◌, ◌-◌, Bool, true, false, not, ◌&&◌, List, [], ◌∷◌, Option, none, some, Text, ◌==◌,
  nat_eq, text_eq, if◌then◌else◌, filter, length, cut, Result, ok, err, guard, ◌>>=◌, ◌>>◌,
}
use k8s_ai.Objects.Key.{validate_key, normalize_prefix, KeyError, slash}
use k8s_ai.Objects.Row.{StoreError, key_invalid, Row, Table}
use k8s_ai.Objects.Registry.{list_collectable, claim_deleting, forget}
use k8s_ai.Objects.Refs.{Ref}
use k8s_ai.Objects.Rows.{has_key}

-- The table and the contents of the backend.
pub record World : Type 0 where
  pub table : Table
  pub contents : List Ref

-- `GCOptions`, with the cut-off that `Grace` gives.
pub record GcOptions : Type 0 where
  pub grace : ℕ
  pub prefix : Text
  pub dry_run : Bool

-- `GCResult`.
pub record GcResult : Type 0 where
  pub candidates : ℕ
  pub claimed : ℕ
  pub revived : ℕ
  pub rows_removed : ℕ
  pub content_deleted : ℕ
  pub reclaimed_bytes : ℕ
  pub skipped_foreign : ℕ
  pub bucket_keys : ℕ
  pub orphans : ℕ
  pub orphan_bytes : ℕ
  pub orphans_deleted : ℕ
  pub foreign : ℕ
  pub other_root : ℕ
  pub rejected_key : ℕ

abbrev pub no_result : GcResult
no_result = record {
  candidates = 0;
  claimed = 0;
  revived = 0;
  rows_removed = 0;
  content_deleted = 0;
  reclaimed_bytes = 0;
  skipped_foreign = 0;
  bucket_keys = 0;
  orphans = 0;
  orphan_bytes = 0;
  orphans_deleted = 0;
  foreign = 0;
  other_root = 0;
  rejected_key = 0;
}

-- The errors before a run starts.
pub data GcError : Type 0 where
  no_grace : GcError
  bad_prefix : KeyError → GcError

-- What the run has reached: the number of its next statement, the world, the account, a failure.
pub record Gc : Type 0 where
  pub clock : ℕ
  pub world : World
  pub result : GcResult
  pub failure : Option StoreError

-- `deleteContent`: a content that is not there counts as deleted.
unfoldable pub without : Text → World → World
without key w = record w { contents = filter (λ c. not (c.key == key)) w.contents }

-- `keyRootSegment`.
unfoldable pub key_root_segment : Text → Text
key_root_segment key = elim (cut slash key) [
  | none ↦ key
  | some ([], rest) ↦ key
  | some (c ∷ root, rest) ↦ c ∷ root
]

module _ (others : ℕ → World → World) (now cutoff : ℕ) (driver : Text) (dry_run : Bool) where
  -- After a claim that succeeded.
  unfoldable pub remove : Row → Gc → Gc
  remove meta g =
      let before_forget = others (suc g.clock) g.world in
      let ((removed, table), failure) = forget (meta.blob_key ∷ []) before_forget.table in
      let forgotten : World = record before_forget { table = table } in
      let deleted = without meta.blob_key (others (suc (suc g.clock)) forgotten) in
      elim failure [
        | some why ↦ record g { world = forgotten; failure = some why }
        | none ↦ record g {
          clock = 3 + g.clock;
          world = deleted;
          result = record g.result {
            rows_removed = g.result.rows_removed + removed;
            content_deleted = suc g.result.content_deleted;
            reclaimed_bytes = g.result.reclaimed_bytes + meta.size;
          };
        }
      ]

  -- A candidate of this backend in a run that acts.
  unfoldable pub collect : Row → Gc → Gc
  collect meta g =
      let before = others g.clock g.world in
      elim (claim_deleting now meta.blob_key meta.ref_count cutoff before.table) [
        | err why ↦ record g { world = before; failure = some why }
        | ok (true, table) ↦ remove meta (record g {
          world = record before { table = table };
          result = record g.result { claimed = suc g.result.claimed };
        })
        | ok (false, table) ↦ record g {
          clock = 3 + g.clock;
          world = record before { table = table };
          result = record g.result { revived = suc g.result.revived };
        }
      ]

  -- One candidate.
  unfoldable pub visit : Row → Gc → Gc
  visit meta seen =
      let g : Gc = record seen {
        result = record seen.result { candidates = suc seen.result.candidates };
      } in
      if not (meta.driver == driver)
      then record g { result = record g.result { skipped_foreign = suc g.result.skipped_foreign } }
      else if dry_run
      then record g {
        result = record g.result { reclaimed_bytes = g.result.reclaimed_bytes + meta.size };
      }
      else collect meta g

  -- The loop over the candidates, which a failure ends.
  unfoldable pub visit_all : List Row → Gc → Gc
  visit_all [] g = g
  visit_all (meta ∷ metas) g = elim g.failure [
    | some why ↦ g
    | none ↦ visit_all metas (visit meta g)
  ]

  -- One orphan of the inventory.
  unfoldable pub drop_orphan : Ref → Gc → Gc
  drop_orphan ref g =
      let counted : GcResult = record g.result {
        orphans = suc g.result.orphans;
        orphan_bytes = g.result.orphan_bytes + ref.size;
      } in
      if dry_run then record g { result = counted } else record g {
        clock = suc g.clock;
        world = without ref.key (others g.clock g.world);
        result = record counted { orphans_deleted = suc counted.orphans_deleted };
      }

  unfoldable pub drop_orphans : List Ref → Gc → Gc
  drop_orphans [] g = g
  drop_orphans (ref ∷ refs) g = drop_orphans refs (drop_orphan ref g)

-- Tests of a listed key.
unfoldable pub is_valid_key : Text → Bool
is_valid_key key = elim (validate_key key) [ err why ↦ false | ok done ↦ true ]

unfoldable pub is_own : Text → Ref → Bool
is_own root ref = is_valid_key ref.key && key_root_segment ref.key == root

-- `BuildInventory`: the orphans, from the rows and from what the backend lists.
unfoldable pub orphans_of : Text → Table → List Ref → List Ref
orphans_of root t listed = filter (λ ref. is_own root ref && not (has_key ref.key t)) listed

-- The account of an inventory.
unfoldable pub tally_inventory : Text → List Ref → GcResult → GcResult
tally_inventory root listed res = record res {
  bucket_keys = length listed;
  foreign = length (filter (λ ref. not (is_own root ref)) listed);
  other_root =
      length
        (filter (λ ref. is_valid_key ref.key && not (key_root_segment ref.key == root)) listed);
  rejected_key = length (filter (λ ref. not (is_valid_key ref.key)) listed);
}

abbrev pub or_bad_prefix : Result KeyError Text → Result GcError Text
or_bad_prefix (err why) = err (bad_prefix why)
or_bad_prefix (ok prefix) = ok prefix

-- `Run`. `lists prefix` is what `List` of the backend reports of its contents.
module _ (lists : Text → List Ref → List Ref) where
  -- The difference of the backend and the table.
  unfoldable pub sweep_root : (ℕ → World → World) → ℕ → ℕ → Text → Bool → Text → Gc → Gc
  sweep_root others now cutoff driver dry_run root g =
      let at_rows = others g.clock g.world in
      let at_list = others (suc g.clock) at_rows in
      let listed = lists root at_list.contents in
      drop_orphans others now cutoff driver dry_run (orphans_of root at_rows.table listed)
        (record g {
          clock = 2 + g.clock;
          world = at_list;
          result = tally_inventory root listed g.result;
        })

  -- `BuildInventory` normalizes the prefix again.
  unfoldable pub sweep : (ℕ → World → World) → ℕ → ℕ → Text → Bool → Text → Gc → Gc
  sweep others now cutoff driver dry_run prefix g = elim (normalize_prefix prefix) [
    | err why ↦ record g { failure = some (key_invalid why) }
    | ok root ↦ sweep_root others now cutoff driver dry_run root g
  ]

  unfoldable pub gc_run : (ℕ → World → World) → ℕ → Text → GcOptions → World → Result GcError Gc
  gc_run others now driver opts w = do
    guard (not (opts.grace == 0)) no_grace
    prefix ← or_bad_prefix (normalize_prefix opts.prefix)
    let cutoff = now - opts.grace
    let first = others 0 w
    let seen =
        visit_all others now cutoff driver opts.dry_run (list_collectable cutoff first.table)
          (record { clock = 1; world = first; result = no_result; failure = none })
    ok (elim seen.failure [
      | some why ↦ seen
      | none ↦ sweep others now cutoff driver opts.dry_run prefix seen
    ])
