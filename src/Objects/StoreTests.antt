-- ===== src/Objects/StoreTests.antt =====
-- The laws of the table, of the content and of the collector at concrete rows.
use k8s_ai.Base.{
  ℕ, ◌+◌, ◌≡◌, refl, arith, false, List, [], ◌∷◌, Option, none, some, Text, text_eq, codes, ok, any,
  ◌==◌, nat_eq, if◌then◌else◌,
}
use k8s_ai.Base.Int.{pos}
use k8s_ai.Objects.Key.{Spec}
use k8s_ai.Objects.Row.{State, ready, orphaned, missing, Row, Meta, Table, row_of}
use k8s_ai.Objects.Registry.{list_collectable}
use k8s_ai.Objects.Refs.{Ref}
use k8s_ai.Objects.Payload.{put, get_content}
use k8s_ai.Objects.Rows.{distinct, has_key}
use k8s_ai.Objects.Invariant.{WellFormed, is_fine, is_leaving, leaves}
use k8s_ai.Objects.Acquire.{idle, IsReferenced, acquire-IsReferenced}
use k8s_ai.Objects.Ledger.{
  Op, registered, acquired, released, claimed, run, refs, taken, given_back, all_taken,
  all_given_back,
}
use k8s_ai.Objects.Balance.{run-balance}
use k8s_ai.Objects.PutGet.{get_content-put, concat}
use k8s_ai.Objects.Collector.{
  World, GcOptions, Gc, no_result, gc_run, sweep_root, orphans_of, without, key_root_segment,
  is_valid_key, is_own, visit_all, drop_orphan, drop_orphans, tally_inventory, sweep, visit,
  collect, remove,
}
use k8s_ai.Objects.CollectorLaws.{Held, has_content}
use k8s_ai.Objects.CollectorSafety.{gc_run-Held}
use k8s_ai.Objects.CollectorDone.{IsGone}
use k8s_ai.Objects.CollectorLive.{gc_run-IsGone}
use k8s_ai.Objects.CollectorGaps.{release_missing, sweep-deletes}
use k8s_ai.Objects.Unfold.{rows}
use k8s_ai.Objects.Tests.{sha, key, scope}

abbrev ref : Ref
ref = record { key = key; sha256 = sha; size = 3; media_type = codes "text/markdown" }

abbrev pub a_row : ℕ → State → Option ℕ → Row
a_row count state deleted_at = record {
  blob_key = key;
  sha256 = sha;
  size = 3;
  media_type = codes "text/markdown";
  category = codes "reports";
  driver = codes "dir";
  ref_count = count;
  state = state;
  deleted_at = deleted_at;
  created_by = codes "u1";
  payload = none;
  created_at = 1;
  updated_at = 1;
}

abbrev pub table_of : ℕ → State → Option ℕ → Table
table_of count state deleted_at = a_row count state deleted_at ∷ []

empty-WellFormed : WellFormed []
unfolding distinct
empty-WellFormed = record { fine = refl; keys = refl }

orphan-WellFormed : WellFormed (table_of 0 orphaned (some 4))
unfolding distinct has_key rows is_fine is_leaving leaves
orphan-WellFormed = record { fine = refl; keys = refl }

abbrev revived : Row
revived = record (a_row 1 ready none) { updated_at = 5 }

-- A row that waits for its collection is taken back by a second reference.
acquire-IsReferenced_example :
    WellFormed (revived ∷ []) × ((r : Row) × (row_of key (revived ∷ []) ≡ some r) × IsReferenced r)
unfolding rows
acquire-IsReferenced_example =
    acquire-IsReferenced idle 5 ref (codes "dir") (codes "u1") (table_of 0 orphaned (some 4))
      (revived ∷ []) (λ k x w. w) orphan-WellFormed refl

abbrev content_hash : Text → Text
content_hash content = sha

abbrev a_meta : Meta
a_meta = record {
  blob_key = key;
  sha256 = sha;
  size = 3;
  media_type = codes "text/markdown";
  category = [];
  driver = codes "dir";
  ref_count = pos 0;
  state = [];
  deleted_at = none;
  created_by = codes "u1";
  created_at = none;
}

abbrev ops : List Op
ops =
    registered 4 a_meta
    ∷ acquired 5 ref (codes "dir") (codes "u1")
    ∷ released 6 key
    ∷ acquired 7 ref (codes "dir") (codes "u2")
    ∷ claimed 8 key 0 9
    ∷ []

run-balance_example :
    WellFormed (run content_hash ops [])
    × (refs key (run content_hash ops []) + all_given_back content_hash key ops []
        ≡ refs key [] + all_taken content_hash key ops [])
unfolding rows leaves
run-balance_example = run-balance content_hash key ops [] empty-WellFormed refl

-- Two references are taken, one is given back, and the claim of the object fails.
run_counts :
    (refs key (run content_hash ops []) ≡ 1)
    × (all_taken content_hash key ops [] ≡ 2)
    × (all_given_back content_hash key ops [] ≡ 1)
unfolding rows refs taken given_back has_key
run_counts = (refl, refl, refl)

abbrev spec : Spec
spec = record { category = codes "reports"; scope = scope; ext = codes "md" }

abbrev stored_row : Row
stored_row = record (a_row 0 ready none) {
  size = 3;
  media_type = codes "text/markdown; charset=utf-8";
  driver = codes "db";
  payload = some (codes "abc");
  created_at = 5;
  updated_at = 5;
}

abbrev stored_ref : Ref
stored_ref = record {
  key = key;
  sha256 = sha;
  size = 3;
  media_type = codes "text/markdown; charset=utf-8";
}

get_content-put_example :
    (content : Text) × (found : Ref) × (get_content content_hash stored_ref.key (stored_row ∷ [])
      ≡ ok (content, found))
    × (content_hash content ≡ content_hash (concat (some (codes "ab") ∷ some (codes "c") ∷ [])))
    × (found.key ≡ stored_ref.key)
unfolding rows
get_content-put_example =
    get_content-put content_hash 5 10 [] spec [] (codes "u1")
      (some (codes "ab") ∷ some (codes "c") ∷ []) [] (stored_row ∷ []) stored_ref (λ k r e. cc) refl

-- The content is the one that was put, and a second `Put` of it changes nothing.
put_twice :
    (get_content content_hash key (stored_row ∷ []) ≡ ok (codes "abc", stored_ref))
    × (put content_hash idle 9 10 [] spec []
          (codes "u1")
          (some (codes "abc") ∷ [])
          (stored_row ∷ [])
        ≡ ok (stored_ref, stored_row ∷ []))
unfolding rows
put_twice = (refl, refl)

missing-WellFormed : WellFormed (table_of 1 missing none)
unfolding distinct has_key rows is_fine is_leaving leaves
missing-WellFormed = record { fine = refl; keys = refl }

abbrev tombstone : Row
tombstone = record (a_row 0 missing none) { updated_at = 5 }

release_missing_example :
    any (λ q. q.blob_key == key) (list_collectable 1000 (tombstone ∷ [])) ≡ false
unfolding rows
release_missing_example =
    release_missing 5 key (table_of 1 missing none) (tombstone ∷ []) (a_row 1 missing none) 1000
      missing-WellFormed refl refl refl refl

abbrev all_listed : Text → List Ref → List Ref
all_listed prefix refs = refs

abbrev options : GcOptions
options = record { grace = 10; prefix = []; dry_run = false }

abbrev quiet_world : ℕ → World → World
quiet_world k w = w

ready-WellFormed : WellFormed (table_of 1 ready none)
unfolding distinct has_key rows is_fine is_leaving leaves
ready-WellFormed = record { fine = refl; keys = refl }

abbrev referenced : World
referenced = record { table = table_of 1 ready none; contents = ref ∷ [] }

referenced-Held : Held key referenced
unfolding rows refs has_content
referenced-Held = record { formed = ready-WellFormed; counted = omega arith; present = refl }

abbrev after_run : Gc
after_run = record {
  clock = 3;
  world = referenced;
  result = record no_result { bucket_keys = 1 };
  failure = none;
}

gc_run-Held_example : Held key referenced
unfolding rows gc_run sweep sweep_root tally_inventory orphans_of is_own is_valid_key
    key_root_segment has_key visit_all drop_orphans
gc_run-Held_example =
    gc_run-Held all_listed quiet_world 100 (codes "dir") options referenced after_run key
      (λ k w h. h) referenced-Held refl

-- A transaction that registers the object just before the sweep deletes it.
abbrev late_acquire : ℕ → World → World
late_acquire k w = record w { table = if◌then◌else◌ (k == 3) (table_of 1 ready none) w.table }

abbrev unregistered : Gc
unregistered = record {
  clock = 1;
  world = record { table = []; contents = ref ∷ [] };
  result = no_result;
  failure = none;
}

sweep-deletes_example :
    has_content key
      (sweep_root all_listed late_acquire 100 90
        (codes "dir")
        false
        (codes "k8sai")
        unregistered).world
    ≡ false
unfolding rows orphans_of is_own is_valid_key key_root_segment has_key
sweep-deletes_example =
    sweep-deletes all_listed late_acquire 100 90 (codes "dir") (codes "k8sai") key unregistered
      (λ k w. refl) refl

-- The row is left with a reference and without a content.
dangling :
    (sweep_root all_listed late_acquire 100 90
      (codes "dir")
      false
      (codes "k8sai")
      unregistered).world
    ≡ record { table = table_of 1 ready none; contents = [] }
unfolding rows sweep_root tally_inventory orphans_of is_own is_valid_key key_root_segment has_key
    drop_orphans drop_orphan without
dangling = refl

abbrev waiting : World
waiting = record { table = table_of 0 orphaned (some 4); contents = ref ∷ [] }

abbrev collected_run : Gc
collected_run = record {
  clock = 6;
  world = record { table = []; contents = [] };
  result = record no_result {
    candidates = 1;
    claimed = 1;
    rows_removed = 1;
    content_deleted = 1;
    reclaimed_bytes = 3;
  };
  failure = none;
}

gc_run-IsGone_example : IsGone key (record { table = []; contents = [] })
unfolding rows gc_run sweep sweep_root tally_inventory orphans_of is_own is_valid_key
    key_root_segment has_key visit_all visit collect remove without drop_orphans
gc_run-IsGone_example =
    gc_run-IsGone all_listed 100 10 (codes "dir") [] key waiting (a_row 0 orphaned (some 4))
      collected_run orphan-WellFormed refl refl refl refl
