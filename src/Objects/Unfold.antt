-- ===== src/Objects/Unfold.antt =====
-- The definitions that a run on concrete values unfolds, under one name.
use k8s_ai.Base.{strings, split_at, after_last, join, text_leb}
use k8s_ai.Objects.Key.{
  categories, valid_category, is_key_rune, is_hex, is_segment, matches_key, is_dots, hex_front,
  is_sha256, validate_key, category_of, sha_of_key, from_last_dot, ext_of_tail, ext_of_key,
  scope_of, spec_from_key, is_extension, normalize_ext, assemble, build_key, validate_list_prefix,
  normalize_prefix,
}
use k8s_ai.Objects.Row.{
  same_state, parse_state, row_of, update, affects, insert, has_no_owner, order_by_deleted,
}
use k8s_ai.Objects.Registry.{
  check_key, row_from, refresh, upsert, register, get, list_collectable, claimable, claim_deleting,
  can_miss, mark_one_missing, is_claimed, forget_one, mark_missing, forget,
}
use k8s_ai.Objects.Refs.{
  is_live, revive, incr_ref_count, is_held, decr_ref_count, is_idle, mark_orphan, first_row,
  attempts, acquire, release, valid_driver, is_some, at_source, moved, adopt_object, adopt,
}
use k8s_ai.Objects.Media.{media_types, guess_media_type, resolve_media_type}
use k8s_ai.Objects.Payload.{
  ref_of, rewrite, put_again, object_content_limit, drain, read_all_hashed, new_row, put_row, put,
  get_content, stat, without_payload, delete_content,
}
use k8s_ai.Objects.Verify.{
  inconsistent, add_sample, address_holds, deep_verdict, stat_verdict, settle, row_verdict, look,
  scan,
}
use k8s_ai.Objects.Collector.{is_own, orphans_of, is_valid_key, key_root_segment}
use k8s_ai.Objects.Rows.{has_key}
use k8s_ai.Objects.VerifyRun.{
  insert_by_key, order_by_key, list_by_category, inventory, verify_inventory, verify_reverse,
  verify_marked, verify_scanned, verify_scan, verify_run,
}

unfoldable pub keys : Unit {0}
unfolding strings split_at after_last join categories valid_category is_key_rune is_hex is_segment
    matches_key is_dots hex_front is_sha256 validate_key category_of sha_of_key from_last_dot
    ext_of_tail ext_of_key scope_of spec_from_key is_extension normalize_ext assemble build_key
    validate_list_prefix normalize_prefix
keys = tt

unfoldable pub rows : Unit {0}
unfolding keys same_state parse_state row_of update affects insert has_no_owner order_by_deleted
    check_key row_from refresh upsert register get list_collectable claimable claim_deleting
    can_miss mark_one_missing is_claimed forget_one mark_missing forget is_live revive
    incr_ref_count is_held decr_ref_count is_idle mark_orphan first_row attempts acquire release
    valid_driver is_some at_source moved adopt_object adopt media_types guess_media_type
    resolve_media_type ref_of rewrite put_again object_content_limit drain read_all_hashed new_row
    put_row put get_content stat without_payload delete_content
rows = tt

unfoldable pub comparison : Unit {0}
unfolding rows text_leb inconsistent add_sample address_holds deep_verdict stat_verdict settle
    row_verdict look scan insert_by_key order_by_key list_by_category inventory verify_inventory
    verify_reverse verify_marked verify_scanned verify_scan verify_run is_own orphans_of
    is_valid_key key_root_segment has_key
comparison = tt
