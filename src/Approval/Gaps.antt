-- ===== src/Approval/Gaps.antt =====
-- Classes of writes that internal/approval/risk.go takes for reads.
use k8s_ai.Base.{
  true, false, List, [], ◌∷◌, Text, codes, ◌==◌, text_eq, text_beq, text_beq_iff, contains, fields,
  strings, ◌≡◌, refl, arith, Memᴰ, any-Memᴰ,
}
use k8s_ai.Approval.Shell.{has_shell_syntax}
use k8s_ai.Approval.Risk.{
  medium_verbs, high_verbs, critical_verbs, read_only_verbs, is_known_verb, write_risk,
  extract_verb, extract_verb_from_tokens, has_dry_run, is_dry_run_flag, classify_verb, classify,
  is_read_only_command,
}

-- Any spelling of the flag, `--dry-run=none` included.
dry_run_none : is_dry_run_flag (codes "--dry-run=none") ≡ true
unfolding is_dry_run_flag strings
dry_run_none = refl

delete_is_no_rollout : (codes "delete" == codes "rollout") ≡ false
unfolding strings
delete_is_no_rollout = refl

classify_verb_delete : (rest : List Text) → (classify_verb (codes "delete") rest true).0 ≡ true
unfolding classify_verb
classify_verb_delete rest =
    ground (arith, delete_is_no_rollout, text_beq_iff (codes "delete") (codes "delete"))

-- A delete without shell syntax that carries --dry-run=none is read-only for the classification.
pub delete_dry_run_none :
    (command : Text)
    → has_shell_syntax command ≡ false
    → (extract_verb command).0 ≡ codes "delete"
    → Memᴰ (codes "--dry-run=none") (fields command)
    → is_read_only_command command ≡ true
unfolding is_read_only_command classify has_dry_run text_beq classify_verb
delete_dry_run_none command plain verb m =
    rw (plain, verb, any-Memᴰ is_dry_run_flag (fields command) m dry_run_none)
      (classify_verb_delete (extract_verb command).1)

read_is_known : (verb : Text) → contains read_only_verbs verb ≡ true → is_known_verb verb ≡ true
unfolding is_known_verb
read_is_known verb h = ground arith

known_filled : (verb : Text) → is_known_verb verb ≡ true → (verb == []) ≡ false
unfolding is_known_verb read_only_verbs write_risk medium_verbs high_verbs critical_verbs strings
known_filled [] h = cc
known_filled (c ∷ s) h = refl

-- If the second word of a command without shell syntax is no known verb and the third is the name
-- of a reading verb, the command is read-only for the classification, whatever follows.
pub flag_value_hides_verb :
    (command program flag value : Text) (rest : List Text)
    → has_shell_syntax command ≡ false
    → fields command ≡ program ∷ flag ∷ value ∷ rest
    → is_known_verb flag ≡ false
    → contains read_only_verbs value ≡ true
    → is_read_only_command command ≡ true
unfolding is_read_only_command classify extract_verb extract_verb_from_tokens classify_verb
flag_value_hides_verb command program flag value rest plain split no_verb reads =
    let known = read_is_known value reads in ground (arith, known, known_filled value known)
