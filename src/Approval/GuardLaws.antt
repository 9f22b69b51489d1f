-- ===== src/Approval/GuardLaws.antt =====
-- What the code guard and the risk classes of a creation decide, stated over the subjects alone.
use mathlib.Core.List.{foldl}
use k8s_ai.Base.{
  Bool, not, ◌&&◌, ◌||◌, List, [], ◌∷◌, contains, is_empty, text_eq, any, if◌then◌else◌, ◌≡◌, refl,
  ◌⊎◌, inl, inr, ◌≤◌, arith, Memᴰ, ◌∙◌,
}
use native.Mathlib.Nat.{le_trans}
use k8s_ai.Model.{safe, medium, high}
use k8s_ai.Approval.Risk.{risk_order}
use k8s_ai.Approval.CreateRisk.{
  CreateSubject, Risk, benign_create_kinds, is_wide, raise, create_risk_for, subject_step,
  create_subject_risk,
}
use k8s_ai.Approval.CodeGuard.{
  allow, review, deny, GuardRequest, Scan, add, deny_if, review_if, check_dry_run, guard_step,
  no_scan, scan_subjects, code_guard,
}

-- A creation that keeps the class MEDIUM.
abbrev pub is_benign : CreateSubject → Bool
is_benign s =
    not s.unknown
    && not (is_wide s.scope)
    && is_empty s.dangerous
    && is_empty s.escalations
    && contains benign_create_kinds s.kind

create_risk_for_lem :
    (s : CreateSubject)
    → (create_risk_for s).level ≡ (if s.dry_run then safe else if is_benign s then medium else high)
unfolding create_risk_for raise
create_risk_for_lem s = ground arith

-- The class of a call bounds the class of each subject, and is SAFE or that of some subject.
module _ where
  subject_step_bounds :
      (acc : Risk) (s : CreateSubject)
      → (risk_order acc.level ≤ risk_order (subject_step acc s).level)
        × (risk_order (create_risk_for s).level ≤ risk_order (subject_step acc s).level)
        × (((subject_step acc s).level ≡ acc.level)
            ⊎ ((subject_step acc s).level ≡ (create_risk_for s).level))
  unfolding subject_step
  subject_step_bounds acc s = ground arith

  subjects_grow :
      (acc : Risk) (ss : List CreateSubject)
      → risk_order acc.level ≤ risk_order (foldl subject_step acc ss).level
  subjects_grow acc [] = omega arith
  subjects_grow acc (s ∷ ss) =
      le_trans (subject_step_bounds acc s).0 (subjects_grow (subject_step acc s) ss)

  subjects_bound :
      (acc : Risk) (ss : List CreateSubject) (s : CreateSubject)
      → Memᴰ s ss
      → risk_order (create_risk_for s).level ≤ risk_order (foldl subject_step acc ss).level
  subjects_bound acc [] s m = elim m [ ]
  subjects_bound acc (t ∷ ss) s (Memᴰ.head e) =
      rw e (le_trans (subject_step_bounds acc t).1 (subjects_grow (subject_step acc t) ss))
  subjects_bound acc (t ∷ ss) s (Memᴰ.tail m) = subjects_bound (subject_step acc t) ss s m

  subjects_attain :
      (acc : Risk) (ss : List CreateSubject)
      → ((foldl subject_step acc ss).level ≡ acc.level)
        ⊎ ((s : CreateSubject) × Memᴰ s ss
            × ((foldl subject_step acc ss).level ≡ (create_risk_for s).level))
  subjects_attain acc [] = inl refl
  subjects_attain acc (t ∷ ss) = elim (subjects_attain (subject_step acc t) ss) [
    | inl e ↦ elim (subject_step_bounds acc t).2 [
      | inl p ↦ inl (e ∙ p)
      | inr p ↦ inr (t, Memᴰ.head refl, e ∙ p)
    ]
    | inr (s, m, e) ↦ inr (s, Memᴰ.tail m, e)
  ]

-- The risk of a creation call is at least the risk of each of its subjects, and it is SAFE or the
-- risk of one of them.
create_subject_risk_bounds :
    (subjects : List CreateSubject) (s : CreateSubject)
    → Memᴰ s subjects
    → (risk_order (create_risk_for s).level ≤ risk_order (create_subject_risk subjects).level)
      × (((create_subject_risk subjects).level ≡ safe)
          ⊎ ((u : CreateSubject) × Memᴰ u subjects
              × ((create_subject_risk subjects).level ≡ (create_risk_for u).level)))
unfolding create_subject_risk
create_subject_risk_bounds subjects s m =
    (subjects_bound _ subjects s m, subjects_attain _ subjects)

-- A subject that is refused whatever the user says.
abbrev pub is_blocked : CreateSubject → Bool
is_blocked s = s.denied || s.not_allowed || s.cluster_kind_denied || s.namespace_missing

-- A subject that a person has to confirm.
abbrev pub is_sensitive : CreateSubject → Bool
is_sensitive s = not s.dry_run || s.unknown || not (is_empty s.dangerous)

module _ (verified : Bool) where
  guard_step_flags :
      (c : Scan) (s : CreateSubject)
      → ((guard_step verified c s).deny ≡ (c.deny || is_blocked s))
        × ((guard_step verified c s).review ≡ (c.review || is_sensitive s))
        × ((guard_step verified c s).dry_run_gap
            ≡ (c.dry_run_gap || (not s.dry_run && not verified)))
  unfolding guard_step deny_if review_if add check_dry_run
  guard_step_flags c s = ground arith

  guard_steps_flags :
      (c : Scan) (ss : List CreateSubject)
      → let c' = foldl (guard_step verified) c ss in
        (c'.deny ≡ (c.deny || any is_blocked ss))
        × (c'.review ≡ (c.review || any is_sensitive ss))
        × (c'.dry_run_gap ≡ (c.dry_run_gap || any (λ s. not s.dry_run && not verified) ss))
  guard_steps_flags c [] = ground arith
  guard_steps_flags c (s ∷ ss) =
      ground (arith, guard_step_flags c s, guard_steps_flags (guard_step verified c s) ss)

-- The verdict of the code guard is deny exactly if some subject is blocked, or is no dry run while
-- no dry run has been verified; else it is review if some subject is no dry run, of an unknown
-- kind or has dangerous fields; else it is allow.
pub code_guard_verdict :
    (req : GuardRequest)
    → ((code_guard req).verdict ≡ (
        if any is_blocked req.subjects
          || any (λ s. not s.dry_run && not req.dry_run_verified) req.subjects
        then deny
        else if any is_sensitive req.subjects
        then review
        else allow))
unfolding code_guard scan_subjects deny_if add
code_guard_verdict req = ground (arith, guard_steps_flags req.dry_run_verified no_scan req.subjects)
