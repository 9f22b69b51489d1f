-- ===== src/Report/HealthLaws.antt =====
-- The health score as a difference, and how findings move it.
use mathlib.Core.List.{foldl}
use k8s_ai.Base.{
  ℕ, ◌+◌, ◌-◌, ◌≤◌, Bool, true, List, [], ◌∷◌, ◌++◌, nat_eq, if◌then◌else◌, any, ◌≡◌, ap, sym, ◌∙◌,
  arith, Memᴰ, any-Memᴰ,
}
use k8s_ai.Base.Int.{pos, ◌-ℤ◌, clamp, -ℤ_assoc, clamp-sub, -ℤ_zero}
use k8s_ai.Model.{severity_rank}
use k8s_ai.Report.Health.{
  Finding, Penalty, penalty_weight, is_severe_root, base_score, Tally, tally_step,
  compute_health_score,
}

-- What a finding costs.
abbrev pub cost : Finding → ℕ
cost f = if f.correlated then 0 else penalty_weight f.severity

abbrev pub total_cost : List Finding → ℕ
total_cost [] = 0
total_cost (f ∷ fs) = cost f + total_cost fs

abbrev pub sum_points : List Penalty → ℕ
sum_points [] = 0
sum_points (p ∷ ps) = p.points + sum_points ps

tally_step_score : (h : Tally) (f : Finding) → (tally_step h f).score ≡ h.score -ℤ cost f
unfolding tally_step
tally_step_score h f = ground (arith, -ℤ_zero h.score)

run_score :
    (h : Tally) (fs : List Finding) → (foldl tally_step h fs).score ≡ h.score -ℤ total_cost fs
run_score h [] = sym (-ℤ_zero h.score)
run_score h (f ∷ fs) =
    run_score (tally_step h f) fs
    ∙ ap (λ s. s -ℤ total_cost fs) (tally_step_score h f)
    ∙ -ℤ_assoc h.score (cost f) (total_cost fs)

sum_points-append :
    (ps : List Penalty) (p : Penalty) → sum_points (ps ++ (p ∷ [])) ≡ sum_points ps + p.points
sum_points-append [] p = omega arith
sum_points-append (q ∷ ps) p = omega (arith, sum_points-append ps p)

tally_step_points :
    (h : Tally) (f : Finding)
    → sum_points (tally_step h f).penalties ≡ sum_points h.penalties + cost f
unfolding tally_step
tally_step_points h f = ground (
  arith,
  sum_points-append h.penalties
      (record { finding_id = f.id; severity = f.severity; points = penalty_weight f.severity }),
)

run_points :
    (h : Tally) (fs : List Finding)
    → sum_points (foldl tally_step h fs).penalties ≡ sum_points h.penalties + total_cost fs
run_points h [] = omega arith
run_points h (f ∷ fs) = omega (arith, run_points (tally_step h f) fs, tally_step_points h f)

-- The health score is the base less what the findings cost, and not below 0, and the points of the
-- recorded penalties add up to that cost.
pub score-total_cost :
    (findings : List Finding)
    → ((compute_health_score findings).score ≡ base_score findings - total_cost findings)
      × (sum_points (compute_health_score findings).penalties ≡ total_cost findings)
unfolding compute_health_score
score-total_cost findings =
    let start : Tally = record {
      score = pos (base_score findings);
      penalties = [];
      correlated_excluded = 0;
    } in
    (
      ap clamp (run_score start findings) ∙ clamp-sub (base_score findings) (total_cost findings),
      run_points start findings ∙ (omega arith),
    )

total_cost-append : (fs gs : List Finding) → total_cost (fs ++ gs) ≡ total_cost fs + total_cost gs
total_cost-append [] gs = omega arith
total_cost-append (f ∷ fs) gs = omega (arith, total_cost-append fs gs)

any-append : (p : Finding → Bool) (fs gs : List Finding) → any p fs ≡ true → any p (fs ++ gs) ≡ true
any-append p (f ∷ fs) gs h = ground (arith, any-append p fs gs)
any-append p [] gs h = cc

base_score-append : (fs gs : List Finding) → base_score (fs ++ gs) ≤ base_score fs
unfolding base_score
base_score-append fs gs = ground (arith, any-append is_severe_root fs gs)

-- Further findings do not raise the health score.
score-append :
    (fs gs : List Finding)
    → (compute_health_score (fs ++ gs)).score ≤ (compute_health_score fs).score
score-append fs gs = omega (
  arith,
  (score-total_cost fs).0,
  (score-total_cost (fs ++ gs)).0,
  total_cost-append fs gs,
  base_score-append fs gs,
)

cost_le_total : (fs : List Finding) (f : Finding) → Memᴰ f fs → cost f ≤ total_cost fs
cost_le_total [] f m = elim m [ ]
cost_le_total (g ∷ fs) f (Memᴰ.head e) = rw e (omega arith)
cost_le_total (g ∷ fs) f (Memᴰ.tail m) = omega (arith, cost_le_total fs f m)

severe_cost : (f : Finding) → is_severe_root f ≡ true → 15 ≤ cost f
unfolding is_severe_root severity_rank penalty_weight
severe_cost f h = ground arith

-- With a root cause of severity HIGH or CRITICAL among the findings the health score is at most
-- 55.
score_severe :
    (fs : List Finding) (f : Finding)
    → Memᴰ f fs
    → is_severe_root f ≡ true
    → (compute_health_score fs).score ≤ 55
unfolding base_score
score_severe fs f m h = ground (
  arith,
  score-total_cost fs,
  any-Memᴰ is_severe_root fs m h,
  cost_le_total fs f m,
  severe_cost f h,
)
