-- ===== src/Approval/GrantLaws.antt =====
-- What a grant authorizes, and what the policy decides.
use k8s_ai.Base.{
  ℕ, ◌≤◌, true, false, none, some, [], ◌∷◌, Text, text_eq, text_beq_iff, ◌≡◌, refl, ◌⊎◌, ◌↔◌, inl,
  inr, arith,
}
use k8s_ai.Model.{medium}
use k8s_ai.Approval.Risk.{risk_order}
use k8s_ai.Approval.Decision.{Policy, Input, auto, deny, evaluate}
use k8s_ai.Approval.Grant.{
  Grant, GrantRequest, grant_eligible_risk, new_grant, is_expired, differs, matches,
}

-- A field of a grant that is not empty binds the request.
abbrev pub Binds : Text → Text → Type 0
Binds field wanted = (field ≡ []) ⊎ (field ≡ wanted)

differs-Binds : (field wanted : Text) → (differs field wanted ≡ false) ↔ Binds field wanted
unfolding differs
differs-Binds [] wanted = (λ _. inl refl, λ _. refl)
differs-Binds (c ∷ s) wanted = ground (arith, text_beq_iff (c ∷ s) wanted)

-- What a grant has to be for a request that it authorizes.
record Covers (now : ℕ) (g : Grant) (req : GrantRequest) : Type 0 where
  current : is_expired now g.expires_at ≡ false
  plain : req.shell ≡ false
  opted_in : req.no_grant ≡ false
  within : risk_order req.risk ≤ risk_order g.risk_ceiling
  task : Binds g.task_id req.task_id
  cluster : Binds g.cluster req.cluster
  operation : Binds g.operation req.operation
  kind : Binds g.kind req.kind
  name : Binds g.name req.name
  namespace : Binds g.namespace req.namespace

module _ (now : ℕ) (g : Grant) (req : GrantRequest) where
  matches-tests : (matches now g req ≡ true) ↔ (
      (is_expired now g.expires_at ≡ false)
      × (req.shell ≡ false)
      × (req.no_grant ≡ false)
      × (risk_order req.risk ≤ risk_order g.risk_ceiling)
      × (differs g.task_id req.task_id ≡ false)
      × (differs g.cluster req.cluster ≡ false)
      × (differs g.operation req.operation ≡ false)
      × (differs g.kind req.kind ≡ false)
      × (differs g.name req.name ≡ false)
      × (differs g.namespace req.namespace ≡ false))
  unfolding matches
  matches-tests = ground arith

  -- A grant matches a request exactly if it has not expired, the request is neither a shell
  -- command nor opted out, its risk is at most the ceiling, and it agrees with every field of the
  -- grant that is not empty.
  matches-Covers : (matches now g req ≡ true) ↔ Covers now g req
  matches-Covers = (
    λ h.
        let (a, b, c, d, e, f, i, j, k, l) = matches-tests.0 h in
        record {
          current = a;
          plain = b;
          opted_in = c;
          within = d;
          task = (differs-Binds _ _).0 e;
          cluster = (differs-Binds _ _).0 f;
          operation = (differs-Binds _ _).0 i;
          kind = (differs-Binds _ _).0 j;
          name = (differs-Binds _ _).0 k;
          namespace = (differs-Binds _ _).0 l;
        },
    λ v. matches-tests.1 (
      v.current,
      v.plain,
      v.opted_in,
      v.within,
      (differs-Binds _ _).1 v.task,
      (differs-Binds _ _).1 v.cluster,
      (differs-Binds _ _).1 v.operation,
      (differs-Binds _ _).1 v.kind,
      (differs-Binds _ _).1 v.name,
      (differs-Binds _ _).1 v.namespace,
    ),
  )

-- What `NewGrant` copies, and when it makes a grant at all.
record IsGranted (req : GrantRequest) (g : Grant) : Type 0 where
  plain : req.shell ≡ false
  opted_in : req.no_grant ≡ false
  eligible : risk_order req.risk ≤ 2
  ceiling : g.risk_ceiling ≡ medium
  lasting : g.expires_at ≡ none
  task : g.task_id ≡ req.task_id
  cluster : g.cluster ≡ req.cluster
  operation : g.operation ≡ req.operation
  kind : g.kind ≡ req.kind
  name : g.name ≡ req.name
  namespace : g.namespace ≡ req.namespace

new_grant-IsGranted :
    (id : Text) (req : GrantRequest) (g : Grant) → new_grant id req ≡ some g → IsGranted req g
unfolding new_grant grant_eligible_risk
new_grant-IsGranted id req g h = ground arith

IsGranted-Covers : (now : ℕ) (req : GrantRequest) (g : Grant) → IsGranted req g → Covers now g req
unfolding is_expired
IsGranted-Covers now req g v = record {
  current = rw v.lasting;
  plain = v.plain;
  opted_in = v.opted_in;
  within = ground arith;
  task = inr v.task;
  cluster = inr v.cluster;
  operation = inr v.operation;
  kind = inr v.kind;
  name = inr v.name;
  namespace = inr v.namespace;
}

-- What a request has to be for a grant that was made from another.
pub record IsCovered (req other : GrantRequest) : Type 0 where
  pub plain : other.shell ≡ false
  pub opted_in : other.no_grant ≡ false
  pub within : risk_order other.risk ≤ 2
  pub task : Binds req.task_id other.task_id
  pub cluster : Binds req.cluster other.cluster
  pub operation : Binds req.operation other.operation
  pub kind : Binds req.kind other.kind
  pub name : Binds req.name other.name
  pub namespace : Binds req.namespace other.namespace

-- A grant made from a request matches that request at any time, and at any time it matches exactly
-- the requests that are no shell command, have not opted out, have a risk of at most MEDIUM, and
-- agree with the task, the cluster, the operation, the kind, the name and the namespace of the
-- first request as far as these are not empty.
pub new_grant-matches :
    (id : Text) (req : GrantRequest) (g : Grant)
    → new_grant id req ≡ some g
    → ((now : ℕ) → matches now g req ≡ true)
      × ((now : ℕ) (other : GrantRequest) → (matches now g other ≡ true) ↔ IsCovered req other)
new_grant-matches id req g h = (
  λ now. (matches-Covers now g req).1 (IsGranted-Covers now req g v),
  λ now other. (
    λ m.
        let w = (matches-Covers now g other).0 m in
        record {
          plain = w.plain;
          opted_in = w.opted_in;
          within = ground (arith, w.within, v.ceiling);
          task = rw (← v.task) w.task;
          cluster = rw (← v.cluster) w.cluster;
          operation = rw (← v.operation) w.operation;
          kind = rw (← v.kind) w.kind;
          name = rw (← v.name) w.name;
          namespace = rw (← v.namespace) w.namespace;
        },
    λ w. (matches-Covers now g other).1 (record {
      current = current now;
      plain = w.plain;
      opted_in = w.opted_in;
      within = ground (arith, w.within, v.ceiling);
      task = rw v.task w.task;
      cluster = rw v.cluster w.cluster;
      operation = rw v.operation w.operation;
      kind = rw v.kind w.kind;
      name = rw v.name w.name;
      namespace = rw v.namespace w.namespace;
    }),
  ),
)
  where
    v : IsGranted req g
    v = new_grant-IsGranted id req g h

    current : (now : ℕ) → is_expired now g.expires_at ≡ false
    current now = (IsGranted-Covers now req g v).current

-- The policy denies exactly what Code Guard denied, and decides auto exactly if Code Guard did not
-- deny, there is no shell syntax, and the call is read-only or approval is switched off by one of
-- the policy's two switches.
evaluate-cases :
    (p : Policy) (i : Input)
    → ((evaluate p i ≡ deny) ↔ (i.denied ≡ true))
      × ((evaluate p i ≡ auto) ↔ (
          (i.denied ≡ false)
          × (i.shell ≡ false)
          × ((i.read_only ≡ true) ⊎ (p.skip_permissions ≡ true) ⊎ (p.require_approval ≡ false))))
unfolding evaluate
evaluate-cases p i = ground arith
