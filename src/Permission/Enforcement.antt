-- ===== src/Permission/Enforcement.antt =====
-- internal/permission/permission.go: which rule decides a route, and who may take it.
use mathlib.Core.List.{reverse-append}
use k8s_ai.Base.{
  Bool, true, false, ◌&&◌, none, some, List, [], ◌∷◌, ◌++◌, Text, codes, nat_eq, text_eq,
  text_beq_iff, if◌then◌else◌, any, find?, has_prefix, has_suffix, trim_suffix, ◌≡◌, refl, sym, ap,
  subst, ◌∙◌, ◌⊎◌, inl, inr, ◌↔◌, arith, Bool-cases, Option-cases, Memᴰ, any→Memᴰ, any-Memᴰ,
}
use k8s_ai.Permission.{
  by_permission, Rule, Policy, method_matches, route_matches, rule_matches, require, require_access,
  grants, has_permission, authorize,
}

find?-append {ℓ} :
    {A : Type ℓ} (p : A → Bool) (xs ys : List A)
    → find? p (xs ++ ys) ≡ elim (find? p xs) [ none ↦ find? p ys | some x ↦ some x ]
find?-append p [] ys = refl
find?-append p (x ∷ xs) ys = ground (arith, find?-append p xs ys)

-- A rule that is registered after the others decides the routes that it matches and leaves the
-- decision on all other routes as it was.
require-append :
    (policy : Policy) (r : Rule) (method path : Text)
    → require (policy ++ (r ∷ [])) method path
      ≡ (if rule_matches method path r then some r else require policy method path)
unfolding require
require-append policy r method path = rw (reverse-append policy (r ∷ [])) refl

-- What one permission of a role is good for.
abbrev pub Grants : Text → Text → Type 0
Grants required p =
    (p ≡ codes "*")
    ⊎ (p ≡ required)
    ⊎ ((has_suffix p (codes ".*") ≡ true)
        × (has_prefix required (trim_suffix p (codes "*")) ≡ true))

grants_iff : (required p : Text) → (grants required p ≡ true) ↔ Grants required p
unfolding grants
grants_iff required p = ground (arith, text_beq_iff p (codes "*"), text_beq_iff p required)

-- A permission is had exactly if it is empty or some permission of the role is *, is the one asked
-- for, or ends in .* and agrees with the one asked for up to its dot.
has_permission_iff :
    (perms : List Text) (required : Text)
    → (has_permission perms required ≡ true)
      ↔ ((required ≡ []) ⊎ ((p : Text) × Memᴰ p perms × Grants required p))
unfolding has_permission
has_permission_iff perms [] = (λ _. inl refl, λ _. refl)
has_permission_iff perms (c ∷ required) = (
  λ h.
      let (p, m, g) = any→Memᴰ (grants (c ∷ required)) perms h in
      inr (p, m, (grants_iff (c ∷ required) p).0 g),
  elim [
    | inl e ↦ cc
    | inr (p, m, g) ↦ any-Memᴰ (grants (c ∷ required)) perms m ((grants_iff (c ∷ required) p).1 g)
  ],
)

-- Some rule of the list is for the method and the path.
abbrev pub some_rule : Text → Text → List Rule → Bool
some_rule method path rules =
    any (λ q. method_matches q.method method && route_matches q.path path) rules

-- The rule that decides a route: the last one for its method and its path.
pub record Decides (policy : Policy) (method path : Text) (r : Rule) : Type 0 where
  pub before : List Rule
  pub after : List Rule
  pub split : policy ≡ before ++ (r ∷ after)
  pub for_method : method_matches r.method method ≡ true
  pub for_path : route_matches r.path path ≡ true
  pub last : some_rule method path after ≡ false

-- The first rule decides only where no later one does.
require-cons :
    (r : Rule) (rest : Policy) (method path : Text)
    → require (r ∷ rest) method path ≡ elim (require rest method path) [
      | none ↦ if rule_matches method path r then some r else none
      | some q ↦ some q
    ]
unfolding require
require-cons r rest method path =
    rw (reverse-append (r ∷ []) rest) (find?-append (rule_matches method path) _ (r ∷ []))

module _ (method path : Text) where
  require-none :
      (policy : Policy) → some_rule method path policy ≡ false → require policy method path ≡ none
  unfolding require
  require-none [] h = refl
  require-none (r ∷ rest) h =
      let later = require-none rest (ground arith) in
      let here : rule_matches method path r ≡ false = ground arith in
      require-cons r rest method path ∙ rw (later, here) refl

  require-Decides :
      (before : List Rule) (r : Rule) (after : List Rule)
      → rule_matches method path r ≡ true
      → some_rule method path after ≡ false
      → require (before ++ (r ∷ after)) method path ≡ some r
  require-Decides [] r after here last =
      require-cons r after method path ∙ rw (require-none after last, here) refl
  require-Decides (q ∷ before) r after here last =
      require-cons q (before ++ (r ∷ after)) method path
      ∙ rw (require-Decides before r after here last) refl

  require-cases :
      (policy : Policy)
      → ((require policy method path ≡ none) × (some_rule method path policy ≡ false))
        ⊎ ((r : Rule) × (require policy method path ≡ some r) × Decides policy method path r)
  unfolding require
  require-cases [] = inl (refl, refl)
  require-cases (q ∷ rest) = elim (require-cases rest) [
    | inr (r, e, d) ↦ inr (
      r,
      require-cons q rest method path ∙ rw e refl,
      record {
        before = q ∷ d.before;
        after = d.after;
        split = ap (λ l. q ∷ l) d.split;
        for_method = d.for_method;
        for_path = d.for_path;
        last = d.last;
      },
    )
    | inl (e, u) ↦ elim (Bool-cases (rule_matches method path q)) [
      | inl m ↦ inr (
        q,
        require-cons q rest method path ∙ rw (e, m) refl,
        record {
          before = [];
          after = rest;
          split = refl;
          for_method = ground arith;
          for_path = ground arith;
          last = u;
        },
      )
      | inr m ↦ inl (require-cons q rest method path ∙ rw (e, m) refl, ground arith)
    ]
  ]

-- The permission is had.
abbrev pub Holds : List Text → Text → Type 0
Holds perms required = (required ≡ []) ⊎ ((p : Text) × Memᴰ p perms × Grants required p)

-- What `Authorize` makes of the rule that was found.
authorize-require :
    (policy : Policy) (perms : List Text) (method path : Text)
    → let a = authorize policy perms method path in
      ((a.registered ≡ false) ↔ (require policy method path ≡ none))
      × ((a.allowed ≡ false) ↔ (
          (require policy method path ≡ none)
          ⊎ ((r : Rule) × (require policy method path ≡ some r)
              × (r.access ≡ by_permission)
              × (has_permission perms r.permission ≡ false))))
unfolding authorize require_access
authorize-require policy perms method path = elim (Option-cases (require policy method path)) [
  | inl e ↦ (ground arith, (λ _. inl e, λ _. ground arith))
  | inr (r, e) ↦ (
    ground arith,
    (
      λ h. inr (r, e, ground arith, ground arith),
      elim [ inl n ↦ cc | inr (r', e', x, y) ↦ ground arith ],
    ),
  )
]

has_permission-Holds :
    (perms : List Text) (required : Text)
    → (has_permission perms required ≡ false) ↔ (¬ Holds perms required)
has_permission-Holds perms required =
    let (to_holds, from_holds) = has_permission_iff perms required in
    (
      λ h holds. cc (sym h ∙ from_holds holds),
      λ lacks. elim (Bool-cases (has_permission perms required)) [
        | inl e ↦ absurd (lacks (to_holds e))
        | inr e ↦ e
      ],
    )

require-none_iff :
    (policy : Policy) (method path : Text)
    → (require policy method path ≡ none) ↔ (some_rule method path policy ≡ false)
require-none_iff policy method path = (
  λ h. elim (require-cases method path policy) [ inl (e, u) ↦ u | inr (r, e, d) ↦ cc (sym h ∙ e) ],
  require-none method path policy,
)

require-some_iff :
    (policy : Policy) (method path : Text) (r : Rule)
    → (require policy method path ≡ some r) ↔ Decides policy method path r
require-some_iff policy method path r = (
  λ h. elim (require-cases method path policy) [
    | inl (e, u) ↦ cc (sym h ∙ e)
    | inr (q, e, d) ↦ subst (Decides policy method path) (some_injective (sym e ∙ h)) d
  ],
  λ d.
      ap (λ p. require p method path) d.split
      ∙ require-Decides method path d.before r d.after (ground (arith, d.for_method, d.for_path))
          d.last,
)
  where
    some_injective : {a b : Rule} → some a ≡ some b → a ≡ b
    some_injective h = cc

-- A route counts as unregistered exactly if no rule is for its method and its path, and access is
-- refused exactly to the unregistered routes and to those where the last rule for the method and
-- the path asks for a permission that is not empty and that no permission of the role grants by
-- being *, being the same, or ending in .* with the text before its * at the front of the one
-- asked for.
pub authorize-cases :
    (policy : Policy) (perms : List Text) (method path : Text)
    → let a = authorize policy perms method path in
      ((a.registered ≡ false) ↔ (some_rule method path policy ≡ false))
      × ((a.allowed ≡ false) ↔ (
          (some_rule method path policy ≡ false)
          ⊎ ((r : Rule) × Decides policy method path r
              × (r.access ≡ by_permission)
              × (¬ Holds perms r.permission))))
authorize-cases policy perms method path =
    let (seen, allowed) = authorize-require policy perms method path in
    let (no_rule, none_found) = require-none_iff policy method path in
    (
      (λ h. no_rule (seen.0 h), λ h. seen.1 (none_found h)),
      (
        λ h. elim (allowed.0 h) [
          | inl e ↦ inl (no_rule e)
          | inr (r, e, kind, lacks) ↦ inr (
            r,
            (require-some_iff policy method path r).0 e,
            kind,
            (has_permission-Holds perms r.permission).0 lacks,
          )
        ],
        elim [
          | inl u ↦ allowed.1 (inl (none_found u))
          | inr (r, d, kind, lacks) ↦ allowed.1 (
              inr (
                r,
                (require-some_iff policy method path r).1 d,
                kind,
                (has_permission-Holds perms r.permission).1 lacks,
              ))
        ],
      ),
    )
