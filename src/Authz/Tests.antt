-- ===== src/Authz/Tests.antt =====
-- The scope of a user and the readable clusters at concrete grants.
use k8s_ai.Base.{
  ◌≡◌, refl, true, false, some, [], ◌∷◌, text_eq, codes, IsSorted, sort_texts, insert_text, strings,
}
use k8s_ai.Permission.{has_permission, grants}
use k8s_ai.Authz.Scope.{
  User, Role, RawGrant, Backend, EffectiveScope, principals, is_over, is_current, add_namespaces,
  decode_list, write_grant, read_grant, read_grants, read_principals, effective_scope,
}
use k8s_ai.Authz.ScopeLaws.{HeldBy, effective_scope-HeldBy}

abbrev prod_grant : RawGrant
prod_grant = record {
  id = codes "g1";
  cluster_id = codes "c1";
  namespaces = codes " prod";
  permissions = codes "*";
  expires_at = some 9;
}

-- A store with one grant, whose lists are stored as their only element.
abbrev one_grant : Backend
one_grant = record { list_by_principal = λ p. some (prod_grant ∷ []); decode = λ s. some (s ∷ []) }

abbrev ann : User
ann = record { id = codes "u1"; username = [] }

abbrev viewer : Role
viewer = record { permissions = codes "cluster.read" ∷ [] }

abbrev ann_scope : EffectiveScope
ann_scope = record {
  cluster_id = codes "c1";
  namespaces = codes "prod" ∷ [];
  cluster_scoped = false;
  is_admin = false;
  can_write = true;
  can_destroy = false;
}

effective_scope-HeldBy_example :
    HeldBy one_grant 4 (codes "c1") (codes "prod") (principals ann)
    × IsSorted ann_scope.namespaces
    × (ann_scope.is_admin ≡ false)
unfolding effective_scope read_principals read_grants read_grant write_grant decode_list is_current
    is_over principals add_namespaces sort_texts has_permission grants insert_text strings
effective_scope-HeldBy_example =
    effective_scope-HeldBy one_grant 4 ann viewer (codes "c1") (codes "prod") ann_scope refl refl
      refl
