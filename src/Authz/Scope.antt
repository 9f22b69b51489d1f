-- ===== src/Authz/Scope.antt =====
-- internal/authz/service.go: the effective scope of a user, the clusters whose reports the user may
-- read, and the validation of a grant. The store and encoding/json are parameters.
use k8s_ai.Base.{
  ℕ, Bool, true, false, not, ◌&&◌, ◌||◌, Option, none, some, List, [], ◌∷◌, ◌++◌, Text, codes, ◌==◌,
  text_eq, if◌then◌else◌, ltb, contains, is_empty, trim_space, to_lower, sort_texts, Result, ok,
  err, ◌>>=◌, ◌>>◌, guard, all,
}
use k8s_ai.Permission.{has_permission}

-- The fields of `store.User`, `store.Role` and `store.AuthzGrant` that are read. The lists of a
-- grant are stored as JSON text; `none` is a missing time.
pub record User : Type 0 where
  pub id : Text
  pub username : Text

pub record Role : Type 0 where
  pub permissions : List Text

pub record RawGrant : Type 0 where
  pub id : Text
  pub cluster_id : Text
  pub namespaces : Text
  pub permissions : Text
  pub expires_at : Option ℕ

pub data Failure : Type 0 where
  invalid store_failed decode_failed : Failure

-- What the service uses: the grants of a principal of type "user", and the JSON decoder of a list
-- of strings.
pub record Backend : Type 0 where
  pub list_by_principal : Text → Option (List RawGrant)
  pub decode : Text → Option (List Text)

pub record EffectiveScope : Type 0 where
  pub cluster_id : Text
  pub namespaces : List Text
  pub cluster_scoped : Bool
  pub is_admin : Bool
  pub can_write : Bool
  pub can_destroy : Bool

abbrev pub or_fail {ℓ} : {A : Type ℓ} → Option A → Failure → Result Failure A
or_fail none e = err e
or_fail (some a) e = ok a

-- `raw.ExpiresAt != nil && !raw.ExpiresAt.After(now)`.
unfoldable pub is_over : ℕ → Option ℕ → Bool
is_over now none = false
is_over now (some t) = not (ltb now t)

-- The principals of a user.
unfoldable pub principals : User → List Text
principals user =
    let username = trim_space user.username in
    trim_space user.id
    ∷ (if not (is_empty username) && not (username == user.id) then username ∷ [] else [])

-- The inner loop over the namespaces of a grant; `seenNS` holds what `namespaces` holds.
unfoldable pub add_namespaces : List Text → List Text → List Text
add_namespaces acc [] = acc
add_namespaces acc (raw ∷ rest) =
    let ns = trim_space raw in
    add_namespaces (if is_empty ns || contains acc ns then acc else acc ++ (ns ∷ [])) rest

-- The variables of the loop in `EffectiveScope`.
pub record Scan : Type 0 where
  pub namespaces : List Text
  pub can_write : Bool
  pub can_destroy : Bool

module _ (b : Backend) where
  -- `unmarshalStringSlice`.
  unfoldable pub decode_list : Text → Result Failure (List Text)
  decode_list s = if is_empty s then ok [] else or_fail (b.decode s) decode_failed

  -- The end of the loop's body, for a grant whose permissions have "*".
  unfoldable pub write_grant : Scan → RawGrant → List Text → Result Failure Scan
  write_grant c raw permissions = do
    namespaces ← decode_list raw.namespaces
    ok (record {
      namespaces = add_namespaces c.namespaces namespaces;
      can_write = true;
      can_destroy = c.can_destroy || contains permissions (codes "destroy");
    })

  -- The body of the loop, for a grant that has not expired and is for this cluster.
  unfoldable pub read_grant : Scan → RawGrant → Result Failure Scan
  read_grant c raw = do
    permissions ← decode_list raw.permissions
    if contains permissions (codes "*")
        then write_grant c raw permissions
        else ok
            (if contains permissions (codes "destroy") then record c { can_destroy = true } else c)

  -- Whether the loop goes on to the body for a grant.
  unfoldable pub is_current : ℕ → Text → RawGrant → Bool
  is_current now cluster_id raw =
      not (is_over now raw.expires_at)
      && not (
          not (is_empty raw.cluster_id)
          && not (is_empty cluster_id)
          && not (raw.cluster_id == cluster_id))

  unfoldable pub read_grants : ℕ → Text → Scan → List RawGrant → Result Failure Scan
  read_grants now cluster_id c [] = ok c
  read_grants now cluster_id c (raw ∷ rest) = do
    c' ← (if is_current now cluster_id raw then read_grant c raw else ok c)
    read_grants now cluster_id c' rest

  unfoldable pub read_principals : ℕ → Text → Scan → List Text → Result Failure Scan
  read_principals now cluster_id c [] = ok c
  read_principals now cluster_id c (p ∷ ps) = do
    grants ← or_fail (b.list_by_principal p) store_failed
    c' ← read_grants now cluster_id c grants
    read_principals now cluster_id c' ps

  -- `EffectiveScope`, at the time `now`.
  unfoldable pub effective_scope :
      ℕ → Option User → Option Role → Text → Result Failure EffectiveScope
  effective_scope now none role cluster_id = err invalid
  effective_scope now (some user) none cluster_id = err invalid
  effective_scope now (some user) (some role) cluster_id =
      if has_permission role.permissions (codes "*")
      then ok (record {
        cluster_id = cluster_id;
        namespaces = [];
        cluster_scoped = true;
        is_admin = true;
        can_write = true;
        can_destroy = true;
      })
      else do
        c ←
            read_principals now cluster_id
              (record { namespaces = []; can_write = false; can_destroy = false }) (principals user)
        ok (record {
          cluster_id = cluster_id;
          namespaces = sort_texts c.namespaces;
          cluster_scoped = false;
          is_admin = false;
          can_write = c.can_write;
          can_destroy = c.can_destroy;
        })

  -- The loop of `AuthorizedClusterIDs` over the grants of one principal: `none` where a grant is
  -- for every cluster, else the clusters so far.
  unfoldable pub clusters_of : ℕ → List Text → List RawGrant → Option (List Text)
  clusters_of now ids [] = some ids
  clusters_of now ids (raw ∷ rest) =
      let id = trim_space raw.cluster_id in
      let live = not (is_over now raw.expires_at) in
      let more =
        clusters_of now (if live && not (contains ids id) then ids ++ (id ∷ []) else ids) rest in
      if live && is_empty id then none else more

  unfoldable pub clusters_of_principals :
      ℕ → List Text → List Text → Result Failure (Option (List Text))
  clusters_of_principals now ids [] = ok (some ids)
  clusters_of_principals now ids (p ∷ ps) = do
    grants ← or_fail (b.list_by_principal p) store_failed
    let found = clusters_of now ids grants
    elim found [ none ↦ ok none | some ids' ↦ clusters_of_principals now ids' ps ]

  -- `AuthorizedClusterIDs`: whether all clusters are readable, and which.
  unfoldable pub authorized_cluster_ids :
      ℕ → Option User → Option Role → Result Failure (Bool × List Text)
  authorized_cluster_ids now none role = err invalid
  authorized_cluster_ids now (some user) none = err invalid
  authorized_cluster_ids now (some user) (some role) =
      if has_permission role.permissions (codes "*") then ok (true, []) else do
        found ← clusters_of_principals now [] (principals user)
        ok (elim found [ none ↦ (true, []) | some ids ↦ (false, sort_texts ids) ])

-- The loop of `validateGrant` over the namespaces, from those seen.
unfoldable pub distinct_namespaces : List Text → List Text → Bool
distinct_namespaces seen [] = true
distinct_namespaces seen (raw ∷ rest) =
    let ns = trim_space raw in
    let more = distinct_namespaces (ns ∷ seen) rest in
    if is_empty ns || contains seen ns then false else more

-- `grantVerbs`.
abbrev is_grant_verb : Text → Bool
is_grant_verb p = p == codes "*" || p == codes "destroy"

unfoldable pub validate_grant :
    ℕ → Text → Text → List Text → List Text → Option ℕ → Result Failure (Unit {0})
validate_grant now principal_type principal_id namespaces permissions expires = do
  let pt = to_lower (trim_space principal_type)
  guard (pt == codes "user" || pt == codes "group") invalid
  guard (not (is_empty (trim_space principal_id))) invalid
  guard (not (is_empty namespaces)) invalid
  guard (distinct_namespaces [] namespaces) invalid
  guard (not (is_empty permissions)) invalid
  guard (all is_grant_verb permissions) invalid
  guard (elim expires [ none ↦ true | some t ↦ not (ltb t now) ]) invalid
