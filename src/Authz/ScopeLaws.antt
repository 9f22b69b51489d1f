-- ===== src/Authz/ScopeLaws.antt =====
-- Where the namespaces and the clusters of a user come from.
use k8s_ai.Base.{
  ℕ, ◌<◌, true, false, not, ◌&&◌, ◌||◌, Option, none, some, List, [], ◌∷◌, ◌++◌, Text, codes,
  text_eq, text_beq_iff, if◌then◌else◌, contains, is_empty, trim_space, sort_texts,
  contains-sort_texts, IsSorted, sort_texts-IsSorted, ok, >>=-eq-ok, ◌≡◌, refl, sym, ◌∙◌, ◌⊎◌, inl,
  inr, ◌↔◌, arith, Memᴰ, Bool-cases,
}
use k8s_ai.Permission.{has_permission}
use k8s_ai.Authz.Scope.{
  User, Role, RawGrant, Failure, Backend, EffectiveScope, or_fail, is_over, principals,
  add_namespaces, Scan, decode_list, write_grant, read_grant, is_current, read_grants,
  read_principals, effective_scope, clusters_of,
}

append_one :
    (acc : List Text) (x ns : Text)
    → contains (acc ++ (x ∷ [])) ns ≡ true
    → (contains acc ns ≡ true) ⊎ (x ≡ ns)
append_one [] x ns h = inr ((text_beq_iff x ns).0 (ground arith))
append_one (a ∷ acc) x ns h = ground (arith, append_one acc x ns)

-- What the inner loop adds is the trimmed name of an entry.
pub contains-add_namespaces :
    (raws acc : List Text) (ns : Text)
    → contains (add_namespaces acc raws) ns ≡ true
    → (contains acc ns ≡ true) ⊎ ((r : Text) × Memᴰ r raws × (trim_space r ≡ ns))
unfolding add_namespaces
contains-add_namespaces [] acc ns h = inl h
contains-add_namespaces (raw ∷ rest) acc ns h = elim (contains-add_namespaces rest _ ns h) [
  | inr (r, m, e) ↦ inr (r, Memᴰ.tail m, e)
  | inl k ↦ elim (Bool-cases (is_empty (trim_space raw) || contains acc (trim_space raw))) [
    | inl skip ↦ inl (rw skip at k)
    | inr new ↦ elim (append_one acc (trim_space raw) ns (rw new at k)) [
      | inl old ↦ inl old
      | inr e ↦ inr (raw, Memᴰ.head refl, e)
    ]
  ]
]

or_fail_ok {ℓ} : {A : Type ℓ} (o : Option A) (e : Failure) (a : A) → or_fail o e ≡ ok a → o ≡ some a
or_fail_ok none e a h = cc
or_fail_ok (some x) e a h = ground arith

-- A grant whose permissions have `*` and whose namespaces have this one.
pub record GrantNames (b : Backend) (raw : RawGrant) (ns : Text) : Type 0 where
  pub permissions : List Text
  pub permissions_decoded : decode_list b raw.permissions ≡ ok permissions
  pub writes : contains permissions (codes "*") ≡ true
  pub namespaces : List Text
  pub namespaces_decoded : decode_list b raw.namespaces ≡ ok namespaces
  pub entry : Text
  pub named : Memᴰ entry namespaces
  pub trimmed : trim_space entry ≡ ns

-- A time of expiry that is missing or later.
pub data Lasts (now : ℕ) (expires : Option ℕ) : Type 0 where
  for_ever : expires ≡ none → Lasts now expires
  until : (t : ℕ) → expires ≡ some t → now < t → Lasts now expires

-- The grant names the cluster, or one of the two names none.
pub data IsFor (wanted named : Text) : Type 0 where
  same_cluster : named ≡ wanted → IsFor wanted named
  any_cluster : named ≡ [] → IsFor wanted named
  no_cluster : wanted ≡ [] → IsFor wanted named

is_over-Lasts : (now : ℕ) (expires : Option ℕ) → is_over now expires ≡ false → Lasts now expires
unfolding is_over
is_over-Lasts now none h = for_ever refl
is_over-Lasts now (some t) h = until t refl (ground arith)

empty_eq : (s : Text) → is_empty s ≡ true → s ≡ []
empty_eq [] h = refl
empty_eq (c ∷ s) h = cc

module _ (b : Backend) (now : ℕ) (cluster_id : Text) (raw : RawGrant) where
  current-Lasts : is_current b now cluster_id raw ≡ true → Lasts now raw.expires_at
  unfolding is_current
  current-Lasts h = is_over-Lasts now raw.expires_at (ground arith)

  current-IsFor : is_current b now cluster_id raw ≡ true → IsFor cluster_id raw.cluster_id
  unfolding is_current
  current-IsFor h = elim (Bool-cases (is_empty raw.cluster_id)) [
    | inl e ↦ any_cluster (empty_eq raw.cluster_id e)
    | inr e ↦ elim (Bool-cases (is_empty cluster_id)) [
      | inl f ↦ no_cluster (empty_eq cluster_id f)
      | inr f ↦ same_cluster ((text_beq_iff raw.cluster_id cluster_id).0 (ground arith))
    ]
  ]

module _ (b : Backend) (now : ℕ) (cluster_id : Text) (ns : Text) where
  read_grant-GrantNames :
      (c c' : Scan) (raw : RawGrant)
      → read_grant b c raw ≡ ok c'
      → contains c'.namespaces ns ≡ true
      → (contains c.namespaces ns ≡ true) ⊎ GrantNames b raw ns
  unfolding read_grant write_grant
  read_grant-GrantNames c c' raw h m =
      let (perms, d, rest) = >>=-eq-ok (decode_list b raw.permissions) _ h in
      elim (Bool-cases (contains perms (codes "*"))) [
        | inr other ↦ inl (ground arith)
        | inl star ↦
            let (nss, d', e) = >>=-eq-ok (decode_list b raw.namespaces) _ (rw star at rest) in
            let same : c'.namespaces ≡ add_namespaces c.namespaces nss = ground arith in
            elim (contains-add_namespaces nss c.namespaces ns (rw same at m)) [
              | inl old ↦ inl old
              | inr (r, named, t) ↦ inr (record {
                permissions = perms;
                permissions_decoded = d;
                writes = star;
                namespaces = nss;
                namespaces_decoded = d';
                entry = r;
                named = named;
                trimmed = t;
              })
            ]
      ]

  -- A grant of the list that is current and names the namespace.
  pub record HeldIn (gs : List RawGrant) : Type 0 where
    pub grant : RawGrant
    pub held : Memᴰ grant gs
    pub lasting : Lasts now grant.expires_at
    pub here : IsFor cluster_id grant.cluster_id
    pub names : GrantNames b grant ns

  HeldIn-later : (raw : RawGrant) (gs : List RawGrant) → HeldIn gs → HeldIn (raw ∷ gs)
  HeldIn-later raw gs h = record {
    grant = h.grant;
    held = Memᴰ.tail h.held;
    lasting = h.lasting;
    here = h.here;
    names = h.names;
  }

  read_grants-HeldIn :
      (gs : List RawGrant) (c c' : Scan)
      → read_grants b now cluster_id c gs ≡ ok c'
      → contains c'.namespaces ns ≡ true
      → (contains c.namespaces ns ≡ true) ⊎ HeldIn gs
  unfolding read_grants
  read_grants-HeldIn [] c c' h m = inl (ground arith)
  read_grants-HeldIn (raw ∷ gs) c c' h m =
      let (d, step, rest) =
        >>=-eq-ok (if is_current b now cluster_id raw then read_grant b c raw else ok c) _ h in
      elim (read_grants-HeldIn gs d c' rest m) [
        | inr later ↦ inr (HeldIn-later raw gs later)
        | inl old ↦ elim (Bool-cases (is_current b now cluster_id raw)) [
          | inr over ↦ inl (ground arith)
          | inl current ↦ elim (read_grant-GrantNames c d raw (rw current at step) old) [
            | inl before ↦ inl before
            | inr names ↦ inr (record {
              grant = raw;
              held = Memᴰ.head refl;
              lasting = current-Lasts b now cluster_id raw current;
              here = current-IsFor b now cluster_id raw current;
              names = names;
            })
          ]
        ]
      ]

  -- A current grant of one of the principals that names the namespace.
  pub record HeldBy (ps : List Text) : Type 0 where
    pub principal : Text
    pub listed : Memᴰ principal ps
    pub grants : List RawGrant
    pub stored : b.list_by_principal principal ≡ some grants
    pub holds : HeldIn grants

  HeldBy-later : (p : Text) (ps : List Text) → HeldBy ps → HeldBy (p ∷ ps)
  HeldBy-later p ps h = record {
    principal = h.principal;
    listed = Memᴰ.tail h.listed;
    grants = h.grants;
    stored = h.stored;
    holds = h.holds;
  }

  read_principals-HeldBy :
      (ps : List Text) (c c' : Scan)
      → read_principals b now cluster_id c ps ≡ ok c'
      → contains c'.namespaces ns ≡ true
      → (contains c.namespaces ns ≡ true) ⊎ HeldBy ps
  unfolding read_principals
  read_principals-HeldBy [] c c' h m = inl (ground arith)
  read_principals-HeldBy (p ∷ ps) c c' h m =
      let (gs, stored, h1) = >>=-eq-ok (or_fail (b.list_by_principal p) Failure.store_failed) _ h in
      let (d, step, h2) = >>=-eq-ok (read_grants b now cluster_id c gs) _ h1 in
      elim (read_principals-HeldBy ps d c' h2 m) [
        | inr later ↦ inr (HeldBy-later p ps later)
        | inl old ↦ elim (read_grants-HeldIn gs c d step old) [
          | inl before ↦ inl before
          | inr holds ↦ inr (record {
            principal = p;
            listed = Memᴰ.head refl;
            grants = gs;
            stored = or_fail_ok (b.list_by_principal p) Failure.store_failed gs stored;
            holds = holds;
          })
        ]
      ]

-- A namespace in the scope of a user who is no administrator is named, up to blanks, by a grant of
-- one of the user's principals that has no time of expiry or a later one, names the cluster that
-- is asked for (or one of the two names none), and has the permission *; the namespaces of the
-- scope are sorted, and the scope is not that of an administrator.
pub effective_scope-HeldBy :
    (b : Backend) (now : ℕ) (user : User) (role : Role) (cluster_id ns : Text)
    (scope : EffectiveScope)
    → has_permission role.permissions (codes "*") ≡ false
    → effective_scope b now (some user) (some role) cluster_id ≡ ok scope
    → contains scope.namespaces ns ≡ true
    → HeldBy b now cluster_id ns (principals user)
      × IsSorted scope.namespaces
      × (scope.is_admin ≡ false)
unfolding effective_scope
effective_scope-HeldBy b now user role cluster_id ns scope plain h m =
    let (c, scan, e) =
      >>=-eq-ok (read_principals b now cluster_id _ (principals user)) _ (rw plain at h) in
    let same : scope.namespaces ≡ sort_texts c.namespaces = ground arith in
    let found = sym (contains-sort_texts c.namespaces ns) ∙ (rw same at m) in
    elim (read_principals-HeldBy b now cluster_id ns (principals user) _ c scan found) [
      | inl none_yet ↦ cc
      | inr held ↦ (held, rw same (sort_texts-IsSorted c.namespaces), ground arith)
    ]

-- A grant that has not expired and is for every cluster.
abbrev pub HasWide : ℕ → List RawGrant → Type 0
HasWide now gs =
    (raw : RawGrant) × Memᴰ raw gs
    × (is_over now raw.expires_at ≡ false)
    × (is_empty (trim_space raw.cluster_id) ≡ true)

clusters_of-HasWide :
    (b : Backend) (now : ℕ) (gs : List RawGrant) (ids : List Text)
    → clusters_of b now ids gs ≡ none
    → HasWide now gs
unfolding clusters_of
clusters_of-HasWide b now [] ids h = cc
clusters_of-HasWide b now (raw ∷ gs) ids h =
    elim (Bool-cases (not (is_over now raw.expires_at) && is_empty (trim_space raw.cluster_id))) [
      | inl wide ↦ (raw, Memᴰ.head refl, ground arith, ground arith)
      | inr other ↦
          let (r, m, live, all) = clusters_of-HasWide b now gs _ (rw other at h) in
          (r, Memᴰ.tail m, live, all)
    ]

HasWide-clusters_of :
    (b : Backend) (now : ℕ) (gs : List RawGrant) (ids : List Text) (raw : RawGrant)
    → Memᴰ raw gs
    → is_over now raw.expires_at ≡ false
    → is_empty (trim_space raw.cluster_id) ≡ true
    → clusters_of b now ids gs ≡ none
unfolding clusters_of
HasWide-clusters_of b now [] ids raw m live all = elim m [ ]
HasWide-clusters_of b now (g ∷ gs) ids raw (Memᴰ.head e) live all =
    rw (← e, live, all, ◌&&◌, not, if◌then◌else◌)
HasWide-clusters_of b now (g ∷ gs) ids raw (Memᴰ.tail m) live all =
    let later = λ (ids' : List Text). HasWide-clusters_of b now gs ids' raw m live all in
    elim (Bool-cases (not (is_over now g.expires_at) && is_empty (trim_space g.cluster_id))) [
      | inl wide ↦ rw wide
      | inr other ↦ rw other (later _)
    ]

-- The loop over the grants of a principal opens all clusters exactly if some grant has not expired
-- and names no cluster.
clusters_of_iff :
    (b : Backend) (now : ℕ) (gs : List RawGrant) (ids : List Text)
    → (clusters_of b now ids gs ≡ none) ↔ HasWide now gs
clusters_of_iff b now gs ids =
    (clusters_of-HasWide b now gs ids, λ w. HasWide-clusters_of b now gs ids w.0 w.1 w.2 w.3)
