-- ===== src/Objects/PutGet.antt =====
-- internal/store/objectcontent.go: what `Put` has stored is what `Get` returns.
use k8s_ai.Base.{
  Option, none, some, ℕ, ◌≡◌, refl, sym, ap, ◌∙◌, subst, arith, inl, inr, Bool, true, false, not,
  ◌&&◌, Bool-cases, Option-cases, List, [], ◌∷◌, ◌++◌, Text, ◌==◌, text_eq, text_beq_iff,
  if◌then◌else◌, Result, ok, err, guard->>, >>=-eq-ok, length, ltb, append-nil, append_assoc,
}
use k8s_ai.Objects.Key.{Spec, KeyError, normalize_ext, build_key, validate_key}
use k8s_ai.Objects.RoundTrip.{build_key-checked}
use k8s_ai.Objects.Row.{
  missing, same_state, Row, Table, StoreError, checksum, state_conflict, row_of, update, insert,
}
use k8s_ai.Objects.Registry.{check_key, row_from}
use k8s_ai.Objects.Refs.{Ref, db, is_some}
use k8s_ai.Objects.Payload.{
  put, put_row, put_again, new_row, rewrite, read_all_hashed, drain, key_result, get_content,
  ref_of,
}
use k8s_ai.Objects.Rows.{row_of-key}
use k8s_ai.Objects.Inserts.{hit_row, row_of-insert}
use k8s_ai.Objects.Acquire.{idle, Result-cases}
use k8s_ai.Objects.Quiet.{second_eq, first_eq}

-- The chunks in one piece.
abbrev pub concat : List (Option Text) → Text
concat [] = []
concat (none ∷ chunks) = concat chunks
concat (some chunk ∷ chunks) = chunk ++ concat chunks

drained :
    (max : ℕ) (got : Text) (chunks : List (Option Text)) {content : Text}
    → drain max got chunks ≡ ok content
    → content ≡ got ++ concat chunks
unfolding drain
drained max got [] h = rw append-nil (sym (first h))
  where
    first : {a b : Text} → ◌≡◌ {A = Result StoreError Text} (ok a) (ok b) → a ≡ b
    first h = cc
drained max got (none ∷ chunks) h = cc h
drained max got (some chunk ∷ chunks) h =
    elim (Bool-cases (ltb 0 max && ltb max (length (got ++ chunk)))) [
      | inl e ↦ cc (rw e at h)
      | inr e ↦
          drained max (got ++ chunk) chunks (rw e at h) ∙ append_assoc got chunk (concat chunks)
    ]

key_of :
    {a b : Ref} {x y : Table}
    → ◌≡◌ {A = Result StoreError (Ref × Table)} (ok (a, x)) (ok (b, y))
    → a ≡ b
key_of e = cc

second_negated : (a b : Bool) → (a && not b) ≡ true → b ≡ false
second_negated a b c = ground arith

module _ (hash : Text → Text) where
  -- A row whose content is the one that its digest names, unless it is marked as missing.
  unfoldable pub is_intact : Row → Bool
  is_intact r = elim r.payload [
    | none ↦ true
    | some p ↦ if same_state r.state missing then true else (hash p == r.sha256)
  ]

  record Readable (key sum : Text) (t : Table) : Type 0 where
    row : Row
    payload : Text
    found : row_of key t ≡ some row
    held : row.payload ≡ some payload
    named : row.sha256 ≡ sum
    honest : (hash payload == row.sha256) ≡ true

  get-Readable :
      (key sum : Text) (t : Table)
      → check_key key ≡ ok tt
      → (r : Readable key sum t) → get_content hash key t ≡ ok (r.payload, ref_of r.row)
  unfolding get_content
  get-Readable key sum t valid r = rw (get_content, valid, r.found, r.held, r.honest)

  put_again-Readable :
      (now : ℕ) (payload : Text) (row : Row) (t next : Table) (ref : Ref) (key : Text)
      → row_of key t ≡ some row
      → is_intact row ≡ true
      → put_again now payload (hash payload) row t ≡ ok (ref, next)
      → Readable key (hash payload) next × (ref.key ≡ key)
  unfolding put_again is_intact rewrite ref_of is_some
  put_again-Readable now payload row t next ref key found intact h =
      let (g1, h1) = guard->> (row.sha256 == hash payload) checksum _ h in
      let (g2, h2) = guard->> (row.driver == db) state_conflict _ h1 in
      let named = (text_beq_iff row.sha256 (hash payload)).0 g1 in
      let same = row_of-key key t found in
      elim (Bool-cases (is_some row.payload && not (same_state row.state missing))) [
        | inl c ↦ kept g1 named same c (rw c at h2)
        | inr c ↦ renewed g1 named same (rw c at h2)
      ]
    where
      kept :
          (row.sha256 == hash payload) ≡ true
          → row.sha256 ≡ hash payload
          → row.blob_key ≡ key
          → (is_some row.payload && not (same_state row.state missing)) ≡ true
          → ◌≡◌ {A = Result StoreError (Ref × Table)} (ok (ref_of row, t)) (ok (ref, next))
          → Readable key (hash payload) next × (ref.key ≡ key)
      kept g1 named same c e = elim (Option-cases row.payload) [
        | inl n ↦ cc (rw n at c)
        | inr (p, q) ↦ (
          subst (Readable key (hash payload)) (second_eq e) (record {
            row = row;
            payload = p;
            found = found;
            held = q;
            named = named;
            honest = rw (q, second_negated _ _ c) at intact;
          }),
          ap (λ r. r.key) (sym (key_of e)) ∙ same,
        )
      ]

      renewed :
          (row.sha256 == hash payload) ≡ true
          → row.sha256 ≡ hash payload
          → row.blob_key ≡ key
          → ◌≡◌ {A = Result StoreError (Ref × Table)}
              (ok (
                record {
                  key = row.blob_key;
                  sha256 = hash payload;
                  size = length payload;
                  media_type = row.media_type;
                },
                update row.blob_key (λ r. true) (rewrite now payload) t,
              ))
              (ok (ref, next))
          → Readable key (hash payload) next × (ref.key ≡ key)
      renewed g1 named same e = (
        subst (Readable key (hash payload)) (second_eq e) (record {
          row = rewrite now payload row;
          payload = payload;
          found =
              subst
                (λ k.
                  row_of key (update k (λ r. true) (rewrite now payload) t)
                  ≡ some (rewrite now payload row))
                (sym same) (hit_row key (λ r. true) (rewrite now payload) t (λ r. refl) found refl);
          held = refl;
          named = named;
          honest = (text_beq_iff (hash payload) row.sha256).1 (sym named);
        }),
        ap (λ r. r.key) (sym (key_of e)) ∙ same,
      )

  put_row-Readable :
      (now : ℕ) (fresh : Row) (payload : Text) (t next : Table) (ref : Ref)
      → fresh.payload ≡ some payload
      → fresh.sha256 ≡ hash payload
      → ((r : Row) → row_of fresh.blob_key t ≡ some r → is_intact r ≡ true)
      → put_row idle now fresh payload (hash payload) t ≡ ok (ref, next)
      → Readable fresh.blob_key (hash payload) next × (ref.key ≡ fresh.blob_key)
  unfolding put_row ref_of
  put_row-Readable now fresh payload t next ref holds named intact h =
      elim (Option-cases (row_of fresh.blob_key t)) [
        | inr (row, e) ↦
            put_again-Readable now payload row t next ref fresh.blob_key e (intact row e)
              (rw (put_row, e) at h)
        | inl e ↦ elim (Result-cases (insert fresh t)) [
          | inl (why, i) ↦ cc (rw (put_row, e, i) at h)
          | inr (with_row, i) ↦ inserted with_row i (rw (put_row, e, i) at h)
        ]
      ]
    where
      inserted :
          (with_row : Table)
          → insert fresh t ≡ ok with_row
          → ◌≡◌ {A = Result StoreError (Ref × Table)} (ok (ref_of fresh, with_row)) (ok (ref, next))
          → Readable fresh.blob_key (hash payload) next × (ref.key ≡ fresh.blob_key)
      inserted with_row i e = (
        subst (Readable fresh.blob_key (hash payload)) (second_eq e) (record {
          row = fresh;
          payload = payload;
          found = rw (
            row_of-insert fresh.blob_key fresh t i,
            (text_beq_iff fresh.blob_key fresh.blob_key).1 refl,
          );
          held = holds;
          named = named;
          honest = (text_beq_iff (hash payload) fresh.sha256).1 (sym named);
        }),
        ap (λ r. r.key) (sym (key_of e)),
      )

  new_row-payload :
      (now : ℕ) (key : Text) (spec : Spec) (ext media by payload sum : Text)
      → ((new_row now key spec ext media by payload sum).payload ≡ some payload)
        × ((new_row now key spec ext media by payload sum).sha256 ≡ sum)
        × ((new_row now key spec ext media by payload sum).blob_key ≡ key)
  unfolding new_row row_from
  new_row-payload now key spec ext media by payload sum = (refl, refl, refl)

  from_key : {A : Type 0} {r : Result KeyError A} {a : A} → key_result r ≡ ok a → r ≡ ok a
  from_key {A} {r} {a} h = by_cases r a h
    where
      by_cases : (q : Result KeyError A) (b : A) → key_result q ≡ ok b → q ≡ ok b
      by_cases (err why) b k = cc
      by_cases (ok x) b k = cc

  record Stored (max : ℕ) (prefix : Text) (spec : Spec) (media by : Text)
      (chunks : List (Option Text)) (now : ℕ) (t next : Table) (ref : Ref) : Type 0 where
    ext : Text
    key : Text
    valid : validate_key key ≡ ok tt
    row_put :
        let content = concat chunks in
        put_row idle now
          (new_row now key spec ext media by content (hash content))
          content
          (hash content)
          t
        ≡ ok (ref, next)

  read_all-concat :
      (max : ℕ) (chunks : List (Option Text)) (read : Text × Text)
      → read_all_hashed hash max chunks ≡ ok read
      → read ≡ (concat chunks, hash (concat chunks))
  unfolding read_all_hashed
  read_all-concat max chunks read h =
      let (content, d, e) = >>=-eq-ok (drain max [] chunks) (λ c. ok (c, hash c)) h in
      sym (first_eq e) ∙ ap (λ c. (c, hash c)) (drained max [] chunks d)

  put-Stored :
      (now max : ℕ) (prefix : Text) (spec : Spec) (media by : Text) (chunks : List (Option Text))
      (t next : Table) (ref : Ref)
      → put hash idle now max prefix spec media by chunks t ≡ ok (ref, next)
      → Stored max prefix spec media by chunks now t next ref
  unfolding put
  put-Stored now max prefix spec media by chunks t next ref h =
      let (read, d, h1) = >>=-eq-ok (read_all_hashed hash max chunks) _ h in
      let e = read_all-concat max chunks read d in
      let (ext, n, h2) = >>=-eq-ok (key_result (normalize_ext spec.ext)) _ h1 in
      let (key, k, h3) =
        >>=-eq-ok (key_result (build_key prefix spec.category spec.scope read.1 ext)) _ h2 in
      record {
        ext = ext;
        key = key;
        valid =
            (build_key-checked prefix spec.category spec.scope read.1 ext key (from_key k)).valid;
        row_put =
            subst
              (λ p.
                put_row idle now (new_row now key spec ext media by p.0 p.1) p.0 p.1 t
                ≡ ok (ref, next))
              e h3;
      }

  -- If each row whose content is present and not marked as missing has the digest of its content,
  -- then after a put of the db backend that succeeds with nothing committed meanwhile, get finds
  -- under the returned key a content with the digest of the one that was put.
  pub get_content-put :
      (now max : ℕ) (prefix : Text) (spec : Spec) (media by : Text) (chunks : List (Option Text))
      (t next : Table) (ref : Ref)
      → ((key : Text) (r : Row) → row_of key t ≡ some r → is_intact r ≡ true)
      → put hash idle now max prefix spec media by chunks t ≡ ok (ref, next)
      → (content : Text) × (found : Ref) × (get_content hash ref.key next ≡ ok (content, found))
        × (hash content ≡ hash (concat chunks))
        × (found.key ≡ ref.key)
  unfolding check_key ref_of
  get_content-put now max prefix spec media by chunks t next ref intact h =
      let content = concat chunks in
      let s = put-Stored now max prefix spec media by chunks t next ref h in
      let fresh = new_row now s.key spec s.ext media by content (hash content) in
      let (holds, named, key_is) =
        new_row-payload now s.key spec s.ext media by content (hash content) in
      let (r, e) =
        put_row-Readable now fresh content t next ref holds named (intact fresh.blob_key)
          s.row_put in
      let valid = subst (λ k. check_key k ≡ ok tt) (sym key_is) (rw (check_key, s.valid)) in
      (
        r.payload,
        ref_of r.row,
        ap (λ k. get_content hash k next) e
            ∙ get-Readable fresh.blob_key (hash content) next valid r,
        (text_beq_iff (hash r.payload) r.row.sha256).0 r.honest ∙ r.named,
        row_of-key fresh.blob_key next r.found ∙ sym e,
      )
