-- ===== src/Tools/ScopeLaws.antt =====
-- What a call has shown when it passes the check of the scope.
use k8s_ai.Base.{
  Bool, true, false, not, ◌&&◌, Option, some, List, [], ◌∷◌, Text, codes, ◌==◌, text_eq,
  text_beq_iff, if◌then◌else◌, contains, is_empty, trim_space, Result, ok, err, guard, >>=-eq-ok,
  all, >>-eq-ok, ◌≡◌, refl, ◌⊎◌, inl, inr, arith, Bool-cases, Option-cases,
}
use k8s_ai.Approval.Shell.{has_shell_syntax}
use k8s_ai.Approval.Risk.{is_read_only_command}
use k8s_ai.Approval.Grant.{parse_command_target}
use k8s_ai.Executor.Parse.{ParsedCommand, ParseError, parse_command_detail}
use k8s_ai.Tools.Scope.{
  AccessScope, Denial, ManifestObject, local_tools, normalize_scope, check_namespace, check_objects,
  check_manifest, is_destroy_kind, check_kubectl_write, after_read_verb, scan_namespace,
  check_kubectl_read, check_kubectl, string_arg, check_namespaced, check, namespace_of,
}

-- What a write has shown.
pub record IsWritable (s : AccessScope) (command : Text) : Type 0 where
  pub writes : is_read_only_command command ≡ false
  pub may_write : s.can_write ≡ true
  pub listed : contains s.namespaces (parse_command_target command).namespace ≡ true
  pub may_destroy :
      (((parse_command_target command).operation == codes "delete"
          && is_destroy_kind (parse_command_target command).kind)
        ≡ false)
      ⊎ (s.can_destroy ≡ true)

-- What a read has shown: the namespace that the scan of the arguments found.
pub record IsReadable (s : AccessScope) (command : Text) (argv : List Text) : Type 0 where
  pub reads : is_read_only_command command ≡ true
  pub namespace : Text
  pub found : scan_namespace false [] argv ≡ ok namespace
  pub listed : contains s.namespaces namespace ≡ true

module _ (s : AccessScope) where
  check_kubectl_write-IsWritable :
      (command : Text)
      → is_read_only_command command ≡ false
      → check_kubectl_write s command ≡ ok tt
      → IsWritable s command
  unfolding check_kubectl_write check_namespace
  check_kubectl_write-IsWritable command w h = record {
    writes = w;
    may_write = ground arith;
    listed = ground arith;
    may_destroy = ground arith;
  }

  check_kubectl_read-IsReadable :
      (command : Text) (argv : List Text)
      → is_read_only_command command ≡ true
      → check_kubectl_read s argv ≡ ok tt
      → IsReadable s command argv
  unfolding check_kubectl_read check_namespace
  check_kubectl_read-IsReadable command argv r h = elim (Option-cases (after_read_verb argv)) [
    | inl e ↦ absurd (ground arith)
    | inr (rest, e) ↦
        let (ns, found, more) =
          >>=-eq-ok (scan_namespace false [] argv) _ (rw (e, check_kubectl_read) at h) in
        record { reads = r; namespace = ns; found = found; listed = ground arith }
  ]

  parsed_part :
      (command : Text) (parsed : Result ParseError ParsedCommand)
      → parse_command_detail command ≡ parsed
      → (elim parsed as (λ _. Result Denial (Unit {0})) [
        | err e ↦ err Denial.needs_parsable
        | ok pc ↦
            if not (is_read_only_command command)
            then check_kubectl_write s command
            else check_kubectl_read s pc.argv
      ])
        ≡ ok tt
      → (pc : ParsedCommand) × (parse_command_detail command ≡ ok pc)
        × (IsWritable s command ⊎ IsReadable s command pc.argv)
  parsed_part command (err e) p h = cc
  parsed_part command (ok pc) p h = elim (Bool-cases (is_read_only_command command)) [
    | inl r ↦ (pc, p, inr (check_kubectl_read-IsReadable command pc.argv r (ground arith)))
    | inr w ↦ (pc, p, inl (check_kubectl_write-IsWritable command w (ground arith)))
  ]

-- What a kubectl command that passes has shown.
pub record IsCovered (s : AccessScope) (command : Text) : Type 0 where
  pub plain : has_shell_syntax command ≡ false
  pub parsed : ParsedCommand
  pub parses : parse_command_detail command ≡ ok parsed
  pub inside : IsWritable s command ⊎ IsReadable s command parsed.argv

-- A kubectl command that passes the check of the scope has no shell syntax and parses; and either
-- it is a write, the scope allows writes and lists the namespace of the write's target, and
-- destroying kinds are deleted only where the scope allows it, or it is a read, and the scope
-- lists the namespace that the scan of its arguments found.
pub check_kubectl-IsCovered :
    (s : AccessScope) (text : Text) → check_kubectl s text ≡ ok tt → IsCovered s (trim_space text)
unfolding check_kubectl
check_kubectl-IsCovered s text h =
    let command = trim_space text in
    let h1 = >>-eq-ok (guard (not (is_empty command)) Denial.needs_command) _ h in
    let gate = guard (not (has_shell_syntax command)) Denial.needs_plain_command in
    let h2 = >>-eq-ok gate _ h1 in
    let (pc, parses, inside) = parsed_part s command (parse_command_detail command) refl h2 in
    record { plain = ground arith; parsed = pc; parses = parses; inside = inside }

-- An object inside the scope.
abbrev pub is_inside : AccessScope → ManifestObject → Bool
is_inside s o = not o.cluster_wide && contains s.namespaces (namespace_of o)

check_objects-all :
    (s : AccessScope) (os : List ManifestObject)
    → check_objects s os ≡ ok tt
    → all (is_inside s) os ≡ true
unfolding check_objects check_namespace
check_objects-all s [] h = refl
check_objects-all s (o ∷ os) h = ground (arith, check_objects-all s os)

-- What a creation has shown: the scope allows writes, and the manifest is empty or all of its
-- objects are inside the scope.
pub record IsCreatable (parse : Text → Option (List ManifestObject)) (s : AccessScope)
    (manifest : Text) : Type 0 where
  pub may_write : s.can_write ≡ true
  pub objects :
      (is_empty manifest ≡ true)
      ⊎ ((os : List ManifestObject) × (parse manifest ≡ some os) × (all (is_inside s) os ≡ true))

check_manifest-IsCreatable :
    (parse : Text → Option (List ManifestObject)) (s : AccessScope) (text : Text)
    → check_manifest parse s text ≡ ok tt
    → IsCreatable parse s (trim_space text)
unfolding check_manifest
check_manifest-IsCreatable parse s text h = elim (Option-cases (parse (trim_space text))) [
  | inl e ↦ record { may_write = ground arith; objects = ground arith }
  | inr (os, e) ↦ record {
    may_write = ground arith;
    objects = elim (Bool-cases (is_empty (trim_space text))) [
      | inl blank ↦ inl blank
      | inr full ↦ inr (os, e, check_objects-all s os (ground arith))
    ];
  }
]

check_namespaced-listed :
    (s : AccessScope) (tool kind ns : Text)
    → check_namespaced s tool kind ns ≡ ok tt
    → contains s.namespaces ns ≡ true
unfolding check_namespaced check_namespace
check_namespaced-listed s tool kind ns h = ground arith

-- A tool call that passes the check, in a scope that is neither that of an administrator nor
-- cluster-wide, is of a local tool, or a kubectl command that is covered, or a creation that is
-- covered, or its namespace argument is listed in the scope.
pub check-cases :
    (parse : Text → Option (List ManifestObject)) (scope : AccessScope) (tool : Text)
    (args : Text → Text)
    → scope.is_admin ≡ false
    → scope.cluster_scoped ≡ false
    → check parse scope tool args ≡ ok tt
    → let s = normalize_scope scope in
      (contains local_tools tool ≡ true)
      ⊎ ((tool ≡ codes "kubectl") × IsCovered s (trim_space (string_arg args (codes "command"))))
      ⊎ ((tool ≡ codes "create_resource")
          × IsCreatable parse s (trim_space (string_arg args (codes "manifest"))))
      ⊎ (contains s.namespaces (string_arg args (codes "namespace")) ≡ true)
unfolding check normalize_scope
check-cases parse scope tool args a b h =
    let s = normalize_scope scope in
    let kubectl = check_kubectl-IsCovered s (string_arg args (codes "command")) in
    let create = check_manifest-IsCreatable parse s (string_arg args (codes "manifest")) in
    let other =
      check_namespaced-listed s tool (string_arg args (codes "kind"))
        (string_arg args (codes "namespace")) in
    ground (
      arith,
      kubectl,
      create,
      other,
      text_beq_iff tool (codes "kubectl"),
      text_beq_iff tool (codes "create_resource"),
    )
