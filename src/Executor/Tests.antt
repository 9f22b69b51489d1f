-- ===== src/Executor/Tests.antt =====
-- The laws of the parser at concrete commands, and what quotes do.
use k8s_ai.Base.{◌≡◌, refl, true, false, [], ◌∷◌, Text, text_eq, codes, ok, contains, fields}
use k8s_ai.Approval.Shell.{has_shell_syntax}
use k8s_ai.Approval.Risk.{is_read_only_command, tail_of, extract_verb}
use k8s_ai.Executor.Parse.{
  ParsedCommand, parse_command_detail, parsing, extract_first_non_flag, allowed_verbs,
}
use k8s_ai.Executor.Gate.{parse_command_detail-is_shell}
use k8s_ai.Executor.Agreement.{parse-extract_verb}

abbrev quoted_delete : Text
quoted_delete = codes "kubectl \"delete\" pod get"

abbrev plain_delete : ParsedCommand
plain_delete = record {
  argv = codes "kubectl" ∷ codes "delete" ∷ codes "pod" ∷ codes "get" ∷ [];
  is_shell = false;
}

-- The classification splits at blanks and keeps the quotes; the executor takes them off.
quoted_verb :
    (is_read_only_command quoted_delete ≡ true)
    × (parse_command_detail quoted_delete ≡ ok plain_delete)
unfolding parsing
quoted_verb = (refl, refl)

abbrev piped : Text
piped = codes "kubectl get ns | kubectl delete pod x"

abbrev piped_parsed : ParsedCommand
piped_parsed = record {
  argv =
      codes "kubectl"
      ∷ codes "get"
      ∷ codes "ns"
      ∷ codes "|"
      ∷ codes "kubectl"
      ∷ codes "delete"
      ∷ codes "pod"
      ∷ codes "x"
      ∷ [];
  is_shell = true;
}

parse_command_detail-is_shell_example : true ≡ has_shell_syntax piped
unfolding parsing
parse_command_detail-is_shell_example = parse_command_detail-is_shell piped piped_parsed refl

abbrev unquoted : Text
unquoted = codes "kubectl delete pod get"

parse-extract_verb_example :
    (plain_delete.argv ≡ fields unquoted)
    × (extract_verb unquoted ≡ extract_first_non_flag (tail_of plain_delete.argv))
    × (contains allowed_verbs (extract_verb unquoted).0 ≡ true)
unfolding parsing
parse-extract_verb_example = parse-extract_verb unquoted plain_delete refl refl refl refl
