-- ===== src/Executor/Agreement.antt =====
-- Where a command holds no quotes, internal/executor runs the verb that internal/approval classified.
use mathlib.Core.List.{foldl}
use k8s_ai.Base.{
  ℕ, Bool, true, false, ◌||◌, List, [], ◌∷◌, ◌++◌, Text, codes, nat_eq, text_eq, contains, is_space,
  ok, ◌≡◌, refl, sym, ◌∙◌, arith, fields, fields_from, fields_by, flush, append_assoc, text_beq_iff,
}
use k8s_ai.Approval.Shell.{single_quote, double_quote, flushed, has_shell_syntax}
use k8s_ai.Approval.Risk.{
  tail_of, extract_verb, read_only_verbs, write_risk, medium_verbs, high_verbs, critical_verbs,
  extract_verb_from_tokens, is_known_verb,
}
use k8s_ai.Executor.Gate.{
  parse_command_detail-IsParsed, parse_tokens-IsChecked, parse_tokens-is_shell,
  parse_command_detail-is_shell,
}
use k8s_ai.Executor.Parse.{
  Lexer, ParsedCommand, tokenize_step, tokenize, start, parse_command_detail, allowed_verbs,
  rejected_interactive_verbs, extract_first_non_flag, is_command_verb,
}

abbrev IsUnquoted : Text → Type 0
IsUnquoted s = (contains s single_quote ≡ false) × (contains s double_quote ≡ false)

-- The lexer outside quotes.
abbrev IsOpen : Lexer → Type 0
IsOpen l = (l.single ≡ false) × (l.double ≡ false)

step-IsOpen :
    (l : Lexer) (r : ℕ) (rs : Text)
    → IsOpen l
    → IsUnquoted (r ∷ rs)
    → IsOpen (tokenize_step l r) × IsUnquoted rs
unfolding tokenize_step
step-IsOpen l r rs h q = ground arith

-- The tokens and the rest of the text, split at blanks.
abbrev outlook : Lexer → Text → List Text
outlook l rs = l.tokens ++ fields_from is_space l.cur rs

flush-append : (cur : Text) (ts : List Text) → flush cur [] ++ ts ≡ flush cur ts
flush-append [] ts = refl
flush-append (c ∷ cur) ts = refl

step_outlook :
    (l : Lexer) (r : ℕ) (rs : Text)
    → IsOpen l
    → IsUnquoted (r ∷ rs)
    → outlook (tokenize_step l r) rs ≡ outlook l (r ∷ rs)
unfolding tokenize_step fields_from
step_outlook l r rs h q = ground (
  arith,
  append_assoc l.tokens (flush l.cur []) (fields_from is_space [] rs),
  flush-append l.cur (fields_from is_space [] rs),
)

flushed-outlook : (l : Lexer) → flushed l.cur l.tokens ≡ outlook l []
unfolding fields_from
flushed-outlook l = refl

run_outlook :
    (l : Lexer) (rs : Text)
    → IsOpen l
    → IsUnquoted rs
    → let l' = foldl tokenize_step l rs in IsOpen l' × (flushed l'.cur l'.tokens ≡ outlook l rs)
run_outlook l [] h q = (h, flushed-outlook l)
run_outlook l (r ∷ rs) h q =
    let (h', q') = step-IsOpen l r rs h q in
    let (o, e) = run_outlook (tokenize_step l r) rs h' q' in (o, e ∙ step_outlook l r rs h q)

-- Without quotes the executor's tokens are the blank-separated fields.
pub tokenize-fields :
    (command : Text) {tokens : List Text} {shell : Bool}
    → IsUnquoted command
    → tokenize command ≡ ok (tokens, shell)
    → tokens ≡ fields command
unfolding tokenize fields fields_by
tokenize-fields command q h = ground (arith, run_outlook start command (refl, refl) q)

-- Each verb that approval knows is one that the executor allows or rejects by name.
known-is_command_verb : (t : Text) → is_known_verb t ≡ true → is_command_verb t ≡ true
unfolding is_known_verb is_command_verb read_only_verbs write_risk medium_verbs high_verbs
    critical_verbs allowed_verbs rejected_interactive_verbs
known-is_command_verb t h =
    ground (arith, text_beq_iff t (codes "delete"), text_beq_iff (codes "delete") t)

allowed-is_known_verb : (t : Text) → contains allowed_verbs t ≡ true → is_known_verb t ≡ true
unfolding is_known_verb read_only_verbs write_risk medium_verbs high_verbs critical_verbs
    allowed_verbs
allowed-is_known_verb t h =
    ground (arith, text_beq_iff t (codes "delete"), text_beq_iff (codes "delete") t)

same_verb :
    (ts : List Text)
    → contains allowed_verbs (extract_first_non_flag ts).0 ≡ true
    → extract_verb_from_tokens ts ≡ extract_first_non_flag ts
unfolding extract_verb_from_tokens extract_first_non_flag
same_verb [] h = refl
same_verb (t ∷ ts) h =
    ground (arith, known-is_command_verb t, allowed-is_known_verb t, same_verb ts)

-- If a command without quotes and without shell syntax parses, its argument vector is its list of
-- fields, the verb and arguments that the executor validated are those that the approval layer
-- classified, and the verb is an allowed one.
pub parse-extract_verb :
    (command : Text) (pc : ParsedCommand)
    → contains command single_quote ≡ false
    → contains command double_quote ≡ false
    → has_shell_syntax command ≡ false
    → parse_command_detail command ≡ ok pc
    → (pc.argv ≡ fields command)
      × (extract_verb command ≡ extract_first_non_flag (tail_of pc.argv))
      × (contains allowed_verbs (extract_verb command).0 ≡ true)
unfolding extract_verb
parse-extract_verb command pc q1 q2 plain h =
    let p = parse_command_detail-IsParsed command h in
    let tokens = p.tokens in
    let split = tokenize-fields command (q1, q2) p.lexed in
    let open_shell : (p.shell || has_shell_syntax command) ≡ false =
      sym (parse_tokens-is_shell command tokens p.shell p.parsed)
      ∙ parse_command_detail-is_shell command pc h
      ∙ plain in
    let c = parse_tokens-IsChecked command tokens p.shell open_shell p.parsed in
    let verb = same_verb (tail_of tokens) c.allowed in ground (arith, split, c, verb)
