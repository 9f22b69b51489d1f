-- ===== src/Executor/Parse.antt =====
-- internal/executor/parse.go: the parser and gate of the kubectl commands that are run.
use mathlib.Core.List.{foldl}
use k8s_ai.Base.{
  ℕ, Bool, true, false, not, ◌||◌, List, [], ◌∷◌, ◌++◌, Text, codes, ◌==◌, nat_eq, text_eq,
  if◌then◌else◌, leb, any, contains, has_prefix, is_space, byte_length, Result, ok, err, guard,
  ◌>>=◌, ◌>>◌,
}
use k8s_ai.Approval.Shell.{has_shell_syntax, single_quote, double_quote, flushed}
use k8s_ai.Approval.Risk.{tail_of, classification}

-- The verbs of `allowedVerbs`: the read-only ones, then the writes.
unfoldable pub allowed_verbs : List Text
allowed_verbs =
    codes "get"
    ∷ codes "describe"
    ∷ codes "logs"
    ∷ codes "events"
    ∷ codes "top"
    ∷ codes "explain"
    ∷ codes "api-resources"
    ∷ codes "version"
    ∷ codes "apply"
    ∷ codes "create"
    ∷ codes "delete"
    ∷ codes "patch"
    ∷ codes "scale"
    ∷ codes "rollout"
    ∷ codes "set"
    ∷ codes "annotate"
    ∷ codes "label"
    ∷ codes "exec"
    ∷ codes "drain"
    ∷ codes "cordon"
    ∷ codes "uncordon"
    ∷ codes "autoscale"
    ∷ codes "expose"
    ∷ codes "taint"
    ∷ codes "reconcile"
    ∷ codes "certificate"
    ∷ []

unfoldable pub rejected_interactive_verbs : List Text
rejected_interactive_verbs =
    codes "edit"
    ∷ codes "attach"
    ∷ codes "port-forward"
    ∷ codes "proxy"
    ∷ codes "run"
    ∷ codes "cp"
    ∷ codes "debug"
    ∷ codes "auth"
    ∷ codes "plugin"
    ∷ []

pub data ParseError : Type 0 where
  too_long unbalanced_quotes empty_command not_kubectl missing_verb interactive_exec : ParseError
  interactive_verb : Text → ParseError
  verb_not_allowed : Text → ParseError

pub record ParsedCommand : Type 0 where
  pub argv : List Text
  pub is_shell : Bool

-- `shellMetachars`.
unfoldable pub is_shell_metachar : ℕ → Bool
is_shell_metachar r = contains (codes "|&;<>$()`") r

-- The variables of the loop in `tokenize`.
pub record Lexer : Type 0 where
  pub single : Bool
  pub double : Bool
  pub cur : Text
  pub tokens : List Text
  pub is_shell : Bool

-- The body of the loop in `tokenize`.
unfoldable pub tokenize_step : Lexer → ℕ → Lexer
tokenize_step l r =
    if l.single
    then (if r == single_quote
        then record l { single = false }
        else record l { cur = l.cur ++ (r ∷ []) })
    else if l.double
    then (if r == double_quote
        then record l { double = false }
        else record l { cur = l.cur ++ (r ∷ []) })
    else if r == single_quote
    then record l { single = true }
    else if r == double_quote
    then record l { double = true }
    else if is_space r
    then record l { cur = []; tokens = flushed l.cur l.tokens }
    else if is_shell_metachar r || r == 0xa || r == 0xd
    then record l { is_shell = true; cur = l.cur ++ (r ∷ []) }
    else record l { cur = l.cur ++ (r ∷ []) }

abbrev pub start : Lexer
start = record { single = false; double = false; cur = []; tokens = []; is_shell = false }

unfoldable pub tokenize : Text → Result ParseError (List Text × Bool)
tokenize command =
    let l = foldl tokenize_step start command in
    if l.single || l.double then err unbalanced_quotes else ok (flushed l.cur l.tokens, l.is_shell)

unfoldable pub is_command_verb : Text → Bool
is_command_verb t = contains allowed_verbs t || contains rejected_interactive_verbs t

-- `extractFirstNonFlag`.
unfoldable pub extract_first_non_flag : List Text → Text × List Text
extract_first_non_flag [] = ([], [])
extract_first_non_flag (t ∷ rest) =
    let later = extract_first_non_flag rest in if is_command_verb t then (t, rest) else later

unfoldable pub is_interactive_flag : Text → Bool
is_interactive_flag t =
    t == codes "-i"
    || t == codes "-t"
    || t == codes "-it"
    || t == codes "-ti"
    || t == codes "--stdin"
    || t == codes "--tty"

-- `validateFlags`.
unfoldable pub validate_flags : Text → List Text → Result ParseError (Unit {0})
validate_flags verb tokens =
    guard (not (verb == codes "exec") || not (any is_interactive_flag tokens)) interactive_exec

-- What `rejectInteractiveAnywhere` checks of the tokens after one `kubectl`.
unfoldable pub reject_interactive_call : List Text → Result ParseError (Unit {0})
reject_interactive_call tokens =
    let (verb, rest) = extract_first_non_flag tokens in
    if verb == []
    then ok tt
    else if contains rejected_interactive_verbs verb
    then err (interactive_verb verb)
    else if verb == codes "exec"
    then validate_flags verb rest
    else ok tt

unfoldable pub reject_interactive_anywhere : List Text → Result ParseError (Unit {0})
reject_interactive_anywhere [] = ok tt
reject_interactive_anywhere (t ∷ rest) =
    let later = reject_interactive_anywhere rest in
    if t == codes "kubectl" then (reject_interactive_call rest >> later) else later

-- The second half of `ParseCommandDetail`, for a command that is not a shell command.
unfoldable pub parse_plain : List Text → Result ParseError ParsedCommand
parse_plain [] = err empty_command
parse_plain (program ∷ args) = do
  guard (program == codes "kubectl") not_kubectl
  let call = extract_first_non_flag args
  guard (not (call.0 == [])) missing_verb
  guard (not (contains rejected_interactive_verbs call.0)) (interactive_verb call.0)
  guard (contains allowed_verbs call.0) (verb_not_allowed call.0)
  validate_flags call.0 call.1
  ok (record { argv = program ∷ args; is_shell = false })

abbrev pub parse_shell : List Text → Result ParseError ParsedCommand
parse_shell tokens = do
  reject_interactive_anywhere tokens
  ok (record { argv = tokens; is_shell = true })

abbrev pub nonempty {ℓ} : {A : Type ℓ} → List A → Bool
nonempty [] = false
nonempty (x ∷ xs) = true

-- What `ParseCommandDetail` does with the result of `tokenize`.
unfoldable pub parse_tokens : Text → List Text × Bool → Result ParseError ParsedCommand
parse_tokens command t = do
  let is_shell = t.1 || has_shell_syntax command
  guard (nonempty t.0) empty_command
  if is_shell then parse_shell t.0 else parse_plain t.0

unfoldable pub parse_command_detail : Text → Result ParseError ParsedCommand
parse_command_detail command = do
  guard (leb (byte_length command) 4096) too_long
  t ← tokenize command
  parse_tokens command t

-- `containsFlag`.
unfoldable pub contains_flag : List Text → List Text → Bool
contains_flag tokens flags =
    any (λ t. any (λ f. t == f || has_prefix t (f ++ codes "=")) flags) tokens

unfoldable pub is_streaming : List Text → Bool
is_streaming argv =
    if nonempty (tail_of argv)
    then (let call = extract_first_non_flag (tail_of argv) in
        if call.0 == codes "logs"
        then contains_flag call.1 (codes "-f" ∷ codes "--follow" ∷ [])
        else if call.0 == codes "get"
        then contains_flag call.1 (codes "-w" ∷ codes "--watch" ∷ [])
        else false)
    else false

-- Everything that the parse of a concrete command computes with.
unfoldable pub parsing : Unit {0}
unfolding classification allowed_verbs rejected_interactive_verbs is_shell_metachar tokenize_step
    tokenize is_command_verb extract_first_non_flag is_interactive_flag validate_flags
    reject_interactive_call reject_interactive_anywhere parse_plain parse_tokens
    parse_command_detail contains_flag is_streaming
parsing = tt
