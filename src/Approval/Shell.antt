-- ===== src/Approval/Shell.antt =====
-- internal/approval/risk.go (HasShellSyntax) and policy.go (shellTokens, IsForbiddenCommand): the
-- lexical scans of a command.
use mathlib.Core.List.{foldl}
use k8s_ai.Base.{
  ℕ, Bool, true, false, not, ◌&&◌, ◌||◌, Option, none, some, List, [], ◌∷◌, ◌++◌, Text, codes, ◌==◌,
  nat_eq, text_eq, if◌then◌else◌, any, contains, to_lower, has_infix, has_prefix, is_space,
  fields_by, is_empty, flush,
}

abbrev pub single_quote : ℕ
single_quote = 0x27

abbrev pub double_quote : ℕ
double_quote = 0x22

abbrev pub backtick : ℕ
backtick = 0x60

-- The wrappers that may hide a write command inside quotes.
abbrev shell_wrappers : List Text
shell_wrappers =
    codes "sh -c"
    ∷ codes "bash -c"
    ∷ codes "zsh -c"
    ∷ codes "dash -c"
    ∷ codes "ksh -c"
    ∷ codes "eval "
    ∷ []

-- The runes of the third case of the `switch` in `HasShellSyntax`.
unfoldable pub is_shell_meta : ℕ → Bool
is_shell_meta r = contains (codes "|&;<>$()") r

-- The loop of `HasShellSyntax`, from the state of `inSingle` and `inDouble`.
unfoldable pub has_unquoted_meta : Bool → Bool → Text → Bool
has_unquoted_meta single double [] = false
has_unquoted_meta single double (r ∷ rs) =
    let rest =
      has_unquoted_meta (if r == single_quote && not double then not single else single)
        (if r == double_quote && not single then not double else double) rs in
    if is_shell_meta r && not single && not double then true else rest

unfoldable pub has_shell_syntax : Text → Bool
has_shell_syntax command =
    if any (λ wrapper. has_infix (to_lower command) wrapper) shell_wrappers
    then true
    else if has_unquoted_meta false false command
    then true
    else has_infix command (backtick ∷ [])

-- The variables of the loop in `shellTokens`.
pub record Lexer : Type 0 where
  pub single : Bool
  pub double : Bool
  pub cur : Text
  pub tokens : List Text

-- `flush`: the current token is appended if it is not empty.
abbrev pub flushed : Text → List Text → List Text
flushed cur tokens = tokens ++ flush cur []

abbrev pub is_break : ℕ → Bool
is_break r = is_space r || contains (codes "|&;<>$()`") r

-- The body of the loop in `shellTokens`.
unfoldable pub shell_tokens_step : Lexer → ℕ → Lexer
shell_tokens_step l r =
    if l.single
    then (if r == single_quote
        then record l { single = false }
        else record l { cur = l.cur ++ (r ∷ []) })
    else if l.double
    then (if r == double_quote
        then record l { double = false }
        else record l { cur = l.cur ++ (r ∷ []) })
    else if r == single_quote
    then record l { single = true }
    else if r == double_quote
    then record l { double = true }
    else if is_break r
    then record l { cur = []; tokens = flushed l.cur l.tokens }
    else record l { cur = l.cur ++ (r ∷ []) }

unfoldable pub shell_tokens : Text → List Text
shell_tokens command =
    let l =
      foldl shell_tokens_step (record { single = false; double = false; cur = []; tokens = [] })
        command in
    flushed l.cur l.tokens

-- The test that `IsForbiddenCommand` and `forbiddenToken` make of one word.
unfoldable pub forbidden_token : Text → Bool
forbidden_token lit =
    if is_empty lit
    then false
    else if lit == codes "--raw" || has_prefix lit (codes "--raw=")
    then true
    else if has_prefix lit (codes "-")
    then false
    else any (λ part. to_lower part == codes "secret" || to_lower part == codes "secrets")
        (fields_by (λ r. r == b'/' || r == b',') lit)

-- `IsForbiddenCommand`. `parse_words` stands for mvdan.cc/sh/v3/syntax: the literals of the words
-- of the command in the order of `syntax.Walk`, each with those of its parts, or `none` where the
-- parser fails.
unfoldable pub is_forbidden_command : (Text → Option (List Text)) → Text → Bool
is_forbidden_command parse_words command = elim (parse_words command) [
  | some words ↦ any forbidden_token words
  | none ↦ any forbidden_token (shell_tokens command)
]
