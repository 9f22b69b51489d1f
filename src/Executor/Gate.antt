-- ===== src/Executor/Gate.antt =====
-- The gate of internal/executor against internal/approval: what is a shell command for the one is
-- one for the other.
use mathlib.Core.List.{foldl}
use k8s_ai.Base.{
  ℕ, Bool, true, false, ◌&&◌, ◌||◌, List, [], ◌∷◌, Text, ◌==◌, nat_eq, contains, has_prefix,
  has_infix, is_space, ok, err, guard, ◌>>=◌, >>-eq-ok, ◌≡◌, refl, ◌⊎◌, inl, inr, arith, Bool-cases,
}
use k8s_ai.Approval.Shell.{is_shell_meta, has_unquoted_meta, has_shell_syntax, backtick}
use k8s_ai.Approval.Risk.{tail_of}
use k8s_ai.Base.{text_eq, Result, ◌∙◌, byte_length, leb}
use k8s_ai.Executor.Parse.{
  Lexer, ParsedCommand, ParseError, too_long, is_shell_metachar, tokenize_step, tokenize, start,
  parse_tokens, parse_plain, parse_command_detail, reject_interactive_anywhere, parse_shell,
  allowed_verbs, rejected_interactive_verbs, extract_first_non_flag, validate_flags,
}

shell_rune :
    (r : ℕ)
    → is_space r ≡ false
    → (is_shell_metachar r || r == 0xa || r == 0xd) ≡ true
    → (is_shell_meta r ≡ true) ⊎ (r ≡ backtick)
unfolding is_space is_shell_metachar is_shell_meta
shell_rune r s h = ground arith

-- Where the lexer stands between two runes: at most one kind of quote is open.
abbrev IsLexed : Lexer → Type 0
IsLexed l = (l.single && l.double) ≡ false

abbrev Seen : Bool → Bool → Text → Type 0
Seen single double rs = (has_unquoted_meta single double rs ≡ true) ⊎ (contains rs backtick ≡ true)

tokenize_step-IsLexed : (l : Lexer) (r : ℕ) → IsLexed l → IsLexed (tokenize_step l r)
unfolding tokenize_step
tokenize_step-IsLexed l r h = ground arith

-- One step: the lexer marks a shell command only at a rune that `HasShellSyntax` counts too, and
-- the two agree on the quotes.
step-Seen :
    (l : Lexer) (r : ℕ) (rs : Text)
    → IsLexed l
    → ((tokenize_step l r).is_shell ≡ true)
      ⊎ Seen (tokenize_step l r).single (tokenize_step l r).double rs
    → (l.is_shell ≡ true) ⊎ Seen l.single l.double (r ∷ rs)
unfolding tokenize_step has_unquoted_meta
step-Seen l r rs h s = ground (arith, shell_rune r)

run-Seen :
    (l : Lexer) (rs : Text)
    → IsLexed l
    → (foldl tokenize_step l rs).is_shell ≡ true
    → (l.is_shell ≡ true) ⊎ Seen l.single l.double rs
run-Seen l [] h e = inl e
run-Seen l (r ∷ rs) h e =
    step-Seen l r rs h (run-Seen (tokenize_step l r) rs (tokenize_step-IsLexed l r h) e)

has_infix_rune : (s : Text) (c : ℕ) → contains s c ≡ true → has_infix s (c ∷ []) ≡ true
unfolding has_infix has_prefix
has_infix_rune [] c h = cc
has_infix_rune (d ∷ s) c h = ground (arith, has_infix_rune s c)

-- Every command that the lexer marks contains shell syntax.
tokenize-has_shell_syntax :
    (command : Text) {tokens : List Text}
    → tokenize command ≡ ok (tokens, true)
    → has_shell_syntax command ≡ true
unfolding tokenize has_shell_syntax
tokenize-has_shell_syntax command h =
    ground (arith, run-Seen start command, has_infix_rune command backtick)

-- What a command that is not run by a shell has passed.
pub record IsChecked (tokens : List Text) (pc : ParsedCommand) : Type 0 where
  pub whole : pc.argv ≡ tokens
  pub plain : pc.is_shell ≡ false
  pub allowed : contains allowed_verbs (extract_first_non_flag (tail_of tokens)).0 ≡ true
  pub known :
      contains rejected_interactive_verbs (extract_first_non_flag (tail_of tokens)).0 ≡ false
  pub flags :
      let call = extract_first_non_flag (tail_of tokens) in validate_flags call.0 call.1 ≡ ok tt

parse_plain-IsChecked :
    (tokens : List Text) {pc : ParsedCommand} → parse_plain tokens ≡ ok pc → IsChecked tokens pc
unfolding parse_plain
parse_plain-IsChecked [] h = cc
parse_plain-IsChecked (t ∷ ts) h = ground arith

parse_shell-is_shell :
    (tokens : List Text) {pc : ParsedCommand}
    → parse_shell tokens ≡ ok pc
    → (pc.is_shell ≡ true) × (pc.argv ≡ tokens) × (reject_interactive_anywhere tokens ≡ ok tt)
parse_shell-is_shell tokens h = ground arith

pub parse_tokens-is_shell :
    (command : Text) (tokens : List Text) (shell : Bool) {pc : ParsedCommand}
    → parse_tokens command (tokens, shell) ≡ ok pc
    → pc.is_shell ≡ (shell || has_shell_syntax command)
unfolding parse_tokens
parse_tokens-is_shell command [] shell h = cc
parse_tokens-is_shell command (t ∷ ts) shell {pc} h =
    elim (Bool-cases (shell || has_shell_syntax command)) [
      | inl e ↦ rw e (parse_shell-is_shell (t ∷ ts) (rw e at h)).0
      | inr e ↦ rw e (parse_plain-IsChecked (t ∷ ts) (rw e at h)).plain
    ]

pub parse_tokens-IsChecked :
    (command : Text) (tokens : List Text) (shell : Bool) {pc : ParsedCommand}
    → (shell || has_shell_syntax command) ≡ false
    → parse_tokens command (tokens, shell) ≡ ok pc
    → IsChecked tokens pc
unfolding parse_tokens
parse_tokens-IsChecked command [] shell e h = cc
parse_tokens-IsChecked command (t ∷ ts) shell e h = parse_plain-IsChecked (t ∷ ts) (rw e at h)

-- The parts of a successful parse.
pub record IsParsed (command : Text) (pc : ParsedCommand) : Type 0 where
  pub tokens : List Text
  pub shell : Bool
  pub lexed : tokenize command ≡ ok (tokens, shell)
  pub parsed : parse_tokens command (tokens, shell) ≡ ok pc

after_lexer :
    (command : Text) {pc : ParsedCommand} (t : Result ParseError (List Text × Bool))
    → tokenize command ≡ t
    → (t >>= parse_tokens command) ≡ ok pc
    → IsParsed command pc
after_lexer command (ok (tokens, shell)) e h = record {
  tokens = tokens;
  shell = shell;
  lexed = e;
  parsed = h;
}
after_lexer command (err x) e h = cc

pub parse_command_detail-IsParsed :
    (command : Text) {pc : ParsedCommand}
    → parse_command_detail command ≡ ok pc
    → IsParsed command pc
unfolding parse_command_detail
parse_command_detail-IsParsed command h = after_lexer command (tokenize command) refl (
    >>-eq-ok (guard (leb (byte_length command) 4096) too_long)
      (tokenize command >>= parse_tokens command) h)

-- If the executor parses a command, it marks it as a shell command exactly if the approval layer
-- sees shell syntax in it.
pub parse_command_detail-is_shell :
    (command : Text) (pc : ParsedCommand)
    → parse_command_detail command ≡ ok pc
    → pc.is_shell ≡ has_shell_syntax command
parse_command_detail-is_shell command pc h =
    let p = parse_command_detail-IsParsed command h in
    elim (Bool-cases p.shell) [
      | inl e ↦
          let e' = tokenize-has_shell_syntax command (rw e at p.lexed) in
          parse_tokens-is_shell command p.tokens p.shell p.parsed ∙ (rw (e, e'))
      | inr e ↦ parse_tokens-is_shell command p.tokens p.shell p.parsed ∙ (rw e)
    ]
