-- ===== src/Agent/KeyLaws.antt =====
-- What the key of a kubectl write forgets.
use k8s_ai.Base.{
  Bool, true, false, ◌||◌, List, [], ◌∷◌, Text, codes, nat_eq, text_eq, text_beq, if◌then◌else◌,
  is_empty, has_prefix, any, join, ◌≡◌, refl, arith, ◌∙◌, ap, strings,
}
use k8s_ai.Agent.Key.{
  modifier_flags, Parts, is_namespace_flag, is_namespace_value, is_modifier, take_token, skips_next,
  scan_tokens, no_parts, key_of_parts, normalize_tokens,
}

-- A word that is not empty and no flag.
pub record IsWord (t : Text) : Type 0 where
  pub filled : is_empty t ≡ false
  pub plain : has_prefix t (codes "-") ≡ false

word_tests :
    (t : Text)
    → has_prefix t (codes "-") ≡ false
    → (is_namespace_flag t ≡ false)
      × (has_prefix t (codes "--namespace=") ≡ false)
      × (has_prefix t (codes "-n=") ≡ false)
      × (is_modifier t ≡ false)
unfolding is_namespace_flag is_modifier modifier_flags has_prefix text_beq
word_tests [] h = (refl, refl, refl, refl)
word_tests (c ∷ s) h = ground arith

-- A token that sets no namespace.
abbrev pub sets_namespace : Text → Bool
sets_namespace t = is_namespace_flag t || is_namespace_value t

module _ (p : Parts) (verb : is_empty p.verb ≡ false) (resource : is_empty p.resource ≡ false)
    (name : is_empty p.name ≡ false) where
  take_token_full :
      (tok : Text) (rest : List Text) → sets_namespace tok ≡ false → take_token p tok rest ≡ p
  unfolding take_token is_namespace_value
  take_token_full tok rest h = ground arith

  scan_tokens_full :
      (skip : Bool) (toks : List Text)
      → any sets_namespace toks ≡ false
      → scan_tokens skip p toks ≡ p
  unfolding scan_tokens
  scan_tokens_full skip [] h = refl
  scan_tokens_full true (tok ∷ toks) h = scan_tokens_full false toks (ground arith)
  scan_tokens_full false (tok ∷ toks) h =
      rw (take_token_full tok toks (ground arith))
        (scan_tokens_full (skips_next tok) toks (ground arith))

scan_tokens_word :
    (p : Parts) (t : Text) (rest : List Text)
    → IsWord t
    → scan_tokens false p (t ∷ rest)
      ≡ scan_tokens false
          (if is_empty p.verb
            then record p { verb = t }
            else if is_empty p.resource
            then record p { resource = t }
            else if is_empty p.name
            then record p { name = t }
            else p)
          rest
unfolding scan_tokens take_token skips_next
scan_tokens_word p t rest w = ground (arith, word_tests t w.plain)

abbrev three : Text → Text → Text → Parts
three verb resource name = record { verb = verb; resource = resource; name = name; ns = [] }

scan_tokens-three :
    (verb resource name : Text) (rest : List Text)
    → IsWord verb
    → IsWord resource
    → IsWord name
    → any sets_namespace rest ≡ false
    → scan_tokens false no_parts (verb ∷ resource ∷ name ∷ rest) ≡ three verb resource name
scan_tokens-three verb resource name rest v r n h =
    scan_tokens_word no_parts verb (resource ∷ name ∷ rest) v
    ∙ scan_tokens_word (three verb [] []) resource (name ∷ rest) r
    ∙ (rw v.filled (
        scan_tokens_word (three verb resource []) name rest n
        ∙ (rw (v.filled, r.filled)
            (scan_tokens_full (three verb resource name) v.filled r.filled n.filled false rest h))))

key_of_three :
    (verb resource name : Text)
    → is_empty name ≡ false
    → key_of_parts (three verb resource name) ≡ join (codes " ") (verb ∷ resource ∷ name ∷ [])
unfolding key_of_parts
key_of_three verb resource [] h = cc
key_of_three verb resource (c ∷ s) h = refl

-- A kubectl write that begins with a verb, a resource and a name, each a word that is no flag, has
-- the key of these three words, whatever follows, if no later token sets a namespace.
pub normalize_tokens_three :
    (program verb resource name : Text) (rest : List Text)
    → IsWord verb
    → IsWord resource
    → IsWord name
    → any sets_namespace rest ≡ false
    → normalize_tokens (program ∷ verb ∷ resource ∷ name ∷ rest)
      ≡ join (codes " ") (verb ∷ resource ∷ name ∷ [])
unfolding normalize_tokens
normalize_tokens_three program verb resource name rest v r n h =
    ap key_of_parts (scan_tokens-three verb resource name rest v r n h)
    ∙ key_of_three verb resource name n.filled

delete-IsWord : IsWord (codes "delete")
unfolding has_prefix
delete-IsWord = record { filled = refl; plain = refl }

-- The scan reads `--force` as a flag with a value.
forced_scan :
    (kind name : Text)
    → scan_tokens false no_parts (codes "delete" ∷ codes "--force" ∷ kind ∷ name ∷ [])
      ≡ scan_tokens false (three (codes "delete") [] []) (name ∷ [])
unfolding scan_tokens take_token skips_next is_namespace_flag is_namespace_value is_modifier
    modifier_flags strings
forced_scan kind name = refl

scan_tokens_end : (p : Parts) → scan_tokens false p [] ≡ p
unfolding scan_tokens
scan_tokens_end p = refl

key_of_two :
    (verb resource : Text)
    → key_of_parts (three verb resource []) ≡ join (codes " ") (verb ∷ resource ∷ [])
unfolding key_of_parts
key_of_two verb resource = refl

forced :
    (program kind name : Text)
    → IsWord kind
    → IsWord name
    → normalize_tokens (program ∷ codes "delete" ∷ codes "--force" ∷ kind ∷ name ∷ [])
      ≡ join (codes " ") (codes "delete" ∷ name ∷ [])
unfolding normalize_tokens
forced program kind name k n =
    ap key_of_parts (
      forced_scan kind name
      ∙ scan_tokens_word (three (codes "delete") [] []) name [] n
      ∙ scan_tokens_end (three (codes "delete") name []))
    ∙ key_of_two (codes "delete") name

-- The flag --force in front of the resource takes the resource out of the key of a delete, which
-- without the flag has the resource and the name.
normalize_tokens_force :
    (program kind name : Text)
    → IsWord kind
    → IsWord name
    → (normalize_tokens (program ∷ codes "delete" ∷ codes "--force" ∷ kind ∷ name ∷ [])
        ≡ join (codes " ") (codes "delete" ∷ name ∷ []))
      × (normalize_tokens (program ∷ codes "delete" ∷ kind ∷ name ∷ [])
          ≡ join (codes " ") (codes "delete" ∷ kind ∷ name ∷ []))
unfolding normalize_tokens
normalize_tokens_force program kind name k n = (
  forced program kind name k n,
  normalize_tokens_three program (codes "delete") kind name [] delete-IsWord k n refl,
)
