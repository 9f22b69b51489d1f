-- ===== src/Objects/Safety.antt =====
-- internal/objectstore/keys.go: what a key that `ValidateKey` accepts cannot contain.
use k8s_ai.Base.{
  ◌≡◌, ◌≢◌, ◌≤◌, refl, sym, subst, arith, Bool, true, false, not, List, [], ◌∷◌, Memᴰ, Text,
  text_eq, codes, leb, leb→le, all, all-Memᴰ, contains→Memᴰ, is_empty, length, join, split_at,
  join-split_at, last_text, ok, guard->>, guard-eq-ok, byte_length,
}
use k8s_ai.Objects.Key.{
  slash, is_key_rune, is_segment, matches_key, is_dots, hex_front, valid_category, categories,
  validate_key, second, empty_key, too_long, bad_characters, too_few_segments, dot_segment,
  bad_category, bad_hash,
}

-- A segment that names a file or directory below the one it stands in.
pub record IsSafe (segment : Text) : Type 0 where
  pub named : is_empty segment ≡ false
  pub not_here : segment ≢ codes "."
  pub not_up : segment ≢ codes ".."
  pub clean : all is_key_rune segment ≡ true

segment-IsSafe : (seg : Text) → is_segment seg ≡ true → is_dots seg ≡ false → IsSafe seg
unfolding is_segment is_dots
segment-IsSafe seg h d = record {
  named = ground arith;
  not_here = λ e. cc (subst (λ t. is_dots t ≡ false) e d);
  not_up = λ e. cc (subst (λ t. is_dots t ≡ false) e d);
  clean = ground arith;
}

negated : (b : Bool) → not b ≡ true → b ≡ false
negated true h = cc
negated false h = refl

-- What `ValidateKey` promises of a key that it accepts.
pub record IsSound (key : Text) (segments : List Text) : Type 0 where
  pub joined : key ≡ join (slash ∷ []) segments
  pub short : byte_length key ≤ 191
  pub three : 3 ≤ length segments
  pub safe : (seg : Text) → Memᴰ seg segments → IsSafe seg
  pub listed : Memᴰ (second segments) categories
  pub hashed : hex_front 64 (last_text segments) ≡ true

-- A key that is accepted is the join by slashes of three segments or more, has at most 191 bytes,
-- a listed category and 64 hexadecimal digits at the front of its last segment, and each segment
-- is not empty, not . or .. and has allowed characters only.
pub validate_key-IsSound :
    (key : Text) → validate_key key ≡ ok tt → IsSound key (split_at slash key)
unfolding validate_key matches_key valid_category
validate_key-IsSound key h =
    let segments = split_at slash key in
    let (g1, h1) = guard->> (not (is_empty key)) empty_key _ h in
    let (g2, h2) = guard->> (leb (byte_length key) 191) too_long _ h1 in
    let (g3, h3) = guard->> (matches_key key) bad_characters _ h2 in
    let (g4, h4) = guard->> (leb 3 (length segments)) too_few_segments _ h3 in
    let (g5, h5) = guard->> (all (λ seg. not (is_dots seg)) segments) dot_segment _ h4 in
    let (g6, h6) = guard->> (valid_category (second segments)) bad_category _ h5 in
    record {
      joined = sym (join-split_at slash key);
      short = leb→le (byte_length key) 191 g2;
      three = leb→le 3 (length segments) g4;
      safe = λ seg m.
          segment-IsSafe seg (all-Memᴰ is_segment segments g3 m)
            (negated _ (all-Memᴰ (λ s. not (is_dots s)) segments g5 m));
      listed = contains→Memᴰ categories _ g6;
      hashed = guard-eq-ok _ bad_hash h6;
    }
