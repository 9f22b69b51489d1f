-- ===== src/Session/State.antt =====
-- internal/session/session.go: the state of a conversation, its writes that were approved or
-- declined, and its grants.
use k8s_ai.Base.{
  ℕ, ◌+◌, Bool, true, false, not, ◌&&◌, Option, none, some, List, [], ◌∷◌, ◌++◌, Text, codes, ◌==◌,
  nat_eq, text_eq, if◌then◌else◌, ltb, length, filter, take, is_empty, contains, trim_space, cut,
}
use k8s_ai.Approval.Grant.{Grant, GrantRequest, matches, match_grant}

-- The fields of a message that the session reads. `none` is the zero time.
pub record Message : Type 0 where
  pub role : Text
  pub type : Text
  pub content : Text
  pub timestamp : Option ℕ

pub record Session : Type 0 where
  pub id : Text
  pub name : Text
  pub title : Text
  pub cluster : Text
  pub namespace : Text
  pub messages : List Message
  pub message_count : ℕ
  pub approved_writes : List Text
  pub approval_grants : List Grant
  pub declined_writes : List (Text × ℕ)
  pub last_modified : ℕ

unfoldable pub add_message : ℕ → Message → Session → Session
add_message now m s =
    let stamped : Message = elim m.timestamp [
      | none ↦ record m { timestamp = some now }
      | some t ↦ m
    ] in
    let messages = s.messages ++ (stamped ∷ []) in
    record s { messages = messages; message_count = length messages; last_modified = now }

unfoldable pub clear_messages : ℕ → Session → Session
clear_messages now s = record s { messages = []; message_count = 0; last_modified = now }

unfoldable pub total_messages : Session → ℕ
total_messages s = if is_empty s.messages then s.message_count else length s.messages

-- The first line of a text, `strings.SplitN(s, "\n", 2)[0]`.
abbrev first_line : Text → Text
first_line s = elim (cut 0xa s) [ none ↦ s | some (l, r) ↦ l ]

-- The loop of `DisplayTitle`.
unfoldable pub title_of_messages : List Message → Text
title_of_messages [] = codes "新会话"
title_of_messages (m ∷ ms) =
    let rest = title_of_messages ms in
    let line = trim_space (first_line (trim_space m.content)) in
    if not (m.role == codes "user" && m.type == codes "text")
    then rest
    else if is_empty line
    then rest
    else if ltb 24 (length line)
    then take 24 line ++ codes "…"
    else line

unfoldable pub display_title : Session → Text
display_title s =
    if not (is_empty s.name) && not (s.name == (codes "Session " ++ s.id))
    then s.name
    else if not (is_empty s.title)
    then s.title
    else title_of_messages s.messages

unfoldable pub approved : Session → Text → Bool
approved s key = contains s.approved_writes key

unfoldable pub add_approved : ℕ → Text → Session → Session
add_approved now key s =
    if approved s key
    then s
    else record s { approved_writes = s.approved_writes ++ (key ∷ []); last_modified = now }

abbrev pub has_id : Text → List Grant → Bool
has_id id [] = false
has_id id (g ∷ gs) = if g.id == id then true else has_id id gs

-- The first grant of that identifier is overwritten.
unfoldable pub replace_grant : Grant → List Grant → List Grant
replace_grant g [] = []
replace_grant g (h ∷ hs) =
    let rest = replace_grant g hs in if h.id == g.id then g ∷ hs else h ∷ rest

unfoldable pub add_grant : ℕ → Grant → Session → Session
add_grant now g s =
    if is_empty g.id
    then s
    else if has_id g.id s.approval_grants
    then record s { approval_grants = replace_grant g s.approval_grants; last_modified = now }
    else record s { approval_grants = s.approval_grants ++ (g ∷ []); last_modified = now }

unfoldable pub find_grant : ℕ → Session → GrantRequest → Option Grant
find_grant now s req = match_grant now s.approval_grants req

unfoldable pub remove_grant_matching : ℕ → GrantRequest → Session → Session
remove_grant_matching now req s =
    if is_empty s.approval_grants
    then s
    else let kept = filter (λ g. not (matches now g req)) s.approval_grants in
      if length kept == length s.approval_grants
      then s
      else record s { approval_grants = kept; last_modified = now }

abbrev pub count_of : Text → List (Text × ℕ) → ℕ
count_of key [] = 0
count_of key ((k, n) ∷ m) = if k == key then n else count_of key m

-- `m[key]++`.
unfoldable pub increment : Text → List (Text × ℕ) → List (Text × ℕ)
increment key [] = (key, 1) ∷ []
increment key ((k, n) ∷ m) =
    let rest = increment key m in if k == key then (k, n + 1) ∷ m else (k, n) ∷ rest

unfoldable pub declined : Session → Text → ℕ
declined s key = count_of key s.declined_writes

-- The first occurrence is taken out.
unfoldable pub remove_first : Text → List Text → List Text
remove_first key [] = []
remove_first key (k ∷ ks) = let rest = remove_first key ks in if k == key then ks else k ∷ rest

-- `AddDeclined`: the new state and the count that it returns.
unfoldable pub add_declined : ℕ → Text → Session → Session × ℕ
add_declined now key s =
    let counts = increment key s.declined_writes in
    (
      record s {
        approved_writes = remove_first key s.approved_writes;
        declined_writes = counts;
        last_modified = now;
      },
      count_of key counts,
    )
