-- ===== src/Session/Writes.antt =====
-- Laws of the approved and declined writes and of the grants of a session.
use k8s_ai.Base.{
  ℕ, ◌+◌, ◌≤◌, true, false, not, ◌||◌, none, List, [], ◌∷◌, ◌++◌, Text, ◌==◌, nat_eq, text_eq,
  text_beq_iff, if◌then◌else◌, length, filter, contains, ◌≡◌, refl, ◌≢◌, arith, find?-filter,
  filter_same,
}
use k8s_ai.Approval.Grant.{Grant, GrantRequest, is_expired, matches, match_grant}
use k8s_ai.Session.State.{
  Message, Session, add_message, clear_messages, approved, add_approved, add_grant, find_grant,
  remove_grant_matching, count_of, increment, declined, remove_first, add_declined,
}

-- A grant that matches later matches now: grants only expire.
matches_earlier :
    (now later : ℕ) (g : Grant) (req : GrantRequest)
    → now ≤ later
    → matches later g req ≡ true
    → matches now g req ≡ true
unfolding matches is_expired
matches_earlier now later g req h m = ground arith

grants_left :
    (now : ℕ) (req : GrantRequest) (s : Session) (gs : List Grant)
    → s.approval_grants ≡ gs
    → (remove_grant_matching now req s).approval_grants ≡ filter (λ g. not (matches now g req)) gs
unfolding remove_grant_matching
grants_left now req s [] e = ground arith
grants_left now req s (g ∷ gs) e =
    ground (arith, filter_same (λ g. not (matches now g req)) (g ∷ gs))

-- What `RemoveGrantMatching` keeps is exactly what does not match the request.
pub remove_grant_matching-grants :
    (now : ℕ) (req : GrantRequest) (s : Session)
    → (remove_grant_matching now req s).approval_grants
      ≡ filter (λ g. not (matches now g req)) s.approval_grants
remove_grant_matching-grants now req s = grants_left now req s s.approval_grants refl

-- After the grants matching a request are removed, no grant of the session is found for that
-- request, at that time or later.
pub remove_grant_matching-find_grant :
    (now later : ℕ) (req : GrantRequest) (s : Session)
    → now ≤ later
    → find_grant later (remove_grant_matching now req s) req ≡ none
unfolding find_grant match_grant
remove_grant_matching-find_grant now later req s h = rw (remove_grant_matching-grants now req s) (
    find?-filter (λ g. matches later g req) (λ g. not (matches now g req)) s.approval_grants
      (λ g m. rw (matches_earlier now later g req h m)))

-- No text occurs twice.
abbrev pub IsDistinct : List Text → Type 0
IsDistinct [] = Unit
IsDistinct (k ∷ ks) = (contains ks k ≡ false) × IsDistinct ks

contains-remove_first :
    (key : Text) (ks : List Text) → IsDistinct ks → contains (remove_first key ks) key ≡ false
unfolding remove_first
contains-remove_first key [] h = refl
contains-remove_first key (k ∷ ks) h =
    ground (arith, text_beq_iff k key, contains-remove_first key ks h.1)

contains-remove_first_ne :
    (key other : Text) (ks : List Text)
    → key ≢ other
    → contains (remove_first key ks) other ≡ contains ks other
unfolding remove_first
contains-remove_first_ne key other [] h = refl
contains-remove_first_ne key other (k ∷ ks) h =
    ground
      (arith, text_beq_iff k key, text_beq_iff k other, contains-remove_first_ne key other ks h)

remove_first-false :
    (key other : Text) (ks : List Text)
    → contains ks other ≡ false
    → contains (remove_first key ks) other ≡ false
unfolding remove_first
remove_first-false key other [] h = refl
remove_first-false key other (k ∷ ks) h = ground (arith, remove_first-false key other ks)

remove_first-IsDistinct :
    (key : Text) (ks : List Text) → IsDistinct ks → IsDistinct (remove_first key ks)
unfolding remove_first
remove_first-IsDistinct key [] h = tt
remove_first-IsDistinct key (k ∷ ks) h =
    ground (arith, remove_first-IsDistinct key ks h.1, remove_first-false key k ks)

pub contains-append :
    (ks : List Text) (key other : Text)
    → contains (ks ++ (key ∷ [])) other ≡ (contains ks other || key == other)
contains-append [] key other = ground arith
contains-append (k ∷ ks) key other = ground (arith, contains-append ks key other)

append-IsDistinct :
    (ks : List Text) (key : Text)
    → contains ks key ≡ false
    → IsDistinct ks
    → IsDistinct (ks ++ (key ∷ []))
append-IsDistinct [] key n h = (refl, tt)
append-IsDistinct (k ∷ ks) key n h = ground (
  arith,
  append-IsDistinct ks key,
  contains-append ks key k,
  text_beq_iff key k,
  text_beq_iff k key,
)

count-increment :
    (key other : Text) (m : List (Text × ℕ))
    → count_of other (increment key m)
      ≡ (if key == other then count_of other m + 1 else count_of other m)
unfolding increment
count-increment key other [] = ground (arith)
count-increment key other ((k, n) ∷ m) = ground (
  arith,
  text_beq_iff k key,
  text_beq_iff k other,
  text_beq_iff key other,
  count-increment key other m,
)

-- What holds of a session that the program has built up.
pub record IsValid (s : Session) : Type 0 where
  pub distinct : IsDistinct s.approved_writes
  pub counted : s.message_count ≡ length s.messages

-- The calls that change a session.
pub data Op : Type 0 where
  say : Message → Op
  clear : Op
  approve decline : Text → Op
  grant : Grant → Op
  forget : GrantRequest → Op

unfoldable pub apply : ℕ → Op → Session → Session
apply now (say m) s = add_message now m s
apply now clear s = clear_messages now s
apply now (approve key) s = add_approved now key s
apply now (decline key) s = (add_declined now key s).0
apply now (grant g) s = add_grant now g s
apply now (forget req) s = remove_grant_matching now req s

-- Each operation on a valid session, one whose approved writes are distinct and whose message
-- count is the number of messages, leaves a valid session.
pub apply-IsValid : (now : ℕ) (op : Op) (s : Session) → IsValid s → IsValid (apply now op s)
unfolding apply add_message clear_messages add_approved approved add_declined add_grant
    remove_grant_matching
apply-IsValid now (say m) s v = ground arith
apply-IsValid now clear s v = ground arith
apply-IsValid now (approve key) s v = ground (arith, append-IsDistinct s.approved_writes key)
apply-IsValid now (decline key) s v = record {
  distinct = remove_first-IsDistinct key s.approved_writes v.distinct;
  counted = v.counted;
}
apply-IsValid now (grant g) s v = ground arith
apply-IsValid now (forget req) s v = ground arith

-- What a refusal does to the write itself.
pub add_declined_same_key :
    (now : ℕ) (key : Text) (s : Session)
    → IsValid s
    → let s' = (add_declined now key s).0 in
      (approved s' key ≡ false)
      × (declined s' key ≡ declined s key + 1)
      × ((add_declined now key s).1 ≡ declined s key + 1)
unfolding add_declined approved declined
add_declined_same_key now key s v = ground (
  arith,
  contains-remove_first key s.approved_writes v.distinct,
  count-increment key key s.declined_writes,
  text_beq_iff key key,
)

-- After a write is declined in a valid session it is not approved, its count has grown by one and
-- is the count returned, and any other write keeps its approval and its count.
pub add_declined_lem :
    (now : ℕ) (key other : Text) (s : Session)
    → IsValid s
    → key ≢ other
    → let s' = (add_declined now key s).0 in
      (approved s' key ≡ false)
      × (declined s' key ≡ declined s key + 1)
      × ((add_declined now key s).1 ≡ declined s key + 1)
      × (approved s' other ≡ approved s other)
      × (declined s' other ≡ declined s other)
unfolding add_declined approved declined
add_declined_lem now key other s v ne = ground (
  arith,
  contains-remove_first key s.approved_writes v.distinct,
  contains-remove_first_ne key other s.approved_writes ne,
  count-increment key key s.declined_writes,
  count-increment key other s.declined_writes,
  text_beq_iff key key,
  text_beq_iff key other,
)
