-- ===== src/Creation.antt =====
-- services.py, "Conversation creation": the idempotent direct thread, groups and support threads.
pub mod Direct
use stapel_chat.Base.{
  Bool, List, Option, Text, [], any, find?, if◌then◌else◌, is_empty, is_some, none, some, strip,
  text_eq, ℕ, ◌&&◌, ◌++◌, ◌+◌, ◌==◌, ◌||◌, ◌∷◌,
}
use stapel_chat.Model.{
  Conversation, ConversationKind, Participant, SupportStatus, direct, direct_key_of, group,
  is_direct, member, status_open, support,
}
use stapel_chat.Sending.{participant_ids}
use stapel_chat.Sending.Post.{refuse_pairs}
use stapel_chat.Settings.{Host}
use stapel_chat.Subjects.{is_registered}
use stapel_chat.World.{
  Exec, Result, World, conversation_created, emit, err, gets, incomplete_subject, integrity_error,
  lift, modify, ok, pure, unknown_subject_type, ◌>>=◌, ◌>>◌,
}

-- A subject is both halves or neither, and its type is registered.
unfoldable pub check_subject : Host → Text → Text → Result Unit
unfolding is_registered
check_subject host subject_type subject_key =
    if is_empty subject_type && is_empty subject_key
    then ok tt
    else if is_empty subject_type || is_empty subject_key
    then err incomplete_subject
    else if is_registered host subject_type
    then ok tt
    else err unknown_subject_type

-- `filter(kind=DIRECT, direct_key=key)`
abbrev pub is_thread_of : Text → Conversation → Bool
is_thread_of key c = is_direct c.kind && text_eq c.direct_key key

unfoldable pub find_direct : Text → World → Option Conversation
unfolding text_eq
find_direct key w = find? (is_thread_of key) w.conversations

-- What a creation fixes of the new row.
pub record NewThread : Type 0 where
  pub kind : ConversationKind
  pub scope_key : Text
  pub direct_key : Text
  pub subject_type : Text
  pub subject_key : Text
  pub support_status : Option SupportStatus

abbrev pub thread_row : NewThread → ℕ → ℕ → Conversation
thread_row t cid now = record {
  id = cid;
  kind = t.kind;
  scope_key = t.scope_key;
  direct_key = t.direct_key;
  subject_type = t.subject_type;
  subject_key = t.subject_key;
  last_seq = 0;
  support_status = t.support_status;
  assigned_operator = none;
  created_at = now;
  updated_at = now;
}

abbrev pub member_row : ℕ → ℕ → ℕ → ℕ → Participant
member_row pid cid user now = record {
  id = pid;
  conversation = cid;
  user = user;
  role = member;
  last_read_seq = 0;
  last_delivered_seq = 0;
  left_at = none;
  cleared_at = none;
  created_at = now;
  updated_at = now;
}

unfoldable pub add_member : ℕ → ℕ → World → World
add_member cid user w = record w {
  participants = w.participants ++ member_row w.next_id cid user w.clock ∷ [];
  next_id = w.next_id + 1;
}

unfoldable pub add_members : ℕ → List ℕ → World → World
unfolding add_member
add_members cid [] w = w
add_members cid (user ∷ users) w = add_members cid users (add_member cid user w)

unfoldable pub insert_thread : NewThread → World → World
insert_thread t w = record w {
  conversations = w.conversations ++ thread_row t w.next_id w.clock ∷ [];
  next_id = w.next_id + 1;
}

-- The rows of a new thread and its event, in one transaction.
unfoldable pub open_thread : NewThread → ℕ → List ℕ → World → World
unfolding insert_thread add_members participant_ids
open_thread t creator members w =
    let cid = w.next_id in
    let opened = add_members cid members (insert_thread t w) in
    emit
      (conversation_created (thread_row t cid w.clock) (some creator) (participant_ids opened cid))
      opened

abbrev pub direct_thread : Text → Text → Text → Text → NewThread
direct_thread scope key subject_type subject_key = record {
  kind = direct;
  scope_key = scope;
  direct_key = key;
  subject_type = subject_type;
  subject_key = subject_key;
  support_status = none;
}

-- The creating transaction: `chat_conv_uniq_direct` refuses a second thread with the key, and
-- `chat_participant_uniq` a person in it twice.
unfoldable pub create_row : NewThread → ℕ → ℕ → Exec Conversation
unfolding open_thread text_eq
create_row t owner other w =
    if is_some (find_direct t.direct_key w) || owner == other
    then (err integrity_error, w)
    else (ok (thread_row t w.next_id w.clock), open_thread t owner (owner ∷ other ∷ []) w)

-- `except IntegrityError`: the winner of the race, or the error itself
unfoldable pub winner_or_raise : Text → Result Conversation × World → Result Conversation × World
unfolding find_direct
winner_or_raise key (ok c, w) = (ok c, w)
winner_or_raise key (err e, w) = elim (find_direct key w) [
  | some winner ↦ (ok winner, w)
  | none ↦ (err e, w)
]

-- The create branch; `between` is what other requests do after the lookup found nothing.
unfoldable pub create_new_direct : Host → (World → World) → NewThread → ℕ → ℕ → Exec Conversation
create_new_direct host between t owner other = do
  refuse_pairs host ((owner, other) ∷ [])
  modify between
  λ w. winner_or_raise t.direct_key (create_row t owner other w)

abbrev pub found_or_new : Option Conversation → Exec Conversation → Exec Conversation
found_or_new (some c) m = pure c
found_or_new none m = m

unfoldable pub create_direct :
    Host → (World → World) → ℕ → ℕ → Text → Text → Text → Exec Conversation
create_direct host between owner other scope raw_type raw_key = do
  let subject_type = strip raw_type
  let subject_key = strip raw_key
  let key = direct_key_of host.spell scope owner other subject_type subject_key
  lift (check_subject host subject_type subject_key)
  existing ← gets (find_direct key)
  found_or_new existing (
      create_new_direct host between (direct_thread scope key subject_type subject_key) owner other)

-- `_add_members`: the owner first, then the others without repeats
unfoldable pub distinct_members : List ℕ → List ℕ → List ℕ
distinct_members seen [] = []
distinct_members seen (u ∷ users) =
    let rest = distinct_members (u ∷ seen) users in
    if any (λ (k : ℕ). k == u) seen then rest else u ∷ rest

abbrev pub group_thread : Text → Text → Text → NewThread
group_thread scope subject_type subject_key = record {
  kind = group;
  scope_key = scope;
  direct_key = [];
  subject_type = subject_type;
  subject_key = subject_key;
  support_status = none;
}

abbrev pub support_thread : Text → NewThread
support_thread scope = record {
  kind = support;
  scope_key = scope;
  direct_key = [];
  subject_type = [];
  subject_key = [];
  support_status = some status_open;
}

abbrev pub open_new : NewThread → ℕ → List ℕ → Exec Conversation
open_new t creator members w =
    (ok (thread_row t w.next_id w.clock), open_thread t creator members w)

unfoldable pub create_group : Host → ℕ → List ℕ → Text → Text → Text → Exec Conversation
unfolding strip check_subject open_thread distinct_members
create_group host owner users scope raw_type raw_key =
    lift (check_subject host (strip raw_type) (strip raw_key))
    >> open_new (group_thread scope (strip raw_type) (strip raw_key)) owner
        (owner ∷ distinct_members (owner ∷ []) users)

unfoldable pub create_support : ℕ → Text → Exec Conversation
unfolding open_thread
create_support customer scope = open_new (support_thread scope) customer (customer ∷ [])
