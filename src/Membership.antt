-- ===== src/Membership.antt =====
-- services.py: leaving, rejoining, clearing and the two markers of a participant, with the lists
-- they decide and the unread count.
pub mod Clearing
pub mod Leaving
pub mod Lists
pub mod Markers
use stapel_chat.Base.{
  Bool, List, Option, Text, [], any, codes, false, filter, find?, if◌then◌else◌, is_some, length,
  ltb, none, not, some, true, update_where, ℕ, ◌&&◌, ◌++◌, ◌==◌, ◌∷◌,
}
use stapel_chat.History.{is_visible}
use stapel_chat.Model.{Conversation, Message, Participant, is_deleted, system_kind}
use stapel_chat.Sending.Post.{post_message, undisturbed}
use stapel_chat.Settings.{Host}
use stapel_chat.World.{
  Exec, World, atomic, broadcast_cleared, broadcast_delivered, broadcast_read, modify, ok,
  on_commit, pure, revoke_participant, ◌>>◌,
}

abbrev pub is_member : ℕ → ℕ → Participant → Bool
is_member cid user p = p.conversation == cid && p.user == user

-- The number of rows an `update` writes is not zero.
abbrev pub any_row : (Participant → Bool) → World → Bool
any_row test w = any test w.participants

abbrev pub store_participants : (Participant → Bool) → (Participant → Participant) → World → World
store_participants test change w = record w {
  participants = update_where test change w.participants;
}

abbrev pub is_here : ℕ → ℕ → Participant → Bool
is_here cid user p = is_member cid user p && not (is_some p.left_at)

abbrev pub has_left : ℕ → ℕ → Participant → Bool
has_left cid user p = is_member cid user p && is_some p.left_at

abbrev pub with_left : Option ℕ → Participant → Participant
with_left at p = record p { left_at = at }

-- `f"{SYSTEM_MARKER_LEFT}:{user.pk}"`
unfoldable pub left_line : Host → ℕ → Text
left_line host user = codes "chat.participant.left" ++ b':' ∷ host.spell user

-- The body of the transaction of `leave_conversation`, once the row is marked.
unfoldable pub announce_departure : Host → Conversation → ℕ → Exec Bool
announce_departure host conv user = do
  post_message host undisturbed conv none (left_line host user) [] none system_kind []
  modify (on_commit (revoke_participant conv.id user (codes "left_conversation")))
  pure true

unfoldable pub leave_conversation : Host → Conversation → ℕ → Exec Bool
leave_conversation host conv user w =
    if any_row (is_here conv.id user) w
    then atomic
        (λ u.
          announce_departure host conv user
            (store_participants (is_here conv.id user) (with_left (some u.clock)) u))
        w
    else (ok false, w)

unfoldable pub rejoin_conversation : ℕ → ℕ → Exec Bool
rejoin_conversation cid user w =
    (ok (any_row (has_left cid user) w), store_participants (has_left cid user) (with_left none) w)

-- `inbox_of`: a party to the thread who has not left it
unfoldable pub on_inbox : World → ℕ → ℕ → Bool
on_inbox w user cid = any_row (is_here cid user) w

unfoldable pub inbox_of : World → ℕ → List Conversation
unfolding on_inbox
inbox_of w user = filter (λ (c : Conversation). on_inbox w user c.id) w.conversations

-- `left_of`, whose order is by the stamp
unfoldable pub on_left_list : World → ℕ → ℕ → Bool
on_left_list w user cid = any_row (has_left cid user) w

unfoldable pub left_of : World → ℕ → List Conversation
unfolding on_left_list
left_of w user = filter (λ (c : Conversation). on_left_list w user c.id) w.conversations

-- `clear_conversation`: the mark it wrote, or nothing for a caller who is no participant
unfoldable pub clear_conversation : ℕ → ℕ → Exec (Option ℕ)
clear_conversation cid user w =
    if any_row (is_member cid user) w
    then (
      ok (some w.clock),
      on_commit (broadcast_cleared cid user w.clock)
          (store_participants (is_member cid user) (λ p. record p { cleared_at = some w.clock }) w),
    )
    else (ok none, w)

abbrev pub unread_before : ℕ → ℕ → ℕ → Participant → Bool
unread_before cid user upto p = is_member cid user p && ltb p.last_read_seq upto

abbrev pub undelivered_before : ℕ → ℕ → ℕ → Participant → Bool
undelivered_before cid user upto p = is_member cid user p && ltb p.last_delivered_seq upto

unfoldable pub mark_read : ℕ → ℕ → ℕ → Exec Bool
mark_read cid user upto w =
    if any_row (unread_before cid user upto) w
    then (
      ok true,
      on_commit (broadcast_read cid user upto) (
          store_participants (unread_before cid user upto) (λ p. record p { last_read_seq = upto })
            w),
    )
    else (ok false, w)

unfoldable pub mark_delivered : ℕ → ℕ → ℕ → Exec Bool
mark_delivered cid user upto w =
    if any_row (undelivered_before cid user upto) w
    then (
      ok true,
      on_commit (broadcast_delivered cid user upto) (
          store_participants (undelivered_before cid user upto)
            (λ p. record p { last_delivered_seq = upto }) w),
    )
    else (ok false, w)

-- A message that raises the badge of a reader: `seq__gt`, the cleared floor, an author who is
-- somebody else, and no tombstone.
abbrev pub is_someone_else : Option ℕ → ℕ → Bool
is_someone_else none user = false
is_someone_else (some author) user = not (author == user)

abbrev pub is_unread : ℕ → ℕ → Option ℕ → ℕ → Message → Bool
is_unread cid read mark user m =
    m.conversation == cid
    && (ltb read m.seq
        && (is_visible mark m && (is_someone_else m.sender user && not (is_deleted m))))

-- `unread_count`
unfoldable pub unread_count : World → Participant → ℕ
unfolding is_visible
unread_count w p =
    length (filter (is_unread p.conversation p.last_read_seq p.cleared_at p.user) w.messages)

-- `_history_floor`: the instant that stands for "never cleared" in the page's annotation
abbrev pub history_floor : ℕ
history_floor = 0

-- `with_viewer_cleared_at` and the marker of `with_viewer_unread`: `Coalesce` of the viewer's row
unfoldable pub viewer_cleared_at : World → ℕ → ℕ → ℕ
viewer_cleared_at w cid viewer = elim (find? (is_member cid viewer) w.participants) [
  | none ↦ history_floor
  | some p ↦ elim p.cleared_at [ none ↦ history_floor | some mark ↦ mark ]
]

unfoldable pub viewer_last_read_seq : World → ℕ → ℕ → ℕ
viewer_last_read_seq w cid viewer = elim (find? (is_member cid viewer) w.participants) [
  | none ↦ 0
  | some p ↦ p.last_read_seq
]

-- `_unread_rows`, counted by `with_viewer_unread`: the floor is a value here, never null
unfoldable pub viewer_unread : World → ℕ → ℕ → ℕ
viewer_unread w cid viewer = length (
    filter
      (λ (m : Message).
        m.conversation == cid
        && (ltb (viewer_last_read_seq w cid viewer) m.seq
            && (ltb (viewer_cleared_at w cid viewer) m.created_at
                && (is_someone_else m.sender viewer && not (is_deleted m)))))
      w.messages)
