-- ===== src/Witnesses/Members.antt =====
-- The theorems on lists, markers, clearing, the support desk, presence and the last line, applied to
-- the sample chat.
use stapel_chat.Attachments.Describe.{prepare_attachments}
use stapel_chat.Base.{
  All, Bool, Pairwise, [], arith, codes, false, is_some, none, refl, some, strip, true, ◌&&◌, ◌<◌,
  ◌||◌, ◌∷◌, ◌≡◌,
}
use stapel_chat.History.{cleared_at_of, is_visible, journal_rows}
use stapel_chat.Inbox.{drawn_last_line, last_line_reason}
use stapel_chat.Inbox.Agreement.{reason-iff_undrawn}
use stapel_chat.Journal.Sends.{row_of}
use stapel_chat.Membership.{
  announce_departure, any_row, clear_conversation, is_member, leave_conversation, mark_read,
  on_inbox, on_left_list, unread_count, viewer_unread,
}
use stapel_chat.Membership.Clearing.{clear_conversation_hides}
use stapel_chat.Membership.Leaving.{leave_conversation_once}
use stapel_chat.Membership.Lists.{OneRow, inbox-left_partition, post_once_lists}
use stapel_chat.Membership.Markers.{Forward, mark_read-Forward, viewer_unread-eq}
use stapel_chat.Model.{Conversation, Message, text_kind}
use stapel_chat.Samples.{chat, direct_row, hello, sample_host, seat, support_row}
use stapel_chat.Sending.{Draft, allocate_seq, post_body, post_once, violates_unique}
use stapel_chat.Sending.Post.{
  find_twin, normal_client_id, post_attempts, post_message, post_new, refuse_if_blocked,
}
use stapel_chat.Support.{assign_locked}
use stapel_chat.World.{World, ok}

one_row : Pairwise OneRow chat.participants
one_row = (
  ((λ c u. omega arith), ((λ c u. omega (arith, c)), tt)),
  (((λ c u. omega (arith, c)), tt), (tt, tt)),
)

inbox-left_partition_example :
    (any_row (is_member 1 2) chat ≡ (on_inbox chat 2 1 || on_left_list chat 2 1))
    × ((on_inbox chat 2 1 && on_left_list chat 2 1) ≡ false)
inbox-left_partition_example = inbox-left_partition chat 2 1 one_row

-- The first user writes into the thread that the second one has left.
abbrev reply_draft : Draft
reply_draft = record {
  conversation = 1;
  sender = some 1;
  body = codes "again";
  attachments = [];
  reply_to = none;
  kind = text_kind;
  client_msg_id = [];
}

abbrev replied : World
replied = (post_once reply_draft chat).1

one_replied : post_once reply_draft chat ≡ (ok (row_of reply_draft direct_row chat), replied)
unfolding post_once allocate_seq post_body violates_unique
one_replied = refl

post_once_lists_example :
    (on_inbox replied 2 1 ≡ any_row (is_member 1 2) chat) × (on_left_list replied 2 1 ≡ false)
post_once_lists_example =
    post_once_lists reply_draft chat replied (row_of reply_draft direct_row chat) 2 one_replied

mark_read-Forward_example : Forward chat.participants (mark_read 1 2 1 chat).1.participants
mark_read-Forward_example = mark_read-Forward 1 2 1 chat

viewer_unread-eq_example : viewer_unread chat 1 1 ≡ unread_count chat (seat 4 1 1)
viewer_unread-eq_example = viewer_unread-eq chat 1 1 (seat 4 1 1) refl (omega arith, tt)

abbrev assigned_world : World
assigned_world = (assign_locked 3 7 chat).1

abbrev assigned_answer : Conversation × Bool
assigned_answer = (record support_row { assigned_operator = some 7; updated_at = 1000 }, false)

reason-iff_undrawn_example :
    ((is_some (drawn_last_line sample_host text_kind [] false)
        && is_some (last_line_reason sample_host text_kind [] false true))
      ≡ false)
    × ((is_some (drawn_last_line sample_host text_kind [] false)
          || is_some (last_line_reason sample_host text_kind [] false true))
        ≡ true)
unfolding strip
reason-iff_undrawn_example = reason-iff_undrawn sample_host text_kind [] false true

-- The user 2 clears the history before a message of a later instant.
abbrev late : Message
late = record hello { id = 11; seq = 2; rev_seq = 2; created_at = 1001 }

abbrev cleared : World
cleared = (clear_conversation 1 2 chat).1

two_cleared : clear_conversation 1 2 chat ≡ (ok (some 1000), cleared)
unfolding clear_conversation
two_cleared = refl

-- A second later the first user has written again.
abbrev written_on : World
written_on = record cleared { messages = hello ∷ late ∷ []; clock = 1001 }

mark_stands : cleared_at_of written_on 1 2 ≡ cleared_at_of cleared 1 2
unfolding cleared_at_of clear_conversation
mark_stands = refl

clear_conversation_hides_example :
    (cleared_at_of cleared 1 2 ≡ some 1000)
    × (1000 ≡ chat.clock)
    × All
        (λ (m : Message). 1000 < m.created_at)
        (journal_rows written_on 1 0 50 (cleared_at_of written_on 1 2))
clear_conversation_hides_example =
    clear_conversation_hides 1 2 0 50 chat cleared written_on 1000 two_cleared mark_stands

late_served : journal_rows written_on 1 0 50 (some 1000) ≡ late ∷ []
unfolding journal_rows is_visible
late_served = refl

-- The user 1 leaves the direct thread.
abbrev departed : World
departed = (leave_conversation sample_host direct_row 1 chat).1

one_departed : leave_conversation sample_host direct_row 1 chat ≡ (ok true, departed)
unfolding leave_conversation announce_departure post_message refuse_if_blocked find_twin
    normal_client_id post_new prepare_attachments post_attempts post_once allocate_seq post_body
    violates_unique
one_departed = refl

leave_conversation_once_example :
    (on_inbox departed 1 1 ≡ false)
    × (on_left_list departed 1 1 ≡ true)
    × (leave_conversation sample_host direct_row 1 departed ≡ (ok false, departed))
leave_conversation_once_example =
    leave_conversation_once sample_host direct_row 1 chat departed one_departed
