-- ===== src/Witnesses/Journal.antt =====
-- The theorems on the journal, the sends, the edits and the replay, applied to the sample chat.
use stapel_chat.Attachments.Describe.{prepare_attachments}
use stapel_chat.Base.{
  In, List, [], arith, codes, false, if◌then◌else◌, inl, inr, is_id, length, none, refl, some,
  strip, true, ℕ, ◌<◌, ◌==◌, ◌∷◌, ◌≡◌, ◌≤◌, ◌⊎◌,
}
use stapel_chat.Blocks.{any_hit, blocked_pairs, is_hit}
use stapel_chat.Blocks.Admission.{post_message_unblocked}
use stapel_chat.History.{Cache, catch_up, is_visible, journal_rows, next_cursor}
use stapel_chat.History.Catchup.{IsCurrent}
use stapel_chat.History.Resume.{page_advances, resume-is_complete}
use stapel_chat.Journal.{IsJournal, IsPlaced, RunFrom, last_seq_of}
use stapel_chat.Journal.Attempts.{Answers, post_attempts_returns}
use stapel_chat.Journal.Erasure.{erase_user_messages-RunFrom}
use stapel_chat.Journal.OwnRow.{OwnRow, delete_message_revises, edit_message_revises}
use stapel_chat.Journal.Retry.{post_message-retry}
use stapel_chat.Journal.Revisions.{delete_message-RunFrom, edit_message-refused}
use stapel_chat.Journal.Sending.{Interferes, post_message-RunFrom}
use stapel_chat.Journal.Tombstones.{delete_message_blanks}
use stapel_chat.Model.{Message, is_deleted, text_kind}
use stapel_chat.Realtime.{message_payload}
use stapel_chat.Samples.{chat, direct_row, hello, sample_host}
use stapel_chat.Sending.{
  Draft, allocate_seq, get_conversation, message_refs, participant_ids, post_body, post_once,
  schedule_fanout, schedule_ref_sync, violates_unique,
}
use stapel_chat.Sending.Changes.{
  delete_body, delete_message, edit_message, edited_row, erase_user_messages, store_message,
  tombstone_row,
}
use stapel_chat.Sending.Post.{
  draft_of, find_twin, normal_client_id, post_attempts, post_message, post_new, refuse_if_blocked,
  refuse_pairs, send_pairs, undisturbed,
}
use stapel_chat.World.{Error, Result, World, err, not_author, ok}

chat-IsPlaced : IsPlaced chat.conversations chat.next_id hello
unfolding last_seq_of
chat-IsPlaced = record {
  positive = omega arith;
  seq_le_rev = omega arith;
  rev_le_last = omega arith;
  id_used = omega arith;
}

pub chat-IsJournal : IsJournal chat
chat-IsJournal = record {
  placed = (chat-IsPlaced, tt);
  ids = (tt, tt);
  seqs = (tt, tt);
  revs = (tt, tt);
}

delete_message_revises_example :
    RunFrom chat (delete_message hello 1 chat).1
    × (((r : Result Message) × (delete_message hello 1 chat ≡ (r, chat)))
        ⊎ ((is_id (some 1) 1 ≡ true)
            × (is_deleted hello ≡ false)
            × OwnRow hello (tombstone_row 1000) chat (delete_message hello 1 chat).1))
delete_message_revises_example =
    delete_message_revises hello 1 chat chat-IsJournal ((λ e. refl), tt)

edit_message_revises_example :
    RunFrom chat (edit_message sample_host hello 1 (codes "bye") chat).1
    × (((e : Error) × (edit_message sample_host hello 1 (codes "bye") chat ≡ (err e, chat)))
        ⊎ OwnRow hello
            (edited_row (codes "bye") 1000)
            chat
            (edit_message sample_host hello 1 (codes "bye") chat).1)
edit_message_revises_example =
    edit_message_revises sample_host hello 1 (codes "bye") chat chat-IsJournal ((λ e. refl), tt)

edit_message-refused_example :
    edit_message sample_host hello 2 (codes "bye") chat ≡ (err not_author, chat)
edit_message-refused_example =
    edit_message-refused sample_host hello 2 (codes "bye") chat not_author refl

erase_user_messages-RunFrom_example : RunFrom chat (erase_user_messages 1 chat).1
erase_user_messages-RunFrom_example = erase_user_messages-RunFrom 1 chat chat-IsJournal

-- Between two attempts of the first user, the second one's request deletes nothing of theirs.
abbrev meddling : ℕ → World → World
meddling n w = (erase_user_messages 2 w).1

meddling-Interferes : Interferes meddling
meddling-Interferes n w j = erase_user_messages-RunFrom 2 w j

post_message-RunFrom_example :
    RunFrom chat
      (post_message sample_host meddling direct_row
        (some 1)
        (codes "again")
        []
        none
        text_kind
        (codes "k")
        chat).1
post_message-RunFrom_example =
    post_message-RunFrom meddling meddling-Interferes sample_host direct_row (some 1)
      (codes "again") [] none text_kind (codes "k") chat chat-IsJournal

abbrev draft : Draft
draft = draft_of direct_row (some 1) (codes "again") [] none text_kind (codes "k")

found_thread : get_conversation 1 chat ≡ some direct_row
unfolding get_conversation
found_thread = refl

post_attempts_returns_example :
    (m : Message) × (v : World) × (post_attempts undisturbed 8 draft chat ≡ (ok m, v))
    × Answers draft chat v m
post_attempts_returns_example =
    post_attempts_returns undisturbed 7 draft chat direct_row chat-IsJournal found_thread

-- The state after the first user has taken the message back.
abbrev after : World
after = (delete_message hello 1 chat).1

abbrev pub blanked : Message
blanked = tombstone_row 1000 2 hello

after_messages : after.messages ≡ blanked ∷ []
unfolding delete_message allocate_seq delete_body schedule_ref_sync message_refs schedule_fanout
    store_message
after_messages = refl

-- The client that has seen_cache the first message.
abbrev pub seen_cache : Cache
seen_cache k = if k == 10 then some (message_payload hello) else none

pub seen_cache-IsCurrent : IsCurrent seen_cache 1 1 none chat.messages
seen_cache-IsCurrent = ((λ e le v. refl), tt)

after_page : length (journal_rows after 1 1 50 none) < 50
unfolding journal_rows
after_page = rw after_messages (omega arith)

pub chat_last : 1 ≤ last_seq_of chat.conversations 1
unfolding last_seq_of
chat_last = omega arith

resume-is_complete_example :
    catch_up seen_cache (journal_rows after 1 1 50 none) 10 ≡ some (message_payload blanked)
unfolding is_visible
resume-is_complete_example =
    resume-is_complete chat after seen_cache 1 1 50 none blanked chat-IsJournal
      (delete_message-RunFrom hello 1 chat chat-IsJournal ((λ e. refl), tt)) chat_last
      seen_cache-IsCurrent after_page (rw after_messages (inl refl)) refl refl

-- A client with nothing asks for a page of one row.
abbrev empty_cache : Cache
empty_cache k = none

empty-IsCurrent : IsCurrent empty_cache 1 0 none chat.messages
empty-IsCurrent = ((λ e le v. absurd (omega arith)), tt)

first_page : 1 ≤ next_cursor 0 (journal_rows chat 1 0 1 none)
unfolding journal_rows next_cursor
first_page = omega arith

page_advances_example :
    catch_up empty_cache (journal_rows chat 1 0 1 none) 10 ≡ some (message_payload hello)
unfolding is_visible
page_advances_example =
    page_advances chat empty_cache 1 0 1 none hello chat-IsJournal empty-IsCurrent (inl refl) refl
      first_page refl

-- The row that the first user's second message becomes.
abbrev again : Message
again = record hello {
  id = 20;
  seq = 2;
  rev_seq = 2;
  body = codes "again";
  client_msg_id = codes "k";
  created_at = 1000;
}

abbrev sent : World
sent =
    (post_message sample_host undisturbed direct_row (some 1) (codes "again") [] none text_kind
      (codes "k") chat).1

stored_again :
    post_message sample_host undisturbed direct_row
      (some 1)
      (codes "again")
      []
      none
      text_kind
      (codes "k")
      chat
    ≡ (ok again, sent)
unfolding post_message refuse_if_blocked send_pairs refuse_pairs blocked_pairs post_new
    post_attempts post_once allocate_seq any_hit find_twin normal_client_id prepare_attachments
    post_body violates_unique
stored_again = refl

post_message-retry_example :
    post_message sample_host undisturbed direct_row
      (some 1)
      (codes "again")
      []
      none
      text_kind
      (codes "k")
      sent
    ≡ (ok again, sent)
unfolding normal_client_id strip
post_message-retry_example =
    post_message-retry sample_host direct_row (some 1) none (codes "k") (codes "again")
      (codes "again") [] [] text_kind text_kind chat sent direct_row again chat-IsJournal
      found_thread refl stored_again

hello_deleted : delete_message hello 1 chat ≡ (ok blanked, after)
unfolding delete_message allocate_seq delete_body
hello_deleted = refl

delete_message_blanks_example :
    (blanked.body ≡ []) × (blanked.attachments ≡ []) × (blanked.deleted_at ≡ some 1000)
delete_message_blanks_example =
    delete_message_blanks hello 1 chat after blanked blanked hello_deleted refl
      (rw after_messages (inl refl)) refl

-- The author edits with the object that was read before the deletion.
abbrev stale : World
stale = (edit_message sample_host hello 1 (codes "bye") after).1

abbrev stale_answer : Message
stale_answer = edited_row (codes "bye") 1000 3 hello

abbrev refilled : Message
refilled = edited_row (codes "bye") 1000 3 blanked

two_sits : In 2 (participant_ids chat 1)
unfolding participant_ids
two_sits = inr (inl refl)

post_message_unblocked_example :
    (hits : List (ℕ × ℕ)) × (blocked_pairs sample_host (send_pairs chat 1 1) ≡ ok hits)
    × (is_hit hits 1 2 ≡ false)
post_message_unblocked_example =
    post_message_unblocked sample_host undisturbed direct_row 1 2 (codes "again") [] none text_kind
      (codes "k") chat sent again refl two_sits (λ e. omega (arith, e)) stored_again
