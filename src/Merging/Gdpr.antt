-- ===== src/Merging/Gdpr.antt =====
-- gdpr.py: the erasure of an account, and `export`, what a person wrote and where they are a member.
-- The exported values are rendered as texts by the library.
use stapel_chat.Base.{
  List, Text, [], codes, filter, if◌then◌else◌, is_id, length, ltb, map, not, ℕ, ◌&&◌, ◌==◌, ◌∷◌,
}
use stapel_chat.Membership.{any_row, is_member}
use stapel_chat.Merging.{delete_conversation_row}
use stapel_chat.Model.{Conversation, Message, MessageKind, Participant, ParticipantRole, is_direct}
use stapel_chat.Sending.{participant_ids}
use stapel_chat.Sending.Changes.{distinct_ids, erase_user_messages}
use stapel_chat.World.{Exec, World, modify, on_commit, revoke_participant, ◌>>◌}

-- `ChatGDPRProvider.delete`: kick every socket, drop the memberships, delete the dead threads
unfoldable pub revoke_all : ℕ → List ℕ → World → World
revoke_all user [] w = w
revoke_all user (cid ∷ cids) w =
    revoke_all user cids (on_commit (revoke_participant cid user (codes "account_deleted")) w)

unfoldable pub delete_dead_threads : List Conversation → World → World
unfolding delete_conversation_row participant_ids
delete_dead_threads [] w = w
delete_dead_threads (c ∷ cs) w =
    delete_dead_threads cs
      (if ltb (length (participant_ids w c.id)) 2 then delete_conversation_row c.id w else w)

unfoldable pub drop_memberships : ℕ → World → World
drop_memberships user w = record w {
  participants = filter (λ (p : Participant). not (p.user == user)) w.participants;
}

abbrev pub threads_of : ℕ → World → List ℕ
threads_of user w =
    distinct_ids
      (map (λ p. p.conversation) (filter (λ (p : Participant). p.user == user) w.participants))

abbrev pub touched_direct : ℕ → World → World → List Conversation
touched_direct user before w =
    filter (λ (c : Conversation). is_direct c.kind && any_row (is_member c.id user) before)
      w.conversations

unfoldable pub gdpr_delete : ℕ → Exec Unit
unfolding revoke_all drop_memberships delete_dead_threads
gdpr_delete user before =
    (do
      erase_user_messages user
      modify (revoke_all user (threads_of user before))
      modify (drop_memberships user)
      modify (λ w. delete_dead_threads (touched_direct user before w) w))
      before

pub record ExportedMessage : Type 0 where
  pub id : ℕ
  pub conversation_id : ℕ
  pub seq : ℕ
  pub kind : MessageKind
  pub body : Text
  pub created_at : ℕ

pub record ExportedSeat : Type 0 where
  pub conversation_id : ℕ
  pub role : ParticipantRole
  pub last_read_seq : ℕ

pub record Export : Type 0 where
  pub messages : List ExportedMessage
  pub participations : List ExportedSeat

abbrev pub exported_message : Message → ExportedMessage
exported_message m = record {
  id = m.id;
  conversation_id = m.conversation;
  seq = m.seq;
  kind = m.kind;
  body = m.body;
  created_at = m.created_at;
}

-- `export`
unfoldable pub gdpr_export : ℕ → World → Export
gdpr_export user w = record {
  messages = map exported_message (filter (λ (m : Message). is_id m.sender user) w.messages);
  participations =
      map
        (λ (p : Participant). record {
          conversation_id = p.conversation;
          role = p.role;
          last_read_seq = p.last_read_seq;
        })
        (filter (λ (p : Participant). p.user == user) w.participants);
}
