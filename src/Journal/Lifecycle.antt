-- ===== src/Journal/Lifecycle.antt =====
-- Leaving, rejoining and clearing a thread, its markers and its activities, as runs of the journal.
use stapel_chat.Activity.{announce_activity, resolve_activity}
use stapel_chat.Base.{Bool, Bool-cases, Text, [], any, codes, inl, inr, none, refl, some, true, ℕ}
use stapel_chat.Journal.{RunFrom, done}
use stapel_chat.Journal.Marks.{SameRows, SameRows-RunFrom, SameRows-refl}
use stapel_chat.Journal.Rules.{
  Journals, Journals-bind, Journals-pure, Journals-same, RunFrom-trans, atomic-run, lift-run,
}
use stapel_chat.Journal.Sending.{post_message-Journals, undisturbed-Interferes}
use stapel_chat.Journal.Steps.{Run-IsJournal}
use stapel_chat.Membership.{
  announce_departure, clear_conversation, has_left, is_here, is_member, leave_conversation,
  left_line, mark_delivered, mark_read, rejoin_conversation, store_participants, undelivered_before,
  unread_before, with_left,
}
use stapel_chat.Model.{Conversation, Participant, system_kind}
use stapel_chat.Sending.Post.{post_message, undisturbed}
use stapel_chat.Settings.{Host}
use stapel_chat.World.{
  Effect, World, broadcast_activity, modify, on_commit, pure, revoke_participant, ◌>>◌,
}

stored-SameRows :
    (test : Participant → Bool) (change : Participant → Participant) (w : World)
    → SameRows w (store_participants test change w)
stored-SameRows test change w = record {
  same_conversations = refl;
  same_messages = refl;
  same_next = refl;
}

on_commit-SameRows : (e : Effect) (w : World) → SameRows w (on_commit e w)
on_commit-SameRows e w = record {
  same_conversations = refl;
  same_messages = refl;
  same_next = refl;
}

-- A system line, after which a service answers.
pub system_line-Journals :
    (host : Host) (c : Conversation) (line : Text)
    → Journals (post_message host undisturbed c none line [] none system_kind [])
system_line-Journals host c line =
    post_message-Journals undisturbed undisturbed-Interferes host c none line [] none system_kind []

announce_departure-Journals :
    (host : Host) (c : Conversation) (user : ℕ) → Journals (announce_departure host c user)
unfolding announce_departure
announce_departure-Journals host c user =
    let gone = modify (on_commit (revoke_participant c.id user (codes "left_conversation"))) in
    Journals-bind
      (post_message host undisturbed c none (left_line host user) [] none system_kind [])
      (λ m. gone >> pure true) (system_line-Journals host c (left_line host user))
      (λ m.
        Journals-bind gone (λ u. pure true) (Journals-same gone (on_commit-SameRows _))
          (λ u. Journals-pure true))

pub leave_conversation-Journals :
    (host : Host) (c : Conversation) (user : ℕ) → Journals (leave_conversation host c user)
unfolding leave_conversation
leave_conversation-Journals host c user = record {
  at = λ w j.
      let leaving = with_left (some w.clock) in
      let marked = store_participants (is_here c.id user) leaving w in
      let same = SameRows-RunFrom (stored-SameRows (is_here c.id user) leaving w) in
      let rest = (announce_departure-Journals host c user).at marked (Run-IsJournal same j) in
      elim (Bool-cases (any (is_here c.id user) w.participants)) [
        | inl t ↦
            rw t (atomic-run w (announce_departure host c user marked) (RunFrom-trans same rest))
        | inr t ↦ rw t done
      ];
}

pub rejoin_conversation-Journals : (cid user : ℕ) → Journals (rejoin_conversation cid user)
unfolding rejoin_conversation
rejoin_conversation-Journals cid user =
    Journals-same (rejoin_conversation cid user)
      (λ w. stored-SameRows (has_left cid user) (with_left none) w)

pub clear_conversation-Journals : (cid user : ℕ) → Journals (clear_conversation cid user)
unfolding clear_conversation
clear_conversation-Journals cid user = Journals-same (clear_conversation cid user) (λ w.
    elim (Bool-cases (any (is_member cid user) w.participants)) [
      | inl t ↦ rw t (record { same_conversations = refl; same_messages = refl; same_next = refl })
      | inr t ↦ rw t (SameRows-refl w)
    ])

pub mark_read-SameRows : (cid user upto : ℕ) (w : World) → SameRows w (mark_read cid user upto w).1
unfolding mark_read
mark_read-SameRows cid user upto w =
    elim (Bool-cases (any (unread_before cid user upto) w.participants)) [
      | inl t ↦ rw t (record { same_conversations = refl; same_messages = refl; same_next = refl })
      | inr t ↦ rw t (SameRows-refl w)
    ]

pub mark_delivered-SameRows :
    (cid user upto : ℕ) (w : World) → SameRows w (mark_delivered cid user upto w).1
unfolding mark_delivered
mark_delivered-SameRows cid user upto w =
    elim (Bool-cases (any (undelivered_before cid user upto) w.participants)) [
      | inl t ↦ rw t (record { same_conversations = refl; same_messages = refl; same_next = refl })
      | inr t ↦ rw t (SameRows-refl w)
    ]

pub announce_activity-run :
    (host : Host) (cid user : ℕ) (state : Text) (w : World)
    → RunFrom w (announce_activity host cid user state w).1
unfolding announce_activity
announce_activity-run host cid user state w =
    lift-run (resolve_activity host state)
      (λ ttl. modify (on_commit (broadcast_activity cid user state ttl))) w
      (λ ttl e.
        SameRows-RunFrom {w' = on_commit (broadcast_activity cid user state ttl) w}
          (record { same_conversations = refl; same_messages = refl; same_next = refl }))
