-- ===== src/Journal/Marks.antt =====
-- What an allocation and the callbacks do to the sequences and to the message rows.
use stapel_chat.Base.{
  ==_iff, All, Bool-cases, List, Option, Text, [], arith, false≢true, find?, inl, inr, none, refl,
  some, subst, sym, update_where, ℕ, ◌<◌, ◌==◌, ◌∙◌, ◌∷◌, ◌≡◌, ◌≢◌, ◌≤◌,
}
use stapel_chat.Journal.{Below, Grows, IsPlaced, Run, done, last_seq_of, next, reserved}
use stapel_chat.Model.{Conversation, Message}
use stapel_chat.Sending.{
  get_conversation, resurface_participants, schedule_fanout, schedule_ref_sync, store_last_seq,
  with_last_seq,
}
use stapel_chat.World.{Event, World, emit}

-- What an allocation does to the sequences.
pub last_seq_of-get :
    (cid : ℕ) (cs : List Conversation) (c : Conversation)
    → find? (λ (d : Conversation). d.id == cid) cs ≡ some c
    → last_seq_of cs cid ≡ c.last_seq
unfolding last_seq_of
last_seq_of-get cid [] c e = cc
last_seq_of-get cid (d ∷ cs) c e = ground (arith, last_seq_of-get cid cs c)

pub last_seq_of-store_self :
    (cid seq now : ℕ) (cs : List Conversation) (c : Conversation)
    → find? (λ (d : Conversation). d.id == cid) cs ≡ some c
    → last_seq_of (update_where (λ (d : Conversation). d.id == cid) (with_last_seq seq now) cs) cid
      ≡ seq
unfolding last_seq_of
last_seq_of-store_self cid seq now [] c e = cc
last_seq_of-store_self cid seq now (d ∷ cs) c e =
    ground (arith, last_seq_of-store_self cid seq now cs c)

pub last_seq_of-store_ne :
    (cid other seq now : ℕ) (cs : List Conversation)
    → other ≢ cid
    → last_seq_of
        (update_where (λ (d : Conversation). d.id == cid) (with_last_seq seq now) cs)
        other
      ≡ last_seq_of cs other
unfolding last_seq_of
last_seq_of-store_ne cid other seq now [] h = refl
last_seq_of-store_ne cid other seq now (d ∷ cs) h =
    ground (arith, last_seq_of-store_ne cid other seq now cs h)

pub store_last_seq-Grows :
    (cid seq : ℕ) (w : World) (c : Conversation)
    → get_conversation cid w ≡ some c
    → c.last_seq ≤ seq
    → Grows w (store_last_seq cid seq w)
unfolding get_conversation store_last_seq
store_last_seq-Grows cid seq w c e le = record {
  next_grows = omega arith;
  last_grows = λ other. elim (Bool-cases (other == cid)) [
    | inl t ↦
        let same : other ≡ cid = (==_iff other cid).0 t in
        rw same (
          omega (
            arith,
            last_seq_of-get cid w.conversations c e,
            last_seq_of-store_self cid seq w.clock w.conversations c e,
          ))
    | inr t ↦ omega (
      arith,
      last_seq_of-store_ne cid other seq w.clock w.conversations
          (λ e. false≢true (sym t ∙ (==_iff other cid).1 e)),
    )
  ];
}

-- In a well-formed journal every row stands below the next sequence.
pub Below-next :
    (cid r : ℕ) (cs : List Conversation) (n : ℕ) (ms : List Message)
    → last_seq_of cs cid < r
    → All (IsPlaced cs n) ms
    → Below cid r ms
Below-next cid r cs n [] lt h = tt
Below-next cid r cs n (m ∷ ms) lt h = (
  (λ e.
      let top : m.rev_seq ≤ last_seq_of cs cid =
        subst (λ k. m.rev_seq ≤ last_seq_of cs k) e h.0.rev_le_last in
      omega arith),
  Below-next cid r cs n ms lt h.1,
)

-- The fields that the callbacks and the resurfacing leave alone.
pub record SameRows (w w' : World) : Type 0 where
  pub same_conversations : w'.conversations ≡ w.conversations
  pub same_messages : w'.messages ≡ w.messages
  pub same_next : w'.next_id ≡ w.next_id

pub SameRows-refl : (w : World) → SameRows w w
SameRows-refl w = record { same_conversations = refl; same_messages = refl; same_next = refl }

pub SameRows-trans : {u v w : World} → SameRows u v → SameRows v w → SameRows u w
SameRows-trans a b = record {
  same_conversations = b.same_conversations ∙ a.same_conversations;
  same_messages = b.same_messages ∙ a.same_messages;
  same_next = b.same_next ∙ a.same_next;
}

pub SameRows-Grows : {w w' : World} → SameRows w w' → Grows w w'
SameRows-Grows s = record {
  next_grows = omega (arith, s.same_next);
  last_grows = λ cid. rw s.same_conversations (omega arith);
}

-- A service that leaves those fields alone is a run of its own.
pub SameRows-RunFrom : {floor : ℕ → ℕ} {w w' : World} → SameRows w w' → Run floor w w'
SameRows-RunFrom s = next done (reserved s.same_messages (SameRows-Grows s))

pub schedule_ref_sync-SameRows :
    (k : ℕ) (old new : List Text) (w : World) → SameRows w (schedule_ref_sync k old new w)
unfolding schedule_ref_sync
schedule_ref_sync-SameRows k old new w = ground arith

pub schedule_fanout-SameRows :
    (m : Message) (conv : Conversation) (w : World) → SameRows w (schedule_fanout m conv w)
unfolding schedule_fanout
schedule_fanout-SameRows m conv w = record {
  same_conversations = refl;
  same_messages = refl;
  same_next = refl;
}

pub emit-SameRows : (e : Event) (w : World) → SameRows w (emit e w)
emit-SameRows e w = record { same_conversations = refl; same_messages = refl; same_next = refl }

pub resurface-SameRows :
    (cid : ℕ) (sender : Option ℕ) (w : World) → SameRows w (resurface_participants cid sender w)
unfolding resurface_participants
resurface-SameRows cid none w = SameRows-refl w
resurface-SameRows cid (some s) w = record {
  same_conversations = refl;
  same_messages = refl;
  same_next = refl;
}
