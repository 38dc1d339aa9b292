-- ===== src/Journal.antt =====
-- The journal of revisions, as models.py and services.py promise it: a conversation hands out one
-- sequence, which places a message when it is created and each revision of it afterwards. The
-- writes of the services are steps of a relation on the state; `floor` is what each conversation
-- had handed out when the run began.
pub mod Steps
pub mod Marks
pub mod Sends
pub mod Rules
pub mod Revisions
pub mod OwnRow
pub mod Attempts
pub mod Standing
pub mod Retry
pub mod Sending
pub mod Erasure
pub mod Tombstones
pub mod Creating
pub mod Lifecycle
pub mod Desk
pub mod Line
use stapel_chat.Base.{
  All, List, Pairwise, [], if◌then◌else◌, update_where, ℕ, ◌++◌, ◌<◌, ◌==◌, ◌∷◌, ◌≡◌, ◌≢◌, ◌≤◌,
}
use stapel_chat.Model.{Conversation, Message}
use stapel_chat.World.{World}

-- `Conversation.last_seq`, and 0 where there is no row
unfoldable pub last_seq_of : List Conversation → ℕ → ℕ
last_seq_of [] cid = 0
last_seq_of (c ∷ cs) cid = if c.id == cid then c.last_seq else last_seq_of cs cid

abbrev pub IdApart : Message → Message → Type 0
IdApart m n = m.id ≢ n.id

-- `chat_message_uniq_seq`
abbrev pub SeqApart : Message → Message → Type 0
SeqApart m n = m.conversation ≡ n.conversation → m.seq ≢ n.seq

abbrev pub RevApart : Message → Message → Type 0
RevApart m n = m.conversation ≡ n.conversation → m.rev_seq ≢ n.rev_seq

-- A row lies within what its conversation has handed out.
pub record IsPlaced (cs : List Conversation) (next_id : ℕ) (m : Message) : Type 0 where
  pub positive : 0 < m.seq
  pub seq_le_rev : m.seq ≤ m.rev_seq
  pub rev_le_last : m.rev_seq ≤ last_seq_of cs m.conversation
  pub id_used : m.id < next_id

pub record IsJournal (w : World) : Type 0 where
  pub placed : All (IsPlaced w.conversations w.next_id) w.messages
  pub ids : Pairwise IdApart w.messages
  pub seqs : Pairwise SeqApart w.messages
  pub revs : Pairwise RevApart w.messages

-- Nothing that was handed out is taken back.
pub record Grows (w w' : World) : Type 0 where
  pub next_grows : w.next_id ≤ w'.next_id
  pub last_grows : (cid : ℕ) → last_seq_of w.conversations cid ≤ last_seq_of w'.conversations cid

-- The rows of a conversation stand below a sequence.
abbrev pub Below : ℕ → ℕ → List Message → Type 0
Below cid r = All (λ m. m.conversation ≡ cid → m.rev_seq < r)

-- The message's columns other than its content.
pub record KeepsPlace (change : Message → Message) (r : ℕ) : Type 0 where
  pub keeps_id : (m : Message) → (change m).id ≡ m.id
  pub keeps_conversation : (m : Message) → (change m).conversation ≡ m.conversation
  pub keeps_seq : (m : Message) → (change m).seq ≡ m.seq
  pub takes_rev : (m : Message) → (change m).rev_seq ≡ r

pub data Step (floor : ℕ → ℕ) (w : World) : World → Type 0 where
  -- the message rows stay as they are
  reserved : {w' : World} → w'.messages ≡ w.messages → Grows w w' → Step floor w w'
  -- a row is created at the end of its conversation
  appended :
      {w' : World} (m : Message)
      → w'.messages ≡ w.messages ++ m ∷ []
      → Grows w w'
      → (w.next_id ≤ m.id) × (m.id < w'.next_id)
      → (0 < m.seq)
        × (m.seq ≡ m.rev_seq)
        × (m.rev_seq ≤ last_seq_of w'.conversations m.conversation)
        × (floor m.conversation < m.rev_seq)
      → Below m.conversation m.rev_seq w.messages
      → Step floor w w'
  -- the row `k` of the conversation `cid` is changed and takes a fresh place in the journal
  revised :
      {w' : World} (k cid r : ℕ) (change : Message → Message)
      → w'.messages ≡ update_where (λ (m : Message). m.id == k) change w.messages
      → Grows w w'
      → KeepsPlace change r
      → All (λ m. m.id ≡ k → m.conversation ≡ cid) w.messages
      → Below cid r w.messages
      → (floor cid < r) × (r ≤ last_seq_of w'.conversations cid)
      → Step floor w w'

pub data Run (floor : ℕ → ℕ) (w : World) : World → Type 0 where
  done : Run floor w w
  next : {u v : World} → Run floor w u → Step floor u v → Run floor w v

-- A run from the floor that a state has of its own.
abbrev pub RunFrom : World → World → Type 0
RunFrom w = Run (last_seq_of w.conversations) w
