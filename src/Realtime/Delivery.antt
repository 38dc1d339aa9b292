-- ===== src/Realtime/Delivery.antt =====
-- realtime.py, the delivery: the stream and the type under which each callback goes out. The layers
-- below them, and the failures they swallow, are code of the core.
use stapel_chat.Base.{Bool, List, Option, Text, [], flat_map, map, ℕ, ◌∷◌}
use stapel_chat.Model.{Conversation, ConversationKind}
use stapel_chat.World.{
  Effect, Payload, broadcast_activity, broadcast_cleared, broadcast_delivered, broadcast_message,
  broadcast_presence, broadcast_read, revoke_participant, sync_refs,
}

-- `stream_key(STREAM_MODULE, ...)` of `conversation_stream` and of `user_stream`, by what it spells
pub data Stream : Type 0 where
  conversation_stream user_stream : ℕ → Stream

-- The body of a signal: its keys in their order.
pub data Signal : Type 0 where
  signal_inbox : ℕ → ConversationKind → ℕ → Payload → Signal
  signal_read signal_delivered : ℕ → ℕ → ℕ → Signal
  signal_cleared : ℕ → ℕ → ℕ → Signal
  signal_activity : ℕ → ℕ → Text → ℕ → Signal
  signal_presence : ℕ → ℕ → Bool → Option ℕ → Option ℕ → Signal

-- `_deliver_frame`, `_signal` and `revoke`
pub data Delivery : Type 0 where
  deliver_frame : Stream → Payload → ℕ → Delivery
  signal : Stream → Signal → Delivery
  revoke : Stream → ℕ → Text → Delivery

-- The nudge of `broadcast_message` to the inbox of one user
abbrev pub inbox_line : Payload → Conversation → ℕ → Delivery
inbox_line payload conv user =
    signal (user_stream user) (signal_inbox conv.id conv.kind conv.last_seq payload)

-- What a callback puts on the wire. A claim of media goes to the bus instead.
unfoldable pub deliver : Effect → List Delivery
deliver (broadcast_message payload conv users) =
    deliver_frame (conversation_stream conv.id) payload payload.rev_seq
    ∷ map (inbox_line payload conv) users
deliver (broadcast_read cid user upto) =
    signal (conversation_stream cid) (signal_read cid user upto) ∷ []
deliver (broadcast_delivered cid user upto) =
    signal (conversation_stream cid) (signal_delivered cid user upto) ∷ []
deliver (broadcast_cleared cid user mark) =
    signal (user_stream user) (signal_cleared cid user mark) ∷ []
deliver (broadcast_activity cid user state ttl) =
    signal (conversation_stream cid) (signal_activity cid user state ttl) ∷ []
deliver (broadcast_presence cid user online seen_at until) =
    signal (conversation_stream cid) (signal_presence cid user online seen_at until) ∷ []
deliver (revoke_participant cid user reason) = revoke (conversation_stream cid) user reason ∷ []
deliver (sync_refs message old new) = []

-- The wire after a commit
unfoldable pub deliveries : List Effect → List Delivery
unfolding deliver
deliveries effects = flat_map deliver effects

abbrev pub stream_of : Delivery → Stream
stream_of (deliver_frame s payload at) = s
stream_of (signal s body) = s
stream_of (revoke s user reason) = s
