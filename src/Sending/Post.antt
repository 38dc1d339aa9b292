-- ===== src/Sending/Post.antt =====
-- services.py, `post_message` and what stands before the transaction: the reply's thread, the
-- block, the idempotent retry and the attachments; then up to `_MAX_SEQ_RETRIES` transactions.
-- Other requests run between two of those: `between n` is what they do to the state before the
-- attempt with `n` left. A caller in a transaction of its own uses `undisturbed`.
use stapel_chat.Attachments.Describe.{prepare_attachments}
use stapel_chat.Base.{
  Bool, List, Option, Text, [], false, filter, find?, if◌then◌else◌, is_empty, none, not, some,
  strip, suc, take, text_eq, true, zero, ℕ, ◌==◌, ◌∷◌,
}
use stapel_chat.Blocks.{any_hit, blocked_pairs}
use stapel_chat.Model.{Conversation, Message, MessageKind, is_direct, system_kind}
use stapel_chat.Sending.{Draft, get_conversation, participant_ids, post_once, same_client_id}
use stapel_chat.Settings.{Host}
use stapel_chat.Values.{Json}
use stapel_chat.World.{
  Error, Exec, World, conversation_not_found, err, gets, integrity_error, invalid_reply, lift, ok,
  or_raise, pure, raise_if, send_refused, value_error, ◌>>=◌, ◌>>◌,
}

abbrev pub undisturbed : ℕ → World → World
undisturbed n w = w

-- `_refuse_if_pair_blocked`, and the end of `_refuse_if_blocked`
unfoldable pub refuse_pairs : Host → List (ℕ × ℕ) → Exec Unit
refuse_pairs host pairs = do
  hits ← lift (blocked_pairs host pairs)
  raise_if (any_hit hits pairs) send_refused

abbrev pub pairs_with : ℕ → List ℕ → List (ℕ × ℕ)
pairs_with sender [] = []
pairs_with sender (other ∷ others) = (sender, other) ∷ pairs_with sender others

-- The pairs a send into a direct thread is checked on: the sender and each other participant.
unfoldable pub send_pairs : World → ℕ → ℕ → List (ℕ × ℕ)
unfolding participant_ids
send_pairs w cid sender =
    pairs_with sender (filter (λ (u : ℕ). not (u == sender)) (participant_ids w cid))

abbrev pub refuse_some : Host → List (ℕ × ℕ) → Exec Unit
refuse_some host [] = pure tt
refuse_some host (p ∷ pairs) = refuse_pairs host (p ∷ pairs)

-- `_refuse_if_blocked`
unfoldable pub refuse_if_blocked : Host → Conversation → Option ℕ → Exec Unit
refuse_if_blocked host conv none w = (ok tt, w)
refuse_if_blocked host conv (some sender) w =
    if is_direct conv.kind then refuse_some host (send_pairs w conv.id sender) w else (ok tt, w)

-- The row that an earlier send with this idempotency key left, where there is a key.
unfoldable pub find_twin : ℕ → Text → World → Option Message
unfolding text_eq
find_twin cid client w =
    if is_empty client then none else find? (same_client_id cid client) w.messages

abbrev pub is_integrity : Error → Bool
is_integrity integrity_error = true
is_integrity _ = false

abbrev pub max_seq_retries : ℕ
max_seq_retries = 8

-- The retry loop, with the number of attempts that are left.
unfoldable pub post_attempts : (ℕ → World → World) → ℕ → Draft → Exec Message
post_attempts between zero d w = (err integrity_error, w)
post_attempts between (suc n) d w =
    let tried = post_once d (between n w) in
    let again = post_attempts between n d tried.1 in
    elim tried.0 [
      | ok m ↦ (ok m, tried.1)
      | err e ↦
          if is_integrity e
          then elim (find_twin d.conversation d.client_msg_id tried.1) [
            | some twin ↦ (ok twin, tried.1)
            | none ↦ again
          ]
          else (err e, tried.1)
    ]

abbrev pub id_of : Option Message → Option ℕ
id_of none = none
id_of (some m) = some m.id

-- `reply_to` names a message of another conversation
abbrev pub is_foreign_reply : Option Message → ℕ → Bool
is_foreign_reply none cid = false
is_foreign_reply (some m) cid = not (m.conversation == cid)

-- `(client_msg_id or "").strip()[:64]`
unfoldable pub normal_client_id : Text → Text
unfolding strip
normal_client_id client = take 64 (strip client)

abbrev pub draft_of :
    Conversation → Option ℕ → Text → List Json → Option Message → MessageKind → Text → Draft
draft_of conv sender body attachments reply_to kind client = record {
  conversation = conv.id;
  sender = sender;
  body = body;
  attachments = attachments;
  reply_to = id_of reply_to;
  kind = kind;
  client_msg_id = client;
}

-- The send, once no earlier one with its key is found.
unfoldable pub post_new :
    Host
    → (ℕ → World → World)
    → Conversation
    → Option ℕ
    → Text
    → List Json
    → Option Message
    → MessageKind
    → Text
    → Exec Message
post_new host between conv sender body attachments reply_to kind client = do
  prepared ← lift (prepare_attachments host attachments)
  post_attempts between max_seq_retries (draft_of conv sender body prepared reply_to kind client)

-- `if existing is not None: return existing`
abbrev pub or_else : Option Message → Exec Message → Exec Message
or_else none m = m
or_else (some twin) m = pure twin

unfoldable pub post_message :
    Host
    → (ℕ → World → World)
    → Conversation
    → Option ℕ
    → Text
    → List Json
    → Option Message
    → MessageKind
    → Text
    → Exec Message
post_message host between conv sender body attachments reply_to kind client = do
  raise_if (is_foreign_reply reply_to conv.id) invalid_reply
  refuse_if_blocked host conv sender
  twin ← gets (find_twin conv.id (normal_client_id client))
  or_else twin
      (post_new host between conv sender body attachments reply_to kind (normal_client_id client))

-- `post_system_message`: no sender, a system line, and an id that names no conversation is refused
unfoldable pub post_system_message : Host → ℕ → Text → Text → Exec Message
post_system_message host cid body client = do
  raise_if (is_empty (strip body)) value_error
  found ← gets (get_conversation cid)
  conv ← or_raise found conversation_not_found
  post_message host undisturbed conv none (strip body) [] none system_kind client
