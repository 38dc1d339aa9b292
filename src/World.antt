-- ===== src/World.antt =====
-- The state the services act on, and the way they act: the tables, the outbox and the callbacks
-- that wait for the commit. A service is an action that returns or raises; `atomic` is a
-- transaction, which takes back every write, emit and callback when its body raises.
use stapel_chat.Base.{
  Bool, List, Option, Text, [], arith, if◌then◌else◌, none, some, ℕ, ◌++◌, ◌∷◌, ◌≡◌,
}
use stapel_chat.Model.{
  Conversation, ConversationKind, Message, MessageKind, Participant, UserPresence,
}
use stapel_chat.Values.{Json}

pub data Error : Type 0 where
  does_not_exist integrity_error value_error type_error attribute_error : Error
  already_assigned not_support invalid_reply not_author message_gone not_editable : Error
  conversation_not_found message_not_found : Error
  incomplete_subject unknown_subject_type : Error
  send_refused block_check_unavailable : Error
  unknown_attachment_type invalid_attachment : Error
  unknown_activity_state merge_target_not_ready : Error
  -- raised by the libraries: a request that its serializer refuses, an authority that is not known
  validation_error mandate_unavailable : Error

pub data Result (A : Type 0) : Type 0 where
  ok : A → Result A
  err : Error → Result A

-- What `realtime.message_payload` puts on the wire.
pub record Payload : Type 0 where
  pub message_id : ℕ
  pub conversation_id : ℕ
  pub sender_id : Option ℕ
  pub seq : ℕ
  pub rev_seq : ℕ
  pub kind : MessageKind
  pub body : Text
  pub reply_to : Option ℕ
  pub attachments : List Json
  pub client_msg_id : Option Text
  pub edited_at : Option ℕ
  pub deleted_at : Option ℕ
  pub created_at : ℕ

-- The Actions written into the outbox.
pub data Event : Type 0 where
  conversation_created : Conversation → Option ℕ → List ℕ → Event
  message_posted message_edited : Payload → ConversationKind → Text → Event
  message_deleted : ℕ → ℕ → Option ℕ → ℕ → ℕ → Option ℕ → Event
  support_assigned : ℕ → ℕ → Text → Event

-- What goes out after the commit: frames, signals, revocations and CDN claims.
pub data Effect : Type 0 where
  broadcast_message : Payload → Conversation → List ℕ → Effect
  broadcast_read broadcast_delivered : ℕ → ℕ → ℕ → Effect
  broadcast_cleared : ℕ → ℕ → ℕ → Effect
  broadcast_activity : ℕ → ℕ → Text → ℕ → Effect
  broadcast_presence : ℕ → ℕ → Bool → Option ℕ → Option ℕ → Effect
  revoke_participant : ℕ → ℕ → Text → Effect
  sync_refs : ℕ → List Text → List Text → Effect

-- `next_id` is the primary key that `uuid4` gives the next row: it never repeats one.
-- `clock` is what `timezone.now()` reads.
pub record World : Type 0 where
  pub conversations : List Conversation
  pub participants : List Participant
  pub messages : List Message
  pub presences : List UserPresence
  pub outbox : List Event
  pub scheduled : List Effect
  pub next_id : ℕ
  pub clock : ℕ

abbrev pub Exec : Type 0 → Type 0
Exec A = World → Result A × World

module _ {A : Type 0} where
  abbrev pub pure : A → Exec A
  pure a w = (ok a, w)

  abbrev pub raise : Error → Exec A
  raise e w = (err e, w)

  abbrev pub gets : (World → A) → Exec A
  gets f w = (ok (f w), w)

  abbrev pub lift : Result A → Exec A
  lift r w = (r, w)

  abbrev pub or_raise : Option A → Error → Exec A
  or_raise none e = raise e
  or_raise (some a) e = pure a

infixl 5 ◌>>=◌ ◌>>◌
abbrev pub ◌>>=◌ : {A B : Type 0} → Exec A → (A → Exec B) → Exec B
◌>>=◌ m f w = let (r, w') = m w in elim r [ ok a ↦ f a w' | err e ↦ (err e, w') ]

abbrev pub ◌>>◌ : {A B : Type 0} → Exec A → Exec B → Exec B
m >> k = m >>= λ _. k

abbrev pub modify : (World → World) → Exec (Unit {0})
modify f w = (ok tt, f w)

abbrev pub raise_if : Bool → Error → Exec (Unit {0})
raise_if b e w = (if b then err e else ok tt, w)

-- `transaction.atomic()`, and `mutate_and_emit()`, which opens one
abbrev pub atomic : {A : Type 0} → Exec A → Exec A
atomic m w = let (r, w') = m w in elim r [ ok a ↦ (ok a, w') | err e ↦ (err e, w) ]

-- What cannot raise is a function on the state.
abbrev pub emit : Event → World → World
emit e w = record w { outbox = w.outbox ++ e ∷ [] }

abbrev pub on_commit : Effect → World → World
on_commit e w = record w { scheduled = w.scheduled ++ e ∷ [] }

pub ok_inj : {A : Type 0} {a b : A} → ◌≡◌ {A = Result A} (ok a) (ok b) → a ≡ b
ok_inj e = ground (arith, e)
