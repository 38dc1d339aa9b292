-- ===== src/Rest/Runs.antt =====
-- The guards and the answers of the HTTP surface as runs of the journal.
pub mod Threads
pub mod Messages
pub mod Desk
use stapel_chat.Base.{Bool, List, Option, Option-cases, [], inl, inr, none, some, ℕ, ◌∷◌}
use stapel_chat.Journal.{IsJournal, RunFrom, done}
use stapel_chat.Journal.Rules.{
  Journals, Journals-bind, Journals-gotten, Journals-lifted, Journals-pure, Journals-raise,
  RunFrom-trans,
}
use stapel_chat.Journal.Steps.{Run-IsJournal}
use stapel_chat.Model.{Conversation, Message, Participant}
use stapel_chat.Rest.{
  ErrorKey, Reply, as_party, authority, catching, conversation_missing, data_reply, error_reply,
  found_or_refuse, may_operate, my_participant, not_participant, party_or_refuse, replying, respond,
  respond_error, scoped_conversation, with_validated,
}
use stapel_chat.Rest.Mappers.{Reading, message_body, message_to_dto, no_content}
use stapel_chat.Rest.Messages.{show_message}
use stapel_chat.Rest.Threads.{show_page, show_thread}
use stapel_chat.Scope.{Request, ScopeProvider}
use stapel_chat.Search.{subject_cards_for}
use stapel_chat.Settings.{Host}
use stapel_chat.Subjects.{Cards}
use stapel_chat.World.{Error, Exec, Result, World, err, mandate_unavailable, ok, ◌>>◌}

module _ {A B : Type 0} where
  pub catching-run :
      (named : Error → Option (ℕ × ErrorKey)) (k : A → Exec (Reply B)) (w : World)
      (o : Result A × World)
      → IsJournal w
      → RunFrom w o.1
      → ((a : A) → Journals (k a))
      → RunFrom w (catching named k o).1
  catching-run named k w (ok a, v) j run hk = RunFrom-trans run ((hk a).at v (Run-IsJournal run j))
  catching-run named k w (err e, v) j run hk = elim (Option-cases (named e)) [
    | inl t ↦ rw (t, catching) run
    | inr (coded, t) ↦ rw (t, catching) run
  ]

  pub replying-Journals :
      (named : Error → Option (ℕ × ErrorKey)) (m : Exec A) (k : A → Exec (Reply B))
      → Journals m
      → ((a : A) → Journals (k a))
      → Journals (replying named m k)
  replying-Journals named m k hm hk = record {
    at = λ w j. catching-run named k w (m w) j (hm.at w j) hk;
  }

  pub validated-Journals :
      (o : Option A) (k : A → Exec B) → ((a : A) → Journals (k a)) → Journals (with_validated o k)
  validated-Journals none k h = record { at = λ w j. done }
  validated-Journals (some a) k h = h a

pub respond-Journals : {A : Type 0} (status : ℕ) (a : A) → Journals (respond status a)
respond-Journals status a = Journals-pure (data_reply status a)

pub error-Journals :
    {A : Type 0} (status : ℕ) (key : ErrorKey) → Journals (respond_error {A = A} status key)
error-Journals status key = Journals-pure (error_reply status key)

module _ (scope : ScopeProvider) (request : Request) where
  pub may_operate-Journals : (c : Option Conversation) → Journals (may_operate scope request c)
  may_operate-Journals c = go (scope.can_operate request c)
    where
      go : (o : Option Bool) → Journals (authority o)
      go none = Journals-raise mandate_unavailable
      go (some b) = Journals-pure b

  party-Journals :
      {A : Type 0} (k : Conversation → Participant → Exec (Reply A)) (c : Conversation)
      (o : Option Participant)
      → ((p : Participant) → Journals (k c p))
      → Journals (party_or_refuse scope request k c o)
  party-Journals k c none h = error-Journals 403 not_participant
  party-Journals k c (some p) h = h p

  found-Journals :
      {A : Type 0} (k : Conversation → Participant → Exec (Reply A)) (o : Option Conversation)
      → ((c : Conversation) (p : Participant) → Journals (k c p))
      → Journals (found_or_refuse scope request k o)
  found-Journals k none h = error-Journals 404 conversation_missing
  found-Journals k (some c) h =
      Journals-gotten (my_participant request.user c) (party_or_refuse scope request k c)
        (λ o. party-Journals k c o (h c))

  pub as_party-Journals :
      {A : Type 0} (cid : ℕ) (k : Conversation → Participant → Exec (Reply A))
      → ((c : Conversation) (p : Participant) → Journals (k c p))
      → Journals (as_party scope request cid k)
  unfolding as_party
  as_party-Journals cid k h =
      Journals-gotten (scoped_conversation scope request cid) (found_or_refuse scope request k)
        (λ o. found-Journals k o h)

module _ (host : Host) (request : Request) where
  pub show_thread-Journals :
      (status : ℕ) (reading : Reading) (c : Conversation) (p : Option Participant)
      → Journals (show_thread host request status reading c p)
  unfolding show_thread
  show_thread-Journals status reading c p =
      Journals-lifted (subject_cards_for host (c ∷ []) []) _ (λ cards. record { at = λ w j. done })

  pub show_page-Journals :
      (reading : Reading) (page : List Conversation) (resolved : Cards)
      → Journals (show_page host request reading page resolved)
  unfolding show_page
  show_page-Journals reading page resolved =
      Journals-lifted (subject_cards_for host page resolved) _
        (λ cards. record { at = λ w j. done })

pub show_message-Journals : (status : ℕ) (m : Message) → Journals (show_message status m)
show_message-Journals status m =
    Journals-lifted (message_to_dto m) (λ dto. respond status (message_body dto))
      (λ dto. respond-Journals status (message_body dto))

pub after-Journals : {A : Type 0} (m : Exec A) → Journals m → Journals (m >> respond 204 no_content)
after-Journals m h = Journals-bind m _ h (λ a. respond-Journals 204 no_content)
