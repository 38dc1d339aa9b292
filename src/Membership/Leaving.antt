-- ===== src/Membership/Leaving.antt =====
-- Leaving a thread: what the leaver's lists show afterwards, and what a second leaving does.
use stapel_chat.Attachments.Describe.{prepare_attachments}
use stapel_chat.Base.{
  Bool, Bool-cases, List, Option, Option-cases, Text, [], any, ap, arith, codes, false, inl, inr,
  none, refl, some, suc, sym, true, update_where, zero, ℕ, ◌+◌, ◌∙◌, ◌∷◌, ◌≡◌,
}
use stapel_chat.Journal.Attempts.{attempt-ok}
use stapel_chat.Journal.Sending.{attempt-again, attempt-failed, attempt-met}
use stapel_chat.Journal.Sends.{atomic-allocate_missing, post_once-stored, post_once-taken, row_of}
use stapel_chat.Journal.Standing.{schedule_ref_sync_participants}
use stapel_chat.Membership.{
  announce_departure, has_left, is_here, leave_conversation, left_line, on_inbox, on_left_list,
  store_participants, with_left,
}
use stapel_chat.Model.{Conversation, Message, MessageKind, Participant, system_kind}
use stapel_chat.Sending.{
  Draft, announce_post, get_conversation, insert_message, message_refs, post_body, post_once,
  resurface_participants, schedule_fanout, store_last_seq, violates_unique, with_last_seq,
}
use stapel_chat.Sending.Post.{
  draft_of, find_twin, is_integrity, max_seq_retries, normal_client_id, or_else, post_attempts,
  post_message, post_new, refuse_if_blocked, undisturbed,
}
use stapel_chat.Settings.{Host}
use stapel_chat.World.{
  Error, Exec, Result, World, does_not_exist, err, lift, ok, on_commit, revoke_participant, ◌>>=◌,
}

-- A draft without a sender, stored or not, changes no seat.
announce_post-seats :
    (d : Draft) (conv : Conversation) (m : Message) (w : World)
    → d.sender ≡ none
    → (announce_post d conv m w).participants ≡ w.participants
unfolding announce_post schedule_fanout resurface_participants
announce_post-seats d conv m w system =
    rw (schedule_ref_sync_participants m.id [] (message_refs d.attachments) _, system) refl

post_once-seats :
    (d : Draft) (w : World) → d.sender ≡ none → (post_once d w).1.participants ≡ w.participants
post_once-seats d w system = elim (Option-cases (get_conversation d.conversation w)) [
  | inl e ↦
      let missing : post_once d w ≡ (err does_not_exist, w) =
        unfold post_once in atomic-allocate_missing d.conversation (post_body d) w e in
      rw missing refl
  | inr (c, e) ↦ elim (Bool-cases (violates_unique (row_of d c w) w.messages)) [
    | inl t ↦ rw (post_once-taken d w c e t) refl
    | inr t ↦
        let inserted =
          insert_message (row_of d c w) (store_last_seq d.conversation (c.last_seq + 1) w) in
        let same : inserted.participants ≡ w.participants =
          unfold insert_message store_last_seq in refl in
        rw (post_once-stored d w c e t) (
          announce_post-seats d (with_last_seq (c.last_seq + 1) w.clock c) (row_of d c w) inserted
            system
          ∙ same)
  ]
]

post_attempts-seats :
    (n : ℕ) (d : Draft) (w : World)
    → d.sender ≡ none
    → (post_attempts undisturbed n d w).1.participants ≡ w.participants
post_attempts-seats zero d w system = unfold post_attempts in refl
post_attempts-seats (suc n) d w system =
    go (post_once d w) refl (post_once-seats d w system) (λ v. post_attempts-seats n d v system)
  where
    go :
        (o : Result Message × World)
        → post_once d w ≡ o
        → o.1.participants ≡ w.participants
        → ((v : World) → (post_attempts undisturbed n d v).1.participants ≡ v.participants)
        → (post_attempts undisturbed (suc n) d w).1.participants ≡ w.participants
    go (ok m, v) e same rest = rw (attempt-ok undisturbed n d w v m e) same
    go (err x, v) e same rest = elim (Bool-cases (is_integrity x)) [
      | inr other ↦ rw (attempt-failed undisturbed n d w v x e other) same
      | inl int ↦ elim (Option-cases (find_twin d.conversation d.client_msg_id v)) [
        | inr (twin, t) ↦ rw (attempt-met undisturbed n d w v x twin e int t) same
        | inl t ↦ rw (attempt-again undisturbed n d w v x e int t) (rest v ∙ same)
      ]
    ]

-- What an action does to the seats, whether it returns or raises.
record KeepsSeats {A : Type 0} (m : Exec A) : Type 0 where
  pub kept : (w : World) → (m w).1.participants ≡ w.participants

lift-KeepsSeats :
    {A B : Type 0} (r : Result A) (f : A → Exec B)
    → ((a : A) → KeepsSeats (f a))
    → KeepsSeats (lift r >>= f)
lift-KeepsSeats (ok a) f h = record { kept = λ w. (h a).kept w }
lift-KeepsSeats (err e) f h = record { kept = λ w. refl }

or_else-KeepsSeats :
    (o : Option Message) (m : Exec Message) → KeepsSeats m → KeepsSeats (or_else o m)
or_else-KeepsSeats none m h = h
or_else-KeepsSeats (some twin) m h = record { kept = λ w. refl }

post_new-KeepsSeats :
    (host : Host) (conv : Conversation) (body : Text) (kind : MessageKind) (key : Text)
    → KeepsSeats (post_new host undisturbed conv none body [] none kind key)
unfolding post_new
post_new-KeepsSeats host conv body kind key =
    lift-KeepsSeats (prepare_attachments host []) _ (λ prepared. record {
      kept = λ w.
          post_attempts-seats max_seq_retries (draft_of conv none body prepared none kind key) w
            refl;
    })

post_message-KeepsSeats :
    (host : Host) (conv : Conversation) (body : Text) (kind : MessageKind) (client : Text)
    → KeepsSeats (post_message host undisturbed conv none body [] none kind client)
unfolding post_message refuse_if_blocked
post_message-KeepsSeats host conv body kind client = record {
  kept = λ w.
      let key = normal_client_id client in
      (or_else-KeepsSeats (find_twin conv.id key w) _
          (post_new-KeepsSeats host conv body kind key)).kept
        w;
}

announce_departure-sent :
    (host : Host) (conv : Conversation) (user : ℕ) (w u : World) (m : Message)
    → post_message host undisturbed conv none (left_line host user) [] none system_kind [] w
      ≡ (ok m, u)
    → announce_departure host conv user w
      ≡ (ok true, on_commit (revoke_participant conv.id user (codes "left_conversation")) u)
unfolding announce_departure
announce_departure-sent host conv user w u m e = ground arith

announce_departure-failed :
    (host : Host) (conv : Conversation) (user : ℕ) (w u : World) (x : Error)
    → post_message host undisturbed conv none (left_line host user) [] none system_kind [] w
      ≡ (err x, u)
    → announce_departure host conv user w ≡ (err x, u)
unfolding announce_departure
announce_departure-failed host conv user w u x e = ground arith

announced-seats :
    (host : Host) (conv : Conversation) (user : ℕ) (w v : World)
    → announce_departure host conv user w ≡ (ok true, v)
    → v.participants ≡ w.participants
announced-seats host conv user w v h =
    let kept = (post_message-KeepsSeats host conv (left_line host user) system_kind []).kept w in
    go (post_message host undisturbed conv none (left_line host user) [] none system_kind [] w) refl
      kept
  where
    go :
        (o : Result Message × World)
        → post_message host undisturbed conv none (left_line host user) [] none system_kind [] w ≡ o
        → o.1.participants ≡ w.participants
        → v.participants ≡ w.participants
    go (ok m, u) e same =
        let sent = announce_departure-sent host conv user w u m e in
        let last = on_commit (revoke_participant conv.id user (codes "left_conversation")) u in
        let world : v ≡ last = ap (λ (o : Result Bool × World). o.1) (sym h ∙ sent) in
        ap (λ (z : World). z.participants) world ∙ same
    go (err x, u) e same =
        let failed = announce_departure-failed host conv user w u x e in absurd (ground arith)

none_here :
    (cid user now : ℕ) (ps : List Participant)
    → any (is_here cid user) (update_where (is_here cid user) (with_left (some now)) ps) ≡ false
none_here cid user now [] = refl
none_here cid user now (p ∷ ps) = ground (arith, none_here cid user now ps)

one_left :
    (cid user now : ℕ) (ps : List Participant)
    → any (is_here cid user) ps ≡ true
    → any (has_left cid user) (update_where (is_here cid user) (with_left (some now)) ps) ≡ true
one_left cid user now [] h = h
one_left cid user now (p ∷ ps) h = elim (Bool-cases (is_here cid user p)) [
  | inl t ↦ ground arith
  | inr t ↦ let rest = one_left cid user now ps (ground arith) in ground arith
]

left_world :
    (host : Host) (conv : Conversation) (user : ℕ) (w v : World)
    → leave_conversation host conv user w ≡ (ok true, v)
    → (any (is_here conv.id user) w.participants ≡ true)
      × (v.participants
          ≡ update_where (is_here conv.id user) (with_left (some w.clock)) w.participants)
unfolding leave_conversation
left_world host conv user w v h = elim (Bool-cases (any (is_here conv.id user) w.participants)) [
  | inr t ↦ absurd (ground arith)
  | inl t ↦
      let marked = store_participants (is_here conv.id user) (with_left (some w.clock)) w in
      let told : announce_departure host conv user marked ≡ (ok true, v) = ground arith in
      (t, announced-seats host conv user marked v told)
]

-- After a leaving that answers that something changed, the thread is off the leaver's inbox and on
-- the list of left threads, and a second leaving changes nothing and posts nothing.
pub leave_conversation_once :
    (host : Host) (conv : Conversation) (user : ℕ) (w v : World)
    → leave_conversation host conv user w ≡ (ok true, v)
    → (on_inbox v user conv.id ≡ false)
      × (on_left_list v user conv.id ≡ true)
      × (leave_conversation host conv user v ≡ (ok false, v))
unfolding on_inbox on_left_list
leave_conversation_once host conv user w v h =
    let (here, rows) = left_world host conv user w v h in
    let gone : any (is_here conv.id user) v.participants ≡ false =
      rw rows (none_here conv.id user w.clock w.participants) in
    (
      gone,
      rw rows (one_left conv.id user w.clock w.participants here),
      (unfold leave_conversation in rw gone refl),
    )
