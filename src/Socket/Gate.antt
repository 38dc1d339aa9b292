-- ===== src/Socket/Gate.antt =====
-- consumers.py, who may open which stream, and how far the server is; routing.py, the two doors.
use stapel_chat.Base.{
  Bool, In, List, Option, Option-cases, Text, [], any, ap, append-nil, append_assoc, arith, false,
  filter, filter-In, inl, inr, is_some, map, none, not, refl, some, subst, sym, true, ℕ, ◌&&◌, ◌++◌,
  ◌==◌, ◌∙◌, ◌∷◌, ◌≡◌, ◌⊎◌,
}
use stapel_chat.Membership.{is_member}
use stapel_chat.Model.{Conversation, Message, Participant}
use stapel_chat.Realtime.{message_payload}
use stapel_chat.Realtime.Delivery.{
  Delivery, Stream, conversation_stream, deliver, deliver_frame, deliveries, inbox_line, stream_of,
  user_stream,
}
use stapel_chat.Sending.{fanout_recipients, get_conversation, schedule_fanout}
use stapel_chat.Settings.{Host}
use stapel_chat.World.{Effect, World, broadcast_message}

-- `_is_participant`, on the text of an id; one that does not spell a UUID is refused
unfoldable pub is_participant : Host → World → Text → ℕ → Bool
is_participant host w cid user = elim (host.read_uuid cid) [
  | none ↦ false
  | some k ↦ any (is_member k user) w.participants
]

-- `_server_seq`
unfoldable pub server_seq : World → ℕ → ℕ
unfolding get_conversation
server_seq w cid = elim (get_conversation cid w) [ none ↦ 0 | some conv ↦ conv.last_seq ]

-- `websocket_urlpatterns`: the socket of a conversation, with the id in the URL, and of the inbox
pub data Door : Type 0 where
  thread_door : Text → Door
  inbox_door : Door

-- `authorize` of either consumer, by what `_user_id()` answers
unfoldable pub authorize : Host → World → Door → Option ℕ → Bool
unfolding is_participant
authorize host w door none = false
authorize host w (thread_door cid) (some user) = is_participant host w cid user
authorize host w inbox_door (some user) = true

-- `get_stream_key` of either consumer
abbrev pub stream_key_of : Host → Door → ℕ → Option Stream
stream_key_of host (thread_door cid) user = elim (host.read_uuid cid) [
  | none ↦ none
  | some k ↦ some (conversation_stream k)
]
stream_key_of host inbox_door user = some (user_stream user)

-- Who has a conversation's stream open has a seat in it, and who has an inbox open owns it.
thread_seen :
    (host : Host) (w : World) (cid user : ℕ) (door : Door)
    → stream_key_of host door user ≡ some (conversation_stream cid)
    → authorize host w door (some user) ≡ true
    → any (is_member cid user) w.participants ≡ true
unfolding authorize is_participant
thread_seen host w cid user inbox_door opened admitted = absurd (ground arith)
thread_seen host w cid user (thread_door t) opened admitted =
    elim (Option-cases (host.read_uuid t)) [
      | inl e ↦ absurd (ground arith)
      | inr (k, e) ↦
          let same : k ≡ cid = ground arith in
          subst (λ c. any (is_member c user) w.participants ≡ true) same (ground arith)
    ]

inbox_seen :
    (host : Host) (user owner : ℕ) (door : Door)
    → stream_key_of host door user ≡ some (user_stream owner)
    → user ≡ owner
inbox_seen host user owner inbox_door opened = ground arith
inbox_seen host user owner (thread_door t) opened = absurd (ground arith)

append-In {ℓ} : {A : Type ℓ} (xs ys : List A) (a : A) → In a (xs ++ ys) → In a xs ⊎ In a ys
append-In [] ys a h = inr h
append-In (x ∷ xs) ys a (inl e) = inl (inl e)
append-In (x ∷ xs) ys a (inr h) = elim (append-In xs ys a h) [ inl k ↦ inl (inr k) | inr k ↦ inr k ]

map-In :
    {A B : Type 0} (f : A → B) (xs : List A) (b : B)
    → In b (map f xs)
    → (a : A) × (In a xs × (b ≡ f a))
map-In f [] b h = absurd h.1
map-In f (x ∷ xs) b (inl e) = (x, (inl refl, e))
map-In f (x ∷ xs) b (inr h) = let (a, (k, e)) = map-In f xs b h in (a, (inr k, e))

deliveries-append :
    (es : List Effect) (e : Effect) → deliveries (es ++ e ∷ []) ≡ deliveries es ++ deliver e
unfolding deliveries mathlib.Core.List.flat_map
deliveries-append [] e = append-nil (deliver e)
deliveries-append (x ∷ es) e =
    ap (λ ds. deliver x ++ ds) (deliveries-append es e)
    ∙ sym (append_assoc (deliver x) (deliveries es) (deliver e))

any-In : {A : Type 0} (p : A → Bool) (xs : List A) (a : A) → In a xs → p a ≡ true → any p xs ≡ true
any-In p [] a h t = absurd h.1
any-In p (x ∷ xs) a (inl e) t = rw (sym (ap p e) ∙ t) refl
any-In p (x ∷ xs) a (inr h) t = ground (arith, any-In p xs a h t)

fanout_recipients-seated :
    (w : World) (cid user : ℕ)
    → In user (fanout_recipients w cid)
    → any (is_member cid user) w.participants ≡ true
unfolding fanout_recipients
fanout_recipients-seated w cid user h =
    let active : Participant → Bool = λ p. p.conversation == cid && not (is_some p.left_at) in
    let (p, (kept, own)) =
      map-In (λ (p : Participant). p.user) (filter active w.participants) user h in
    let (seated, here) = filter-In active w.participants p kept in
    any-In (is_member cid user) w.participants p seated (ground arith)

-- A message that is fanned out reaches nobody but those with a seat in its conversation: whatever
-- then stands on the wire and did not stand there before is on a stream that only they may open.
pub schedule_fanout_admitted :
    (host : Host) (m : Message) (conv : Conversation) (w : World) (d : Delivery) (door : Door)
    (user : ℕ)
    → In d (deliveries (schedule_fanout m conv w).scheduled)
    → stream_key_of host door user ≡ some (stream_of d)
    → authorize host w door (some user) ≡ true
    → In d (deliveries w.scheduled) ⊎ (any (is_member conv.id user) w.participants ≡ true)
schedule_fanout_admitted host m conv w d door user wired opened admitted =
    let told = broadcast_message (message_payload m) conv (fanout_recipients w conv.id) in
    let wired' : In d (deliveries w.scheduled ++ deliver told) =
      subst (In d) (deliveries-append w.scheduled told) (unfold schedule_fanout in wired) in
    elim (append-In (deliveries w.scheduled) (deliver told) d wired') [
      | inl before ↦ inl before
      | inr added ↦
          let payload = message_payload m in
          let seats = fanout_recipients w conv.id in
          let parts : (d ≡ deliver_frame (conversation_stream conv.id) payload payload.rev_seq)
              ⊎ In d (map (inbox_line payload conv) seats) =
            unfold deliver in added in
          inr (elim parts [
            | inl frame ↦
                thread_seen host w conv.id user door (opened ∙ ap (λ x. some (stream_of x)) frame)
                  admitted
            | inr nudged ↦
                let (owner, (listed, line)) =
                  map-In (inbox_line (message_payload m) conv) (fanout_recipients w conv.id) d
                    nudged in
                let own =
                  inbox_seen host user owner door (opened ∙ ap (λ x. some (stream_of x)) line) in
                subst (λ u. any (is_member conv.id u) w.participants ≡ true) (sym own)
                  (fanout_recipients-seated w conv.id owner listed)
          ])
    ]
