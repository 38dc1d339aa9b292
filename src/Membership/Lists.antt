-- ===== src/Membership/Lists.antt =====
-- The two lists of a person, and what a stored message does to them.
use stapel_chat.Base.{
  ==_iff, All, Bool, Bool-cases, List, Option, Option-cases, Pairwise, [], any, ap, arith, false,
  find?-test, if◌then◌else◌, inl, inr, is_some, none, refl, some, sym, true, update_where, ℕ, ◌&&◌,
  ◌+◌, ◌==◌, ◌||◌, ◌∙◌, ◌∷◌, ◌≡◌, ◌≢◌,
}
use stapel_chat.Journal.Sends.{atomic-allocate_missing, post_once-stored, post_once-taken, row_of}
use stapel_chat.Journal.Standing.{schedule_ref_sync_participants}
use stapel_chat.Membership.{any_row, has_left, is_here, is_member, on_inbox, on_left_list}
use stapel_chat.Model.{Conversation, Message, Participant}
use stapel_chat.Sending.{
  Draft, announce_post, get_conversation, insert_message, message_refs, post_body, post_once,
  resurface_participants, schedule_fanout, store_last_seq, violates_unique, with_last_seq,
}
use stapel_chat.World.{World, does_not_exist, err, ok}

-- `chat_participant_uniq`: one row for a person in a thread
abbrev pub OneRow : Participant → Participant → Type 0
OneRow p q = p.conversation ≡ q.conversation → p.user ≢ q.user

any-cong :
    (p q : Participant → Bool) (ps : List Participant)
    → ((x : Participant) → p x ≡ q x)
    → any p ps ≡ any q ps
any-cong p q [] h = refl
any-cong p q (x ∷ ps) h = ground (arith, h x, any-cong p q ps h)

member_any :
    (cid user : ℕ) (ps : List Participant)
    → any (is_member cid user) ps ≡ (any (is_here cid user) ps || any (has_left cid user) ps)
member_any cid user [] = refl
member_any cid user (p ∷ ps) = ground (arith, member_any cid user ps)

none_left :
    (cid user : ℕ) (p : Participant) (ps : List Participant)
    → All (OneRow p) ps
    → is_member cid user p ≡ true
    → (any (is_here cid user) ps ≡ false) × (any (has_left cid user) ps ≡ false)
none_left cid user p [] h t = (refl, refl)
none_left cid user p (q ∷ ps) h t =
    let rest = none_left cid user p ps h.1 t in
    let c : p.conversation ≡ cid = ground arith in
    let u : p.user ≡ user = ground arith in
    elim (Bool-cases (is_member cid user q)) [
      | inl s ↦ absurd (h.0 (ground arith) (ground arith))
      | inr s ↦ (ground (arith, rest.0), ground (arith, rest.1))
    ]

not_both :
    (cid user : ℕ) (ps : List Participant)
    → Pairwise OneRow ps
    → (any (is_here cid user) ps && any (has_left cid user) ps) ≡ false
not_both cid user [] h = refl
not_both cid user (p ∷ ps) h = elim (Bool-cases (is_member cid user p)) [
  | inl t ↦ let rest = none_left cid user p ps h.0 t in ground (arith, rest.0, rest.1)
  | inr t ↦ ground (arith, not_both cid user ps h.1)
]

-- Every thread a person is a party to is on exactly one of their two lists, and no other thread is
-- on either.
pub inbox-left_partition :
    (w : World) (user cid : ℕ)
    → Pairwise OneRow w.participants
    → (any_row (is_member cid user) w ≡ (on_inbox w user cid || on_left_list w user cid))
      × ((on_inbox w user cid && on_left_list w user cid) ≡ false)
unfolding on_inbox on_left_list
inbox-left_partition w user cid one =
    (member_any cid user w.participants, not_both cid user w.participants one)

-- Resurfacing leaves nobody marked in the thread.
resurfaced :
    (cid user : ℕ) (ps : List Participant)
    → any (has_left cid user) (
        update_where
          (λ (p : Participant). p.conversation == cid && is_some p.left_at)
          (λ p. record p { left_at = none })
          ps)
      ≡ false
resurfaced cid user [] = refl
resurfaced cid user (p ∷ ps) = ground (arith, resurfaced cid user ps)

resurfaced_here :
    (cid user : ℕ) (ps : List Participant)
    → any (is_here cid user) (
        update_where
          (λ (p : Participant). p.conversation == cid && is_some p.left_at)
          (λ p. record p { left_at = none })
          ps)
      ≡ any (is_member cid user) ps
resurfaced_here cid user [] = refl
resurfaced_here cid user (p ∷ ps) = ground (arith, resurfaced_here cid user ps)

-- The lists after the resurfacing of a thread.
resurface_lists :
    (w : World) (cid user : ℕ) (sender : Option ℕ)
    → let v = resurface_participants cid sender w in
      (on_inbox v user cid
        ≡ (if is_some sender then any_row (is_member cid user) w else on_inbox w user cid))
      × (on_left_list v user cid ≡ (if is_some sender then false else on_left_list w user cid))
unfolding resurface_participants on_inbox on_left_list
resurface_lists w cid user none = (refl, refl)
resurface_lists w cid user (some s) =
    (resurfaced_here cid user w.participants, resurfaced cid user w.participants)

-- What a send that has stored its row makes of the memberships.
announced_members :
    (d : Draft) (conv : Conversation) (m : Message) (w : World)
    → (announce_post d conv m w).participants
      ≡ (resurface_participants conv.id d.sender w).participants
unfolding announce_post schedule_fanout
announced_members d conv m w = schedule_ref_sync_participants m.id [] (message_refs d.attachments) _

resurfaced_stored :
    (cid k seq : ℕ) (sender : Option ℕ) (row : Message) (w : World)
    → (resurface_participants cid sender (insert_message row (store_last_seq k seq w))).participants
      ≡ (resurface_participants cid sender w).participants
unfolding resurface_participants insert_message store_last_seq
resurfaced_stored cid k seq none row w = refl
resurfaced_stored cid k seq (some s) row w = refl

found_id : (cid : ℕ) (w : World) (c : Conversation) → get_conversation cid w ≡ some c → c.id ≡ cid
unfolding get_conversation
found_id cid w c e = (==_iff c.id cid).0 (find?-test (λ (k : Conversation). k.id == cid) _ c e)

posted_members :
    (d : Draft) (w v : World) (m : Message)
    → post_once d w ≡ (ok m, v)
    → v.participants ≡ (resurface_participants d.conversation d.sender w).participants
posted_members d w v m posted = elim (Option-cases (get_conversation d.conversation w)) [
  | inl e ↦
      let failed : post_once d w ≡ (err does_not_exist, w) =
        unfold post_once in atomic-allocate_missing d.conversation (post_body d) w e in
      absurd (ground arith)
  | inr (c, e) ↦ elim (Bool-cases (violates_unique (row_of d c w) w.messages)) [
    | inl t ↦ let failed = post_once-taken d w c e t in absurd (ground arith)
    | inr t ↦
        let row = row_of d c w in
        let locked = with_last_seq (c.last_seq + 1) w.clock c in
        ap (λ o. o.1.participants) (sym posted ∙ post_once-stored d w c e t)
        ∙ announced_members d locked row _
        ∙ resurfaced_stored c.id d.conversation (c.last_seq + 1) d.sender row w
        ∙ ap (λ k. (resurface_participants k d.sender w).participants)
            (found_id d.conversation w c e)
  ]
]

-- A system line that is stored moves its thread between nobody's lists; an authored message that is
-- stored puts it on the inbox of everybody in it, and on nobody's list of left threads.
pub post_once_lists :
    (d : Draft) (w v : World) (m : Message) (user : ℕ)
    → post_once d w ≡ (ok m, v)
    → (on_inbox v user d.conversation ≡ (
        if is_some d.sender
        then any_row (is_member d.conversation user) w
        else on_inbox w user d.conversation))
      × (on_left_list v user d.conversation
          ≡ (if is_some d.sender then false else on_left_list w user d.conversation))
unfolding on_inbox on_left_list
post_once_lists d w v m user posted =
    let lists = resurface_lists w d.conversation user d.sender in
    let same = posted_members d w v m posted in
    (
      ap (λ ps. any (is_here d.conversation user) ps) same ∙ lists.0,
      ap (λ ps. any (has_left d.conversation user) ps) same ∙ lists.1,
    )
