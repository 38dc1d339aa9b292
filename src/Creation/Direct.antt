-- ===== src/Creation/Direct.antt =====
-- services.py, `create_direct`: the key of a direct thread, and a request that is made again.
use stapel_chat.Base.{
  Bool-cases, List, Option-cases, Text, [], arith, false, find?, inl, inr, is_some, leb, none, refl,
  some, strip, text_eq_self, true, ℕ, ◌++◌, ◌==◌, ◌||◌, ◌∷◌, ◌≡◌,
}
use stapel_chat.Creation.{
  NewThread, add_member, add_members, check_subject, create_direct, create_new_direct, create_row,
  direct_thread, find_direct, insert_thread, is_thread_of, open_thread, thread_row, winner_or_raise,
}
use stapel_chat.Model.{Conversation, direct_key_of, is_direct}
use stapel_chat.Sending.Post.{refuse_pairs}
use stapel_chat.Settings.{Host}
use stapel_chat.World.{World, err, integrity_error, ok}

-- The key does not depend on who asks.
pub direct_key_comm :
    (spell : ℕ → Text) (scope : Text) (a b : ℕ) (subject_type subject_key : Text)
    → direct_key_of spell scope a b subject_type subject_key
      ≡ direct_key_of spell scope b a subject_type subject_key
unfolding direct_key_of
direct_key_comm spell scope a b subject_type subject_key = elim (Bool-cases (leb a b)) [
  | inl t ↦ elim (Bool-cases (leb b a)) [
    | inl u ↦ let same : a ≡ b = ground arith in rw same
    | inr u ↦ rw (t, u)
  ]
  | inr t ↦ let u : leb b a ≡ true = ground arith in rw (t, u)
]

find_appended :
    (key : Text) (cs : List Conversation) (c : Conversation)
    → find? (is_thread_of key) cs ≡ none
    → is_thread_of key c ≡ true
    → find? (is_thread_of key) (cs ++ c ∷ []) ≡ some c
find_appended key [] c e t = ground arith
find_appended key (x ∷ cs) c e t = ground (arith, find_appended key cs c)

add_members_conversations :
    (cid : ℕ) (users : List ℕ) (w : World)
    → (add_members cid users w).conversations ≡ w.conversations
unfolding add_members
add_members_conversations cid [] w = refl
add_members_conversations cid (u ∷ users) w =
    add_members_conversations cid users (add_member cid u w)

pub open_thread_conversations :
    (t : NewThread) (creator : ℕ) (members : List ℕ) (w : World)
    → (open_thread t creator members w).conversations
      ≡ w.conversations ++ thread_row t w.next_id w.clock ∷ []
unfolding open_thread insert_thread
open_thread_conversations t creator members w =
    add_members_conversations w.next_id members (insert_thread t w)

create_row-refused :
    (t : NewThread) (owner other : ℕ) (w : World)
    → (is_some (find_direct t.direct_key w) || owner == other) ≡ true
    → create_row t owner other w ≡ (err integrity_error, w)
unfolding create_row
create_row-refused t owner other w e = ground arith

create_row-made :
    (t : NewThread) (owner other : ℕ) (w : World)
    → (is_some (find_direct t.direct_key w) || owner == other) ≡ false
    → create_row t owner other w
      ≡ (ok (thread_row t w.next_id w.clock), open_thread t owner (owner ∷ other ∷ []) w)
unfolding create_row
create_row-made t owner other w e = ground arith

-- A thread that was opened where its key was free is found by it.
opened_found :
    (t : NewThread) (owner other : ℕ) (w : World)
    → is_direct t.kind ≡ true
    → find_direct t.direct_key w ≡ none
    → find_direct t.direct_key (open_thread t owner (owner ∷ other ∷ []) w)
      ≡ some (thread_row t w.next_id w.clock)
unfolding find_direct
opened_found t owner other w kind free =
    rw (open_thread_conversations t owner (owner ∷ other ∷ []) w) (
      find_appended t.direct_key w.conversations (thread_row t w.next_id w.clock) free
        (rw kind (text_eq_self t.direct_key)))

-- The row that the creating transaction or its lost race returns is found by its key afterwards.
created_found :
    (t : NewThread) (owner other : ℕ) (w v : World) (c : Conversation)
    → is_direct t.kind ≡ true
    → winner_or_raise t.direct_key (create_row t owner other w) ≡ (ok c, v)
    → find_direct t.direct_key v ≡ some c
unfolding winner_or_raise
created_found t owner other w v c kind h =
    elim (Bool-cases (is_some (find_direct t.direct_key w) || owner == other)) [
      | inl taken ↦ let refused = create_row-refused t owner other w taken in ground arith
      | inr free ↦
          let made = create_row-made t owner other w free in
          let found = opened_found t owner other w kind (ground arith) in ground arith
    ]

-- The key that a request asks for.
abbrev key_of : Host → ℕ → ℕ → Text → Text → Text → Text
key_of host owner other scope raw_type raw_key =
    direct_key_of host.spell scope owner other (strip raw_type) (strip raw_key)

create_direct-known :
    (host : Host) (between : World → World) (owner other : ℕ) (scope raw_type raw_key : Text)
    (w : World) (c : Conversation)
    → check_subject host (strip raw_type) (strip raw_key) ≡ ok tt
    → find_direct (key_of host owner other scope raw_type raw_key) w ≡ some c
    → create_direct host between owner other scope raw_type raw_key w ≡ (ok c, w)
unfolding create_direct
create_direct-known host between owner other scope raw_type raw_key w c e h = ground arith

create_new_direct-found :
    (host : Host) (between : World → World) (t : NewThread) (owner other : ℕ) (w v : World)
    (c : Conversation)
    → is_direct t.kind ≡ true
    → create_new_direct host between t owner other w ≡ (ok c, v)
    → find_direct t.direct_key v ≡ some c
unfolding create_new_direct
create_new_direct-found host between t owner other w v c kind h =
    let u = between (refuse_pairs host ((owner, other) ∷ []) w).1 in
    let made : winner_or_raise t.direct_key (create_row t owner other u) ≡ (ok c, v) =
      ground arith in
    created_found t owner other u v c kind made

create_direct-checked :
    (host : Host) (between : World → World) (owner other : ℕ) (scope raw_type raw_key : Text)
    (w v : World) (c : Conversation)
    → create_direct host between owner other scope raw_type raw_key w ≡ (ok c, v)
    → check_subject host (strip raw_type) (strip raw_key) ≡ ok tt
unfolding create_direct
create_direct-checked host between owner other scope raw_type raw_key w v c h = ground arith

create_direct-found :
    (host : Host) (between : World → World) (owner other : ℕ) (scope raw_type raw_key : Text)
    (w v : World) (c : Conversation)
    → create_direct host between owner other scope raw_type raw_key w ≡ (ok c, v)
    → find_direct (key_of host owner other scope raw_type raw_key) v ≡ some c
unfolding create_direct
create_direct-found host between owner other scope raw_type raw_key w v c h =
    let key = key_of host owner other scope raw_type raw_key in
    let t = direct_thread scope key (strip raw_type) (strip raw_key) in
    elim (Option-cases (find_direct key w)) [
      | inr (known, e) ↦ ground arith
      | inl free ↦
          let made : create_new_direct host between t owner other w ≡ (ok c, v) = ground arith in
          create_new_direct-found host between t owner other w v c refl made
    ]

-- Once a request for a direct thread has returned one, the same request by either of the two
-- returns that thread and changes nothing, whatever other requests came before the first one's
-- write.
pub create_direct_idempotent :
    (host : Host) (between between' : World → World) (owner other : ℕ)
    (scope raw_type raw_key : Text) (w v : World) (c : Conversation)
    → create_direct host between owner other scope raw_type raw_key w ≡ (ok c, v)
    → (create_direct host between' owner other scope raw_type raw_key v ≡ (ok c, v))
      × (create_direct host between' other owner scope raw_type raw_key v ≡ (ok c, v))
create_direct_idempotent host between between' owner other scope raw_type raw_key w v c h =
    let checked = create_direct-checked host between owner other scope raw_type raw_key w v c h in
    let found = create_direct-found host between owner other scope raw_type raw_key w v c h in
    let same_key = direct_key_comm host.spell scope other owner (strip raw_type) (strip raw_key) in
    (
      create_direct-known host between' owner other scope raw_type raw_key v c checked found,
      create_direct-known host between' other owner scope raw_type raw_key v c checked
          (rw same_key found),
    )
