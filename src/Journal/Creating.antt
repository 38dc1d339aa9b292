-- ===== src/Journal/Creating.antt =====
-- Creating a thread, as a run of the journal.
use stapel_chat.Base.{
  Bool-cases, List, Option, Option-cases, Text, [], arith, inl, inr, is_some, none, refl, some,
  strip, subst, sym, ℕ, ◌++◌, ◌==◌, ◌||◌, ◌∷◌, ◌≡◌, ◌≤◌,
}
use stapel_chat.Blocks.{any_hit, blocked_pairs}
use stapel_chat.Creation.{
  NewThread, add_member, add_members, check_subject, create_direct, create_group, create_new_direct,
  create_row, create_support, direct_thread, distinct_members, find_direct, found_or_new,
  group_thread, insert_thread, open_new, open_thread, support_thread, thread_row, winner_or_raise,
}
use stapel_chat.Creation.Direct.{open_thread_conversations}
use stapel_chat.Journal.{Grows, IsJournal, RunFrom, done, last_seq_of, next, reserved}
use stapel_chat.Journal.Rules.{
  Journals, Journals-bind, Journals-gotten, Journals-lifted, Journals-pure, Journals-raise_if,
}
use stapel_chat.Model.{Conversation, direct_key_of}
use stapel_chat.Sending.Post.{refuse_pairs}
use stapel_chat.Settings.{Host}
use stapel_chat.World.{Exec, Result, World, err, gets, modify, ok, raise_if, send_refused, ◌>>=◌}

-- What leaves the messages alone and takes nothing back.
pub record Quiet (w w' : World) : Type 0 where
  pub quiet_messages : w'.messages ≡ w.messages
  pub quiet_grows : Grows w w'

pub Journals-Quiet : {A : Type 0} (m : Exec A) → ((w : World) → Quiet w (m w).1) → Journals m
Journals-Quiet m h = record {
  at = λ w j. let q = h w in next done (reserved q.quiet_messages q.quiet_grows);
}

pub Grows-refl : (w : World) → Grows w w
Grows-refl w = record { next_grows = omega arith; last_grows = λ cid. omega arith }

pub Quiet-refl : (w : World) → Quiet w w
Quiet-refl w = record { quiet_messages = refl; quiet_grows = Grows-refl w }

-- A new row takes no sequence of another.
last_seq_of-append :
    (cs : List Conversation) (c : Conversation) (cid : ℕ)
    → last_seq_of cs cid ≤ last_seq_of (cs ++ c ∷ []) cid
unfolding last_seq_of
last_seq_of-append [] c cid = omega arith
last_seq_of-append (d ∷ cs) c cid = elim (Bool-cases (d.id == cid)) [
  | inl e ↦ rw e (omega arith)
  | inr e ↦ rw e (last_seq_of-append cs c cid)
]

add_members-next :
    (cid : ℕ) (users : List ℕ) (w : World) → w.next_id ≤ (add_members cid users w).next_id
unfolding add_members add_member
add_members-next cid [] w = omega arith
add_members-next cid (u ∷ users) w = omega (arith, add_members-next cid users (add_member cid u w))

add_members-messages :
    (cid : ℕ) (users : List ℕ) (w : World) → (add_members cid users w).messages ≡ w.messages
unfolding add_members add_member
add_members-messages cid [] w = refl
add_members-messages cid (u ∷ users) w = add_members-messages cid users (add_member cid u w)

open_thread-Quiet :
    (t : NewThread) (creator : ℕ) (members : List ℕ) (w : World)
    → Quiet w (open_thread t creator members w)
unfolding insert_thread
open_thread-Quiet t creator members w =
    let opened = insert_thread t w in
    record {
      quiet_messages = unfold open_thread in add_members-messages w.next_id members opened;
      quiet_grows = record {
        next_grows = unfold open_thread in omega (arith, add_members-next w.next_id members opened);
        last_grows = λ cid.
            subst (λ cs. last_seq_of w.conversations cid ≤ last_seq_of cs cid)
              (sym (open_thread_conversations t creator members w))
              (last_seq_of-append w.conversations (thread_row t w.next_id w.clock) cid);
      };
    }

create_row-Quiet :
    (t : NewThread) (owner other : ℕ) (w : World) → Quiet w (create_row t owner other w).1
unfolding create_row
create_row-Quiet t owner other w =
    elim (Bool-cases (is_some (find_direct t.direct_key w) || owner == other)) [
      | inl taken ↦ rw taken (Quiet-refl w)
      | inr free ↦ rw free (open_thread-Quiet t owner (owner ∷ other ∷ []) w)
    ]

winner-same : (key : Text) (o : Result Conversation × World) → (winner_or_raise key o).1 ≡ o.1
unfolding winner_or_raise find_direct
winner-same key (ok c, w) = refl
winner-same key (err e, w) = elim (Option-cases (find_direct key w)) [
  | inl h ↦ rw (h, winner_or_raise) refl
  | inr (c, h) ↦ rw (h, winner_or_raise) refl
]

refuse_pairs-Journals : (host : Host) (pairs : List (ℕ × ℕ)) → Journals (refuse_pairs host pairs)
unfolding refuse_pairs
refuse_pairs-Journals host pairs =
    Journals-lifted (blocked_pairs host pairs) (λ hits. raise_if (any_hit hits pairs) send_refused)
      (λ hits. Journals-raise_if (any_hit hits pairs) send_refused)

module _ (host : Host) (between : World → World)
    (others : (w : World) → IsJournal w → RunFrom w (between w)) where
  create_new_direct-Journals :
      (t : NewThread) (owner other : ℕ) → Journals (create_new_direct host between t owner other)
  unfolding create_new_direct
  create_new_direct-Journals t owner other =
      Journals-bind (refuse_pairs host ((owner, other) ∷ [])) _ (refuse_pairs-Journals host _) (λ u.
        Journals-bind (modify between) _ (record { at = others })
          (λ v.
            Journals-Quiet (λ w. winner_or_raise t.direct_key (create_row t owner other w))
              (λ w.
                subst (Quiet w) (sym (winner-same t.direct_key (create_row t owner other w)))
                  (create_row-Quiet t owner other w))))

  found_or_new-Journals :
      (o : Option Conversation) (m : Exec Conversation) → Journals m → Journals (found_or_new o m)
  found_or_new-Journals none m h = h
  found_or_new-Journals (some c) m h = Journals-pure c

  pub create_direct-Journals :
      (owner other : ℕ) (scope raw_type raw_key : Text)
      → Journals (create_direct host between owner other scope raw_type raw_key)
  unfolding create_direct
  create_direct-Journals owner other scope raw_type raw_key =
      let t = strip raw_type in
      let k = strip raw_key in
      let key = direct_key_of host.spell scope owner other t k in
      let new : Exec Conversation =
        create_new_direct host between (direct_thread scope key t k) owner other in
      Journals-lifted (check_subject host t k)
        (λ u. gets (find_direct key) >>= (λ existing. found_or_new existing new))
        (λ u.
          Journals-gotten (find_direct key) (λ existing. found_or_new existing new)
            (λ existing.
              found_or_new-Journals existing new
                (create_new_direct-Journals (direct_thread scope key t k) owner other)))

open_new-Journals :
    (t : NewThread) (creator : ℕ) (members : List ℕ) → Journals (open_new t creator members)
open_new-Journals t creator members =
    Journals-Quiet (open_new t creator members) (open_thread-Quiet t creator members)

pub create_group-Journals :
    (host : Host) (owner : ℕ) (users : List ℕ) (scope raw_type raw_key : Text)
    → Journals (create_group host owner users scope raw_type raw_key)
unfolding create_group
create_group-Journals host owner users scope raw_type raw_key =
    let t = group_thread scope (strip raw_type) (strip raw_key) in
    let members = owner ∷ distinct_members (owner ∷ []) users in
    Journals-lifted (check_subject host (strip raw_type) (strip raw_key))
      (λ u. open_new t owner members) (λ u. open_new-Journals t owner members)

pub create_support-Journals :
    (customer : ℕ) (scope : Text) → Journals (create_support customer scope)
unfolding create_support
create_support-Journals customer scope =
    open_new-Journals (support_thread scope) customer (customer ∷ [])
