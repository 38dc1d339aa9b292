-- ===== src/Witnesses/Accounts.antt =====
-- The theorems on merging, direct threads, blocks and registries, applied to the sample chat.
use stapel_chat.Activity.{builtin_activity_states}
use stapel_chat.Base.{
  All, List, Pairwise, [], any, arith, codes, false, lookup, map, none, refl, some, strip, text_eq,
  true, ℕ, ◌||◌, ◌∷◌, ◌≡◌, ◌≢◌, ◌⊎◌,
}
use stapel_chat.Blocks.{
  any_hit, auto, blocked_pairs, distinct_pairs, enforcement_mode, provider_unreachable,
}
use stapel_chat.Blocks.Outage.{verdict_has_source}
use stapel_chat.Creation.{
  check_subject, create_direct, create_new_direct, create_row, direct_thread, find_direct,
  thread_row, winner_or_raise,
}
use stapel_chat.Creation.Direct.{create_direct_idempotent}
use stapel_chat.Membership.{is_member}
use stapel_chat.Merging.{handle_user_merged, merge_participations, owns_something}
use stapel_chat.Merging.Forgotten.{IsTakenBack, gdpr_delete-export}
use stapel_chat.Merging.Gdpr.{
  ExportedMessage, delete_dead_threads, drop_memberships, gdpr_delete, gdpr_export, revoke_all,
}
use stapel_chat.Merging.Redelivery.{merged_once}
use stapel_chat.Merging.Seats.{IdsApart, merge_participations_seats}
use stapel_chat.Model.{Conversation, Message, direct_key_of, group}
use stapel_chat.Registry.{effective}
use stapel_chat.Registry.Lookup.{Apart, lookup-effective}
use stapel_chat.Samples.{blocked_host, chat, direct_row, hello, sample_host}
use stapel_chat.Sending.{get_conversation, store_last_seq}
use stapel_chat.Sending.Changes.{
  announce_rows, authored_rows, distinct_ids, erase_each, erase_in, erase_rows, erase_user_messages,
  store_message,
}
use stapel_chat.Sending.Post.{refuse_pairs}
use stapel_chat.World.{World, ok}

pair_1_2 : distinct_pairs ((1, 2) ∷ []) ≢ []
pair_1_2 e = absurd (ground arith)

-- The account 1 is merged into 9, and the event comes again.
abbrev merged : World
merged = (handle_user_merged sample_host true 1 9 chat).1

one_merged : handle_user_merged sample_host true 1 9 chat ≡ (ok tt, merged)
unfolding handle_user_merged
one_merged = refl

merged_once_example :
    (owns_something 1 merged ≡ false)
    × (handle_user_merged sample_host false 1 9 merged ≡ (ok tt, merged))
merged_once_example =
    merged_once sample_host true false 1 9 chat merged (λ e. omega (arith, e)) one_merged

-- The users 1 and 7 get a thread, which did not exist.
abbrev quiet : World → World
quiet w = w

abbrev opened : World
opened = (create_direct sample_host quiet 1 7 [] [] [] chat).1

abbrev opened_row : Conversation
opened_row = thread_row (direct_thread [] (direct_key_of (λ n. n ∷ []) [] 1 7 [] []) [] []) 20 1000

thread_opened : create_direct sample_host quiet 1 7 [] [] [] chat ≡ (ok opened_row, opened)
unfolding create_direct check_subject strip find_direct direct_key_of create_new_direct refuse_pairs
    blocked_pairs any_hit winner_or_raise create_row
thread_opened = refl

create_direct_idempotent_example :
    (create_direct sample_host quiet 1 7 [] [] [] opened ≡ (ok opened_row, opened))
    × (create_direct sample_host quiet 7 1 [] [] [] opened ≡ (ok opened_row, opened))
create_direct_idempotent_example =
    create_direct_idempotent sample_host quiet quiet 1 7 [] [] [] chat opened opened_row
      thread_opened

-- The builtin states have apart names, and the settings remove one of them.
states-Apart : Pairwise Apart builtin_activity_states
unfolding text_eq
states-Apart = (
  (refl, (refl, (refl, (refl, tt)))),
  ((refl, (refl, (refl, tt))), ((refl, (refl, tt)), ((refl, tt), (tt, tt)))),
)

lookup-effective_example :
    lookup (codes "typing") (effective builtin_activity_states ((codes "typing", none) ∷ []) [])
    ≡ none
unfolding lookup text_eq
lookup-effective_example =
    lookup-effective (codes "typing") builtin_activity_states ((codes "typing", none) ∷ []) []
      states-Apart

verdict_has_source_example :
    ((provider_unreachable blocked_host ≡ true)
      × (enforcement_mode blocked_host ≡ auto)
      × (◌≡◌ {A = List (ℕ × ℕ)} ((2, 1) ∷ []) []))
    ⊎ ((provider_unreachable blocked_host ≡ false)
        × (blocked_host.ask_blocked (distinct_pairs ((1, 2) ∷ [])) ≡ some ((2, 1) ∷ [])))
unfolding blocked_pairs enforcement_mode provider_unreachable strip
verdict_has_source_example =
    verdict_has_source blocked_host ((1, 2) ∷ []) ((2, 1) ∷ []) pair_1_2 (λ e. ground arith) refl

seats-IdsApart : Pairwise IdsApart chat.participants
seats-IdsApart = ((refl, (refl, tt)), ((refl, tt), (tt, tt)))

merge_participations_seats_example :
    any (is_member 3 9) (merge_participations 1 9 chat).participants
    ≡ (any (is_member 3 9) chat.participants || any (is_member 3 1) chat.participants)
merge_participations_seats_example =
    merge_participations_seats 1 9 3 chat (λ e. omega (arith, e)) seats-IdsApart

-- A group in which the user 1 has taken one message back and has another one standing.
abbrev taken_back : Message
taken_back = record hello { body = []; deleted_at = some 500 }

abbrev standing : Message
standing = record hello { id = 11; seq = 2; rev_seq = 2 }

abbrev group_chat : World
group_chat = record chat {
  conversations = record direct_row { kind = group; last_seq = 2 } ∷ [];
  messages = taken_back ∷ standing ∷ [];
}

abbrev forgotten : World
forgotten = (gdpr_delete 1 group_chat).1

one_forgotten : gdpr_delete 1 group_chat ≡ (ok tt, forgotten)
unfolding gdpr_delete erase_user_messages erase_each erase_in get_conversation authored_rows
    distinct_ids
one_forgotten = refl

gdpr_delete-export_example :
    ((gdpr_export 1 forgotten).participations ≡ [])
    × All (IsTakenBack 1 group_chat.messages) (gdpr_export 1 forgotten).messages
gdpr_delete-export_example = gdpr_delete-export 1 group_chat forgotten one_forgotten

-- What was taken back before is still listed under its author.
taken_back_listed : map (λ (m : ExportedMessage). m.id) (gdpr_export 1 forgotten).messages ≡ 10 ∷ []
unfolding gdpr_export gdpr_delete erase_user_messages erase_each erase_in get_conversation
    authored_rows distinct_ids erase_rows store_message revoke_all drop_memberships
    delete_dead_threads announce_rows store_last_seq
taken_back_listed = refl
