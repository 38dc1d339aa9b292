-- ===== src/Witnesses/Reads.antt =====
-- The theorems on cards, the search and moderation, applied to a deployment with one subject type.
use stapel_chat.Base.{
  All, Option, [], any, codes, has_code, is_some, none, refl, some, text_eq, ℕ, ◌&&◌, ◌∷◌, ◌≡◌, ◌≤◌,
}
use stapel_chat.Model.{Conversation}
use stapel_chat.Moderation.{media_keys, moderation_content, with_media}
use stapel_chat.Moderation.Keys.{compose_key, moderation_content_own_key}
use stapel_chat.Samples.{chat, direct_row, hello, sample_host}
use stapel_chat.Search.{subject_title_matches}
use stapel_chat.Search.Titles.{IsTitled, subject_title_matches_bounded}
use stapel_chat.Sending.{get_conversation}
use stapel_chat.Settings.{Host}
use stapel_chat.Subjects.{Cards, Subject, card_for, is_named, resolve_cards, same_subject}
use stapel_chat.Subjects.Coverage.{IsExplained, resolve_cards_answers}
use stapel_chat.Values.{Json, end, field, obj, str}
use stapel_chat.World.{Result, err, message_not_found, ok}

-- Listings, whose owner answers a card with a title for the one key it has.
abbrev titled_card : Json
titled_card = obj (field (codes "title") (str (codes "Bike")) end)

abbrev listing_host : Host
listing_host = record sample_host {
  subject_types =
      (
        codes "listing",
        some (record {
          card_function = some (codes "classified.subject_cards");
          request_field = none;
          response_field = none;
          search_fields = none;
        }),
      )
      ∷ [];
  ask_cards = λ name request keys.
      some (obj (field (codes "cards") (obj (field (codes "7") titled_card end)) end));
}

abbrev listed_row : Conversation
listed_row = record direct_row { subject_type = codes "listing"; subject_key = codes "7" }

abbrev bike : Subject
bike = (codes "listing", codes "7")

abbrev cards_of : Result Cards → Cards
cards_of (ok cards) = cards
cards_of (err e) = []

abbrev bike_cards : Cards
bike_cards = cards_of (resolve_cards listing_host (bike ∷ []))

bike_resolved : resolve_cards listing_host (bike ∷ []) ≡ ok bike_cards
unfolding resolve_cards
bike_resolved = refl

resolve_cards_answers_example :
    ((s : Subject)
      → is_some (card_for s bike_cards) ≡ any (λ q. is_named q && same_subject q s) (bike ∷ []))
    × All (λ e. IsExplained e.1) bike_cards
resolve_cards_answers_example =
    resolve_cards_answers listing_host (bike ∷ []) bike_cards bike_resolved

bike_found :
    subject_title_matches listing_host (codes "ik") (listed_row ∷ []) ≡ ok (1 ∷ [], bike_cards)
unfolding subject_title_matches resolve_cards
bike_found = refl

subject_title_matches_bounded_example :
    (1 ≤ 500) × All (IsTitled listing_host (codes "ik") (listed_row ∷ []) bike_cards) (1 ∷ [])
subject_title_matches_bounded_example =
    subject_title_matches_bounded listing_host (codes "ik") (listed_row ∷ []) (1 ∷ []) bike_cards
      bike_found

-- A host that reads back the text it spells an id with.
abbrev read_spelled : Json → Option (Option ℕ)
read_spelled (str (n ∷ [])) = some (some n)
read_spelled _ = none

abbrev spelling_host : Host
spelling_host = record sample_host { read_id = read_spelled }

moderation_content_own_key_example :
    (moderation_content spelling_host (compose_key (1 ∷ []) (10 ∷ [])) chat
      ≡ with_media hello direct_row (media_keys spelling_host []))
    × (moderation_content spelling_host (10 ∷ []) chat
        ≡ with_media hello direct_row (media_keys spelling_host []))
    × (moderation_content spelling_host (compose_key (3 ∷ []) (10 ∷ [])) chat
        ≡ err message_not_found)
unfolding has_code get_conversation text_eq
moderation_content_own_key_example =
    moderation_content_own_key spelling_host chat hello direct_row (3 ∷ []) refl refl refl refl refl
      refl refl
