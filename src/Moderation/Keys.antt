-- ===== src/Moderation/Keys.antt =====
-- The composite key of a message: what it names, and what it does not.
use stapel_chat.Base.{
  Text, [], arith, false, has_code, is_empty, none, refl, some, split_last, text_eq, text_eq_self,
  true, ℕ, ◌++◌, ◌∙◌, ◌∷◌, ◌≡◌,
}
use stapel_chat.Model.{Conversation, Message, is_deleted}
use stapel_chat.Moderation.{
  content_in, media_keys, message_with_id, moderation_content, named_message, split_message_key,
  with_media,
}
use stapel_chat.Sending.{get_conversation}
use stapel_chat.Settings.{Host}
use stapel_chat.Values.{str}
use stapel_chat.World.{World, err, message_not_found}

-- `f"{conversation_id}:{message_id}"`
abbrev pub compose_key : Text → Text → Text
compose_key half key = half ++ b':' ∷ key

split_last-none : (k : ℕ) (t : Text) → has_code k t ≡ false → split_last k t ≡ none
unfolding split_last has_code
split_last-none k [] e = refl
split_last-none k (c ∷ t) e = ground (arith, split_last-none k t)

split_last-append :
    (k : ℕ) (s t : Text) → has_code k t ≡ false → split_last k (s ++ k ∷ t) ≡ some (s, t)
unfolding split_last
split_last-append k [] t e = rw (split_last-none k t e) (ground arith)
split_last-append k (c ∷ s) t e = rw (split_last-append k s t e) refl

-- The halves that a key is composed of come back, where the message half has no separator.
pub split_message_key-compose_key :
    (half key : Text)
    → has_code b':' key ≡ false
    → split_message_key (compose_key half key) ≡ (half, key)
unfolding split_message_key
split_message_key-compose_key half key e =
    rw (split_last-append b':' half key e, split_message_key) refl

split_message_key-bare :
    (key : Text) → has_code b':' key ≡ false → split_message_key key ≡ ([], key)
unfolding split_message_key
split_message_key-bare key e = rw (split_last-none b':' key e, split_message_key) refl

content-found :
    (host : Host) (target half key : Text) (w : World) (m : Message) (c : Conversation)
    → split_message_key target ≡ (half, key)
    → named_message host key w ≡ some m
    → get_conversation m.conversation w ≡ some c
    → is_deleted m ≡ false
    → moderation_content host target w ≡ content_in host half m (some c)
unfolding moderation_content
content-found host target half key w m c split named stored live =
    rw (split, named, live, stored) refl

-- A live message is read by the key that its own conversation and its own id compose, and by its
-- id alone; under the id of another conversation there is no message.
-- Django reads back the text of an id, and it has no separator in it.
pub moderation_content_own_key :
    (host : Host) (w : World) (m : Message) (c : Conversation) (other : Text)
    → host.read_id (str (host.spell m.id)) ≡ some (some m.id)
    → has_code b':' (host.spell m.id) ≡ false
    → message_with_id m.id w ≡ some m
    → get_conversation m.conversation w ≡ some c
    → is_deleted m ≡ false
    → is_empty other ≡ false
    → text_eq (host.spell c.id) other ≡ false
    → (moderation_content host (compose_key (host.spell c.id) (host.spell m.id)) w
        ≡ with_media m c (media_keys host m.attachments))
      × (moderation_content host (host.spell m.id) w
          ≡ with_media m c (media_keys host m.attachments))
      × (moderation_content host (compose_key other (host.spell m.id)) w ≡ err message_not_found)
moderation_content_own_key host w m c other reads plain row stored live full ne =
    let named : named_message host (host.spell m.id) w ≡ some m = rw (reads, named_message) row in
    let own = host.spell c.id in
    let key = host.spell m.id in
    (
      content-found host (compose_key own key) own key w m c
            (split_message_key-compose_key own key plain) named stored live
          ∙ ground (arith, text_eq_self own),
      content-found host key [] key w m c (split_message_key-bare key plain) named stored live,
      content-found host (compose_key other key) other key w m c
            (split_message_key-compose_key other key plain) named stored live
          ∙ ground arith,
    )

-- A tombstone is gone under every key that names it.
pub moderation_content_gone :
    (host : Host) (w : World) (m : Message) (half key : Text)
    → has_code b':' key ≡ false
    → named_message host key w ≡ some m
    → is_deleted m ≡ true
    → moderation_content host (compose_key half key) w ≡ err message_not_found
unfolding moderation_content
moderation_content_gone host w m half key plain named dead =
    rw (split_message_key-compose_key half key plain, named, dead) refl
