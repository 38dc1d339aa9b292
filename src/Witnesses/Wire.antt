-- ===== src/Witnesses/Wire.antt =====
-- The theorems on sockets, leases, the wire and the claims of media, applied to the small chat.
use stapel_chat.Backfill.{Pass, backfill_cdn_refs, live_rows}
use stapel_chat.Backfill.Slice.{backfill_cdn_refs-eq, claim_of, has_refs, slice}
use stapel_chat.Base.{
  Bool, In, List, Text, [], any, arith, codes, false, filter, inl, length, ltb, map, refl, some,
  true, ℕ, ◌&&◌, ◌+◌, ◌∷◌, ◌≡◌, ◌⊎◌,
}
use stapel_chat.Checks.{
  at_least, check_presence_windows, floor_issues, throttle_issues, window_issues,
}
use stapel_chat.Membership.{is_member}
use stapel_chat.Model.{Message, UserPresence}
use stapel_chat.Presence.{on_disconnect, presence_of, touch}
use stapel_chat.Presence.Lease.{touch_keeps_online}
use stapel_chat.Presence.Transitions.{connections_of, online_in}
use stapel_chat.Realtime.{message_payload}
use stapel_chat.Realtime.Delivery.{Delivery, conversation_stream, deliver_frame, deliveries}
use stapel_chat.Samples.{chat, direct_row, hello, sample_host}
use stapel_chat.Sending.{message_refs, schedule_fanout}
use stapel_chat.Socket.Counted.{IsCounted, happen_all-IsCounted}
use stapel_chat.Socket.Gate.{authorize, schedule_fanout_admitted, thread_door}
use stapel_chat.Socket.Presence.{
  Connection, Happening, closing, happen_all, incoming, opening, passing, sockets_of,
}
use stapel_chat.Values.{str}
use stapel_chat.World.{World}

-- The user 1 opens two tabs, one of which is refused, and 2 opens one; a frame comes in, time
-- passes, and a tab of 1 closes.
abbrev tabs : List Happening
tabs =
    opening true true (some 1)
    ∷ opening true false (some 1)
    ∷ opening true true (some 2)
    ∷ passing 20
    ∷ incoming true 2 50
    ∷ opening true true (some 1)
    ∷ closing true 3
    ∷ []

abbrev after_tabs : List Connection × World
after_tabs = happen_all sample_host tabs ([], chat)

chat-IsCounted : IsCounted ([], chat)
unfolding presence_of sockets_of
chat-IsCounted user = refl

happen_all-IsCounted_example :
    (connections_of after_tabs.1 1 ≡ sockets_of 1 after_tabs.0)
    × (online_in after_tabs.1 1 ≡ (ltb 0 (sockets_of 1 after_tabs.0) && online_in after_tabs.1 1))
happen_all-IsCounted_example =
    happen_all-IsCounted sample_host tabs [] chat 1
      (refl, (refl, (refl, (tt, (refl, (refl, (refl, tt))))))) chat-IsCounted

-- One tab is left of those that counted for 1.
one_tab_left : sockets_of 1 after_tabs.0 ≡ 1
unfolding happen_all sockets_of
one_tab_left = refl

abbrev live_row : UserPresence
live_row = record { user = 1; connections = 2; online_until = some 1050; last_seen_at = some 990 }

abbrev online_chat : World
online_chat = record chat { presences = live_row ∷ [] }

windows_pass : window_issues sample_host ≡ []
unfolding check_presence_windows floor_issues throttle_issues at_least
windows_pass = refl

one_is_live : presence_of 1 online_chat ≡ some live_row
unfolding presence_of
one_is_live = refl

touch_keeps_online_example : online_in (touch sample_host 1 online_chat).1 1 ≡ true
touch_keeps_online_example =
    touch_keeps_online sample_host 1 990 online_chat live_row windows_pass one_is_live (refl, refl)
      (omega arith)

-- The same person, whose lease ends five seconds from now.
abbrev ending_row : UserPresence
ending_row = record live_row { online_until = some 1005 }

abbrev ending_chat : World
ending_chat = record chat { presences = ending_row ∷ [] }

abbrev starved_chat : World
starved_chat =
    let later = record (on_disconnect sample_host 1 ending_chat).1 { clock = 1010 } in
    (touch sample_host 1 later).1

-- The frame of the one message, and its author's socket on the thread.
abbrev hello_frame : Delivery
hello_frame = deliver_frame (conversation_stream 1) (message_payload hello) 1

hello_wired : In hello_frame (deliveries (schedule_fanout hello direct_row chat).scheduled)
unfolding deliveries schedule_fanout message_payload mathlib.Core.List.flat_map
hello_wired = inl refl

one_admitted : authorize sample_host chat (thread_door (1 ∷ [])) (some 1) ≡ true
unfolding authorize
one_admitted = refl

schedule_fanout_admitted_example :
    In hello_frame (deliveries chat.scheduled) ⊎ (any (is_member 1 1) chat.participants ≡ true)
schedule_fanout_admitted_example =
    schedule_fanout_admitted sample_host hello direct_row chat hello_frame (thread_door (1 ∷ [])) 1
      hello_wired refl one_admitted

-- Two messages with a picture each, and a limit of none.
abbrev pictured : Message
pictured = record hello { attachments = str (codes "image/a") ∷ [] }

abbrev gallery : World
gallery = record chat {
  messages = pictured ∷ record pictured { id = 9; seq = 2; rev_seq = 2 } ∷ [];
}

abbrev bus_answers : ℕ → List Text → Bool
bus_answers message refs = true

abbrev chosen : List Message
chosen = slice (some 0) 0 (filter has_refs (live_rows gallery))

abbrev pass : Pass
pass = backfill_cdn_refs bus_answers false (some 0) gallery

backfill_cdn_refs-eq_example :
    (pass.0.candidates ≡ length chosen)
    × ((pass.0.published + pass.0.failed ≡ length chosen) × (pass.1 ≡ map claim_of chosen))
backfill_cdn_refs-eq_example = backfill_cdn_refs-eq bus_answers false (some 0) gallery

limit_0_claims_one : map (λ (m : Message). m.id) chosen ≡ 9 ∷ []
unfolding message_refs
limit_0_claims_one = refl
