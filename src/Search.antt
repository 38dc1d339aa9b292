-- ===== src/Search.antt =====
-- services.py, what a page of the inbox draws and finds: the flattened preview, the cards and the
-- presence of a page, and the two filters of the list.
pub mod Titles
use stapel_chat.Base.{
  Bool, List, Option, Text, [], any, false, filter, if◌then◌else◌, is_empty, is_some, is_space,
  length, ltb, map, none, not, order_by, reverse, some, strip, take, true, ℕ, ◌&&◌, ◌++◌, ◌+◌, ◌==◌,
  ◌||◌, ◌∷◌,
}
use stapel_chat.History.{cleared_at_of}
use stapel_chat.Inbox.{last_line_found, last_message_of}
use stapel_chat.Membership.{viewer_unread}
use stapel_chat.Model.{Conversation, Message, Participant}
use stapel_chat.Settings.{Host}
use stapel_chat.Subjects.{
  Cards, Resolution, Subject, card_for, card_matches, is_named, resolve_cards,
}
use stapel_chat.Values.{Json, null}
use stapel_chat.World.{Result, World, err, ok}

-- `PREVIEW_MAX_CHARS`
abbrev pub preview_max_chars : ℕ
preview_max_chars = 140

-- `" ".join(text.split())`: the words, one space between two
unfoldable pub flatten : Bool → Text → Text
unfolding is_space
flatten spaced [] = []
flatten spaced (c ∷ cs) =
    let inside = flatten false cs in
    let after = flatten true cs in
    if is_space c then after else if spaced then b' ' ∷ c ∷ inside else c ∷ inside

-- `preview_of`
unfoldable pub preview_of : Host → Option Text → Option Text
unfolding flatten strip
preview_of host none = none
preview_of host (some t) =
    let flat = flatten false (strip t) in
    if is_empty flat then none else some (host.truncate preview_max_chars flat)

abbrev pub subject_of : Conversation → Subject
subject_of c = (c.subject_type, c.subject_key)

abbrev pub subjects_of : List Conversation → List Subject
subjects_of cs = filter is_named (map subject_of cs)

-- `known`, once the missing pairs have been resolved: what the caller had goes first, since the
-- pairs that are fetched are the others
unfoldable pub missing_subjects : Cards → List Subject → List Subject
unfolding card_for
missing_subjects known [] = []
missing_subjects known (s ∷ pairs) =
    let rest = missing_subjects known pairs in if is_some (card_for s known) then rest else s ∷ rest

abbrev pub cards_by_thread : Cards → List Conversation → List (ℕ × Resolution)
cards_by_thread known [] = []
cards_by_thread known (c ∷ cs) =
    let rest = cards_by_thread known cs in
    elim (card_for (subject_of c) known) [ none ↦ rest | some r ↦ (c.id, r) ∷ rest ]

abbrev joined_cards : Cards → List Conversation → Result Cards → Result (List (ℕ × Resolution))
joined_cards known cs (err e) = err e
joined_cards known cs (ok more) = ok (cards_by_thread (known ++ more) cs)

-- `subject_cards_for`
unfoldable pub subject_cards_for : Host → List Conversation → Cards → Result (List (ℕ × Resolution))
unfolding resolve_cards missing_subjects card_for
subject_cards_for host cs resolved = elim (subjects_of cs) [
  | [] ↦ ok []
  | s ∷ pairs ↦
      joined_cards resolved cs (resolve_cards host (missing_subjects resolved (s ∷ pairs)))
]

-- `order_by("-updated_at")`
abbrev pub newest_first : List Conversation → List Conversation
newest_first cs = reverse (order_by (λ (c : Conversation). c.updated_at) cs)

-- The rows that a title search scans: `[: limit + 1]` tells whether there are more.
unfoldable pub scanned_rows : ℕ → List Conversation → List Conversation
scanned_rows limit cs =
    let rows = take (limit + 1) (newest_first (filter (λ c. is_named (subject_of c)) cs)) in
    if ltb limit (length rows) then take limit rows else rows

-- `(resolved.get(pair) or {}).get("card")`
abbrev card_or_null : Option Resolution → Json
card_or_null none = null
card_or_null (some r) = r.card

abbrev pub title_matches : Host → Text → Cards → Conversation → Bool
title_matches host needle cards c =
    card_matches host c.subject_type (card_or_null (card_for (subject_of c) cards)) needle

abbrev pub matched_titles : Host → Text → List Conversation → Result Cards → Result (List ℕ × Cards)
matched_titles host needle rows (err e) = err e
matched_titles host needle rows (ok cards) =
    ok (map (λ (c : Conversation). c.id) (filter (title_matches host needle cards) rows), cards)

-- `_subject_title_matches`
unfoldable pub subject_title_matches : Host → Text → List Conversation → Result (List ℕ × Cards)
unfolding scanned_rows resolve_cards card_matches card_for
subject_title_matches host needle cs =
    if host.search_subject_scan == 0
    then ok ([], [])
    else (let rows = scanned_rows host.search_subject_scan cs in
        matched_titles host needle rows (resolve_cards host (map subject_of rows)))

-- Somebody else in the thread has a name with the needle in it.
unfoldable pub counterpart_matches : Host → World → ℕ → Text → Conversation → Bool
unfolding strip
counterpart_matches host w viewer needle c =
    any
      (λ (p : Participant).
        p.conversation == c.id
        && (not (p.user == viewer)
            && any (λ path. host.user_matches (strip path) needle p.user) host.search_name_fields))
      w.participants

-- `_last_line_q` on the annotations of the row, which are the viewer's
abbrev found_or_empty : Host → Text → Option Message → Bool
found_or_empty host needle none = false
found_or_empty host needle (some m) = last_line_found host needle m

unfoldable pub last_line_matches : Host → World → ℕ → Text → Conversation → Bool
unfolding last_line_found last_message_of cleared_at_of
last_line_matches host w viewer needle c =
    found_or_empty host needle (last_message_of w c.id (cleared_at_of w c.id viewer))

abbrev pub row_matches : Host → World → ℕ → Text → List ℕ → Conversation → Bool
row_matches host w viewer needle titles c =
    counterpart_matches host w viewer needle c
    || last_line_matches host w viewer needle c
    || any (λ (k : ℕ). k == c.id) titles

abbrev pub Found : Type 0
Found = List Conversation × Cards

abbrev matched_rows :
    Host → World → ℕ → Text → List Conversation → Result (List ℕ × Cards) → Result Found
matched_rows host w viewer needle cs (err e) = err e
matched_rows host w viewer needle cs (ok (titles, cards)) =
    ok (filter (row_matches host w viewer needle titles) cs, cards)

-- `_search_inbox`
unfoldable pub search_inbox : Host → World → ℕ → Text → List Conversation → Result Found
unfolding strip subject_title_matches counterpart_matches last_line_matches
search_inbox host w viewer search cs =
    let needle = strip search in
    if is_empty needle
    then ok (cs, [])
    else matched_rows host w viewer needle cs (subject_title_matches host needle cs)

-- `filter_inbox`
unfoldable pub filter_inbox : Host → World → ℕ → Text → Bool → List Conversation → Result Found
unfolding search_inbox viewer_unread
filter_inbox host w viewer search unread_only cs = search_inbox host w viewer search (
    if unread_only
    then filter (λ (c : Conversation). ltb 0 (viewer_unread w c.id viewer)) cs
    else cs)
