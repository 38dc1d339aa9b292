-- ===== src/Search/Titles.antt =====
-- The title half of a search: how much it scans, and what it answers.
use stapel_chat.Base.{
  All, All-order_by, All-reverse, All-take, Bool, Bool-cases, In, In-All, List, Text, [], arith,
  filter, filter-In, inl, inr, length, ltb, map, order_by, refl, subst, suc, take, true, zero, ℕ,
  ◌+◌, ◌==◌, ◌∷◌, ◌≡◌, ◌≤◌,
}
use stapel_chat.Model.{Conversation}
use stapel_chat.Search.{
  matched_titles, newest_first, scanned_rows, subject_of, subject_title_matches, title_matches,
}
use stapel_chat.Settings.{Host}
use stapel_chat.Subjects.{Cards, is_named}
use stapel_chat.World.{Result, err, ok, ok_inj}

take-length : {A : Type 0} (n : ℕ) (xs : List A) → length (take n xs) ≤ n
take-length zero xs = omega arith
take-length (suc n) [] = omega arith
take-length (suc n) (x ∷ xs) = omega (arith, take-length n xs)

filter-length : {A : Type 0} (p : A → Bool) (xs : List A) → length (filter p xs) ≤ length xs
filter-length p [] = omega arith
filter-length p (x ∷ xs) = elim (Bool-cases (p x)) [
  | inl e ↦ rw e (omega (arith, filter-length p xs))
  | inr e ↦ rw e (omega (arith, filter-length p xs))
]

map-length : {A B : Type 0} (f : A → B) (xs : List A) → length (map f xs) ≡ length xs
map-length f [] = refl
map-length f (x ∷ xs) = ground (arith, map-length f xs)

scanned_rows-length : (limit : ℕ) (cs : List Conversation) → length (scanned_rows limit cs) ≤ limit
unfolding scanned_rows
scanned_rows-length limit cs =
    let rows = take (limit + 1) (newest_first (filter (λ c. is_named (subject_of c)) cs)) in
    elim (Bool-cases (ltb limit (length rows))) [
      | inl e ↦ rw e (take-length limit rows)
      | inr e ↦ rw e (ground arith)
    ]

-- A thread of the list that is about something.
abbrev IsCandidate : List Conversation → Conversation → Type 0
IsCandidate cs c = In c cs × (is_named (subject_of c) ≡ true)

scanned_rows-All :
    (limit : ℕ) (cs : List Conversation) → All (IsCandidate cs) (scanned_rows limit cs)
unfolding scanned_rows
scanned_rows-All limit cs =
    let named = filter (λ c. is_named (subject_of c)) cs in
    let rows = take (limit + 1) (newest_first named) in
    let own : All (IsCandidate cs) named =
      In-All (IsCandidate cs) named (λ c i. filter-In (λ c. is_named (subject_of c)) cs c i) in
    let kept : All (IsCandidate cs) rows =
      All-take (IsCandidate cs) (limit + 1) (newest_first named) (
        All-reverse (IsCandidate cs) (order_by (λ (c : Conversation). c.updated_at) named)
          (All-order_by (IsCandidate cs) (λ (c : Conversation). c.updated_at) named own)) in
    elim (Bool-cases (ltb limit (length rows))) [
      | inl e ↦ rw e (All-take (IsCandidate cs) limit rows kept)
      | inr e ↦ rw e kept
    ]

-- A thread that the title half of a search answers with.
module _ (host : Host) (needle : Text) (cs : List Conversation) where
  pub record IsTitled (cards : Cards) (cid : ℕ) : Type 0 where
    pub thread : Conversation
    pub listed : In thread cs
    pub same_id : thread.id ≡ cid
    pub has_subject : is_named (subject_of thread) ≡ true
    pub title_found : title_matches host needle cards thread ≡ true

IsTitled-All :
    (host : Host) (needle : Text) (cs : List Conversation) (cards : Cards)
    (rows : List Conversation)
    → All (IsCandidate cs) rows
    → All
        (IsTitled host needle cs cards)
        (map (λ (c : Conversation). c.id) (filter (title_matches host needle cards) rows))
IsTitled-All host needle cs cards [] h = tt
IsTitled-All host needle cs cards (c ∷ rows) h =
    elim (Bool-cases (title_matches host needle cards c)) [
      | inl e ↦ rw e (
        record { thread = c; listed = h.0.0; same_id = refl; has_subject = h.0.1; title_found = e },
        IsTitled-All host needle cs cards rows h.1,
      )
      | inr e ↦ rw e (IsTitled-All host needle cs cards rows h.1)
    ]

abbrev IsBounded : Host → Text → List Conversation → List ℕ × Cards → Type 0
IsBounded host needle cs found =
    (length found.0 ≤ host.search_subject_scan) × All (IsTitled host needle cs found.1) found.0

matched_titles-IsBounded :
    (host : Host) (needle : Text) (cs rows : List Conversation) (r : Result Cards)
    (found : List ℕ × Cards)
    → length rows ≤ host.search_subject_scan
    → All (IsCandidate cs) rows
    → matched_titles host needle rows r ≡ ok found
    → IsBounded host needle cs found
matched_titles-IsBounded host needle cs rows (err x) found few own e = absurd (ground arith)
matched_titles-IsBounded host needle cs rows (ok cards) found few own e =
    let matched = filter (title_matches host needle cards) rows in
    subst (IsBounded host needle cs) (ok_inj e) (
      omega (
        arith,
        few,
        map-length (λ (c : Conversation). c.id) matched,
        filter-length (title_matches host needle cards) rows,
      ),
      IsTitled-All host needle cs cards rows own,
    )

-- What a title match answers is at most `SEARCH_SUBJECT_SCAN` threads, each of them one of the list
-- that is about something and whose card has the needle in a field that may be searched.
pub subject_title_matches_bounded :
    (host : Host) (needle : Text) (cs : List Conversation) (ids : List ℕ) (cards : Cards)
    → subject_title_matches host needle cs ≡ ok (ids, cards)
    → (length ids ≤ host.search_subject_scan) × All (IsTitled host needle cs cards) ids
unfolding subject_title_matches
subject_title_matches_bounded host needle cs ids cards e =
    let limit = host.search_subject_scan in
    elim (Bool-cases (limit == 0)) [
      | inl t ↦ subst (IsBounded host needle cs) (ok_inj (rw t at e)) (omega arith, tt)
      | inr t ↦
          matched_titles-IsBounded host needle cs (scanned_rows limit cs) _ (ids, cards)
            (scanned_rows-length limit cs) (scanned_rows-All limit cs) (rw t at e)
    ]
