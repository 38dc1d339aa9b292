-- ===== src/History/Catchup.antt =====
-- A resumed client: after a page of the replay it holds everything up to its new cursor, and what
-- the services do while it is away puts nothing below the cursor it left with.
use stapel_chat.Base.{
  ==_iff, All, All-In, Bool-cases, In, In-All, In-filter, In-order_by, List, Option, Option-cases,
  Pairwise, [], ap, arith, false≢true, filter, filter-In, inl, inr, last?, last?-In, length, ltb,
  ltb→lt, order_by, order_by-In, order_by-IsSorted, page_split, refl, some, subst, sym, take-In,
  take-all, true, ℕ, ◌<◌, ◌==◌, ◌∙◌, ◌∷◌, ◌≡◌, ◌≢◌, ◌≤◌, ◌⊎◌,
}
use stapel_chat.History.{Cache, catch_up, is_pending, is_visible, journal_rows, next_cursor, upsert}
use stapel_chat.Journal.{IdApart, IsJournal, RevApart}
use stapel_chat.Model.{Message}
use stapel_chat.Realtime.{message_payload}
use stapel_chat.World.{World}

-- The client holds what the conversation shows of every visible row up to the cursor.
abbrev pub IsCurrent : Cache → ℕ → ℕ → Option ℕ → List Message → Type 0
IsCurrent cache cid c mark = All (λ m.
    m.conversation ≡ cid
    → m.rev_seq ≤ c
    → is_visible mark m ≡ true
    → cache m.id ≡ some (message_payload m))

-- The client holds every visible row.
abbrev pub IsComplete : Cache → ℕ → Option ℕ → List Message → Type 0
IsComplete cache cid mark =
    All
      (λ m. m.conversation ≡ cid → is_visible mark m ≡ true → cache m.id ≡ some (message_payload m))

same_id :
    (ms : List Message)
    → Pairwise IdApart ms
    → (m n : Message) → In m ms
    → In n ms
    → m.id ≡ n.id
    → m ≡ n
same_id [] h m n i j e = absurd i.1
same_id (x ∷ ms) h m n (inl p) (inl q) e = p ∙ sym q
same_id (x ∷ ms) h m n (inl p) (inr j) e =
    absurd (All-In (IdApart x) ms h.0 n j (ap (λ (z : Message). z.id) (sym p) ∙ e))
same_id (x ∷ ms) h m n (inr i) (inl q) e =
    absurd (All-In (IdApart x) ms h.0 m i (ap (λ (z : Message). z.id) (sym q) ∙ sym e))
same_id (x ∷ ms) h m n (inr i) (inr j) e = same_id ms h.1 m n i j e

same_rev :
    (ms : List Message)
    → Pairwise RevApart ms
    → (m n : Message) → In m ms
    → In n ms
    → m.conversation ≡ n.conversation
    → m.rev_seq ≡ n.rev_seq
    → m ≡ n
same_rev [] h m n i j c e = absurd i.1
same_rev (x ∷ ms) h m n (inl p) (inl q) c e = p ∙ sym q
same_rev (x ∷ ms) h m n (inl p) (inr j) c e = absurd (
    All-In (RevApart x) ms h.0 n j (ap (λ (z : Message). z.conversation) (sym p) ∙ c)
      (ap (λ (z : Message). z.rev_seq) (sym p) ∙ e))
same_rev (x ∷ ms) h m n (inr i) (inl q) c e = absurd (
    All-In (RevApart x) ms h.0 m i (ap (λ (z : Message). z.conversation) (sym q) ∙ sym c)
      (ap (λ (z : Message). z.rev_seq) (sym q) ∙ sym e))
same_rev (x ∷ ms) h m n (inr i) (inr j) c e = same_rev ms h.1 m n i j c e

-- What a page does to one id of the cache.
touched :
    (rows : List Message) (cache : Cache) (k : ℕ)
    → ((r : Message) × In r rows × (r.id ≡ k) × (catch_up cache rows k ≡ some (message_payload r)))
      ⊎ (catch_up cache rows k ≡ cache k) × ((r : Message) → In r rows → r.id ≢ k)
unfolding catch_up upsert
touched [] cache k = inr (refl, λ r i. absurd i.1)
touched (m ∷ rows) cache k = elim (touched rows (upsert cache m) k) [
  | inl (r, i, e, h) ↦ inl (r, inr i, e, h)
  | inr (same, others) ↦ elim (Bool-cases (m.id == k)) [
    | inl t ↦ inl (m, inl refl, (==_iff m.id k).0 t, same ∙ rw t)
    | inr t ↦ inr (
      same ∙ rw t,
      λ r i. elim i [
        | inl p ↦
            λ e. false≢true (sym t ∙ (==_iff m.id k).1 (ap (λ (z : Message). z.id) (sym p) ∙ e))
        | inr j ↦ others r j
      ],
    )
  ]
]

module _ (w : World) (j : IsJournal w) (cid c limit : ℕ) (mark : Option ℕ) where
  abbrev pending : List Message
  pending = filter (is_pending cid c mark) w.messages

  abbrev page : List Message
  page = journal_rows w cid c limit mark

  page-In : (m : Message) → In m page → In m w.messages × (is_pending cid c mark m ≡ true)
  unfolding journal_rows
  page-In m i = filter-In (is_pending cid c mark) w.messages m (
      order_by-In (λ m. m.rev_seq) pending m
        (take-In limit (order_by (λ m. m.rev_seq) pending) m i))

  pending-In :
      (m : Message)
      → In m w.messages
      → m.conversation ≡ cid
      → c < m.rev_seq
      → is_visible mark m ≡ true
      → In m (order_by (λ m. m.rev_seq) pending)
  pending-In m i e lt v =
      In-order_by (λ m. m.rev_seq) pending m
        (In-filter (is_pending cid c mark) w.messages m i (ground arith))

  -- A row up to the new cursor is on the page, or was up to the old one.
  covered :
      (m : Message)
      → In m w.messages
      → m.conversation ≡ cid
      → is_visible mark m ≡ true
      → m.rev_seq ≤ next_cursor c page
      → In m page ⊎ (m.rev_seq ≤ c)
  unfolding next_cursor journal_rows
  covered m i e v le = elim (Bool-cases (ltb c m.rev_seq)) [
    | inr old ↦ inr (ground arith)
    | inl fresh ↦
        elim (page_split (λ m. m.rev_seq) limit (order_by (λ m. m.rev_seq) pending) m
          (order_by-IsSorted (λ m. m.rev_seq) pending)
          (pending-In m i e (ltb→lt c m.rev_seq fresh) v)) [
            | inl on_page ↦ inl on_page
            | inr after ↦ elim (Option-cases (last? page)) [
              | inl nothing ↦ inr (ground arith)
              | inr (l, last) ↦
                  let here : In l page = last?-In page l last in
                  let row = page-In l here in
                  let at_last : m.rev_seq ≤ l.rev_seq = ground arith in
                  let equal : m.rev_seq ≡ l.rev_seq = omega (arith, after l last, at_last) in
                  let thread : m.conversation ≡ l.conversation = ground arith in
                  inl (
                    subst (λ z. In z page)
                      (sym (same_rev w.messages j.revs m l i row.0 thread equal)) here)
            ]
          ]
  ]

  caught :
      (cache : Cache)
      → IsCurrent cache cid c mark w.messages
      → (m : Message) → In m w.messages
      → m.conversation ≡ cid
      → is_visible mark m ≡ true
      → In m page ⊎ (m.rev_seq ≤ c)
      → catch_up cache page m.id ≡ some (message_payload m)
  caught cache current m i e v where_ = elim (touched page cache m.id) [
    | inl (r, on_page, same, h) ↦
        h
        ∙ ap (λ z. some (message_payload z))
            (same_id w.messages j.ids r m (page-In r on_page).0 i same)
    | inr (unchanged, others) ↦ elim where_ [
      | inl on_page ↦ absurd (others m on_page refl)
      | inr old ↦ unchanged ∙ All-In _ w.messages current m i e old v
    ]
  ]

  -- After a page the client holds everything up to its new cursor.
  pub page-IsCurrent :
      (cache : Cache)
      → IsCurrent cache cid c mark w.messages
      → IsCurrent (catch_up cache page) cid (next_cursor c page) mark w.messages
  page-IsCurrent cache current =
      In-All _ w.messages (λ m i e le v. caught cache current m i e v (covered m i e v le))

  -- A page that is not full was the last: the client holds everything.
  pub last_page-IsComplete :
      (cache : Cache)
      → IsCurrent cache cid c mark w.messages
      → length page < limit
      → IsComplete (catch_up cache page) cid mark w.messages
  unfolding journal_rows
  last_page-IsComplete cache current short = In-All _ w.messages (λ m i e v.
      caught cache current m i e v (elim (Bool-cases (ltb c m.rev_seq)) [
        | inr old ↦ inr (ground arith)
        | inl fresh ↦ inl (
            rw (take-all limit (order_by (λ m. m.rev_seq) pending) short)
              (pending-In m i e (ltb→lt c m.rev_seq fresh) v))
      ]))
