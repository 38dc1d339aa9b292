-- ===== src/Merging/Seats.antt =====
-- Where the survivor of a merge sits.
use stapel_chat.Base.{
  ==_iff, ==_ne, ==_self, All, All-filter, Bool, Bool-cases, List, Option-cases, Pairwise, [], any,
  any-eq-is_some, ap, arith, false, filter, inl, inr, refl, subst, true, update_where, ℕ, ◌&&◌,
  ◌==◌, ◌||◌, ◌∙◌, ◌∷◌, ◌≡◌, ◌≢◌,
}
use stapel_chat.Membership.{is_member}
use stapel_chat.Merging.{
  find_member, folded, merge_participations, merge_row, merge_rows, without_row,
}
use stapel_chat.Merging.Ownership.{any-update_where}
use stapel_chat.Model.{Participant}
use stapel_chat.World.{World}

-- `ConversationParticipant.id` is a primary key.
abbrev pub IdsApart : Participant → Participant → Type 0
IdsApart p q = (q.id == p.id) ≡ false

module _ (from into : ℕ) (apart : (from == into) ≡ false) where
  -- The rows with the id of a guest are that guest's, and there is one.
  record Seated (ps : List Participant) (g : Participant) : Type 0 where
    pub own : All (λ p. p.id ≡ g.id → (p.user ≡ from) × (p.conversation ≡ g.conversation)) ps
    pub there : any (λ (p : Participant). p.id == g.id) ps ≡ true

  abbrev sits : ℕ → List Participant → Bool
  sits cid = any (is_member cid into)

  abbrev listed : ℕ → List Participant → Bool
  listed cid = any (λ (g : Participant). g.conversation == cid)

  -- Handing the row over seats the survivor in its thread, and nowhere else.
  seated_over :
      (cid now : ℕ) (g : Participant) (ps : List Participant)
      → All (λ p. p.id ≡ g.id → (p.user ≡ from) × (p.conversation ≡ g.conversation)) ps
      → sits cid (
          update_where
            (λ (p : Participant). p.id == g.id)
            (λ p. record p { user = into; updated_at = now })
            ps)
        ≡ (sits cid ps || (any (λ (p : Participant). p.id == g.id) ps && (g.conversation == cid)))
  seated_over cid now g [] h = refl
  seated_over cid now g (p ∷ ps) h =
      let rest = seated_over cid now g ps h.1 in
      elim (Bool-cases (p.id == g.id)) [
        | inl t ↦
            let own = h.0 ((==_iff p.id g.id).0 t) in
            let here : (p.conversation == cid) ≡ (g.conversation == cid) =
              ap (λ n. n == cid) own.1 in
            let guest : (p.user == into) ≡ false = ap (λ n. n == into) own.0 ∙ apart in
            let survivor = ==_self into in ground arith
        | inr t ↦ ground arith
      ]

  -- Dropping the guest's rows unseats nobody but the guest.
  dropped_seats :
      (cid : ℕ) (g : Participant) (ps : List Participant)
      → All (λ p. p.id ≡ g.id → (p.user ≡ from) × (p.conversation ≡ g.conversation)) ps
      → sits cid (without_row g.id ps) ≡ sits cid ps
  dropped_seats cid g [] h = refl
  dropped_seats cid g (p ∷ ps) h =
      let rest = dropped_seats cid g ps h.1 in
      elim (Bool-cases (p.id == g.id)) [
        | inl t ↦
            let own = h.0 ((==_iff p.id g.id).0 t) in
            let guest : (p.user == into) ≡ false = ap (λ n. n == into) own.0 ∙ apart in ground arith
        | inr t ↦ ground arith
      ]

  -- Folding a row keeps whose it is and where.
  folded_seats :
      (test : Participant → Bool) (k now : ℕ) (g : Participant) (ps : List Participant)
      → ((p : Participant) → test (folded g now p) ≡ test p)
      → any test (update_where (λ (p : Participant). p.id == k) (folded g now) ps) ≡ any test ps
  folded_seats test k now g ps same = any-update_where test _ (folded g now) ps same

  folded_member :
      (cid now : ℕ) (g p : Participant) → is_member cid into (folded g now p) ≡ is_member cid into p
  folded_member cid now g p = ground arith

  abbrev Owned : Participant → Participant → Type 0
  Owned g p = p.id ≡ g.id → (p.user ≡ from) × (p.conversation ≡ g.conversation)

  folded_ids : (g : Participant) (now : ℕ) (p : Participant) → (folded g now p).id ≡ p.id
  folded_ids g now p = ground arith

  folded_owner : (g : Participant) (now : ℕ) (p : Participant) → (folded g now p).user ≡ p.user
  folded_owner g now p = ground arith

  folded_thread :
      (g : Participant) (now : ℕ) (p : Participant) → (folded g now p).conversation ≡ p.conversation
  folded_thread g now p = ground arith

  folded_row-Owned :
      (g' g : Participant) (now : ℕ) (p : Participant) → Owned g' p → Owned g' (folded g now p)
  folded_row-Owned g' g now p h =
      rw (folded_ids g now p, folded_owner g now p, folded_thread g now p) h

  folded-Owned :
      (g' g : Participant) (k now : ℕ) (ps : List Participant)
      → All (Owned g') ps
      → All (Owned g') (update_where (λ (p : Participant). p.id == k) (folded g now) ps)
  folded-Owned g' g k now [] h = tt
  folded-Owned g' g k now (p ∷ ps) h = elim (Bool-cases (p.id == k)) [
    | inl t ↦ rw t (folded_row-Owned g' g now p h.0, folded-Owned g' g k now ps h.1)
    | inr t ↦ rw t (h.0, folded-Owned g' g k now ps h.1)
  ]

  handed-Owned :
      (g' g : Participant) (now : ℕ) (ps : List Participant)
      → (g'.id == g.id) ≡ false
      → All (Owned g') ps
      → All (Owned g') (
          update_where
            (λ (p : Participant). p.id == g.id)
            (λ p. record p { user = into; updated_at = now })
            ps)
  handed-Owned g' g now [] other h = tt
  handed-Owned g' g now (p ∷ ps) other h = elim (Bool-cases (p.id == g.id)) [
    | inl t ↦ rw t ((λ e. absurd (ground arith)), handed-Owned g' g now ps other h.1)
    | inr t ↦ rw t (h.0, handed-Owned g' g now ps other h.1)
  ]

  kept_there :
      (g' g : Participant) (ps : List Participant)
      → (g'.id == g.id) ≡ false
      → any (λ (p : Participant). p.id == g'.id) ps ≡ true
      → any (λ (p : Participant). p.id == g'.id) (without_row g.id ps) ≡ true
  kept_there g' g [] other h = h
  kept_there g' g (p ∷ ps) other h = elim (Bool-cases (p.id == g'.id)) [
    | inl t ↦ let stays : (p.id == g.id) ≡ false = ground arith in ground arith
    | inr t ↦ let rest = kept_there g' g ps other (ground arith) in ground arith
  ]

  merge_row_seats :
      (cid now : ℕ) (g : Participant) (ps : List Participant)
      → Seated ps g
      → sits cid (merge_row into now g ps) ≡ (sits cid ps || (g.conversation == cid))
  unfolding merge_row
  merge_row_seats cid now g ps h = elim (Option-cases (find_member g.conversation into ps)) [
    | inl alone ↦ rw (alone, merge_row) (seated_over cid now g ps h.own ∙ rw h.there refl)
    | inr (survivor, e) ↦
        let one : sits g.conversation ps ≡ true =
          any-eq-is_some (is_member g.conversation into) ps ∙ rw e refl in
        let kept : sits cid (
              without_row g.id
                (update_where (λ (p : Participant). p.id == survivor.id) (folded g now) ps))
            ≡ sits cid ps =
          dropped_seats cid g _ (folded-Owned g g survivor.id now ps h.own)
          ∙ folded_seats (is_member cid into) survivor.id now g ps (folded_member cid now g) in
        rw (e, merge_row)
          (kept ∙ elim (Bool-cases (g.conversation == cid)) [
            | inl t ↦
                let sat : sits cid ps ≡ true =
                  subst (λ n. sits n ps ≡ true) ((==_iff g.conversation cid).0 t) one in
                rw (t, sat) refl
            | inr t ↦ ground arith
          ])
  ]

  merge_row-Seated :
      (now : ℕ) (g g' : Participant) (ps : List Participant)
      → (g'.id == g.id) ≡ false
      → Seated ps g'
      → Seated (merge_row into now g ps) g'
  unfolding merge_row
  merge_row-Seated now g g' ps other h = elim (Option-cases (find_member g.conversation into ps)) [
    | inl alone ↦
        rw (alone, merge_row)
          (record {
            own = handed-Owned g' g now ps other h.own;
            there =
                any-update_where _ _
                  (λ (p : Participant). record p { user = into; updated_at = now }) ps (λ x. refl)
                ∙ h.there;
          })
    | inr (survivor, e) ↦
        rw (e, merge_row)
          (record {
            own = All-filter _ _ _ (folded-Owned g' g survivor.id now ps h.own);
            there = kept_there g' g _ other (
                folded_seats (λ (p : Participant). p.id == g'.id) survivor.id now g ps
                  (λ p. ap (λ n. n == g'.id) (folded_ids g now p))
                ∙ h.there);
          })
  ]

  All-Seated :
      (now : ℕ) (g : Participant) (gs ps : List Participant)
      → All (IdsApart g) gs
      → All (Seated ps) gs
      → All (Seated (merge_row into now g ps)) gs
  All-Seated now g [] ps a h = tt
  All-Seated now g (g' ∷ gs) ps a h =
      (merge_row-Seated now g g' ps a.0 h.0, All-Seated now g gs ps a.1 h.1)

  merge_rows_seats :
      (cid now : ℕ) (gs ps : List Participant)
      → Pairwise IdsApart gs
      → All (Seated ps) gs
      → sits cid (merge_rows into now gs ps) ≡ (sits cid ps || listed cid gs)
  unfolding merge_rows
  merge_rows_seats cid now [] ps a h = ground arith
  merge_rows_seats cid now (g ∷ gs) ps a h =
      let first = merge_row_seats cid now g ps h.0 in
      let rest =
        merge_rows_seats cid now gs (merge_row into now g ps) a.1
          (All-Seated now g gs ps a.0 h.1) in
      ground arith

  listed_members :
      (cid : ℕ) (ps : List Participant)
      → listed cid (filter (λ (p : Participant). p.user == from) ps) ≡ any (is_member cid from) ps
  listed_members cid [] = refl
  listed_members cid (p ∷ ps) = ground (arith, listed_members cid ps)

  one_before :
      (p : Participant) (gs ps : List Participant)
      → All (IdsApart p) gs
      → All (Seated ps) gs
      → All (Seated (p ∷ ps)) gs
  one_before p [] ps a h = tt
  one_before p (g ∷ gs) ps a h =
      let rest = h.0 in
      (
        record {
          own = ((λ e. absurd (ground arith)), rest.own);
          there = let found = rest.there in ground arith;
        },
        one_before p gs ps a.1 h.1,
      )

  others_apart : (g : Participant) (ps : List Participant) → All (IdsApart g) ps → All (Owned g) ps
  others_apart g [] h = tt
  others_apart g (p ∷ ps) h = ((λ e. absurd (ground arith)), others_apart g ps h.1)

  guests-Seated :
      (ps : List Participant)
      → Pairwise IdsApart ps
      → All (Seated ps) (filter (λ (p : Participant). p.user == from) ps)
  guests-Seated [] h = tt
  guests-Seated (p ∷ ps) h =
      let later = filter (λ (p : Participant). p.user == from) ps in
      let rest = one_before p later ps (All-filter _ _ ps h.0) (guests-Seated ps h.1) in
      elim (Bool-cases (p.user == from)) [
        | inr t ↦ rw (filter, t) rest
        | inl t ↦
            rw (filter, t)
              (
                record {
                  own = ((λ e. ((==_iff p.user from).0 t, refl)), others_apart p ps h.0);
                  there = ground arith;
                },
                rest,
              )
      ]

  Pairwise-filter :
      (test : Participant → Bool) (ps : List Participant)
      → Pairwise IdsApart ps
      → Pairwise IdsApart (filter test ps)
  Pairwise-filter test [] h = tt
  Pairwise-filter test (p ∷ ps) h = elim (Bool-cases (test p)) [
    | inl t ↦ rw t (All-filter _ test ps h.0, Pairwise-filter test ps h.1)
    | inr t ↦ rw t (Pairwise-filter test ps h.1)
  ]

-- After the memberships of one account have been merged into another, the survivor has a seat in a
-- thread exactly where one of the two had one before, where no two rows share an id.
pub merge_participations_seats :
    (from into cid : ℕ) (w : World)
    → from ≢ into
    → Pairwise IdsApart w.participants
    → any (is_member cid into) (merge_participations from into w).participants
      ≡ (any (is_member cid into) w.participants || any (is_member cid from) w.participants)
unfolding merge_participations
merge_participations_seats from into cid w apart ids =
    let other : (from == into) ≡ false = ==_ne from into apart in
    let ps = w.participants in
    let guests = filter (λ (p : Participant). p.user == from) ps in
    merge_rows_seats from into other cid w.clock guests ps
      (Pairwise-filter from into other _ ps ids) (guests-Seated from into other ps ids)
    ∙ rw (listed_members from into other cid ps) refl
