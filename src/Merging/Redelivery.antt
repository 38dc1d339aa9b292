-- ===== src/Merging/Redelivery.antt =====
-- actions.py: what a delivered `user.merged` leaves, and what a second delivery does.
use stapel_chat.Base.{
  ==_ne, ==_self, All, Bool, Bool-cases, List, Option-cases, [], any, ap, arith, false, false≢true,
  filter, inl, inr, is_id, refl, some, subst, sym, true, update_where, ℕ, ◌==◌, ◌∙◌, ◌∷◌, ◌≡◌, ◌≢◌,
}
use stapel_chat.Merging.{
  find_member, folded, handle_user_merged, merge_participations, merge_row, merge_rows,
  move_authorship, owns_something, requalify_all, stale_threads, without_row,
}
use stapel_chat.Merging.Ownership.{OwnsNothing, requalify_all-OwnsNothing}
use stapel_chat.Model.{Conversation, Message, Participant}
use stapel_chat.Settings.{Host}
use stapel_chat.World.{Result, World, ok}

module _ (from into : ℕ) (apart : (into == from) ≡ false) where
  moved_messages :
      (ms : List Message)
      → any
          (λ (m : Message). is_id m.sender from)
          (update_where
            (λ (m : Message). is_id m.sender from)
            (λ m. record m { sender = some into })
            ms)
        ≡ false
  moved_messages [] = refl
  moved_messages (m ∷ ms) = elim (Bool-cases (is_id m.sender from)) [
    | inl t ↦ rw (t, apart) (moved_messages ms)
    | inr t ↦ rw (t, t) (moved_messages ms)
  ]

  moved_desks :
      (cs : List Conversation)
      → any
          (λ (c : Conversation). is_id c.assigned_operator from)
          (update_where
            (λ (c : Conversation). is_id c.assigned_operator from)
            (λ c. record c { assigned_operator = some into })
            cs)
        ≡ false
  moved_desks [] = refl
  moved_desks (c ∷ cs) = elim (Bool-cases (is_id c.assigned_operator from)) [
    | inl t ↦ rw (t, apart) (moved_desks cs)
    | inr t ↦ rw (t, t) (moved_desks cs)
  ]

  -- The rows of the account that are still there are on the list of those to merge.
  abbrev Listed : List Participant → List Participant → Type 0
  Listed guests =
      All (λ p. (p.user == from) ≡ true → any (λ (g : Participant). g.id == p.id) guests ≡ true)

  handed_over :
      (g : Participant) (gs : List Participant) (now : ℕ) (ps : List Participant)
      → Listed (g ∷ gs) ps
      → Listed gs (
          update_where
            (λ (p : Participant). p.id == g.id)
            (λ p. record p { user = into; updated_at = now })
            ps)
  handed_over g gs now [] h = tt
  handed_over g gs now (p ∷ ps) h = elim (Bool-cases (p.id == g.id)) [
    | inl t ↦ rw t ((λ e. absurd (ground arith)), handed_over g gs now ps h.1)
    | inr t ↦ rw t ((λ e. let on = h.0 e in ground arith), handed_over g gs now ps h.1)
  ]

  folded_id : (g : Participant) (now : ℕ) (p : Participant) → (folded g now p).id ≡ p.id
  folded_id g now p = ground arith

  folded_user : (g : Participant) (now : ℕ) (p : Participant) → (folded g now p).user ≡ p.user
  folded_user g now p = ground arith

  folded-Listed :
      (g : Participant) (guests : List Participant) (k now : ℕ) (ps : List Participant)
      → Listed guests ps
      → Listed guests (update_where (λ (p : Participant). p.id == k) (folded g now) ps)
  folded-Listed g guests k now [] h = tt
  folded-Listed g guests k now (p ∷ ps) h = elim (Bool-cases (p.id == k)) [
    | inl t ↦
        rw t (rw (folded_id g now p, folded_user g now p) h.0, folded-Listed g guests k now ps h.1)
    | inr t ↦ rw t (h.0, folded-Listed g guests k now ps h.1)
  ]

  dropped-Listed :
      (g : Participant) (gs : List Participant) (ps : List Participant)
      → Listed (g ∷ gs) ps
      → Listed gs (without_row g.id ps)
  dropped-Listed g gs [] h = tt
  dropped-Listed g gs (p ∷ ps) h = elim (Bool-cases (p.id == g.id)) [
    | inl t ↦ rw t (dropped-Listed g gs ps h.1)
    | inr t ↦ rw t ((λ e. let on = h.0 e in ground arith), dropped-Listed g gs ps h.1)
  ]

  merge_row-Listed :
      (now : ℕ) (g : Participant) (gs ps : List Participant)
      → Listed (g ∷ gs) ps
      → Listed gs (merge_row into now g ps)
  unfolding merge_row
  merge_row-Listed now g gs ps h = elim (Option-cases (find_member g.conversation into ps)) [
    | inl alone ↦ rw (alone, merge_row) (handed_over g gs now ps h)
    | inr (survivor, e) ↦
        rw (e, merge_row) (dropped-Listed g gs _ (folded-Listed g (g ∷ gs) survivor.id now ps h))
  ]

  merge_rows-Listed :
      (now : ℕ) (guests ps : List Participant)
      → Listed guests ps
      → Listed [] (merge_rows into now guests ps)
  unfolding merge_rows
  merge_rows-Listed now [] ps h = h
  merge_rows-Listed now (g ∷ gs) ps h = merge_rows-Listed now gs _ (merge_row-Listed now g gs ps h)

  nobody-Listed :
      (ps : List Participant) → Listed [] ps → any (λ (p : Participant). p.user == from) ps ≡ false
  nobody-Listed [] h = refl
  nobody-Listed (p ∷ ps) h = elim (Bool-cases (p.user == from)) [
    | inl t ↦ absurd (false≢true (h.0 t))
    | inr t ↦ rw t (nobody-Listed ps h.1)
  ]

  one_more :
      (q : Participant) (guests ps : List Participant) → Listed guests ps → Listed (q ∷ guests) ps
  one_more q guests [] h = tt
  one_more q guests (p ∷ ps) h = ((λ e. let on = h.0 e in ground arith), one_more q guests ps h.1)

  all-Listed : (ps : List Participant) → Listed (filter (λ (p : Participant). p.user == from) ps) ps
  all-Listed [] = tt
  all-Listed (p ∷ ps) =
      let rest = filter (λ (p : Participant). p.user == from) ps in
      elim (Bool-cases (p.user == from)) [
        | inl t ↦
            let here : filter (λ (p : Participant). p.user == from) (p ∷ ps) ≡ p ∷ rest =
              rw t refl in
            subst (λ gs. Listed gs (p ∷ ps)) (sym here)
              ((λ e. rw (==_self p.id) refl), one_more p rest ps (all-Listed ps))
        | inr t ↦
            let here : filter (λ (p : Participant). p.user == from) (p ∷ ps) ≡ rest = rw t refl in
            subst (λ gs. Listed gs (p ∷ ps)) (sym here)
              ((λ e. absurd (false≢true (sym t ∙ e))), all-Listed ps)
      ]

  carried-OwnsNothing :
      (w : World) → OwnsNothing from (merge_participations from into (move_authorship from into w))
  unfolding merge_participations move_authorship
  carried-OwnsNothing w = record {
    no_seat = nobody-Listed _ (
        merge_rows-Listed w.clock (filter (λ (p : Participant). p.user == from) w.participants)
          w.participants (all-Listed w.participants));
    no_message = moved_messages w.messages;
    no_desk = moved_desks w.conversations;
  }

owns_nothing : (user : ℕ) (w : World) → OwnsNothing user w → owns_something user w ≡ false
owns_nothing user w h = rw (h.no_seat, h.no_message, h.no_desk) refl

merged_quietly :
    (host : Host) (survivor_exists : Bool) (from into : ℕ) (w : World)
    → owns_something from w ≡ false
    → handle_user_merged host survivor_exists from into w ≡ (ok tt, w)
unfolding handle_user_merged
merged_quietly host survivor_exists from into w h = elim (Bool-cases (from == into)) [
  | inl t ↦ ground arith
  | inr t ↦ ground arith
]

-- The state that a merge of two apart accounts leaves.
abbrev merged_world : Host → ℕ → ℕ → World → World
merged_world host from into w =
    let moved = merge_participations from into (move_authorship from into w) in
    requalify_all host (stale_threads from w moved) moved

merged_world-eq :
    (host : Host) (survivor_exists : Bool) (from into : ℕ) (w v : World)
    → (from == into) ≡ false
    → owns_something from w ≡ true
    → handle_user_merged host survivor_exists from into w ≡ (ok tt, v)
    → merged_world host from into w ≡ v
unfolding handle_user_merged
merged_world-eq host true from into w v apart something h =
    let ran : handle_user_merged host true from into w ≡ (ok tt, merged_world host from into w) =
      rw (apart, something, handle_user_merged) refl in
    ap (λ (o : Result Unit × World). o.1) (sym ran ∙ h)
merged_world-eq host false from into w v apart something h = absurd (ground arith)

-- Once `user.merged` has been handled, the absorbed account has no seat, no message and no
-- assignment left, and a second delivery of the event changes nothing.
pub merged_once :
    (host : Host) (survivor_exists again : Bool) (from into : ℕ) (w v : World)
    → from ≢ into
    → handle_user_merged host survivor_exists from into w ≡ (ok tt, v)
    → (owns_something from v ≡ false) × (handle_user_merged host again from into v ≡ (ok tt, v))
merged_once host survivor_exists again from into w v apart h =
    let other : (into == from) ≡ false = ==_ne into from (λ e. apart (sym e)) in
    elim (Bool-cases (owns_something from w)) [
      | inr nothing ↦
          let quiet = merged_quietly host survivor_exists from into w nothing in
          let same : w ≡ v = ap (λ (o : Result Unit × World). o.1) (sym quiet ∙ h) in
          let still : owns_something from v ≡ false =
            subst (λ u. owns_something from u ≡ false) same nothing in
          (still, merged_quietly host again from into v still)
      | inl something ↦
          let moved = merge_participations from into (move_authorship from into w) in
          let left =
            requalify_all-OwnsNothing from host (stale_threads from w moved) moved
              (carried-OwnsNothing from into other w) in
          let same =
            merged_world-eq host survivor_exists from into w v (==_ne from into apart) something
              h in
          let still : owns_something from v ≡ false =
            subst (λ u. owns_something from u ≡ false) same (owns_nothing from _ left) in
          (still, merged_quietly host again from into v still)
    ]
