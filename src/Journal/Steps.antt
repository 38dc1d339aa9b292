-- ===== src/Journal/Steps.antt =====
-- Every step keeps the journal well formed, and takes nothing back.
use stapel_chat.Base.{
  ==_iff, ==_ne, All, All-append, Bool-cases, List, Pairwise, Pairwise-append, [], ap, arith, false,
  inl, inr, refl, sym, update_where, ℕ, ◌<◌, ◌==◌, ◌∙◌, ◌∷◌, ◌≡◌, ◌≤◌,
}
use stapel_chat.Journal.{
  Below, Grows, IdApart, IsJournal, IsPlaced, KeepsPlace, RevApart, Run, SeqApart, Step, appended,
  done, last_seq_of, next, reserved, revised,
}
use stapel_chat.Model.{Conversation, Message}
use stapel_chat.World.{World}

IsPlaced-Grows :
    {w w' : World} {m : Message}
    → Grows w w'
    → IsPlaced w.conversations w.next_id m
    → IsPlaced w'.conversations w'.next_id m
IsPlaced-Grows {w} {w'} {m} g h = record {
  positive = h.positive;
  seq_le_rev = h.seq_le_rev;
  rev_le_last = omega (arith, h.rev_le_last, g.last_grows m.conversation);
  id_used = omega (arith, h.id_used, g.next_grows);
}

pub All-IsPlaced-Grows :
    {w w' : World} (ms : List Message)
    → Grows w w'
    → All (IsPlaced w.conversations w.next_id) ms
    → All (IsPlaced w'.conversations w'.next_id) ms
All-IsPlaced-Grows [] g h = tt
All-IsPlaced-Grows (m ∷ ms) g h = (IsPlaced-Grows g h.0, All-IsPlaced-Grows ms g h.1)

pub Grows-refl : (w : World) → Grows w w
Grows-refl w = record { next_grows = omega arith; last_grows = λ cid. omega arith }

pub Grows-trans : {u v w : World} → Grows u v → Grows v w → Grows u w
Grows-trans g h = record {
  next_grows = omega (arith, g.next_grows, h.next_grows);
  last_grows = λ cid. omega (arith, g.last_grows cid, h.last_grows cid);
}

pub Step-Grows : {floor : ℕ → ℕ} {w w' : World} → Step floor w w' → Grows w w'
Step-Grows (reserved e g) = g
Step-Grows (appended m e g i p b) = g
Step-Grows (revised k cid r change e g kp row b p) = g

pub Run-Grows : {floor : ℕ → ℕ} {w w' : World} → Run floor w w' → Grows w w'
Run-Grows {w = w} done = Grows-refl w
Run-Grows (next run step) = Grows-trans (Run-Grows run) (Step-Grows step)

-- Appending a row

ids_new :
    (cs : List Conversation) (n k : ℕ) (ms : List Message) (m : Message)
    → m.id ≡ k
    → n ≤ k
    → All (IsPlaced cs n) ms
    → All (λ x. IdApart x m) ms
ids_new cs n k [] m e le h = tt
ids_new cs n k (x ∷ ms) m e le h =
    ((λ same. omega (arith, h.0.id_used)), ids_new cs n k ms m e le h.1)

seqs_new :
    (cs : List Conversation) (n : ℕ) (ms : List Message) (m : Message)
    → m.seq ≡ m.rev_seq
    → All (IsPlaced cs n) ms
    → Below m.conversation m.rev_seq ms
    → All (λ x. SeqApart x m) ms × All (λ x. RevApart x m) ms
seqs_new cs n [] m e h b = (tt, tt)
seqs_new cs n (x ∷ ms) m e h b =
    let rest = seqs_new cs n ms m e h.1 b.1 in
    (
      ((λ same eq. omega (arith, b.0 same, h.0.seq_le_rev)), rest.0),
      ((λ same eq. omega (arith, b.0 same)), rest.1),
    )

-- Revising a row

-- No row has the id: nothing is written.
update_where-none :
    (k : ℕ) (change : Message → Message) (x : Message) (ms : List Message)
    → x.id ≡ k
    → All (IdApart x) ms
    → update_where (λ (m : Message). m.id == k) change ms ≡ ms
update_where-none k change x [] e h = refl
update_where-none k change x (m ∷ ms) e h =
    let other : (m.id == k) ≡ false = ==_ne m.id k (λ same. h.0 (e ∙ sym same)) in
    rw other (ap (λ rest. m ∷ rest) (update_where-none k change x ms e h.1))

module _ (k cid r : ℕ) (change : Message → Message) (kp : KeepsPlace change r) where
  abbrev revise : List Message → List Message
  revise = update_where (λ (m : Message). m.id == k) change

  ids_revised :
      (x y : Message)
      → x.id ≡ y.id
      → (ms : List Message) → All (IdApart y) ms
      → All (IdApart x) (revise ms)
  ids_revised x y e [] h = tt
  ids_revised x y e (m ∷ ms) h = elim (Bool-cases (m.id == k)) [
    | inl t ↦ rw t ((λ same. h.0 (sym e ∙ same ∙ kp.keeps_id m)), ids_revised x y e ms h.1)
    | inr t ↦ rw t ((λ same. h.0 (sym e ∙ same)), ids_revised x y e ms h.1)
  ]

  pub Pairwise-ids_revised :
      (ms : List Message) → Pairwise IdApart ms → Pairwise IdApart (revise ms)
  Pairwise-ids_revised [] h = tt
  Pairwise-ids_revised (m ∷ ms) h = elim (Bool-cases (m.id == k)) [
    | inl t ↦ rw t (ids_revised (change m) m (kp.keeps_id m) ms h.0, Pairwise-ids_revised ms h.1)
    | inr t ↦ rw t (ids_revised m m refl ms h.0, Pairwise-ids_revised ms h.1)
  ]

  seqs_revised :
      (x y : Message)
      → x.conversation ≡ y.conversation
      → x.seq ≡ y.seq
      → (ms : List Message) → All (SeqApart y) ms
      → All (SeqApart x) (revise ms)
  seqs_revised x y c e [] h = tt
  seqs_revised x y c e (m ∷ ms) h = elim (Bool-cases (m.id == k)) [
    | inl t ↦ rw t (
      (λ same eq. h.0 (sym c ∙ same ∙ kp.keeps_conversation m) (sym e ∙ eq ∙ kp.keeps_seq m)),
      seqs_revised x y c e ms h.1,
    )
    | inr t ↦ rw t ((λ same eq. h.0 (sym c ∙ same) (sym e ∙ eq)), seqs_revised x y c e ms h.1)
  ]

  pub Pairwise-seqs_revised :
      (ms : List Message) → Pairwise SeqApart ms → Pairwise SeqApart (revise ms)
  Pairwise-seqs_revised [] h = tt
  Pairwise-seqs_revised (m ∷ ms) h = elim (Bool-cases (m.id == k)) [
    | inl t ↦ rw t (
      seqs_revised (change m) m (kp.keeps_conversation m) (kp.keeps_seq m) ms h.0,
      Pairwise-seqs_revised ms h.1,
    )
    | inr t ↦ rw t (seqs_revised m m refl refl ms h.0, Pairwise-seqs_revised ms h.1)
  ]

  -- A row that stays, against the rows after it.
  revs_kept :
      (x : Message)
      → (x.conversation ≡ cid → x.rev_seq < r)
      → (ms : List Message) → All (λ m. m.id ≡ k → m.conversation ≡ cid) ms
      → All (RevApart x) ms
      → All (RevApart x) (revise ms)
  revs_kept x low [] row h = tt
  revs_kept x low (m ∷ ms) row h = elim (Bool-cases (m.id == k)) [
    | inl t ↦ rw t (
      (λ same eq.
          let here : m.conversation ≡ cid = row.0 ((==_iff m.id k).0 t) in
          let there : x.conversation ≡ cid = same ∙ kp.keeps_conversation m ∙ here in
          omega (arith, low there, eq, kp.takes_rev m)),
      revs_kept x low ms row.1 h.1,
    )
    | inr t ↦ rw t (h.0, revs_kept x low ms row.1 h.1)
  ]

  -- The changed row, against the rows after it.
  revs_fresh :
      (x : Message)
      → x.conversation ≡ cid
      → x.rev_seq ≡ r
      → (ms : List Message) → Below cid r ms
      → All (RevApart x) ms
  revs_fresh x c e [] b = tt
  revs_fresh x c e (m ∷ ms) b =
      ((λ same eq. omega (arith, b.0 (sym same ∙ c), eq, e)), revs_fresh x c e ms b.1)

  pub Pairwise-revs_revised :
      (ms : List Message)
      → All (λ m. m.id ≡ k → m.conversation ≡ cid) ms
      → Below cid r ms
      → Pairwise IdApart ms
      → Pairwise RevApart ms
      → Pairwise RevApart (revise ms)
  Pairwise-revs_revised [] row b i h = tt
  Pairwise-revs_revised (m ∷ ms) row b i h = elim (Bool-cases (m.id == k)) [
    | inl t ↦
        let e : m.id ≡ k = (==_iff m.id k).0 t in
        rw (t, update_where-none k change m ms e i.0)
          (revs_fresh (change m) (kp.keeps_conversation m ∙ row.0 e) (kp.takes_rev m) ms b.1, h.1)
    | inr t ↦ rw t (revs_kept m b.0 ms row.1 h.0, Pairwise-revs_revised ms row.1 b.1 i.1 h.1)
  ]

  IsPlaced-change :
      (cs : List Conversation) (n : ℕ) (m : Message)
      → m.conversation ≡ cid
      → m.rev_seq < r
      → r ≤ last_seq_of cs cid
      → IsPlaced cs n m
      → IsPlaced cs n (change m)
  IsPlaced-change cs n m c low top h = record {
    positive = rw (kp.keeps_seq m) h.positive;
    seq_le_rev = rw (kp.keeps_seq m, kp.takes_rev m) (omega (arith, h.seq_le_rev, low));
    rev_le_last = rw (kp.takes_rev m, kp.keeps_conversation m, c) top;
    id_used = rw (kp.keeps_id m) h.id_used;
  }

  pub IsPlaced-revised :
      (cs : List Conversation) (n : ℕ) (ms : List Message)
      → All (λ m. m.id ≡ k → m.conversation ≡ cid) ms
      → Below cid r ms
      → r ≤ last_seq_of cs cid
      → All (IsPlaced cs n) ms
      → All (IsPlaced cs n) (revise ms)
  IsPlaced-revised cs n [] row b top h = tt
  IsPlaced-revised cs n (m ∷ ms) row b top h = elim (Bool-cases (m.id == k)) [
    | inl t ↦
        let c : m.conversation ≡ cid = row.0 ((==_iff m.id k).0 t) in
        rw t (IsPlaced-change cs n m c (b.0 c) top h.0, IsPlaced-revised cs n ms row.1 b.1 top h.1)
    | inr t ↦ rw t (h.0, IsPlaced-revised cs n ms row.1 b.1 top h.1)
  ]

pub Step-IsJournal : {floor : ℕ → ℕ} {w w' : World} → Step floor w w' → IsJournal w → IsJournal w'
Step-IsJournal {w = w} (reserved e g) h = record {
  placed = rw e (All-IsPlaced-Grows w.messages g h.placed);
  ids = rw e h.ids;
  seqs = rw e h.seqs;
  revs = rw e h.revs;
}
Step-IsJournal {w = w} {w' = w'} (appended m e g i p b) h =
    let apart = seqs_new w.conversations w.next_id w.messages m p.1 h.placed b in
    record {
      placed = rw e (
          All-append (IsPlaced w'.conversations w'.next_id) w.messages (m ∷ [])
            (All-IsPlaced-Grows w.messages g h.placed)
            (
              record {
                positive = p.0;
                seq_le_rev = omega (arith, p.1);
                rev_le_last = p.2;
                id_used = i.1;
              },
              tt,
            ));
      ids = rw e (
          Pairwise-append IdApart w.messages m h.ids
            (ids_new w.conversations w.next_id m.id w.messages m refl i.0 h.placed));
      seqs = rw e (Pairwise-append SeqApart w.messages m h.seqs apart.0);
      revs = rw e (Pairwise-append RevApart w.messages m h.revs apart.1);
    }
Step-IsJournal {w = w} {w' = w'} (revised k cid r change e g kp row b p) h = record {
  placed = rw e (
      IsPlaced-revised k cid r change kp w'.conversations w'.next_id w.messages row b p.1
        (All-IsPlaced-Grows w.messages g h.placed));
  ids = rw e (Pairwise-ids_revised k cid r change kp w.messages h.ids);
  seqs = rw e (Pairwise-seqs_revised k cid r change kp w.messages h.seqs);
  revs = rw e (Pairwise-revs_revised k cid r change kp w.messages row b h.ids h.revs);
}

-- A run of the journal keeps it well formed: ids, sequences and revisions stay apart, and every row
-- lies within what its conversation has handed out.
pub Run-IsJournal : {floor : ℕ → ℕ} {w w' : World} → Run floor w w' → IsJournal w → IsJournal w'
Run-IsJournal done h = h
Run-IsJournal (next run step) h = Step-IsJournal step (Run-IsJournal run h)
