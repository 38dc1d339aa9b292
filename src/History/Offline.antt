-- ===== src/History/Offline.antt =====
-- While a client is away, every change of a row takes a place above the client's cursor.
use stapel_chat.Base.{
  ==_iff, All, All-append, Bool-cases, List, Option, [], ap, arith, inl, inr, sym, update_where, ℕ,
  ◌<◌, ◌==◌, ◌∙◌, ◌∷◌, ◌≡◌, ◌≤◌,
}
use stapel_chat.History.{Cache}
use stapel_chat.History.Catchup.{IsCurrent}
use stapel_chat.Journal.{KeepsPlace, Run, Step, appended, done, next, reserved, revised}
use stapel_chat.Model.{Message}
use stapel_chat.World.{World}

module _ (cache : Cache) (cid c : ℕ) (mark : Option ℕ) where
  revised-IsCurrent :
      (k at r : ℕ) (change : Message → Message) (ms : List Message)
      → KeepsPlace change r
      → All (λ m. m.id ≡ k → m.conversation ≡ at) ms
      → (at ≡ cid → c < r)
      → IsCurrent cache cid c mark ms
      → IsCurrent cache cid c mark (update_where (λ (m : Message). m.id == k) change ms)
  revised-IsCurrent k at r change [] kp row above h = tt
  revised-IsCurrent k at r change (m ∷ ms) kp row above h = elim (Bool-cases (m.id == k)) [
    | inr t ↦ rw t (h.0, revised-IsCurrent k at r change ms kp row.1 above h.1)
    | inl t ↦
        let thread : m.conversation ≡ at = row.0 ((==_iff m.id k).0 t) in
        rw t (
          (λ e le v. absurd (
              omega (
                arith,
                above (sym thread ∙ sym (kp.keeps_conversation m) ∙ e),
                le,
                kp.takes_rev m,
              ))),
          revised-IsCurrent k at r change ms kp row.1 above h.1,
        )
  ]

  Step-IsCurrent :
      {floor : ℕ → ℕ} {w w' : World}
      → c ≤ floor cid
      → Step floor w w'
      → IsCurrent cache cid c mark w.messages
      → IsCurrent cache cid c mark w'.messages
  Step-IsCurrent low (reserved e g) h = rw e h
  Step-IsCurrent {floor} {w} low (appended m e g i p b) h = rw e (
      All-append _ w.messages (m ∷ []) h
        ((λ same le v. absurd (omega (arith, le, p.3, low, ap floor same))), tt))
  Step-IsCurrent {floor} {w} low (revised k at r change e g kp row b p) h = rw e (
      revised-IsCurrent k at r change w.messages kp row
        (λ same. omega (arith, p.0, low, ap floor same)) h)

  pub Run-IsCurrent :
      {floor : ℕ → ℕ} {w w' : World}
      → c ≤ floor cid
      → Run floor w w'
      → IsCurrent cache cid c mark w.messages
      → IsCurrent cache cid c mark w'.messages
  Run-IsCurrent low done h = h
  Run-IsCurrent low (next run step) h = Step-IsCurrent low step (Run-IsCurrent low run h)
