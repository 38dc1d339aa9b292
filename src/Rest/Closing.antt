-- ===== src/Rest/Closing.antt =====
-- From an open support thread to a resolved one: the two requests of an operator go through.
use stapel_chat.Base.{
  ==_iff, All-find?, Bool, Bool-cases, In, In-All, List, Text, [], ap, arith, false, filter, find?,
  inl, inr, refl, some, subst, sym, true, ℕ, ◌==◌, ◌∙◌, ◌∷◌, ◌≡◌,
}
use stapel_chat.Journal.{IsJournal, RunFrom}
use stapel_chat.Journal.Steps.{Run-IsJournal}
use stapel_chat.Membership.{is_member}
use stapel_chat.Model.{Conversation, Participant, is_support, operator, status_resolved}
use stapel_chat.Rest.{
  Framework, Reply, data_reply, may_operate, my_participant, scoped_conversation, support_enabled,
}
use stapel_chat.Rest.Desk.{
  assign_for, assign_thread, bare_dto, is_operator, move_as, move_thread, reload_thread,
  with_support,
}
use stapel_chat.Rest.Mappers.{Response, thread_body}
use stapel_chat.Rest.Runs.Desk.{assign_thread-Journals}
use stapel_chat.Rest.Urls.{assign_post, resolve_post, serve_call}
use stapel_chat.Scope.{Request, ScopeProvider}
use stapel_chat.Sending.{get_conversation}
use stapel_chat.Sending.Post.{undisturbed}
use stapel_chat.Settings.{Host}
use stapel_chat.Support.{
  assign_operator, resolve_support, taken_by_other, with_operator, with_status,
}
use stapel_chat.Support.Claims.{assign_operator-returns, resolve_support-returns}
use stapel_chat.Support.Holding.{IsHeldBy}
use stapel_chat.World.{Exec, Result, World, gets, ok, ◌>>=◌}

find-filter :
    (cid : ℕ) (q : Conversation → Bool) (cs : List Conversation) (c : Conversation)
    → find? (λ (k : Conversation). k.id == cid) cs ≡ some c
    → q c ≡ true
    → find? (λ (k : Conversation). k.id == cid) (filter q cs) ≡ some c
find-filter cid q [] c e t = absurd (ground arith)
find-filter cid q (k ∷ cs) c e t = elim (Bool-cases (k.id == cid)) [
  | inl hit ↦
      let same : k ≡ c = ground arith in
      let kept : q k ≡ true = ap q same ∙ t in rw (kept, hit) (ap some same)
  | inr miss ↦
      let rest = find-filter cid q cs c (rw miss at e) t in
      elim (Bool-cases (q k)) [ inl y ↦ rw (y, miss) rest | inr n ↦ rw n rest ]
]

module _ (host : Host) (scope : ScopeProvider) (lib : Framework) (request : Request) where
  -- The body that shows the caller a row as a state holds it.
  abbrev pub shown_thread : World → Conversation → Response
  shown_thread w row =
      thread_body (bare_dto host scope lib request w row (my_participant request.user row w))

  reloaded :
      (c row : Conversation) (w : World)
      → get_conversation c.id w ≡ some row
      → reload_thread host scope lib request c w ≡ (ok (data_reply 200 (shown_thread w row)), w)
  unfolding reload_thread
  reloaded c row w e = ground arith

  -- The guard of the support views lets the thread through.
  guarded :
      (cid : ℕ) (k : Conversation → Exec (Reply Response)) (c : Conversation) (w : World)
      → support_enabled host ≡ true
      → get_conversation cid w ≡ some c
      → scope.admits request c ≡ true
      → is_support c.kind ≡ true
      → with_support host scope lib request cid k w ≡ k c w
  unfolding with_support scoped_conversation get_conversation
  guarded cid k c w on e admitted kind =
      let hit = find-filter cid (scope.admits request) w.conversations c e admitted in ground arith

  assigned_reply :
      (cid : ℕ) (c r row : Conversation) (w v : World)
      → support_enabled host ≡ true
      → get_conversation cid w ≡ some c
      → scope.admits request c ≡ true
      → is_support c.kind ≡ true
      → scope.can_operate request (some c) ≡ some true
      → assign_operator host c request.user w ≡ (ok r, v)
      → get_conversation r.id v ≡ some row
      → assign_thread host scope lib request cid w ≡ (ok (data_reply 200 (shown_thread v row)), v)
  unfolding assign_thread
  assigned_reply cid c r row w v on e admitted kind may done_so there =
      let through =
        guarded cid
          (λ d. may_operate scope request (some d) >>= assign_for host scope lib request d) c w on e
          admitted kind in
      let reply = reloaded r row v there in through ∙ ground arith

  found_id : (cid : ℕ) (w : World) (c : Conversation) → get_conversation cid w ≡ some c → c.id ≡ cid
  unfolding get_conversation
  found_id cid w c e =
      let rows = w.conversations in
      (==_iff c.id cid).0 (
        (All-find? (λ (d : Conversation). In d rows) (λ (d : Conversation). d.id == cid) rows
          (In-All (λ (d : Conversation). In d rows) rows (λ d i. i)) e).1)

  resolved_reply :
      (cid : ℕ) (c row : Conversation) (p : Participant) (r : Conversation) (w v : World)
      → support_enabled host ≡ true
      → get_conversation cid w ≡ some c
      → scope.admits request c ≡ true
      → is_support c.kind ≡ true
      → scope.can_operate request (some c) ≡ some true
      → my_participant request.user c w ≡ some p
      → p.role ≡ operator
      → resolve_support host c w ≡ (ok r, v)
      → get_conversation r.id v ≡ some row
      → move_thread host scope lib request true cid w
        ≡ (ok (data_reply 200 (shown_thread v row)), v)
  unfolding move_thread
  resolved_reply cid c row p r w v on e admitted kind may seat_there role moved there =
      let through =
        guarded cid
          (λ d. gets (my_participant request.user d) >>= move_as host scope lib request true d) c w
          on e admitted kind in
      let reply = reloaded r row v there in
      let is_one : is_operator p.role ≡ true = ap is_operator role in through ∙ ground arith

-- What the two requests leave: each is answered with the stored row of the thread, as `shown` puts
-- it, and at the end that row is resolved.
module _ (shown : World → Conversation → Response) (first : Result (Reply Response) × World)
    (second : World → Result (Reply Response) × World) (cid user : ℕ) (key : Text) where
  pub record IsClosed : Type 0 where
    pub between_them : World
    pub afterwards : World
    pub held_between : IsHeldBy cid user key between_them
    pub claim_answered :
        first ≡ (ok (data_reply 200 (shown between_them held_between.row)), between_them)
    pub last_row : Conversation
    pub close_answered :
        second between_them ≡ (ok (data_reply 200 (shown afterwards last_row)), afterwards)
    pub last_found : get_conversation cid afterwards ≡ some last_row
    pub last_resolved : last_row.support_status ≡ some status_resolved

-- In a well-formed journal, a support thread that nobody else holds can be claimed and then resolved
-- by whoever the scope provider admits to its scope and takes for an operator there: both requests
-- are answered with the body that shows the caller the thread's row as it is then stored, in between
-- the caller holds it, and at the end it is resolved.
pub claimed_then_resolved :
    (host : Host) (scope : ScopeProvider) (lib : Framework) (request : Request) (cid : ℕ)
    (w : World) (c : Conversation)
    → IsJournal w
    → support_enabled host ≡ true
    → get_conversation cid w ≡ some c
    → is_support c.kind ≡ true
    → taken_by_other c.assigned_operator request.user ≡ false
    → ((d : Conversation)
        → d.scope_key ≡ c.scope_key
        → (scope.admits request d ≡ true) × (scope.can_operate request (some d) ≡ some true))
    → IsClosed
        (shown_thread host scope lib request)
        (serve_call host scope lib undisturbed request (assign_post cid) w)
        (serve_call host scope lib undisturbed request (resolve_post cid))
        cid
        request.user
        c.scope_key
unfolding serve_call my_participant
claimed_then_resolved host scope lib request cid w c j on e kind free trusted =
    let same = found_id host scope lib request cid w c e in
    let own : get_conversation c.id w ≡ some c =
      subst (λ k. get_conversation k w ≡ some c) (sym same) e in
    let claim = assign_operator-returns host c request.user w j own kind free in
    let v = claim.0 in
    let held : IsHeldBy cid request.user c.scope_key v =
      subst (λ k. IsHeldBy k request.user c.scope_key v) same claim.2 in
    let d = held.row in
    let here : get_conversation c.id v ≡ some d =
      subst (λ k. get_conversation k v ≡ some d) (sym same) held.found in
    let trust = trusted c refl in
    let first =
      assigned_reply host scope lib request cid c (with_operator request.user w.clock c) d w v on e
        trust.0 kind trust.1 claim.1 here in
    let run : RunFrom w (assign_thread host scope lib request cid w).1 =
      (assign_thread-Journals host scope lib request cid).at w j in
    let j' : IsJournal v =
      Run-IsJournal (subst (λ (o : Result (Reply Response) × World). RunFrom w o.1) first run) j in
    let same_d = found_id host scope lib request cid v d held.found in
    let own_d : get_conversation d.id v ≡ some d =
      subst (λ k. get_conversation k v ≡ some d) (sym same_d) held.found in
    let seat_there : find? (is_member d.id request.user) v.participants ≡ some held.seat_row =
      subst (λ k. find? (is_member k request.user) v.participants ≡ some held.seat_row) (sym same_d)
        held.seated in
    let close = resolve_support-returns host d v j' own_d held.for_support in
    let trust_d = trusted d held.same_scope in
    let second =
      resolved_reply host scope lib request cid d close.1 held.seat_row
        (with_status status_resolved v.clock d) v close.0 on held.found trust_d.0 held.for_support
        trust_d.1 seat_there held.as_operator close.2 close.3 in
    record {
      between_them = v;
      afterwards = close.0;
      held_between = held;
      claim_answered = first;
      last_row = close.1;
      close_answered = second;
      last_found = subst (λ k. get_conversation k close.0 ≡ some close.1) same_d close.3;
      last_resolved = close.4;
    }
