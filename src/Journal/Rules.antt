-- ===== src/Journal/Rules.antt =====
-- Services as runs of the journal, one rule for each way to build an action.
use stapel_chat.Base.{
  Bool, Option, arith, false, if◌then◌else◌, none, refl, some, true, ℕ, ◌≡◌, ◌≤◌,
}
use stapel_chat.Journal.{IsJournal, Run, RunFrom, appended, done, next, reserved, revised}
use stapel_chat.Journal.Marks.{SameRows, SameRows-RunFrom}
use stapel_chat.Journal.Steps.{Run-Grows, Run-IsJournal}
use stapel_chat.World.{
  Error, Exec, Result, World, atomic, err, gets, lift, ok, or_raise, pure, raise, raise_if, ◌>>=◌,
}

pub Run-trans : {floor : ℕ → ℕ} {u v w : World} → Run floor u v → Run floor v w → Run floor u w
Run-trans first done = first
Run-trans first (next run step) = next (Run-trans first run) step

-- A run counts its floor from any state before it.
pub Run-lower :
    {floor low : ℕ → ℕ} {u v : World}
    → ((cid : ℕ) → low cid ≤ floor cid)
    → Run floor u v
    → Run low u v
Run-lower le done = done
Run-lower le (next run (reserved e g)) = next (Run-lower le run) (reserved e g)
Run-lower le (next run (appended m e g i p b)) =
    next (Run-lower le run)
      (appended m e g i (omega (arith, p.0, p.1, p.2, p.3, le m.conversation)) b)
Run-lower le (next run (revised k cid r change e g kp row b p)) =
    next (Run-lower le run) (revised k cid r change e g kp row b (omega (arith, p.0, p.1, le cid)))

-- Two runs, each from the floor of its own start.
pub RunFrom-trans : {u v w : World} → RunFrom u v → RunFrom v w → RunFrom u w
RunFrom-trans first second = Run-trans first (Run-lower (Run-Grows first).last_grows second)

-- Whatever `m` does to a well-formed state, returning or raising, is a run of the journal.
pub record Journals {A : Type 0} (m : Exec A) : Type 0 where
  pub at : (w : World) → IsJournal w → RunFrom w (m w).1

module _ {A : Type 0} where
  pub Journals-pure : (a : A) → Journals (pure a)
  Journals-pure a = record { at = λ w j. done }

  pub Journals-raise : (e : Error) → Journals (raise {A = A} e)
  Journals-raise e = record { at = λ w j. done }

  pub Journals-gets : (f : World → A) → Journals (gets f)
  Journals-gets f = record { at = λ w j. done }

  pub Journals-lift : (r : Result A) → Journals (lift r)
  Journals-lift r = record { at = λ w j. done }

  pub Journals-or_raise : (o : Option A) (e : Error) → Journals (or_raise o e)
  Journals-or_raise none e = record { at = λ w j. done }
  Journals-or_raise (some a) e = record { at = λ w j. done }

  pub Journals-if :
      (b : Bool) (m n : Exec A) → Journals m → Journals n → Journals (if b then m else n)
  Journals-if true m n hm hn = hm
  Journals-if false m n hm hn = hn

  pub Journals-same : (m : Exec A) → ((w : World) → SameRows w (m w).1) → Journals m
  Journals-same m h = record { at = λ w j. SameRows-RunFrom (h w) }

  pub if-run :
      (b : Bool) (x y : Exec A) (w : World)
      → RunFrom w (x w).1
      → RunFrom w (y w).1
      → RunFrom w ((if b then x else y) w).1
  if-run true x y w hx hy = hx
  if-run false x y w hx hy = hy

  pub atomic-run :
      (w : World) (o : Result A × World) → RunFrom w o.1 → RunFrom w (atomic (λ u. o) w).1
  atomic-run w (ok a, v) run = run
  atomic-run w (err e, v) run = done

  -- A transaction is its body or leaves no trace.
  pub Journals-atomic : (m : Exec A) → Journals m → Journals (atomic m)
  Journals-atomic m h = record { at = λ w j. atomic-run w (m w) (h.at w j) }

pub Journals-raise_if : (b : Bool) (e : Error) → Journals (raise_if b e)
Journals-raise_if b e = record { at = λ w j. done }

module _ {A B : Type 0} where
  bind-run :
      (f : A → Exec B)
      → ((a : A) → Journals (f a))
      → (w : World) (o : Result A × World) → IsJournal w
      → RunFrom w o.1
      → RunFrom w (((λ u. o) >>= f) w).1
  bind-run f hf w (ok a, v) j run = RunFrom-trans run ((hf a).at v (Run-IsJournal run j))
  bind-run f hf w (err e, v) j run = run

  pub Journals-bind :
      (m : Exec A) (f : A → Exec B) → Journals m → ((a : A) → Journals (f a)) → Journals (m >>= f)
  Journals-bind m f hm hf = record { at = λ w j. bind-run f hf w (m w) j (hm.at w j) }

  pub Journals-lifted :
      (r : Result A) (f : A → Exec B) → ((a : A) → Journals (f a)) → Journals (lift r >>= f)
  Journals-lifted (ok a) f h = record { at = λ w j. (h a).at w j }
  Journals-lifted (err e) f h = record { at = λ w j. done }

  pub Journals-gotten :
      (f : World → A) (k : A → Exec B) → ((a : A) → Journals (k a)) → Journals (gets f >>= k)
  Journals-gotten f k h = record { at = λ w j. (h (f w)).at w j }

pub lift-run :
    {A B : Type 0} (r : Result A) (f : A → Exec B) (w : World)
    → ((a : A) → r ≡ ok a → RunFrom w (f a w).1)
    → RunFrom w ((lift r >>= f) w).1
lift-run (ok a) f w h = h a refl
lift-run (err e) f w h = done

pub ruleset journal_rules = (
  Journals-pure, Journals-raise, Journals-gets, Journals-lift, Journals-or_raise, Journals-if,
  Journals-atomic, Journals-raise_if, Journals-bind,
)
