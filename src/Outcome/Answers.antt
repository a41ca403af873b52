-- ===== src/Outcome/Answers.antt =====
-- What an action answers where it returns, from any state, with a rule for each way to build one.
use server_npd.Prelude.{option_case, Bool, true, false, Option, none, some, if◌then◌else◌}
use server_npd.Outcome.{Error, Result, ok, err, Exec, pure, raise, ◌>>=◌}

abbrev pub Returns : {A : Type 0} → (A → Type 0) → Result A → Type 0
Returns Q (ok a) = Q a
Returns Q (err e) = Unit

pub record Answers {S A : Type 0} (Q : A → Type 0) (m : Exec S A) : Type 0 where
  pub at : (s : S) → Returns Q (m s).0

module _ {S A : Type 0} {Q : A → Type 0} where
  pub Answers-pure : (a : A) → Q a → Answers {S = S} Q (pure a)
  unfolding pure
  Answers-pure a q = record { at = λ s. q }

  pub Answers-raise : (e : Error) → Answers {S = S} Q (raise e)
  unfolding raise
  Answers-raise e = record { at = λ s. tt }

  pub Answers-if :
      (b : Bool) {m n : Exec S A} → Answers Q m → Answers Q n → Answers Q (if b then m else n)
  Answers-if true am an = am
  Answers-if false am an = an

  pub Answers-option :
      {B : Type 0} (o : Option B) {m : Exec S A} {k : B → Exec S A}
      → Answers Q m
      → ((b : B) → Answers Q (k b))
      → Answers Q (option_case o m k)
  Answers-option none am ak = am
  Answers-option (some b) am ak = ak b

module _ {S A B : Type 0} {Q : B → Type 0} where
  -- Only the last action answers.
  pub Answers-bind :
      (m : Exec S A) {f : A → Exec S B} → ((a : A) → Answers Q (f a)) → Answers Q (m >>= f)
  unfolding ◌>>=◌
  Answers-bind m {f} af = record { at = λ s. next (m s).0 (m s).1 }
    where
      next : (r : Result A) (t : S) → Returns Q (((λ _. (r, t)) >>= f) t).0
      next (ok a) t = (af a).at t
      next (err e) t = tt

  -- What the first action answers is known to the second.
  pub Answers-then :
      {R : A → Type 0} (m : Exec S A) {f : A → Exec S B}
      → Answers R m
      → ((a : A) → R a → Answers Q (f a))
      → Answers Q (m >>= f)
  unfolding ◌>>=◌
  Answers-then {R} m {f} am af = record { at = λ s. next (m s).0 (m s).1 (am.at s) }
    where
      next : (r : Result A) (t : S) → Returns R r → Returns Q (((λ _. (r, t)) >>= f) t).0
      next (ok a) t h = (af a h).at t
      next (err e) t h = tt

pub ruleset answers_rules = (Answers-pure, Answers-raise, Answers-if, Answers-option, Answers-bind)
