-- ===== src/Outcome/Raises.antt =====
-- Which exceptions an action may raise, with a rule for each way to build one.
use server_npd.Prelude.{
  option_case, Bool, true, false, Option, none, some, ◌≡◌, ◌⊎◌, inl, inr, Bool-cases,
}
use server_npd.Outcome.{
  Error, Result, ok, err, integrity_error, Exec, pure, raise, gets, need, catch, raise_if, ◌>>=◌,
}
use server_npd.Outcome.Integrity.{is_integrity_error, except_integrity}

abbrev pub Fails : {A : Type 0} → (Error → Type 0) → Result A → Type 0
Fails R (ok a) = Unit
Fails R (err e) = R e

pub record Raises {S A : Type 0} (R : Error → Type 0) (m : Exec S A) : Type 0 where
  pub at : (s : S) → Fails R (m s).0

-- `R`, or IntegrityError.
abbrev pub OrIntegrity : (Error → Type 0) → Error → Type 0
OrIntegrity R e = R e ⊎ (e ≡ integrity_error)

module _ {S A : Type 0} {R : Error → Type 0} where
  pub Raises-pure : (a : A) → Raises {S = S} R (pure a)
  unfolding pure
  Raises-pure a = record { at = λ s. tt }

  pub Raises-gets : (f : S → A) → Raises R (gets f)
  unfolding gets
  Raises-gets f = record { at = λ s. tt }

  pub Raises-raise : (e : Error) → R e → Raises {S = S} {A = A} R (raise e)
  unfolding raise
  Raises-raise e r = record { at = λ s. r }

  pub Raises-need : (o : Option A) (e : Error) → R e → Raises {S = S} R (need o e)
  unfolding need
  Raises-need none e r = record { at = λ s. r }
  Raises-need (some a) e r = record { at = λ s. tt }

  pub Raises-option :
      {B : Type 0} (o : Option B) {m : Exec S A} {k : B → Exec S A}
      → Raises R m
      → ((b : B) → Raises R (k b))
      → Raises R (option_case o m k)
  Raises-option none rm rk = rm
  Raises-option (some b) rm rk = rk b

  pub Raises-except_integrity :
      {m handler : Exec S A}
      → Raises (OrIntegrity R) m
      → Raises R handler
      → Raises R (except_integrity m handler)
  unfolding catch raise
  Raises-except_integrity {m} {handler} rm rh = record { at = λ s. next (m s).0 (m s).1 (rm.at s) }
    where
      next :
          (r : Result A) (t : S)
          → Fails (OrIntegrity R) r
          → Fails R (except_integrity (λ _. (r, t)) handler t).0
      next (ok a) t h = tt
      next (err e) t (inl h) = elim (Bool-cases (is_integrity_error e)) [
        | inl x ↦ rw x (rh.at t)
        | inr x ↦ rw x h
      ]
      next (err e) t (inr h) = rw h (rh.at t)

  -- What a handler turns an exception into.
  pub Raises-answer :
      {Q : Error → Type 0} {m : Exec S A} (answer : Error → Error)
      → Raises Q m
      → ((e : Error) → Q e → R (answer e))
      → Raises R (catch m (λ e. raise (answer e)))
  unfolding catch raise
  Raises-answer {Q} {m} answer rm turn = record { at = λ s. next (m s).0 (m s).1 (rm.at s) }
    where
      next :
          (r : Result A) (t : S)
          → Fails Q r
          → Fails R (catch {A = A} (λ _. (r, t)) (λ e. raise (answer e)) t).0
      next (ok a) t h = tt
      next (err e) t h = turn e h

module _ {S : Type 0} {R : Error → Type 0} where
  pub Raises-raise_if : (b : Bool) (e : Error) → R e → Raises {S = S} R (raise_if b e)
  unfolding raise_if
  Raises-raise_if true e r = record { at = λ s. r }
  Raises-raise_if false e r = record { at = λ s. tt }

module _ {S A B : Type 0} {R : Error → Type 0} where
  pub Raises-bind :
      {m : Exec S A} {f : A → Exec S B}
      → Raises R m
      → ((a : A) → Raises R (f a))
      → Raises R (m >>= f)
  unfolding ◌>>=◌
  Raises-bind {m} {f} rm rf = record { at = λ s. next (m s).0 (m s).1 (rm.at s) }
    where
      next : (r : Result A) (t : S) → Fails R r → Fails R (((λ _. (r, t)) >>= f) t).0
      next (ok a) t h = (rf a).at t
      next (err e) t h = h

pub ruleset raises_rules = (
  Raises-pure, Raises-gets, Raises-raise, Raises-need, Raises-option, Raises-except_integrity,
  Raises-raise_if, Raises-bind,
)
