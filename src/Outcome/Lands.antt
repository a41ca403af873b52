-- ===== src/Outcome/Lands.antt =====
-- Actions that return from every state, with a rule for each way to build one.
use server_npd.Prelude.{◌≡◌, Bool, true, false, some, ◌||◌, if◌then◌else◌}
use server_npd.Outcome.{Error, Result, ok, err, Exec, pure, gets, need, raise_if, ◌>>=◌}

abbrev pub IsOk : {A : Type 0} → Result A → Type 0
IsOk (ok a) = Unit
IsOk (err e) = ⊥

pub record Lands {S A : Type 0} (m : Exec S A) : Type 0 where
  pub at : (s : S) → IsOk (m s).0

module _ {S A : Type 0} where
  pub Lands-pure : (a : A) → Lands {S = S} (pure a)
  unfolding pure
  Lands-pure a = record { at = λ s. tt }

  pub Lands-gets : (f : S → A) → Lands (gets f)
  unfolding gets
  Lands-gets f = record { at = λ s. tt }

  -- A chain of three tests, one of which passes.
  pub Lands-chain :
      (a b c : Bool) {l m n : Exec S A} (last : Exec S A)
      → (a || (b || (c || false))) ≡ true
      → Lands l
      → Lands m
      → Lands n
      → Lands (if a then l else if b then m else if c then n else last)
  Lands-chain true b c last h kl km kn = kl
  Lands-chain false true c last h kl km kn = km
  Lands-chain false false true last h kl km kn = kn
  Lands-chain false false false last h kl km kn = cc

module _ {S : Type 0} where
  pub Lands-raise_if : (b : Bool) (e : Error) → b ≡ false → Lands {S = S} (raise_if b e)
  unfolding raise_if
  Lands-raise_if true e h = cc
  Lands-raise_if false e h = record { at = λ s. tt }

module _ {S A B : Type 0} where
  pub Lands-bind :
      {m : Exec S A} {f : A → Exec S B} → Lands m → ((a : A) → Lands (f a)) → Lands (m >>= f)
  unfolding ◌>>=◌
  Lands-bind {m} {f} lm lf = record { at = λ s. next (m s).0 (m s).1 (lm.at s) }
    where
      next : (r : Result A) (t : S) → IsOk r → IsOk (((λ _. (r, t)) >>= f) t).0
      next (ok a) t h = (lf a).at t
      next (err e) t h = absurd h

  pub Lands-need-some :
      (a : A) (e : Error) (f : A → Exec S B) → Lands (f a) → Lands (need (some a) e >>= f)
  unfolding ◌>>=◌
  Lands-need-some a e f lf = record { at = λ s. lf.at s }

pub ruleset lands_rules = (Lands-pure, Lands-gets, Lands-bind)
