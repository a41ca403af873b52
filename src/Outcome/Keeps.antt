-- ===== src/Outcome/Keeps.antt =====
-- Invariants of actions, with a rule for each way to build an action.
use server_npd.Prelude.{option_case, Bool, true, false, Option, none, some, if◌then◌else◌}
use server_npd.Outcome.{
  Error, Result, ok, err, Exec, pure, raise, gets, lift, need, catch, raise_if, ◌>>=◌,
}

-- `m` keeps `P`, whether it returns or raises.
pub record Keeps {S : Type 0} {A : Type 0} (P : S → Type 0) (m : Exec S A) : Type 0 where
  pub at : (s : S) → P s → P (m s).1

module _ {S A : Type 0} {P : S → Type 0} where
  pub Keeps-need : (o : Option A) (e : Error) → Keeps P (need o e)
  unfolding need
  Keeps-need none e = record { at = λ s h. h }
  Keeps-need (some a) e = record { at = λ s h. h }

  pub Keeps-gets : (query : S → A) → Keeps P (gets query)
  unfolding gets
  Keeps-gets query = record { at = λ _ kept. kept }

  pub Keeps-pure : (value : A) → Keeps P (pure value)
  unfolding pure
  Keeps-pure value = record { at = λ _ kept. kept }

  pub Keeps-lift : (result : Result A) → Keeps P (lift result)
  unfolding lift
  Keeps-lift result = record { at = λ _ kept. kept }

  pub Keeps-raise : (e : Error) → Keeps P (raise {A = A} e)
  unfolding raise
  Keeps-raise e = record { at = λ _ kept. kept }

  pub Keeps-if : (b : Bool) {m n : Exec S A} → Keeps P m → Keeps P n → Keeps P (if b then m else n)
  Keeps-if true km kn = km
  Keeps-if false km kn = kn

  pub Keeps-option :
      {B : Type 0} (o : Option B) {m : Exec S A} {k : B → Exec S A}
      → Keeps P m
      → ((b : B) → Keeps P (k b))
      → Keeps P (option_case o m k)
  Keeps-option none km kk = km
  Keeps-option (some b) km kk = kk b

  pub Keeps-catch :
      {m : Exec S A} {handler : Error → Exec S A}
      → Keeps P m
      → ((e : Error) → Keeps P (handler e))
      → Keeps P (catch m handler)
  unfolding catch
  Keeps-catch {m} {handler} km kh = record { at = λ s h. caught (m s).0 (m s).1 (km.at s h) }
    where
      caught : (r : Result A) (s : S) → P s → P (catch {A = A} (λ t. (r, t)) handler s).1
      caught (ok a) s h = h
      caught (err e) s h = (kh e).at s h

module _ {S : Type 0} {P : S → Type 0} where
  pub Keeps-raise_if : (b : Bool) (e : Error) → Keeps P (raise_if b e)
  unfolding raise_if
  Keeps-raise_if b e = record { at = λ s h. h }

module _ {S A B : Type 0} {P : S → Type 0} where
  pub Keeps-bind :
      {m : Exec S A} {f : A → Exec S B} → Keeps P m → ((a : A) → Keeps P (f a)) → Keeps P (m >>= f)
  unfolding ◌>>=◌
  Keeps-bind {m} {f} km kf = record { at = λ s h. next (m s).0 (m s).1 (km.at s h) }
    where
      next : (r : Result A) (s : S) → P s → P (((λ t. (r, t)) >>= f) s).1
      next (ok a) s h = (kf a).at s h
      next (err e) s h = h

pub ruleset keeps_rules = (
  Keeps-pure, Keeps-raise, Keeps-gets, Keeps-lift, Keeps-need, Keeps-if, Keeps-option, Keeps-catch,
  Keeps-raise_if, Keeps-bind,
)
