-- ===== src/Outcome/Guards.antt =====
-- How an action that begins with a test ends: the test raises in the state it began in, or the rest
-- runs, and the test is known to have passed.
use server_npd.Prelude.{◌≡◌, refl, sym, subst, Bool, true, false, Option, none, some}
use server_npd.Outcome.{Error, Result, ok, err, Exec, Done, need, raise_if, gets, catch, ◌>>=◌}

module _ {S B : Type 0} (P : Result B × S → Type 0) where
  pub after_raise_if :
      (b : Bool) (e : Error) (k : Exec S B) {s : S}
      → P (err e, s)
      → (b ≡ false → P (k s))
      → P ((raise_if b e >>= λ _. k) s)
  unfolding ◌>>=◌
  after_raise_if true e k raised passed = raised
  after_raise_if false e k raised passed = passed refl

  -- The same, where the exception is known to come from the test.
  pub after_test :
      (b : Bool) (e : Error) (k : Exec S B) {s : S}
      → (b ≡ true → P (err e, s))
      → (b ≡ false → P (k s))
      → P ((raise_if b e >>= λ _. k) s)
  unfolding ◌>>=◌
  after_test true e k raised passed = raised refl
  after_test false e k raised passed = passed refl

  pub after_need :
      {A : Type 0} (o : Option A) (e : Error) (k : A → Exec S B) {s : S}
      → P (err e, s)
      → ((a : A) → o ≡ some a → P (k a s))
      → P ((need o e >>= k) s)
  unfolding ◌>>=◌
  after_need none e k raised passed = raised
  after_need (some a) e k raised passed = passed a refl

  -- The same, where the exception is known to come from a missing value.
  pub after_lookup :
      {A : Type 0} (o : Option A) (e : Error) (k : A → Exec S B) {s : S}
      → (o ≡ none → P (err e, s))
      → ((a : A) → o ≡ some a → P (k a s))
      → P ((need o e >>= k) s)
  unfolding ◌>>=◌
  after_lookup none e k raised passed = raised refl
  after_lookup (some a) e k raised passed = passed a refl

  pub after_some :
      {A : Type 0} {o : Option A} (e : Error) (k : A → Exec S B) {s : S} {a : A}
      → o ≡ some a
      → P (k a s)
      → P ((need o e >>= k) s)
  unfolding ◌>>=◌
  after_some e k {s} h rest = subst (λ x. P ((need x e >>= k) s)) (sym h) rest

  pub after_ok :
      {A : Type 0} (m : Exec S A) (k : A → Exec S B) {s s' : S} {a : A}
      → m s ≡ (ok a, s')
      → P (k a s')
      → P ((m >>= k) s)
  unfolding ◌>>=◌
  after_ok m k e h = subst (λ q. P (elim q.0 [ ok a ↦ k a q.1 | err x ↦ (err x, q.1) ])) (sym e) h

  pub after_err :
      {A : Type 0} (m : Exec S A) (k : A → Exec S B) {s s' : S} {x : Error}
      → m s ≡ (err x, s')
      → P (err x, s')
      → P ((m >>= k) s)
  unfolding ◌>>=◌
  after_err m k e h = subst (λ q. P (elim q.0 [ ok a ↦ k a q.1 | err x ↦ (err x, q.1) ])) (sym e) h

  pub after_gets :
      {A : Type 0} (f : S → A) (k : A → Exec S B) {s : S} → P (k (f s) s) → P ((gets f >>= k) s)
  unfolding ◌>>=◌
  after_gets f k h = h

module _ {S A : Type 0} (P : Result A × S → Type 0) where
  -- What a guarded action has to end with, for `P` to hold after its handler.
  abbrev pub Handled : (Error → Exec S A) → Result A × S → Type 0
  Handled handler (ok a, s) = P (ok a, s)
  Handled handler (err e, s) = P (handler e s)

  pub after_catch :
      (m : Exec S A) (handler : Error → Exec S A) {s : S} (q : Result A × S)
      → m s ≡ q
      → Handled handler q
      → P (catch m handler s)
  unfolding catch
  after_catch m handler (ok a, t) e h =
      subst (λ q. P (elim q.0 [ ok a ↦ (ok a, q.1) | err x ↦ handler x q.1 ])) (sym e) h
  after_catch m handler (err x, t) e h =
      subst (λ q. P (elim q.0 [ ok a ↦ (ok a, q.1) | err x ↦ handler x q.1 ])) (sym e) h

module _ {S : Type 0} (P : Result Done × S → Type 0) where
  pub at_raise_if :
      (b : Bool) (e : Error) {s : S}
      → P (err e, s)
      → (b ≡ false → P (ok tt, s))
      → P (raise_if b e s)
  unfolding ◌>>=◌
  at_raise_if true e raised passed = raised
  at_raise_if false e raised passed = passed refl
