-- ===== src/Outcome.antt =====
-- Exceptions as values, and actions: code that changes a state and may raise. What was written
-- before a raise stays written, so the state comes back beside the error; a transaction drops it.
pub mod Keeps
pub mod Guards
pub mod Integrity
pub mod Answers
pub mod Lands
pub mod Raises
use server_npd.Prelude.{ℕ, String, Bool, Option, none, some, if◌then◌else◌}

-- The exception classes that the services raise, with their messages. `integrity_error` is
-- SQLAlchemy's, for a violated constraint; `conflict_error` is proxmox/errors.py's, the next two
-- are those of ssh_keys/exceptions.py, `http_exception` is FastAPI's with its status code, and
-- `transport_error` stands for those of the HTTP package; `key_error` is Python's KeyError.
pub data Error : Type 0 where
  runtime_error value_error permission_error lookup_error conflict_error : String → Error
  invalid_ssh_public_key_error ssh_public_key_conflict_error : String → Error
  type_error transport_error key_error : String → Error
  http_exception : ℕ → String → Error
  integrity_error : Error

pub data Result {ℓ} (A : Type ℓ) : Type ℓ where
  ok : A → Result A
  err : Error → Result A

abbrev pub Done : Type 0
Done = Unit

abbrev pub Exec : Type 0 → Type 0 → Type 0
Exec S A = S → Result A × S

module _ {S A : Type 0} where
  unfoldable pub pure : A → Exec S A
  pure a s = (ok a, s)

  unfoldable pub raise : Error → Exec S A
  raise e s = (err e, s)

  unfoldable pub gets : (S → A) → Exec S A
  gets f s = (ok (f s), s)

  unfoldable pub lift : Result A → Exec S A
  lift r s = (r, s)

  -- The value, or an exception where it is None.
  unfoldable pub need : Option A → Error → Exec S A
  need none e s = (err e, s)
  need (some a) e s = (ok a, s)

  -- `try: m except Exception: handler`: the handler begins in the state that the raise left.
  unfoldable pub catch : Exec S A → (Error → Exec S A) → Exec S A
  catch m handler s = let (r, s') = m s in elim r [ ok a ↦ (ok a, s') | err e ↦ handler e s' ]

module _ {S : Type 0} where
  unfoldable pub raise_if : Bool → Error → Exec S Done
  raise_if b e s = (if b then err e else ok tt, s)

module _ {S A B : Type 0} where
  infixl 5 ◌>>=◌ ◌>>◌
  -- Opening this opens the actions above too.
  unfoldable pub ◌>>=◌ : Exec S A → (A → Exec S B) → Exec S B
  unfolding pure raise gets lift need catch raise_if
  ◌>>=◌ m f s = let (r, s') = m s in elim r [ ok a ↦ f a s' | err e ↦ (err e, s') ]

  abbrev pub ◌>>◌ : Exec S A → Exec S B → Exec S B
  m >> k = m >>= λ _. k
