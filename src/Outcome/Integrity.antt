-- ===== src/Outcome/Integrity.antt =====
-- `except IntegrityError`; every other exception goes on.
use server_npd.Prelude.{◌≡◌, ◌⊎◌, inl, inr, sym, subst, Bool, true, false, if◌then◌else◌}
use server_npd.Outcome.{
  Error, runtime_error, value_error, permission_error, lookup_error, conflict_error,
  invalid_ssh_public_key_error, ssh_public_key_conflict_error, type_error, transport_error,
  key_error, http_exception, integrity_error, Result, ok, err, Exec, catch, raise,
}

abbrev pub is_integrity_error : Error → Bool
is_integrity_error integrity_error = true
is_integrity_error (runtime_error _) = false
is_integrity_error (value_error _) = false
is_integrity_error (permission_error _) = false
is_integrity_error (lookup_error _) = false
is_integrity_error (conflict_error _) = false
is_integrity_error (invalid_ssh_public_key_error _) = false
is_integrity_error (ssh_public_key_conflict_error _) = false
is_integrity_error (type_error _) = false
is_integrity_error (transport_error _) = false
is_integrity_error (key_error _) = false
is_integrity_error (http_exception _ _) = false

abbrev pub except_integrity : {S A : Type 0} → Exec S A → Exec S A → Exec S A
except_integrity m handler = catch m (λ e. if is_integrity_error e then handler else raise e)

module _ {S A : Type 0} (P : Result A × S → Type 0) (handler : Exec S A) where
  -- What a guarded action has to end with, for `P` to hold in the end.
  abbrev pub Caught : Result A × S → Type 0
  Caught (ok a, s) = P (ok a, s)
  Caught (err e, s) =
      ((is_integrity_error e ≡ false) × P (err e, s)) ⊎ ((e ≡ integrity_error) × P (handler s))

  pub after_except :
      (m : Exec S A) {s : S} (q : Result A × S)
      → m s ≡ q
      → Caught q
      → P (except_integrity m handler s)
  unfolding catch raise
  after_except m {s} q e h =
      subst
        (λ x. P (elim x.0 [
          | ok a ↦ (ok a, x.1)
          | err y ↦ (if is_integrity_error y then handler else raise y) x.1
        ]))
        (sym e) (handled q h)
    where
      handled :
          (x : Result A × S)
          → Caught x
          → P (elim x.0 [
            | ok a ↦ (ok a, x.1)
            | err y ↦ (if is_integrity_error y then handler else raise y) x.1
          ])
      handled (ok a, t) k = k
      handled (err y, t) (inl (other, k)) = rw other k
      handled (err y, t) (inr (conflict, k)) = rw conflict k
