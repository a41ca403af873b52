-- ===== src/Prelude/Sorting.antt =====
-- `ORDER BY key DESC`, and what it leaves of the rows.
use Prim.Native.Nat.{ℕ, ◌≤◌}
use mathlib.Core.Path.{◌≡◌}
use mathlib.Core.Logic.{inl, inr}
use mathlib.Core.Bool.{Bool, true, false}
use mathlib.Core.List.{List, [], ◌∷◌}
use native.Mathlib.Omega.{arith}
use server_npd.Prelude.Tests.{leb, if◌then◌else◌, Bool-cases}
use server_npd.Prelude.Rows.{select, IsIn, here, there}

module _ {ℓ} {A : Type ℓ} where
  chosen :
      (p : A → Bool) {y x : A} {xs rest : List A}
      → p x ≡ true
      → (IsIn y rest → IsIn y xs × (p y ≡ true))
      → IsIn y (x ∷ rest)
      → IsIn y (x ∷ xs) × (p y ≡ true)
  chosen p e ih here = (here, e)
  chosen p e ih (there n) = let (k, h) = ih n in (there k, h)

  -- The rows that are selected are those of the table that meet the test.
  pub IsIn-select :
      (p : A → Bool) (xs : List A) {y : A} → IsIn y (select p xs) → IsIn y xs × (p y ≡ true)
  unfolding select
  IsIn-select p [] m = elim m [ ]
  IsIn-select p (x ∷ xs) {y} m = elim (Bool-cases (p x)) [
    | inl e ↦ chosen p e (λ n. IsIn-select p xs n) (rw e at m)
    | inr e ↦ let (n, h) = IsIn-select p xs (rw e at m) in (there n, h)
  ]

  pub select-IsIn :
      (p : A → Bool) {y : A} {xs : List A} → IsIn y xs → p y ≡ true → IsIn y (select p xs)
  unfolding select
  select-IsIn p here h = rw h here
  select-IsIn p (there {x = x} {xs = xs} m) h = elim (Bool-cases (p x)) [
    | inl e ↦ rw e (there (select-IsIn p m h))
    | inr e ↦ rw e (select-IsIn p m h)
  ]

  module _ (key : A → ℕ) where
    unfoldable pub insert_desc : A → List A → List A
    insert_desc y [] = y ∷ []
    insert_desc y (x ∷ xs) = if leb (key x) (key y) then y ∷ x ∷ xs else x ∷ insert_desc y xs

    unfoldable pub order_desc : List A → List A
    order_desc [] = []
    order_desc (x ∷ xs) = insert_desc x (order_desc xs)

    -- No row stands before one with a larger key.
    abbrev pub IsDesc : List A → Type ℓ
    IsDesc [] = Unit {ℓ}
    IsDesc (x ∷ xs) = ((y : A) → IsIn y xs → key y ≤ key x) × IsDesc xs

    widen : {x y z : A} {xs : List A} → IsIn z (y ∷ xs) → IsIn z (y ∷ x ∷ xs)
    widen here = here
    widen (there m) = there (there m)

    swapped :
        {x y z : A} {xs rest : List A}
        → (IsIn z rest → IsIn z (y ∷ xs))
        → IsIn z (x ∷ rest)
        → IsIn z (y ∷ x ∷ xs)
    swapped k here = there here
    swapped k (there m) = widen (k m)

    IsIn-insert_desc : (y : A) (xs : List A) {z : A} → IsIn z (insert_desc y xs) → IsIn z (y ∷ xs)
    unfolding insert_desc
    IsIn-insert_desc y [] m = m
    IsIn-insert_desc y (x ∷ xs) m = elim (Bool-cases (leb (key x) (key y))) [
      | inl e ↦ rw e at m
      | inr e ↦ swapped (λ n. IsIn-insert_desc y xs n) (rw e at m)
    ]

    inserted : (y : A) (xs : List A) → IsIn y (insert_desc y xs)
    unfolding insert_desc
    inserted y [] = here
    inserted y (x ∷ xs) = elim (Bool-cases (leb (key x) (key y))) [
      | inl e ↦ rw e here
      | inr e ↦ rw e (there (inserted y xs))
    ]

    insert_desc-there : {z : A} (y : A) {xs : List A} → IsIn z xs → IsIn z (insert_desc y xs)
    unfolding insert_desc
    insert_desc-there {z} y (here {xs = xs}) = elim (Bool-cases (leb (key z) (key y))) [
      | inl e ↦ rw e (there here)
      | inr e ↦ rw e here
    ]
    insert_desc-there y (there {x = x} {xs = xs} m) = elim (Bool-cases (leb (key x) (key y))) [
      | inl e ↦ rw e (there (there m))
      | inr e ↦ rw e (there (insert_desc-there y m))
    ]

    insert_desc-IsDesc : (y : A) (xs : List A) → IsDesc xs → IsDesc (insert_desc y xs)
    unfolding insert_desc
    insert_desc-IsDesc y [] h = ((λ z m. elim m [ ]), tt)
    insert_desc-IsDesc y (x ∷ xs) (top, h) = elim (Bool-cases (leb (key x) (key y))) [
      | inl e ↦ rw e ((λ z m. first_le e m), (top, h))
      | inr e ↦ rw e ((λ z m. later e (IsIn-insert_desc y xs m)), insert_desc-IsDesc y xs h)
    ]
      where
        first_le : {z : A} → leb (key x) (key y) ≡ true → IsIn z (x ∷ xs) → key z ≤ key y
        first_le e here = ground arith
        first_le {z} e (there m) = ground (arith, top z m)

        later : {z : A} → leb (key x) (key y) ≡ false → IsIn z (y ∷ xs) → key z ≤ key x
        later e here = ground arith
        later {z} e (there m) = top z m

    under :
        {x z : A} {xs rest : List A}
        → (IsIn z rest → IsIn z xs)
        → IsIn z (x ∷ rest)
        → IsIn z (x ∷ xs)
    under k here = here
    under k (there m) = there (k m)

    -- Ordered, with the same rows.
    pub order_desc-IsDesc : (xs : List A) → IsDesc (order_desc xs)
    unfolding order_desc
    order_desc-IsDesc [] = tt
    order_desc-IsDesc (x ∷ xs) = insert_desc-IsDesc x (order_desc xs) (order_desc-IsDesc xs)

    pub IsIn-order_desc : (xs : List A) {z : A} → IsIn z (order_desc xs) → IsIn z xs
    unfolding order_desc
    IsIn-order_desc [] m = m
    IsIn-order_desc (x ∷ xs) m =
        under (λ n. IsIn-order_desc xs n) (IsIn-insert_desc x (order_desc xs) m)

    pub order_desc-IsIn : {z : A} {xs : List A} → IsIn z xs → IsIn z (order_desc xs)
    unfolding order_desc
    order_desc-IsIn (here {xs = xs}) = inserted _ (order_desc xs)
    order_desc-IsIn (there {x = x} m) = insert_desc-there x (order_desc-IsIn m)
