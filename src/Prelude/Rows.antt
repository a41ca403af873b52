-- ===== src/Prelude/Rows.antt =====
-- A table of the database as the list of its rows, with lookup and update by a numeric key.
use Prim.Native.Nat.{ℕ}
use mathlib.Core.Path.{◌≡◌, refl, subst, ap}
use mathlib.Core.Logic.{◌≢◌, inl, inr}
use mathlib.Core.Bool.{Bool, true}
use mathlib.Core.Option.{Option, none, some}
use mathlib.Core.List.{List, [], ◌∷◌}
use native.Mathlib.Omega.{arith}
use server_npd.Prelude.Tests.{Bool-cases, ◌==◌, if◌then◌else◌}

module _ {ℓ} {A : Type ℓ} where
  -- The first row that meets a test.
  unfoldable pub first : (A → Bool) → List A → Option A
  first p [] = none
  first p (x ∷ xs) = if p x then some x else first p xs

  -- Every row that meets a test.
  unfoldable pub select : (A → Bool) → List A → List A
  select p [] = []
  select p (x ∷ xs) = let rest = select p xs in if p x then x ∷ rest else rest

  -- Members of a table.
  pub data IsIn (y : A) : List A → Type ℓ where
    here : {xs : List A} → IsIn y (y ∷ xs)
    there : {x : A} {xs : List A} → IsIn y xs → IsIn y (x ∷ xs)

  module _ (key : A → ℕ) where
    -- The row with a given key.
    unfoldable pub row : ℕ → List A → Option A
    row k [] = none
    row k (x ∷ xs) = if key x == k then some x else row k xs

    -- Writes a row over the one that has its key.
    unfoldable pub put_row : A → List A → List A
    put_row y [] = []
    put_row y (x ∷ xs) = if key x == key y then y ∷ xs else x ∷ put_row y xs

    -- A row that is found has the key that was asked for.
    pub key-row : (k : ℕ) (xs : List A) {x : A} → row k xs ≡ some x → key x ≡ k
    unfolding row
    key-row k [] {x} h = ground arith
    key-row k (y ∷ xs) {x} h = ground (arith, key-row k xs {x = x})

    -- A row that was there is found as it was written.
    pub row-put_row_self :
        (k : ℕ) (y : A) (xs : List A) {x : A}
        → row k xs ≡ some x
        → key y ≡ k
        → row k (put_row y xs) ≡ some y
    unfolding row put_row
    row-put_row_self k y [] {x} h e = ground arith
    row-put_row_self k y (z ∷ xs) {x} h e = ground (arith, row-put_row_self k y xs {x = x})

    -- A write does not show under another key.
    pub row-put_row_ne : (k : ℕ) (y : A) (xs : List A) → key y ≢ k → row k (put_row y xs) ≡ row k xs
    unfolding row put_row
    row-put_row_ne k y [] e = refl
    row-put_row_ne k y (x ∷ xs) e = ground (arith, row-put_row_ne k y xs)

    -- A primary key: no two rows have one key.
    abbrev pub HasKey : List A → Type ℓ
    HasKey [] = Unit {ℓ}
    HasKey (x ∷ xs) = (row (key x) xs ≡ none) × HasKey xs

    pub row-put_row-none :
        (k : ℕ) (y : A) (xs : List A) → row k xs ≡ none → row k (put_row y xs) ≡ none
    unfolding row put_row
    row-put_row-none k y [] h = refl
    row-put_row-none k y (x ∷ xs) h = ground (arith, row-put_row-none k y xs)

    first_key :
        (x y : A) (xs : List A)
        → (key x == key y) ≡ true
        → row (key x) xs ≡ none
        → row (key y) xs ≡ none
    first_key x y xs e h = let k : key x ≡ key y = ground arith in rw k at h

    -- A member is the row that its key finds.
    pub row-IsIn : {y : A} {xs : List A} → HasKey xs → IsIn y xs → row (key y) xs ≡ some y
    unfolding row
    row-IsIn {y} h here = ground arith
    row-IsIn {y} h (there {x = x} {xs = xs} m) = ground (arith, row-IsIn h.1 m)

    pub put_row-HasKey : (y : A) (xs : List A) → HasKey xs → HasKey (put_row y xs)
    unfolding put_row
    put_row-HasKey y [] h = tt
    put_row-HasKey y (x ∷ xs) h = elim (Bool-cases (key x == key y)) [
      | inl same ↦ rw same (first_key x y xs same h.0, h.1)
      | inr other ↦ rw other (row-put_row-none (key x) y xs h.0, put_row-HasKey y xs h.1)
    ]

module _ {ℓ} {A : Type ℓ} where
  pub first-IsIn :
      (p : A → Bool) (xs : List A) {x : A} → first p xs ≡ some x → IsIn x xs × (p x ≡ true)
  unfolding first
  first-IsIn p [] h = absurd (ground (arith))
  first-IsIn p (y ∷ ys) {x} h = elim (Bool-cases (p y)) [
    | inl e ↦
        let k : y ≡ x = ground (arith) in subst (λ z. IsIn z (y ∷ ys) × (p z ≡ true)) k (here, e)
    | inr e ↦ let (m, k) = first-IsIn p ys {x = x} (ground (arith)) in (there m, k)
  ]

  -- A row that is found by a test is found as it was written, if it still meets the test.
  pub first-put_row :
      (key : A → ℕ) (p : A → Bool) (y : A) (xs : List A) {x : A}
      → HasKey key xs
      → first p xs ≡ some x
      → p y ≡ true
      → key y ≡ key x
      → first p (put_row key y xs) ≡ some y
  unfolding first put_row
  first-put_row key p y [] h f t e = absurd (ground (arith))
  first-put_row key p y (z ∷ zs) {x} (fresh, h) f t e = elim (Bool-cases (p z)) [
    | inl found ↦
        let k : z ≡ x = ground (arith) in let j : key z ≡ key x = ap key k in ground (arith)
    | inr not_found ↦
        let later : first p zs ≡ some x = ground (arith) in
        let (m, _) = first-IsIn p zs later in
        let seen : row key (key x) zs ≡ some x = row-IsIn key h m in
        ground (arith, first-put_row key p y zs h later t e)
  ]
