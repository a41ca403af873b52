-- ===== src/Worker/Claim/Order.antt =====
-- Which operation a round claims.
use server_npd.Prelude.{
  ℕ, ◌≡◌, ◌≤◌, arith, true, false, Bool, Option, some, none, List, [], ◌∷◌, ◌&&◌, not, ◌⊎◌, inl,
  inr, subst, Option-cases, Bool-cases, refl,
}
use server_npd.Prelude.Rows.{IsIn, here, there}
use server_npd.Models.{Operation, Db}
use server_npd.Worker.Claim.{oldest, claimable, next_operation}

module _ (p : Operation → Bool) where
  oldest_cases :
      (q : Operation) (os : List Operation) {o : Operation}
      → oldest p (q ∷ os) ≡ some o
      → ((q ≡ o) × (p q ≡ true)) ⊎ (oldest p os ≡ some o)
  unfolding oldest
  oldest_cases q os {o} h = ground arith

  oldest-IsIn : (os : List Operation) {o : Operation} → oldest p os ≡ some o → IsIn o os
  unfolding oldest
  oldest-IsIn [] {o} h = cc
  oldest-IsIn (q ∷ os) {o} h = elim (oldest_cases q os h) [
    | inl (same, _) ↦ subst (λ x. IsIn x (q ∷ os)) same here
    | inr later ↦ there (oldest-IsIn os later)
  ]

  oldest_passes : (os : List Operation) {o : Operation} → oldest p os ≡ some o → p o ≡ true
  unfolding oldest
  oldest_passes [] {o} h = cc
  oldest_passes (q ∷ os) {o} h = elim (oldest_cases q os h) [
    | inl (same, passed) ↦ subst (λ x. p x ≡ true) same passed
    | inr later ↦ oldest_passes os later
  ]

  oldest-ne-none :
      {q : Operation} {os : List Operation} → IsIn q os → p q ≡ true → oldest p os ≡ none → ⊥
  unfolding oldest
  oldest-ne-none {q} here passed h = ground arith
  oldest-ne-none {q} (there {x = x} {xs = xs} m) passed h = ground (arith, oldest-ne-none m passed)

  oldest_least :
      {q : Operation} {os : List Operation} (o : Operation)
      → IsIn q os
      → p q ≡ true
      → oldest p os ≡ some o
      → o.updated_at ≤ q.updated_at
  unfolding oldest
  oldest_least {q} o (here {xs = xs}) passed h = ground arith
  oldest_least {q} o (there {x = x} {xs = xs} m) passed h = elim (Option-cases (oldest p xs)) [
    | inl nothing ↦ absurd (oldest-ne-none m passed nothing)
    | inr (r, found) ↦ ground (arith, oldest_least r m passed found)
  ]

-- What a query may return: nothing only if no row qualifies, or a row of the table that may be
-- claimed, that no other transaction holds, and that no such row has waited longer than.
abbrev pub Chosen : (ℕ → Bool) → ℕ → Db → Option Operation → Type 0
Chosen locked now db none =
    (q : Operation) → IsIn q db.operations → claimable now q && not (locked q.id) ≡ false
Chosen locked now db (some o) =
    IsIn o db.operations
    × (claimable now o ≡ true)
    × (locked o.id ≡ false)
    × ((q : Operation)
        → IsIn q db.operations
        → claimable now q ≡ true
        → locked q.id ≡ false
        → o.updated_at ≤ q.updated_at)

module _ (locked : ℕ → Bool) (now : ℕ) (db : Db) where
  abbrev qualifies : Operation → Bool
  qualifies o = claimable now o && not (locked o.id)

  Chosen-oldest :
      (r : Option Operation) → oldest qualifies db.operations ≡ r → Chosen locked now db r
  Chosen-oldest none h = λ q m. elim (Bool-cases (qualifies q)) [
    | inl passed ↦ absurd (oldest-ne-none qualifies m passed h)
    | inr refused ↦ refused
  ]
  Chosen-oldest (some o) h =
      let passed = oldest_passes qualifies db.operations h in
      (
        oldest-IsIn qualifies db.operations h,
        ground arith,
        ground arith,
        λ q m c l. oldest_least qualifies o m (ground arith) h,
      )

  -- The query's result, for every table, clock and set of locked rows: nothing exactly where no
  -- unlocked row meets the `where` clause, and otherwise an unlocked row that meets it, with no
  -- later `updated_at` than any other such row.
  pub next_operation-Chosen : Chosen locked now db (next_operation locked now db)
  unfolding next_operation
  next_operation-Chosen = Chosen-oldest _ refl
