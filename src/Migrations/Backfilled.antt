-- ===== src/Migrations/Backfilled.antt =====
-- What the migration of quotas makes of the table of quotas.
use server_npd.Prelude.{
  ℕ, true, false, none, List, [], ◌∷◌, ◌++◌, ◌≡◌, refl, ap, sym, ◌∙◌, not, is_some, subst, arith,
  Bool-cases, inl, inr, ◌==◌,
}
use server_npd.Prelude.Rows.{row, select, IsIn, here, there}
use server_npd.Prelude.Sorting.{select-IsIn}
use server_npd.Models.{User, ComputePlan, UserQuota, Accounts}
use server_npd.Migrations.{
  quota_user, is_starter, has_quota, quotas_of, cross_join, missing_quotas, upgrade,
}

row-append-none :
    (k : ℕ) (new old : List UserQuota)
    → row quota_user k new ≡ none
    → row quota_user k (new ++ old) ≡ row quota_user k old
unfolding row
row-append-none k [] old h = refl
row-append-none k (x ∷ new) old h = ground (arith, row-append-none k new old)

row-append-some :
    (k : ℕ) (new old : List UserQuota)
    → is_some (row quota_user k new) ≡ true
    → is_some (row quota_user k (new ++ old)) ≡ true
unfolding row
row-append-some k [] old h = absurd (ground (arith))
row-append-some k (x ∷ new) old h = ground (arith, row-append-some k new old)

-- Another user's rows are not found.
row-quotas_of-none :
    (k : ℕ) (user : User) (plans : List ComputePlan)
    → (user.id == k) ≡ false
    → row quota_user k (quotas_of user plans) ≡ none
unfolding row quotas_of
row-quotas_of-none k user [] h = refl
row-quotas_of-none k user (plan ∷ plans) h = ground (arith, row-quotas_of-none k user plans)

row-quotas_of-some :
    (user : User) (plans : List ComputePlan) (plan : ComputePlan)
    → is_some (row quota_user user.id (quotas_of user (plan ∷ plans))) ≡ true
unfolding row quotas_of
row-quotas_of-some user plans plan = ground arith

-- A user who has a quota gets no other.
row-missing-none :
    (k : ℕ) (quotas : List UserQuota) (users : List User) (plans : List ComputePlan)
    → is_some (row quota_user k quotas) ≡ true
    → row quota_user k (cross_join (select (λ u. not (has_quota quotas u)) users) plans) ≡ none
unfolding select cross_join row
row-missing-none k quotas [] plans h = refl
row-missing-none k quotas (u ∷ users) plans h = elim (Bool-cases (has_quota quotas u)) [
  | inl present ↦ rw present (row-missing-none k quotas users plans h)
  | inr absent ↦ rw absent (
      row-append-none k _ _ (row-quotas_of-none k u plans (other absent))
      ∙ row-missing-none k quotas users plans h)
]
  where
    other : has_quota quotas u ≡ false → (u.id == k) ≡ false
    other absent = elim (Bool-cases (u.id == k)) [
      | inl same ↦
          let e : u.id ≡ k = ground (arith) in
          let p : has_quota quotas u ≡ true =
            subst (λ j. is_some (row quota_user j quotas) ≡ true) (sym e) h in
          absurd (ground (arith))
      | inr e ↦ e
    ]

-- A user who is joined with some plan has a quota among the rows.
row-cross_join-some :
    (user : User) (users : List User) (plan : ComputePlan) (plans : List ComputePlan)
    → IsIn user users
    → is_some (row quota_user user.id (cross_join users (plan ∷ plans))) ≡ true
unfolding cross_join
row-cross_join-some user _ plan plans here =
    row-append-some user.id _ _ (row-quotas_of-some user plans plan)
row-cross_join-some user _ plan plans (there {x = u} {xs = users} m) =
    elim (Bool-cases (u.id == user.id)) [
      | inl same ↦
          let e : u.id ≡ user.id = ground (arith) in
          row-append-some user.id _ _ (
            subst (λ k. is_some (row quota_user k (quotas_of u (plan ∷ plans))) ≡ true) e
              (row-quotas_of-some u plans plan))
      | inr other ↦
          ap is_some
            (row-append-none user.id _ _ (row-quotas_of-none user.id u (plan ∷ plans) other))
          ∙ row-cross_join-some user users plan plans m
    ]

all_present :
    (quotas : List UserQuota) (users : List User)
    → ((u : User) → IsIn u users → has_quota quotas u ≡ true)
    → select (λ u. not (has_quota quotas u)) users ≡ []
unfolding select
all_present quotas [] h = refl
all_present quotas (u ∷ users) h = rw (h u here) (all_present quotas users (λ v m. h v (there m)))

no_plans : (users : List User) → cross_join users [] ≡ []
unfolding cross_join quotas_of
no_plans [] = refl
no_plans (u ∷ users) = no_plans users

-- Where there is a starter plan, everyone has a quota afterwards.
upgrade-has_quota :
    (quotas : List UserQuota) (users : List User) (plan : ComputePlan) (plans : List ComputePlan)
    (user : User)
    → IsIn user users
    → has_quota
        (cross_join (select (λ u. not (has_quota quotas u)) users) (plan ∷ plans) ++ quotas)
        user
      ≡ true
upgrade-has_quota quotas users plan plans user m = elim (Bool-cases (has_quota quotas user)) [
  | inl present ↦
      ap is_some
        (row-append-none user.id _ _ (row-missing-none user.id quotas users (plan ∷ plans) present))
      ∙ present
  | inr absent ↦ row-append-some user.id _ _ (
      row-cross_join-some user _ plan plans
        (select-IsIn (λ u. not (has_quota quotas u)) m (ap not absent)))
]

upgrade-nothing :
    (a : Accounts) → missing_quotas a.db.user_quotas a.users a.db.compute_plans ≡ [] → upgrade a ≡ a
unfolding upgrade
upgrade-nothing a h =
    ap (λ rows. record a { db = record a.db { user_quotas = rows ++ a.db.user_quotas } }) h

-- What the migration has made of the quotas.
abbrev pub Backfilled : Accounts → Accounts → Type 0
Backfilled a b =
    ((k : ℕ)
      → is_some (row quota_user k a.db.user_quotas) ≡ true
      → row quota_user k b.db.user_quotas ≡ row quota_user k a.db.user_quotas)
    × ((user : User) (plan : ComputePlan)
        → IsIn user a.users
        → IsIn plan a.db.compute_plans
        → is_starter plan ≡ true
        → has_quota b.db.user_quotas user ≡ true)
    × (upgrade b ≡ b)

-- A user who has a quota keeps it; where there is a starter plan, every user has a quota
-- afterwards; and a second run of the migration changes nothing.
pub upgrade-Backfilled : (a : Accounts) → Backfilled a (upgrade a)
unfolding upgrade cross_join
upgrade-Backfilled a = by_starters (select is_starter a.db.compute_plans) refl
  where
    kept :
        (k : ℕ)
        → is_some (row quota_user k a.db.user_quotas) ≡ true
        → row quota_user k (upgrade a).db.user_quotas ≡ row quota_user k a.db.user_quotas
    kept k h =
        row-append-none k _ _
          (row-missing-none k a.db.user_quotas a.users (select is_starter a.db.compute_plans) h)

    by_starters :
        (starters : List ComputePlan)
        → select is_starter a.db.compute_plans ≡ starters
        → Backfilled a (upgrade a)
    by_starters [] e = (
      kept,
      λ user plan m n h. absurd (elim (subst (IsIn plan) e (select-IsIn is_starter n h)) [ ]),
      upgrade-nothing (upgrade a) (rw e (no_plans _)),
    )
    by_starters (plan ∷ plans) e =
        let everyone : (u : User) → IsIn u a.users → has_quota (upgrade a).db.user_quotas u ≡ true =
          λ u m. rw e (upgrade-has_quota a.db.user_quotas a.users plan plans u m) in
        (
          kept,
          λ user _ m _ _. everyone user m,
          upgrade-nothing (upgrade a) (
              ap (λ us. cross_join us (select is_starter a.db.compute_plans))
                (all_present _ a.users everyone)),
        )
