-- ===== src/Proxmox/Client/Search.antt =====
-- The search for the resource with a VMID, against a definition that says what is looked for.
use server_npd.Prelude.{
  ℕ, Bool, true, false, Option, none, some, List, [], ◌∷◌, ◌≡◌, ◌≢◌, refl, arith, ◌&&◌, ◌<>◌, ◌⊎◌,
  is_some, if◌then◌else◌, option_case, Option-cases, inl, inr,
}
use server_npd.Prelude.Int.{is_nat}
use server_npd.Prelude.Rows.{select}
use server_npd.Outcome.{Error, value_error, Result, ok, err, pure, raise}
use server_npd.Outcome.Guards.{after_ok, after_err, after_need, after_some, after_test}
use server_npd.Proxmox.Json.{JsonObject, as_int, get}
use server_npd.Proxmox.Client.{
  Http, Python, list_vm_resources, matching, sole_match, find_vm_resource,
}

-- Every resource has an integer for its VMID.
abbrev pub are_numbered : List JsonObject → Bool
are_numbered [] = true
are_numbered (r ∷ rs) = is_some (as_int (get "vmid" r)) && are_numbered rs

abbrev pub has_number : ℕ → JsonObject → Bool
has_number vmid r = option_case (as_int (get "vmid" r)) false (λ z. is_nat z vmid)

-- What a search among the resources with the VMID ends with; `none` stands for an exception.
abbrev pub sole : List JsonObject → Option (Option JsonObject)
sole [] = some none
sole (r ∷ []) = some (some r)
sole (r ∷ s ∷ rs) = none

-- The definition to compare with: among resources that all have an integer for their VMID, the only
-- one that has this VMID, or none if there is none.
abbrev pub search_result : ℕ → List JsonObject → Option (Option JsonObject)
search_result vmid rs = if are_numbered rs then sole (select (has_number vmid) rs) else none

module _ {W : Type 0} (http : Http W) (python : Python) (vmid : ℕ) where
  matching_cases :
      (rs : List JsonObject) (v : W)
      → ((are_numbered rs ≡ true)
          × (matching http python vmid rs v ≡ (ok (select (has_number vmid) rs), v)))
        ⊎ ((are_numbered rs ≡ false) × (e : Error) × (matching http python vmid rs v ≡ (err e, v)))
  unfolding matching select pure
  matching_cases [] v = inl (refl, refl)
  matching_cases (r ∷ rs) v = elim (Option-cases (as_int (get "vmid" r))) [
    | inl missing ↦
        let e : Error =
          value_error ("Invalid VMID in Proxmox resource: " <> python.show_json (get "vmid" r)) in
        inr (
          rw missing refl,
          e,
          after_need (λ q. q ≡ (err e, v)) _ _ _ refl (λ a h. absurd (ground (arith))),
        )
    | inr (z, number) ↦ elim (matching_cases rs v) [
      | inl (numbered, m) ↦ inl (
        rw number numbered,
        after_some (λ q. q ≡ (ok (select (has_number vmid) (r ∷ rs)), v)) _ _ number
            (after_ok (λ q. q ≡ (ok (select (has_number vmid) (r ∷ rs)), v)) _ _ m
              (rw number refl)),
      )
      | inr (bad, e, m) ↦ inr (
        rw number bad,
        e,
        after_some (λ q. q ≡ (err e, v)) _ _ number (after_err (λ q. q ≡ (err e, v)) _ _ m refl),
      )
    ]
  ]

  -- An answer that agrees with a result of the search.
  abbrev pub Agrees : Option (Option JsonObject) → W → Result (Option JsonObject) × W → Type 0
  Agrees (some o) v q = q ≡ (ok o, v)
  Agrees none v q = (e : Error) × (q ≡ (err e, v))

  sole-Agrees :
      (ms : List JsonObject) (v : W) → Agrees (sole ms) v (sole_match http python vmid ms v)
  unfolding sole_match pure raise
  sole-Agrees [] v = refl
  sole-Agrees (r ∷ []) v = refl
  sole-Agrees (r ∷ s ∷ rs) v = (_, refl)

  -- Once the list of resources has come, the search for a positive VMID returns exactly what the
  -- definition gives (no resource, or the only one), raises where it gives an exception, and sends
  -- nothing more.
  pub find_vm_resource-search_result :
      (rs : List JsonObject) (w v : W)
      → vmid ≢ 0
      → list_vm_resources http python w ≡ (ok rs, v)
      → Agrees (search_result vmid rs) v (find_vm_resource http python vmid w)
  unfolding find_vm_resource
  find_vm_resource-search_result rs w v positive listed =
      after_test (Agrees (search_result vmid rs) v) _ _ _ (λ h. absurd (positive (ground (arith))))
        (λ _. after_ok (Agrees (search_result vmid rs) v) _ _ listed (elim (matching_cases rs v) [
          | inl (numbered, m) ↦
              rw numbered
                (after_ok (Agrees (sole (select (has_number vmid) rs)) v) _ _ m (sole-Agrees _ v))
          | inr (bad, e, m) ↦ rw bad (after_err (Agrees none v) _ _ m (e, refl))
        ]))
