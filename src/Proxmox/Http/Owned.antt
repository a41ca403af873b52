-- ===== src/Proxmox/Http/Owned.antt =====
-- What the lookup of a machine's resource finds, over a cluster that GET requests leave alone.
use server_npd.Prelude.{
  ℕ, String, Bool, true, false, Option, none, some, ◌≡◌, ◌⊎◌, inl, inr, refl, ap, ◌&&◌, ◌<>◌, not,
}
use server_npd.Outcome.{Error, Result, ok, err, Exec, pure, raise_if, ◌>>=◌, ◌>>◌}
use server_npd.Outcome.Guards.{after_ok, after_err}
use server_npd.Proxmox.Contracts.{ProviderPlacement}
use server_npd.Proxmox.Json.{JsonObject, equals_text, get}
use server_npd.Proxmox.Client.{Http, Python, find_vm_resource}
use server_npd.Proxmox.Client.Reading.{GetIsSafe, Still-find_vm_resource}
use server_npd.Proxmox.Http.{HttpConfig, check_owned, find_owned_vm_resource}

-- A machine of the portal: a QEMU machine that has the name of the portal's machine, and is in the
-- portal's pool and on the machine's node.
unfoldable pub is_own : HttpConfig → (ℕ → String) → ℕ → ProviderPlacement → JsonObject → Bool
is_own config uuid_text id p r =
    equals_text (get "type" r) "qemu"
    && equals_text (get "name" r) ("npd-" <> uuid_text id)
    && equals_text (get "pool" r) config.pool
    && equals_text (get "node" r) p.node

pure_lem : {S A : Type 0} (a : A) (s : S) → pure a s ≡ (ok a, s)
unfolding pure
pure_lem a s = refl

-- An action of four tests returns if all pass, and raises otherwise, in the same state.
four_tests :
    {S A : Type 0} (a b c d : Bool) (x : A) (ea eb ec ed : Error) (s : S)
    → let m : Exec S A =
        raise_if (not a) ea
        >> (raise_if (not b) eb >> (raise_if (not c) ec >> (raise_if (not d) ed >> pure x))) in
      (((a && b && c && d) ≡ true) × (m s ≡ (ok x, s)))
      ⊎ (((a && b && c && d) ≡ false) × (e : Error) × (m s ≡ (err e, s)))
unfolding ◌>>=◌
four_tests true true true true x ea eb ec ed s = inl (refl, refl)
four_tests false b c d x ea eb ec ed s = inr (refl, ea, refl)
four_tests true false c d x ea eb ec ed s = inr (refl, eb, refl)
four_tests true true false d x ea eb ec ed s = inr (refl, ec, refl)
four_tests true true true false x ea eb ec ed s = inr (refl, ed, refl)

module _ {W : Type 0} (http : Http W) (python : Python) (config : HttpConfig)
    (uuid_text : ℕ → String) where
  -- What the cluster answers when it is asked for the resource with the VMID.
  abbrev pub Looked : ProviderPlacement → W → Option JsonObject → Type 0
  Looked p w o = (find_vm_resource http python p.vmid w).0 ≡ ok o

  check_owned_cases :
      (id : ℕ) (p : ProviderPlacement) (r : JsonObject) (w : W)
      → ((is_own config uuid_text id p r ≡ true)
          × (check_owned http python config uuid_text id p r w ≡ (ok (some r), w)))
        ⊎ ((is_own config uuid_text id p r ≡ false)
            × (e : Error) × (check_owned http python config uuid_text id p r w ≡ (err e, w)))
  unfolding is_own check_owned
  check_owned_cases id p r w = four_tests _ _ _ _ _ _ _ _ _ w

  module _ {B : Type 0} (P : Result B × W → Type 0) (safe : GetIsSafe http) (id : ℕ)
      (p : ProviderPlacement) (k : Option JsonObject → Exec W B) (w : W) where
    looks :
        (q : Result (Option JsonObject))
        → find_vm_resource http python p.vmid w ≡ (q, w)
        → ((e : Error) → P (err e, w))
        → (Looked p w none → P (k none w))
        → ((r : JsonObject)
            → Looked p w (some r)
            → is_own config uuid_text id p r ≡ true
            → P (k (some r) w))
        → P ((find_owned_vm_resource http python config uuid_text id p >>= k) w)
    unfolding find_owned_vm_resource
    looks (err e) h failed absent own =
        after_err P _ k (after_err (λ x. x ≡ (err e, w)) _ _ h refl) (failed e)
    looks (ok none) h failed absent own =
        after_ok P _ k (after_ok (λ x. x ≡ (ok none, w)) _ _ h (pure_lem none w))
          (absent (ap (λ x. x.0) h))
    looks (ok (some r)) h failed absent own = elim (check_owned_cases id p r w) [
      | inl (mine, passed) ↦
          after_ok P _ k (after_ok (λ x. x ≡ (ok (some r), w)) _ _ h passed)
            (own r (ap (λ x. x.0) h) mine)
      | inr (foreign, e, refused) ↦
          after_err P _ k (after_ok (λ x. x ≡ (err e, w)) _ _ h refused) (failed e)
    ]

    -- What follows the lookup runs in the world that it began in: with no resource, or with one
    -- that is the portal's own.
    pub after_owned :
        ((e : Error) → P (err e, w))
        → (Looked p w none → P (k none w))
        → ((r : JsonObject)
            → Looked p w (some r)
            → is_own config uuid_text id p r ≡ true
            → P (k (some r) w))
        → P ((find_owned_vm_resource http python config uuid_text id p >>= k) w)
    after_owned = looks (find_vm_resource http python p.vmid w).0 (λ i. (
      (find_vm_resource http python p.vmid w).0,
      (Still-find_vm_resource safe w python p.vmid).at w refl i,
    ))
