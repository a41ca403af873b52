-- ===== src/Proxmox/Http/Resize.antt =====
-- The disk of a machine grows to the size that was asked for, and never shrinks.
use server_npd.Prelude.{
  ℕ, zero, suc, String, Bool, true, false, Option, none, some, ◌≡◌, ◌⊎◌, inl, inr, refl, ap, subst,
  ◌*◌, ◌<◌, ◌<>◌, [], ◌∷◌, ◌∙◌, ◌==◌, arith, Bool-cases, if◌then◌else◌, option_case,
}
use server_npd.Prelude.Int.{ℤ, pos, negsuc, positive}
use server_npd.Outcome.{Result, ok, err, Exec, pure, ◌>>=◌}
use server_npd.Outcome.Guards.{after_ok, after_err, after_raise_if, after_need, after_test}
use server_npd.Outcome.Keeps.{Keeps, keeps_rules}
use server_npd.Proxmox.Contracts.{CreateVmRequest, ProviderPlacement, ProviderTask, targets}
use server_npd.Proxmox.Json.{Json, JsonObject, as_int, is_boolean, get}
use server_npd.Proxmox.Client.{
  Http, Python, HttpRequest, put_method, words, get_vm_current_status, request_data, request_task,
  client_resize_vm_disk,
}
use server_npd.Proxmox.Client.Reading.{GetIsSafe, Still-get_vm_current_status}
use server_npd.Proxmox.Http.{
  HttpConfig, as_size, gigabyte, task_at, check_node, enlarge, http_resize_vm_disk,
}
use server_npd.Proxmox.Http.Found.{after-Found, need_unlocked-Found}
use server_npd.Proxmox.Http.Promise.{targets-task_at}

positive_lt : (z : ℤ) {n : ℕ} → positive z ≡ some n → 0 < n
positive_lt (pos zero) h = cc
positive_lt (pos (suc m)) h = ground (arith)
positive_lt (negsuc m) h = cc

as_size_lt : (v : Json) {n : ℕ} → as_size v ≡ some n → 0 < n
unfolding as_size
as_size_lt v {n} h = by_cases (is_boolean v) (as_int v) h
  where
    by_cases :
        (b : Bool) (o : Option ℤ)
        → (if b then none else option_case o none positive) ≡ some n
        → 0 < n
    by_cases true o e = cc
    by_cases false none e = cc
    by_cases false (some z) e = positive_lt z e

-- What follows an action and writes nothing leaves the state that the action left.
state_after :
    {W A B : Type 0} (m : Exec W A) (f : A → Exec W B) (w : W)
    → ((a : A) (v : W) → Keeps (λ x. x ≡ v) (f a))
    → ((m >>= f) w).1 ≡ (m w).1
unfolding ◌>>=◌
state_after {W} {A} {B} m f w silent = go (m w)
  where
    go : (q : Result A × W) → (((λ _. q) >>= f) w).1 ≡ q.1
    go (ok a, v) = (silent a v).at v refl
    go (err e, v) = refl

module _ {W : Type 0} {http : Http W} (safe : GetIsSafe http) (python : Python)
    (config : HttpConfig) (uuid_text : ℕ → String) (r : CreateVmRequest) (p : ProviderPlacement)
    (w : W) where
  -- The size of the disk that the cluster reports for the machine.
  abbrev pub Reported : ℕ → Type 0
  Reported n =
      (s : JsonObject) × ((get_vm_current_status http python p.node p.vmid w).0 ≡ ok s)
      × (as_size (get "maxdisk" s) ≡ some n)

  abbrev pub IsSmaller : Type 0
  IsSmaller = (n : ℕ) × Reported n × (0 < n) × (n < r.storage_gb * gigabyte)

  -- The PUT that asks for the size of the request, in Proxmox's unit "G", which is 2^30 bytes.
  abbrev pub resize_request : HttpRequest
  resize_request = record {
    method = put_method;
    path = "nodes/" <> (p.node <> ("/qemu/" <> (python.decimal p.vmid <> "/resize")));
    form = ("disk", words "scsi0") ∷ ("size", words (python.decimal r.storage_gb <> "G")) ∷ [];
    params = [];
  }

  -- This request, and no other, was sent to the cluster as it was.
  abbrev pub Sent : W → Type 0
  Sent v = v ≡ (http.request resize_request w).1

  client-Sent :
      (r.storage_gb == 0) ≡ false
      → Sent (client_resize_vm_disk http python p.node p.vmid "scsi0" r.storage_gb w).1
  unfolding client_resize_vm_disk request_task request_data
  client-Sent h =
      after_test (λ q. Sent q.1) _ _ _ (λ z. absurd (ground (arith)))
        (λ _.
          state_after _ _ w (λ upid v. search keeps_rules depth 20)
          ∙ state_after _ _ w (λ response v. search keeps_rules depth 20))

  abbrev pub Resized : Result (Option ProviderTask) × W → Type 0
  Resized (ok none, v) = (v ≡ w) × Reported (r.storage_gb * gigabyte)
  Resized (ok (some task), v) = IsSmaller × (targets task p ≡ true) × Sent v
  Resized (err e, v) = (v ≡ w) ⊎ (IsSmaller × Sent v)

  sent : IsSmaller → Sent (client_resize_vm_disk http python p.node p.vmid "scsi0" r.storage_gb w).1
  sent small = let (n, _, some_size, less) = small in client-Sent (ground (arith))

  grown :
      IsSmaller
      → (q : Result String × W)
      → client_resize_vm_disk http python p.node p.vmid "scsi0" r.storage_gb w ≡ q
      → Resized (
          (client_resize_vm_disk http python p.node p.vmid "scsi0" r.storage_gb >>= λ upid.
          pure (some (task_at p upid)))
            w)
  unfolding pure
  grown small (ok upid, v) e =
      after_ok Resized _ _ e (small, targets-task_at p upid, subst (λ q. Sent q.1) e (sent small))
  grown small (err x, v) e =
      after_err Resized _ _ e (inr (small, subst (λ q. Sent q.1) e (sent small)))

  enlarge-Resized :
      (n : ℕ) → Reported n → 0 < n → Resized (enlarge http python config uuid_text r p n w)
  unfolding enlarge pure
  enlarge-Resized n seen some_size = after_raise_if Resized _ _ _ (inl refl) (λ fits.
      elim (Bool-cases (n == r.storage_gb * gigabyte)) [
        | inl same ↦ rw same (refl, subst Reported (ground (arith)) seen)
        | inr other ↦ rw other (grown (n, seen, some_size, ground (arith)) _ refl)
      ])

  read :
      (q : Result JsonObject)
      → get_vm_current_status http python p.node p.vmid w ≡ (q, w)
      → (k : JsonObject → Exec W (Option ProviderTask))
      → ((s : JsonObject)
          → (get_vm_current_status http python p.node p.vmid w).0 ≡ ok s
          → Resized (k s w))
      → Resized ((get_vm_current_status http python p.node p.vmid >>= k) w)
  read (ok s) e k rest = after_ok Resized _ k e (rest s (ap (λ x. x.0) e))
  read (err x) e k rest = after_err Resized _ k e (inl refl)

  -- Where GET requests change nothing: a resize that returns without a task changes nothing, and
  -- the reported size of the disk is the size asked for, in units of 2^30 bytes; one that returns a
  -- task, for that machine, found a disk of a positive and smaller size and has sent one request
  -- that changes anything, for the size asked for; and one that raises changes nothing, or has done
  -- the same.
  pub http_resize_vm_disk-Resized : Resized (http_resize_vm_disk http python config uuid_text r p w)
  unfolding http_resize_vm_disk check_node
  http_resize_vm_disk-Resized = after_raise_if Resized _ _ _ (inl refl) (λ node.
      after-Found safe python config uuid_text r.vm_id p w Resized _ _ _ refl
        (need_unlocked-Found safe python config uuid_text r.vm_id p w _ _) (λ e. inl refl)
        (λ a free.
          read _
            (λ i. (
              (get_vm_current_status http python p.node p.vmid w).0,
              (Still-get_vm_current_status safe w python p.node p.vmid).at w refl i,
            ))
            _
            (λ s seen.
              after_need Resized _ _ _ (inl refl)
                (λ n size. enlarge-Resized n (s, seen, size) (as_size_lt _ size)))))
