-- ===== src/Proxmox/Client.antt =====
-- portal/app/proxmox/client.py. The HTTP package is a parameter: how a request is sent, which
-- answers it takes for errors, and how a body is decoded. So are Python's conversions between
-- numbers and texts, its text of a value, and the quoting of a path. Closing the connection is left
-- out.
pub mod Reading
pub mod Search
use server_npd.Prelude.{
  ℕ, zero, String, Bool, true, false, Option, none, some, List, [], ◌∷◌, ◌<>◌, ◌==◌, ◌||◌, not,
  starts_with, is_none, if◌then◌else◌, option_case,
}
use server_npd.Prelude.Int.{ℤ, is_nat, positive}
use server_npd.Outcome.{
  Error, runtime_error, value_error, Result, Done, Exec, pure, raise, lift, need, raise_if, ◌>>=◌,
  ◌>>◌,
}
use server_npd.Proxmox.Json.{
  Json, integer, JsonArray, JsonObject, as_object, as_array, as_text, as_int, is_null, equals_nat,
  find_member, get, items_of,
}

pub data Method : Type 0 where
  get_method post_method put_method delete_method : Method

pub data Field : Type 0 where
  number : ℕ → Field
  words : String → Field

-- `data` is `form` here.
pub record HttpRequest : Type 0 where
  pub method : Method
  pub path : String
  pub form : List (String × Field)
  pub params : List (String × Field)

pub record Http (W : Type 0) : Type 1 where
  pub Response : Type 0
  pub request : HttpRequest → Exec W Response
  pub raise_for_status : Response → Result Done
  pub json : Response → Result Json

pub record Python : Type 0 where
  pub decimal : ℕ → String
  pub parse_int : String → Option ℤ
  pub show_json : Json → String
  pub quote : String → String

abbrev pub plain : Method → String → HttpRequest
plain method path = record { method = method; path = path; form = []; params = [] }

abbrev pub with_form : Method → String → List (String × Field) → HttpRequest
with_form method path form = record { method = method; path = path; form = form; params = [] }

abbrev pub with_params : Method → String → List (String × Field) → HttpRequest
with_params method path params = record { method = method; path = path; form = []; params = params }

-- The text, where it is a text that begins with "UPID:".
unfoldable pub as_upid : Json → Option String
as_upid value =
    option_case (as_text value) none (λ s. if starts_with s "UPID:" then some s else none)

-- The objects of a list, where all of it are objects.
unfoldable pub all_objects : List Json → Option (List JsonObject)
all_objects [] = some []
all_objects (v ∷ vs) =
    let rest = all_objects vs in
    option_case (as_object v) none (λ fields. option_case rest none (λ more. some (fields ∷ more)))

module _ {W : Type 0} (http : Http W) where
  unfoldable pub request_data : HttpRequest → Exec W Json
  request_data request = do
    response ← http.request request
    lift (http.raise_for_status response)
    body ← lift (http.json response)
    fields ← need (as_object body) (runtime_error "invalid Proxmox response body")
    need (find_member "data" fields) (runtime_error "Proxmox response has no data field")

module _ {W : Type 0} (http : Http W) (python : Python) where
  abbrev invalid : String → Json → Error
  invalid what value =
      value_error ("Invalid Proxmox " <> (what <> (" response: " <> python.show_json value)))

  -- `nodes/{node}/qemu/{vmid}` and what follows it.
  abbrev pub qemu_path : String → ℕ → String → String
  qemu_path node vmid rest = "nodes/" <> (node <> ("/qemu/" <> (python.decimal vmid <> rest)))

  -- A command that starts a task.
  unfoldable pub request_task : String → HttpRequest → Exec W String
  request_task what request = do
    upid ← request_data http request
    need (as_upid upid) (invalid what upid)

  unfoldable pub get_version : Exec W JsonObject
  get_version = do
    body ← request_data http (plain get_method "version")
    need (as_object body) (invalid "version" body)

  unfoldable pub get_nodes : Exec W JsonArray
  get_nodes = do
    body ← request_data http (plain get_method "nodes")
    need (as_array body) (invalid "nodes" body)

  unfoldable pub get_next_vmid : Exec W ℕ
  get_next_vmid = do
    body ← request_data http (plain get_method "cluster/nextid")
    digits ← need (as_text body) (invalid "next VMID" body)
    value ←
        need (python.parse_int digits) (value_error ("Invalid Proxmox next VMID value: " <> digits))
    need (positive value)
        (value_error ("Invalid Proxmox next VMID value: " <> python.show_json (integer value)))

  unfoldable pub client_clone_vm :
      String → String → ℕ → ℕ → String → String → String → Exec W String
  client_clone_vm source_node target_node template_vmid new_vmid name storage pool =
      request_task "clone request" (
        with_form post_method (qemu_path source_node template_vmid "/clone") (
          ("newid", number new_vmid)
          ∷ ("name", words name)
          ∷ ("full", number 1)
          ∷ ("storage", words storage)
          ∷ ("pool", words pool)
          ∷ ("target", words target_node)
          ∷ []))

  unfoldable pub client_get_task_status : String → String → Exec W JsonObject
  client_get_task_status node upid = do
    body ←
        request_data http
          (plain get_method ("nodes/" <> (node <> ("/tasks/" <> (python.quote upid <> "/status")))))
    fields ← need (as_object body) (invalid "status request" body)
    need (as_text (get "status" fields)) (invalid "status request" body)
    pure fields

  unfoldable pub client_configure_vm :
      String
      → ℕ
      → ℕ
      → ℕ
      → String
      → String
      → String
      → String
      → String
      → String
      → Exec W (Option String)
  client_configure_vm node vmid vcpus memory_mb cloud_init_user ipconfig0 nameserver search_domain
        ssh_public_key tags =
      do
        result ← request_data http (
            with_form post_method (qemu_path node vmid "/config") (
              ("cores", number vcpus)
              ∷ ("memory", number memory_mb)
              ∷ ("ciuser", words cloud_init_user)
              ∷ ("ipconfig0", words ipconfig0)
              ∷ ("nameserver", words nameserver)
              ∷ ("searchdomain", words search_domain)
              ∷ ("sshkeys", words (python.quote ssh_public_key))
              ∷ ("protection", number 0)
              ∷ ("tags", words tags)
              ∷ []))
        if is_null result
            then pure none
            else (do upid ← need (as_upid result) (invalid "configure VM" result); pure (some upid))

  unfoldable pub client_resize_vm_disk : String → ℕ → String → ℕ → Exec W String
  client_resize_vm_disk node vmid disk size_gb = do
    raise_if (size_gb == 0) (value_error "disk size must be positive")
    request_task "resize VM disk" (
        with_form put_method (qemu_path node vmid "/resize")
          (("disk", words disk) ∷ ("size", words (python.decimal size_gb <> "G")) ∷ []))

  unfoldable pub client_start_vm : String → ℕ → Exec W String
  client_start_vm node vmid =
      request_task "start VM" (plain post_method (qemu_path node vmid "/status/start"))

  -- `timeout_seconds` is left at its default, 60, by every caller.
  unfoldable pub client_shutdown_vm : String → ℕ → Exec W String
  client_shutdown_vm node vmid = request_task "shutdown VM" (
      with_form post_method (qemu_path node vmid "/status/shutdown")
        (("timeout", number 60) ∷ ("forceStop", number 0) ∷ []))

  unfoldable pub client_stop_vm : String → ℕ → Exec W String
  client_stop_vm node vmid =
      request_task "stop VM" (plain post_method (qemu_path node vmid "/status/stop"))

  unfoldable pub client_delete_vm : String → ℕ → Exec W String
  client_delete_vm node vmid =
      request_task "delete VM"
        (with_params delete_method (qemu_path node vmid "") (("purge", number 1) ∷ []))

  unfoldable pub client_reboot_vm : String → ℕ → Exec W String
  client_reboot_vm node vmid =
      request_task "reboot VM"
        (with_form post_method (qemu_path node vmid "/status/reboot") (("timeout", number 60) ∷ []))

  unfoldable pub list_vm_resources : Exec W (List JsonObject)
  list_vm_resources = do
    body ←
        request_data http (with_params get_method "cluster/resources" (("type", words "vm") ∷ []))
    resources ← need (as_array body) (value_error "Invalid Proxmox cluster/resources response")
    need (all_objects (items_of resources)) (value_error "Invalid VM resource in Proxmox response")

  -- The loop of `find_vm_resource`, with the matches in their order.
  unfoldable pub matching : ℕ → List JsonObject → Exec W (List JsonObject)
  matching vmid [] = pure []
  matching vmid (r ∷ rs) = do
    z ←
        need (as_int (get "vmid" r))
          (value_error ("Invalid VMID in Proxmox resource: " <> python.show_json (get "vmid" r)))
    matches ← matching vmid rs
    pure (if is_nat z vmid then r ∷ matches else matches)

  unfoldable pub sole_match : ℕ → List JsonObject → Exec W (Option JsonObject)
  sole_match vmid [] = pure none
  sole_match vmid (r ∷ []) = pure (some r)
  sole_match vmid (r ∷ s ∷ rs) =
      raise
        (runtime_error ("Proxmox returned multiple resources with VMID " <> python.decimal vmid))

  unfoldable pub find_vm_resource : ℕ → Exec W (Option JsonObject)
  find_vm_resource vmid = do
    raise_if (vmid == 0) (value_error "VMID must be positive")
    resources ← list_vm_resources
    matches ← matching vmid resources
    sole_match vmid matches

  unfoldable pub get_vm_current_status : String → ℕ → Exec W JsonObject
  get_vm_current_status node vmid = do
    body ← request_data http (plain get_method (qemu_path node vmid "/status/current"))
    fields ← need (as_object body) (invalid "VM status" body)
    raise_if (not (equals_nat (get "vmid" fields) vmid))
        (value_error "Proxmox returned status for another VM")
    pure fields
