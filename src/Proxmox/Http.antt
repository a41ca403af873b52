-- ===== src/Proxmox/Http.antt =====
-- portal/app/proxmox/http_adapter.py: the adapter that drives a cluster through the client. Its
-- settings are a record; the text of a UUID is a parameter, and a UUID is its number.
pub mod Promise
pub mod Reading
pub mod Owned
pub mod Found
pub mod Ownership
pub mod Resize
use server_npd.Prelude.{
  ℕ, String, Bool, true, false, Option, none, some, List, [], ◌∷◌, ◌*◌, ◌<>◌, ◌==◌, ◌||◌, not,
  str_eq, ltb, is_none, if◌then◌else◌, option_case,
}
use server_npd.Prelude.Int.{positive}
use server_npd.Outcome.{
  Error, runtime_error, value_error, conflict_error, type_error, Exec, Done, pure, raise, need,
  raise_if, ◌>>=◌, ◌>>◌,
}
use server_npd.Proxmox.Contracts.{
  CreateVmRequest, ProviderTask, ProviderCloneResult, ProviderDeleteResult, SubmitState, TaskState,
  ProviderTaskStatus, PowerState, is_power, ProviderVmState, ProviderPlacement, ProxmoxAdapter,
}
use server_npd.Proxmox.Json.{
  Json, JsonObject, as_text, as_int, is_boolean, is_container, is_null, equals_text, get,
}
use server_npd.Proxmox.Client.{
  Http, Python, get_next_vmid, client_clone_vm, client_get_task_status, client_configure_vm,
  client_resize_vm_disk, client_start_vm, client_shutdown_vm, client_stop_vm, client_delete_vm,
  find_vm_resource, get_vm_current_status,
}

-- The attributes of the object, without the client.
pub record HttpConfig : Type 0 where
  pub target_node : String
  pub pool : String
  pub template_node : String
  pub template_vmid : ℕ
  pub template_image_id : String
  pub storage : String
  pub cloud_init_user : String
  pub ipconfig0 : String
  pub nameserver : String
  pub search_domain : String

-- `current_status in {"running", "stopped"}`, and the status it is.
unfoldable pub as_power : Json → Option PowerState
as_power v =
    if equals_text v "running"
    then some PowerState.running
    else if equals_text v "stopped"
    then some PowerState.stopped
    else none

-- The text of a status that was found is looked up in a set, which a list or a dict cannot be.
unfoldable pub need_power : {W : Type 0} → Json → Error → Exec W PowerState
need_power v refused = do
  raise_if (is_container v) (type_error "unhashable type")
  need (as_power v) refused

-- A size in bytes: an `int`, not a `bool`, greater than 0.
unfoldable pub as_size : Json → Option ℕ
as_size v = if is_boolean v then none else option_case (as_int v) none positive

abbrev pub gigabyte : ℕ
gigabyte = 1073741824

abbrev pub task_at : ProviderPlacement → String → ProviderTask
task_at place upid = record { task_id = upid; vmid = place.vmid; node = place.node }

module _ {W : Type 0} (http : Http W) (python : Python) (config : HttpConfig)
    (uuid_text : ℕ → String) where
  abbrev pub vm_name : ℕ → String
  vm_name vm_id = "npd-" <> uuid_text vm_id

  -- `f"VMID {vmid} …"`
  abbrev about : ProviderPlacement → String → String
  about place what = "VMID " <> (python.decimal place.vmid <> what)

  unfoldable pub check_node : ProviderPlacement → Exec W Done
  check_node place =
      raise_if (not (str_eq place.node config.target_node))
        (value_error "unexpected Proxmox target node")

  -- The four tests on a resource that was found.
  unfoldable pub check_owned : ℕ → ProviderPlacement → JsonObject → Exec W (Option JsonObject)
  check_owned vm_id place resource = do
    raise_if (not (equals_text (get "type" resource) "qemu"))
        (conflict_error (about place " belongs to a non-QEMU resource"))
    raise_if (not (equals_text (get "name" resource) (vm_name vm_id)))
        (conflict_error (about place " has unexpected name"))
    raise_if (not (equals_text (get "pool" resource) config.pool))
        (conflict_error (about place " belongs to another pool"))
    raise_if (not (equals_text (get "node" resource) place.node))
        (conflict_error (about place " belongs to another node"))
    pure (some resource)

  unfoldable pub find_owned_vm_resource : ℕ → ProviderPlacement → Exec W (Option JsonObject)
  find_owned_vm_resource vm_id place = do
    resource ← find_vm_resource http python place.vmid
    option_case resource (pure none) (check_owned vm_id place)

  unfoldable pub http_choose_clone_target : CreateVmRequest → Exec W ProviderPlacement
  http_choose_clone_target request = do
    vmid ← get_next_vmid http python
    pure (record { node = config.target_node; vmid = vmid })

  -- The part of `clone_vm` for a resource that is there already.
  unfoldable pub resume_clone : ProviderPlacement → JsonObject → Exec W ProviderCloneResult
  resume_clone place resource =
      let lock = get "lock" resource in
      if equals_text lock "clone"
      then pure (record { state = SubmitState.in_progress; task = none })
      else (do
        raise_if (not (is_null lock))
            (conflict_error (about place (" has unexpected lock: " <> python.show_json lock)))
        pure (record { state = SubmitState.succeeded; task = none }))

  unfoldable pub submit_clone : CreateVmRequest → ProviderPlacement → Exec W ProviderCloneResult
  submit_clone request place = do
    upid ←
        client_clone_vm http python config.template_node place.node config.template_vmid place.vmid
          (vm_name request.vm_id) config.storage config.pool
    pure (record { state = SubmitState.submitted; task = some (task_at place upid) })

  unfoldable pub http_clone_vm : CreateVmRequest → ProviderPlacement → Exec W ProviderCloneResult
  http_clone_vm request place = do
    check_node place
    raise_if (not (str_eq request.image_id config.template_image_id))
        (value_error ("unsupported VM image: " <> request.image_id))
    resource ← find_owned_vm_resource request.vm_id place
    option_case resource (submit_clone request place) (resume_clone place)

  -- A task that has stopped.
  unfoldable pub finished_task : JsonObject → Exec W ProviderTaskStatus
  finished_task answer = do
    exit_status ←
        need (as_text (get "exitstatus" answer))
          (runtime_error "finished Proxmox task has no exit status")
    pure (
        if str_eq exit_status "OK"
        then record { status = TaskState.succeeded; error_code = none }
        else record { status = TaskState.failed; error_code = some "proxmox_task_failed" })

  unfoldable pub http_get_task_status : ProviderTask → Exec W ProviderTaskStatus
  http_get_task_status task = do
    answer ← client_get_task_status http python task.node task.task_id
    raise_if (not (equals_text (get "upid" answer) task.task_id))
        (runtime_error "Proxmox returned status for another task")
    let status : Json = get "status" answer
    if equals_text status "running"
        then pure (record { status = TaskState.running; error_code = none })
        else (do
          raise_if (not (equals_text status "stopped"))
              (runtime_error ("unknown Proxmox task status: " <> python.show_json status))
          finished_task answer)

  -- The resource of a machine that has to be there and not be locked.
  unfoldable pub need_unlocked : ℕ → ProviderPlacement → String → String → Exec W JsonObject
  need_unlocked vm_id place absent locked = do
    found ← find_owned_vm_resource vm_id place
    resource ← need found (runtime_error (about place absent))
    let lock : Json = get "lock" resource
    raise_if (not (is_null lock))
        (runtime_error (about place (locked <> (": " <> python.show_json lock))))
    pure resource

  unfoldable pub http_configure_vm :
      CreateVmRequest → ProviderPlacement → Exec W (Option ProviderTask)
  http_configure_vm request place = do
    check_node place
    need_unlocked request.vm_id place " is missing before configuration"
        " is locked before configuration"
    let tags : String = "npd-portal;npd-" <> uuid_text request.vm_id
    upid ←
        client_configure_vm http python place.node place.vmid request.vcpus request.memory_mb
          config.cloud_init_user config.ipconfig0 config.nameserver config.search_domain
          request.ssh_public_key tags
    pure (option_case upid none (λ u. some (task_at place u)))

  -- The comparison of the disk with the size asked for.
  unfoldable pub enlarge : CreateVmRequest → ProviderPlacement → ℕ → Exec W (Option ProviderTask)
  enlarge request place current_size_bytes = do
    let requested_size_bytes : ℕ = request.storage_gb * gigabyte
    raise_if (ltb requested_size_bytes current_size_bytes)
        (runtime_error (about place " disk is larger than requested"))
    if current_size_bytes == requested_size_bytes then pure none else (do
      upid ← client_resize_vm_disk http python place.node place.vmid "scsi0" request.storage_gb
      pure (some (task_at place upid)))

  unfoldable pub http_resize_vm_disk :
      CreateVmRequest → ProviderPlacement → Exec W (Option ProviderTask)
  http_resize_vm_disk request place = do
    check_node place
    need_unlocked request.vm_id place " is missing before disk resize"
        " is locked before disk resize"
    vm_status ← get_vm_current_status http python place.node place.vmid
    current_size_bytes ←
        need (as_size (get "maxdisk" vm_status))
          (runtime_error (about place " has invalid disk size"))
    enlarge request place current_size_bytes

  -- The part of `get_vm_power_state` for a resource that is there.
  unfoldable pub power_of_resource : ProviderPlacement → JsonObject → Exec W ProviderVmState
  power_of_resource place resource = do
    vm_status ← get_vm_current_status http python place.node place.vmid
    let current_status : Json = get "status" vm_status
    status ← need_power current_status (
        runtime_error (about place (" has unexpected status: " <> python.show_json current_status)))
    pure (record {
      status = status;
      locked = not (is_null (get "lock" resource)) || not (is_null (get "lock" vm_status));
    })

  unfoldable pub http_get_vm_power_state : ℕ → ProviderPlacement → Exec W ProviderVmState
  http_get_vm_power_state vm_id place = do
    check_node place
    resource ← find_owned_vm_resource vm_id place
    option_case resource (pure (record { status = PowerState.missing; locked = false }))
        (power_of_resource place)

  abbrev pub power_text : PowerState → String
  power_text PowerState.running = "running"
  power_text PowerState.stopped = "stopped"
  power_text PowerState.missing = "missing"

  unfoldable pub http_start_vm : ℕ → ProviderPlacement → Exec W (Option ProviderTask)
  http_start_vm vm_id place = do
    state ← http_get_vm_power_state vm_id place
    raise_if state.locked (runtime_error (about place " is locked before start"))
    if is_power state.status PowerState.running then pure none else (do
      raise_if (not (is_power state.status PowerState.stopped)) (
          runtime_error
            (about place (" has unexpected status before start: " <> power_text state.status)))
      upid ← client_start_vm http python place.node place.vmid
      pure (some (task_at place upid)))

  unfoldable pub get_owned_vm_status : ℕ → ProviderPlacement → Exec W PowerState
  get_owned_vm_status vm_id place = do
    need_unlocked vm_id place " is missing" " is locked"
    vm_status ← get_vm_current_status http python place.node place.vmid
    let current_status : Json = get "status" vm_status
    need_power current_status (
        runtime_error (about place (" has unexpected status: " <> python.show_json current_status)))

  unfoldable pub http_shutdown_vm : ℕ → ProviderPlacement → Exec W (Option ProviderTask)
  http_shutdown_vm vm_id place = do
    current_status ← get_owned_vm_status vm_id place
    if is_power current_status PowerState.stopped then pure none else (do
      upid ← client_shutdown_vm http python place.node place.vmid
      pure (some (task_at place upid)))

  unfoldable pub http_stop_vm : ℕ → ProviderPlacement → Exec W (Option ProviderTask)
  http_stop_vm vm_id place = do
    current_status ← get_owned_vm_status vm_id place
    if is_power current_status PowerState.stopped then pure none else (do
      upid ← client_stop_vm http python place.node place.vmid
      pure (some (task_at place upid)))

  -- The part of `delete_vm` for a resource that is there.
  unfoldable pub delete_resource : ProviderPlacement → JsonObject → Exec W ProviderDeleteResult
  delete_resource place resource =
      if not (is_null (get "lock" resource))
      then pure (record { state = SubmitState.in_progress; task = none })
      else (do
        vm_status ← get_vm_current_status http python place.node place.vmid
        raise_if (not (equals_text (get "status" vm_status) "stopped"))
            (runtime_error (about place " must be stopped before delete"))
        upid ← client_delete_vm http python place.node place.vmid
        pure (record { state = SubmitState.submitted; task = some (task_at place upid) }))

  unfoldable pub http_delete_vm : ℕ → ProviderPlacement → Exec W ProviderDeleteResult
  http_delete_vm vm_id place = do
    check_node place
    resource ← find_owned_vm_resource vm_id place
    option_case resource (pure (record { state = SubmitState.succeeded; task = none }))
        (delete_resource place)

  abbrev pub http_adapter : ProxmoxAdapter W
  http_adapter = record {
    get_vm_power_state = http_get_vm_power_state;
    choose_clone_target = http_choose_clone_target;
    get_task_status = http_get_task_status;
    clone_vm = http_clone_vm;
    configure_vm = http_configure_vm;
    resize_vm_disk = http_resize_vm_disk;
    start_vm = http_start_vm;
    shutdown_vm = http_shutdown_vm;
    stop_vm = http_stop_vm;
    delete_vm = http_delete_vm;
  }
