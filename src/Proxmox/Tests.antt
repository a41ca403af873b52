-- ===== src/Proxmox/Tests.antt =====
-- A small cluster behind the HTTP adapter: tests, and the theorems at its inputs. It logs what is
-- sent besides GET requests, and lists one machine of the portal's and one that is not.
use server_npd.Prelude.{
  ℕ, String, Bool, true, false, none, some, List, [], ◌∷◌, ◌≡◌, refl, ap, ◌==◌, str_eq,
  if◌then◌else◌, arith,
}
use server_npd.Prelude.Int.{pos}
use server_npd.Prelude.Rows.{select}
use server_npd.Outcome.{Result, ok, err, Exec, conflict_error, ◌>>=◌}
use server_npd.Proxmox.{CreateVmRequest, ProviderPlacement, SubmitState}
use server_npd.Proxmox.Promise.{Fulfils}
use server_npd.Proxmox.Json.{
  Json, null, integer, text, array, object, empty, item, JsonObject, blank, member, as_object,
  as_array, as_int, as_text, equals_text, is_null, find_member, get, items_of,
}
use server_npd.Proxmox.Client.{
  Method, get_method, post_method, put_method, delete_method, HttpRequest, Http, Python,
  find_vm_resource, list_vm_resources, request_data, all_objects, matching, sole_match,
}
use server_npd.Proxmox.Client.Reading.{GetIsSafe}
use server_npd.Proxmox.Client.Search.{find_vm_resource-search_result}
use server_npd.Proxmox.Http.{
  HttpConfig, http_adapter, http_clone_vm, http_start_vm, http_delete_vm, http_resize_vm_disk,
  http_configure_vm, http_shutdown_vm, http_stop_vm, check_node, check_owned,
  find_owned_vm_resource, resume_clone,
}
use server_npd.Proxmox.Http.Promise.{http_adapter-Fulfils}
use server_npd.Proxmox.Http.Ownership.{commands-Guarded, Kept, Fresh}
use server_npd.Proxmox.Http.Resize.{http_resize_vm_disk-Resized, Resized}

abbrev pub Log : Type 0
Log = List HttpRequest

abbrev resource : ℕ → String → JsonObject
resource vmid name = member "vmid" (integer (pos vmid)) (
    member "type" (text "qemu")
      (member "name" (text name) (member "pool" (text "npd") (member "node" (text "pve") blank))))

abbrev ours : JsonObject
ours = resource 105 "npd-7"

abbrev theirs : JsonObject
theirs = resource 106 "database"

abbrev status_of_ours : JsonObject
status_of_ours =
    member "vmid" (integer (pos 105))
      (member "status" (text "stopped") (member "maxdisk" (integer (pos 10737418240)) blank))

abbrev answer_to : String → Json
answer_to path =
    if str_eq path "cluster/resources"
    then array (item (object ours) (item (object theirs) empty))
    else if str_eq path "nodes/pve/qemu/105/status/current"
    then object status_of_ours
    else null

abbrev is_get : Method → Bool
is_get get_method = true
is_get post_method = false
is_get put_method = false
is_get delete_method = false

abbrev respond : HttpRequest → Exec Log Json
respond r w =
    if is_get r.method
    then (ok (object (member "data" (answer_to r.path) blank)), w)
    else (ok (object (member "data" (text "UPID:1") blank)), r ∷ w)

abbrev pub small_cluster : Http Log
small_cluster = record {
  Response = Json;
  request = respond;
  raise_for_status = λ body. ok tt;
  json = λ body. ok body;
}

abbrev pub decimal_of : ℕ → String
decimal_of n = if n == 105 then "105" else if n == 106 then "106" else if n == 20 then "20" else "0"

abbrev pub python : Python
python = record {
  decimal = decimal_of;
  parse_int = λ s. if str_eq s "107" then some (pos 107) else none;
  show_json = λ v. "…";
  quote = λ s. s;
}

abbrev pub uuid_text : ℕ → String
uuid_text n = if n == 7 then "7" else "?"

abbrev pub config : HttpConfig
config = record {
  target_node = "pve";
  pool = "npd";
  template_node = "pve";
  template_vmid = 9000;
  template_image_id = "ubuntu";
  storage = "local";
  cloud_init_user = "user";
  ipconfig0 = "ip=dhcp";
  nameserver = "1.1.1.1";
  search_domain = "lan";
}

abbrev pub request : CreateVmRequest
request = record {
  vm_id = 7;
  image_id = "ubuntu";
  vcpus = 2;
  memory_mb = 2048;
  storage_gb = 20;
  ssh_public_key = "ssh-ed25519 AAAA";
}

abbrev pub place : ProviderPlacement
place = record { node = "pve"; vmid = 105 }

pub small_cluster-GetIsSafe : GetIsSafe small_cluster
small_cluster-GetIsSafe = record { at = λ r w e. chosen (is_get r.method) r w (ap is_get e) }
  where
    chosen :
        (b : Bool) (r : HttpRequest) (w : Log)
        → b ≡ true
        → (let q : Result Json × Log =
              if b
              then (ok (object (member "data" (answer_to r.path) blank)), w)
              else (ok (object (member "data" (text "UPID:1") blank)), r ∷ w) in
            q.1)
          ≡ w
    chosen true r w h = refl
    chosen false r w h = cc

commands-Guarded_example :
    Kept small_cluster-GetIsSafe python config uuid_text request place []
      (http_configure_vm small_cluster python config uuid_text request place [])
    × Kept small_cluster-GetIsSafe python config uuid_text request place []
        (http_resize_vm_disk small_cluster python config uuid_text request place [])
    × Kept small_cluster-GetIsSafe python config uuid_text request place []
        (http_start_vm small_cluster python config uuid_text 7 place [])
    × Kept small_cluster-GetIsSafe python config uuid_text request place []
        (http_shutdown_vm small_cluster python config uuid_text 7 place [])
    × Kept small_cluster-GetIsSafe python config uuid_text request place []
        (http_stop_vm small_cluster python config uuid_text 7 place [])
    × Kept small_cluster-GetIsSafe python config uuid_text request place []
        (http_delete_vm small_cluster python config uuid_text 7 place [])
    × Fresh small_cluster-GetIsSafe python config uuid_text request place []
        (http_clone_vm small_cluster python config uuid_text request place [])
commands-Guarded_example =
    commands-Guarded small_cluster-GetIsSafe python config uuid_text request place []

http_adapter-Fulfils_example : Fulfils (http_adapter small_cluster python config uuid_text)
http_adapter-Fulfils_example = http_adapter-Fulfils small_cluster python config uuid_text

http_resize_vm_disk-Resized_example :
    Resized small_cluster-GetIsSafe python config uuid_text request place []
      (http_resize_vm_disk small_cluster python config uuid_text request place [])
http_resize_vm_disk-Resized_example =
    http_resize_vm_disk-Resized small_cluster-GetIsSafe python config uuid_text request place []

listed : list_vm_resources small_cluster python [] ≡ (ok (ours ∷ theirs ∷ []), [])
unfolding list_vm_resources request_data as_object as_array find_member items_of all_objects ◌>>=◌
listed = refl

find_vm_resource-search_result_example :
    find_vm_resource small_cluster python 105 [] ≡ (ok (some ours), [])
unfolding as_int find_member get select
find_vm_resource-search_result_example =
    find_vm_resource-search_result small_cluster python 105 (ours ∷ theirs ∷ []) [] []
      (λ h. absurd (omega arith)) listed

-- The machine with the VMID 106 is not the portal's: it is not deleted.
foreign_is_kept :
    http_delete_vm small_cluster python config uuid_text 7 (record place { vmid = 106 }) []
    ≡ (err (conflict_error "VMID 106 has unexpected name"), [])
unfolding http_delete_vm check_node find_owned_vm_resource check_owned find_vm_resource
    list_vm_resources matching sole_match request_data as_object as_array as_int as_text equals_text
    find_member get items_of all_objects ◌>>=◌
foreign_is_kept = refl

-- A machine that is there is not cloned again.
clone_is_over :
    http_clone_vm small_cluster python config uuid_text request place []
    ≡ (ok (record { state = SubmitState.succeeded; task = none }), [])
unfolding http_clone_vm resume_clone check_node find_owned_vm_resource check_owned find_vm_resource
    list_vm_resources matching sole_match request_data as_object as_array as_int as_text equals_text
    is_null find_member get items_of all_objects ◌>>=◌
clone_is_over = refl
