-- ===== src/Worker/Tests/Remote.antt =====
-- The theorems on the worker and the HTTP adapter, over the small cluster of the provider's tests.
use server_npd.Prelude.{refl, some}
use server_npd.Outcome.Answers.{Answers}
use server_npd.Proxmox.Http.{http_adapter}
use server_npd.Proxmox.Http.Promise.{http_adapter-Fulfils}
use server_npd.Proxmox.Tests.{
  Log, small_cluster, python, config, uuid_text, request, place, small_cluster-GetIsSafe,
}
use server_npd.Worker.Frame.Reads.{IsReadOnly}
use server_npd.Worker.Remote.{http_adapter-IsReadOnly}
use server_npd.Worker.Submit.{send_create}
use server_npd.Worker.Accepted.{Storable, send_create-Storable}

http_adapter-IsReadOnly_example : IsReadOnly (http_adapter small_cluster python config uuid_text)
http_adapter-IsReadOnly_example =
    http_adapter-IsReadOnly small_cluster-GetIsSafe python config uuid_text

send_create-Storable_example : Answers (Storable Log place "start") (
    send_create (http_adapter small_cluster python config uuid_text) 7 "start" (some request) place)
send_create-Storable_example =
    send_create-Storable (http_adapter small_cluster python config uuid_text)
      (http_adapter-Fulfils small_cluster python config uuid_text).commands 7 place "start" request
      refl
