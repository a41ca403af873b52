-- ===== src/Lib.antt =====
-- The portal of Server NPD (portal/app): users log in, keep SSH keys and ask for virtual machines;
-- the requests become rows of a table of operations, and workers carry the operations out at a
-- Proxmox provider.
--
-- The parts and their files:
--   Prelude, Prelude/*: Boolean tests, the methods of Python's str, integers, tables as lists of
--     rows and their sorting.
--   Outcome: exceptions as values and state-passing actions with do blocks. Outcome/Keeps,
--     Outcome/Guards, Outcome/Answers, Outcome/Lands and Outcome/Raises carry proofs over such
--     actions; Outcome/Integrity is `except IntegrityError`.
--   Models/*: the tables of operations, virtual_machines, compute, ssh_keys and identity
--     (portal/app/*/models.py); the CHECK constraints on a status or a type are data types.
--   Proxmox/Contracts: proxmox/contracts.py, a record of the provider's calls over a state of its
--     own; Proxmox/Promise is what its implementations owe their callers. Proxmox/Fake:
--     proxmox/fake.py, every method of the adapter kept in memory.
--   Proxmox/Json: JSON values. Proxmox/Client: proxmox/client.py over a parameter for the HTTP
--     package, a record of the sending of a request, the test of its status and the decoding of its
--     body. Proxmox/Http: proxmox/http_adapter.py over that client, a second value of the contract.
--   Operations/*: operations/services.py. Session is what a function of it reads and writes: the
--     claimed operation, the machines, the SSH keys, the clock and the provider. Create has
--     start_create, start_configure, start_resize, start_initial (Provision), refresh_create and
--     process_create (Refresh), prepare_create and finish_create (Dispatch) and reconcile_create
--     (Reconcile); Start has the functions for vm.start; Lifecycle those for shutdown, stop, reboot
--     and delete.
--   Compute: compute/services.py, the usage of a user and the starter quota.
--   VirtualMachines/Creation, VirtualMachines/Enqueue: create_vm and enqueue_vm_operation of
--     virtual_machines/services.py. VirtualMachines/Router: virtual_machines/router.py, which turns
--     their exceptions into answers.
--   SshKeys/*: Parsing, Services and Router are the files of ssh_keys.
--   Identity/*: Csrf is identity/csrf.py, Sessions is identity/services.py and
--     identity/sessions.py, Requests is identity/dependencies.py and identity/router.py.
--   Web/Quota, Web/Dashboard: compute/router.py, and the data of the dashboard of web/router.py.
--   Migrations: portal/alembic/versions/1b47a1f1aaff, which gives users their starter quotas.
--   Worker/*: workers/operation_worker.py. Claim is the query, Step what is done with a claimed
--     operation, Transaction the commit and the rollback, Submit the provider's call and the
--     storing of its outcome, Round run_once and run_worker. Cluster is any number of workers over
--     one database, as a relation of single steps in which a worker may die between any two of
--     them. Local and Remote join the worker with the two adapters.
--
-- How the code is read. A UUID is its number and a time a number of milliseconds, in identity a
-- number of seconds; the text of a UUID and its parser are parameters where they are used. A phase
-- stays a text, since the code builds and cuts it. A transaction of the worker works on one
-- operation and is written when its body ends; an exception drops it. What other transactions
-- commit during a request is a function on the tables, applied when the request flushes its rows; a
-- login of a known identity that succeeds is taken to run alone. The clock stands still within a
-- transaction. Loops over rows and resources are structural, and run_worker runs over a list of
-- times; the only fuel is the length of a task's text, which bounds the number of its parts.
--
-- Parameters stand for the HTTP package, Python's conversions between numbers and texts and its
-- text of a value, the quoting of a path, cryptography's loading and describing of a key, SHA-256,
-- HMAC, what the OIDC package has verified of a user and what its loading of the provider's
-- metadata ends with, and the encoded query of an address. GetIsSafe is the one hypothesis on the
-- cluster behind the HTTP package: a GET request changes nothing there.
--
-- Not modelled: the opening and closing of the client's connection, the redirections of the login
-- and of the pages, the templates, main.py with its health checks, settings, the migrations of the
-- schema and of the starter plan, scripts and the infrastructure files, all of which is input,
-- output or configuration. Logging and sleeping have no effect here.
pub mod Prelude
pub mod Outcome
pub mod Models
pub mod Proxmox
pub mod Operations
pub mod Compute
pub mod VirtualMachines
pub mod SshKeys
pub mod Identity
pub mod Web
pub mod Migrations
pub mod Worker
