-- ===== src/Worker/Claim.antt =====
-- The worker's query for the next operation. Time is counted in milliseconds.
pub mod Order
use server_npd.Prelude.{
  ℕ, String, Bool, false, Option, none, some, List, [], ◌∷◌, ◌+◌, ◌||◌, ◌&&◌, not, is_none, is_some,
  if◌then◌else◌, str_eq, leb, ltb, begins,
}
use server_npd.Models.{Db, Operation, OperationStatus, is_status}
use Prim.Native.String.{slice}

abbrev pub dispatch_grace : ℕ
dispatch_grace = 300000

abbrev pub reconcile_delay : ℕ
reconcile_delay = 10000

-- SQL's `column LIKE 'poll_backoff%'`, in which the underscore stands for any one character.
abbrev pub like_poll_backoff : Option String → Bool
like_poll_backoff none = false
like_poll_backoff (some s) = str_eq (slice s 0 4) "poll" && str_eq (slice s 5 12) "backoff"

-- The `where` clause. Its list of operation types names all that the column can hold.
unfoldable pub claimable : ℕ → Operation → Bool
claimable now o =
    (is_status o.status OperationStatus.pending || is_status o.status OperationStatus.processing)
    && (is_status o.status OperationStatus.pending
        || (begins o.phase "dispatch" && leb (o.updated_at + dispatch_grace) now)
        || (begins o.phase "reconcile" && leb (o.updated_at + reconcile_delay) now)
        || (like_poll_backoff o.phase && leb (o.updated_at + reconcile_delay) now)
        || (is_some o.provider_task_id && (is_none o.phase || not (like_poll_backoff o.phase))))

-- `order_by(updated_at).limit(1)` over the rows that meet a test. Of two rows with one time the
-- database may return either; here it is the later one in the table.
abbrev older : Operation → Option Operation → Option Operation
older o none = some o
older o (some p) = if ltb o.updated_at p.updated_at then some o else some p

unfoldable pub oldest : (Operation → Bool) → List Operation → Option Operation
oldest p [] = none
oldest p (o ∷ os) = let rest = oldest p os in if p o then older o rest else rest

-- `with_for_update(skip_locked=True)` passes over the rows that other transactions hold.
unfoldable pub next_operation : (ℕ → Bool) → ℕ → Db → Option Operation
next_operation locked now db = oldest (λ o. claimable now o && not (locked o.id)) db.operations
