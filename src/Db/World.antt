-- ===== src/Db/World.antt =====
-- What lies outside a transaction: the queues of delayed jobs and the socket. Both are touched only
-- after the transaction has committed, and the code does not let them fail.
use campusgig_backend.Prelude.{ℕ, Bool, false, ◌==◌, ◌&&◌, ◌||◌, if◌then◌else◌, leb, List, [], ◌∷◌}
use campusgig_backend.Db.Rows.{Db, Message}
use campusgig_backend.Db.Tx.{Tx, Result, ok, err}

-- `OrderDeadlineJobKind`, and the job of the disputes queue
pub data JobKind : Type 0 where
  accept_deadline delivery_deadline review_deadline dispute_deadline : JobKind
  extension_expiry cancellation_expiry response_timeout : JobKind

abbrev pub job_kind_code : JobKind → ℕ
job_kind_code accept_deadline = 0
job_kind_code delivery_deadline = 1
job_kind_code review_deadline = 2
job_kind_code dispute_deadline = 3
job_kind_code extension_expiry = 4
job_kind_code cancellation_expiry = 5
job_kind_code response_timeout = 6

pub record Job : Type 0 where
  pub kind : JobKind
  pub entity_id : ℕ
  pub due : ℕ

pub record World : Type 0 where
  pub db : Db
  pub jobs : List Job
  -- what `emitToThread` has sent
  pub sent : List Message

-- A command: it returns or throws, and leaves a world in both cases.
abbrev pub Action : Type 0 → Type 0
Action A = World → Result A × World

-- `$transaction`, then what follows it: a transaction that throws changes nothing, and the rest of
-- the command is not reached.
abbrev pub commit : {A : Type 0} → Tx A → (A → World → World) → Action A
commit tx after w = elim (tx w.db) [
  | ok (a, d) ↦ (ok a, after a (record w { db = d }))
  | err e ↦ (err e, w)
]

-- `jobId(kind, entityId)`: two jobs have one id if kind and entity agree.
unfoldable pub is_job : JobKind → ℕ → Job → Bool
is_job kind entity_id j = job_kind_code j.kind == job_kind_code kind && j.entity_id == entity_id

unfoldable pub has_job : JobKind → ℕ → List Job → Bool
unfolding is_job
has_job kind entity_id [] = false
has_job kind entity_id (j ∷ js) = is_job kind entity_id j || has_job kind entity_id js

unfoldable pub remove_job_from : JobKind → ℕ → List Job → List Job
unfolding is_job
remove_job_from kind entity_id [] = []
remove_job_from kind entity_id (j ∷ js) =
    if is_job kind entity_id j
    then remove_job_from kind entity_id js
    else j ∷ remove_job_from kind entity_id js

-- `addDelayedJob`: the delay is never negative, and an id that is already queued is not added again.
unfoldable pub schedule : ℕ → JobKind → ℕ → ℕ → World → World
schedule now kind entity_id deadline w = if has_job kind entity_id w.jobs then w else record w {
  jobs =
      record {
        kind = kind;
        entity_id = entity_id;
        due = if leb now deadline then deadline else now;
      }
      ∷ w.jobs;
}

-- `removeJob`
unfoldable pub remove_job : JobKind → ℕ → World → World
remove_job kind entity_id w = record w { jobs = remove_job_from kind entity_id w.jobs }

-- `emitSystemEventMessage`
unfoldable pub emit : Message → World → World
emit m w = record w { sent = m ∷ w.sent }
