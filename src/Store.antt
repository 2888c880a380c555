-- ===== src/Store.antt =====
-- internal/store/memory.go: the authority that holds every record of the platform. Each method runs
-- under the store's lock from its second `ctx.Err()` on, so it is a single step of the model.
mod Examples
use engineering_platform.Recovery
use engineering_platform.Verification
use engineering_platform.Review
pub mod Works
pub mod Tasks
pub mod Executions
pub mod Operations
pub mod Closures
pub mod Trail
pub mod Pairs
pub mod Frozen
pub mod Growth
pub mod Commands
use engineering_platform.Prelude.{Context, Exec, Map, String, ctx_err, empty, ℕ, ◌>>◌}
use engineering_platform.Core.{
  ClosureReceipt, DeliveryReceipt, EvidenceRef, RunInputManifest, TaskContract, WorkItem,
}
use engineering_platform.Run.{Attempt, Run}
use engineering_platform.Session.{Checkpoint, Session, SteeringCommand}
use engineering_platform.Recovery.{Manager}
use engineering_platform.Action.{Operation}
use engineering_platform.Verification.{Plan}

-- The maps of `Memory`.
pub record Memory : Type 0 where
  pub recovery_state : Manager
  pub works : Map String WorkItem
  pub tasks : Map String (Map ℕ TaskContract)
  pub latest_task_rev : Map String ℕ
  pub tasks_by_digest : Map String TaskContract
  pub verification_plans : Map String Plan
  pub runs : Map String Run
  pub attempts : Map String (Map String Attempt)
  pub sessions : Map String Session
  pub run_inputs : Map String RunInputManifest
  pub steering_commands : Map String SteeringCommand
  pub checkpoints : Map String Checkpoint
  pub checkpoint_digests : Map String String
  pub operations : Map String Operation
  pub action_idempotency : Map String String
  pub deliveries : Map String DeliveryReceipt
  pub evidence : Map String EvidenceRef
  pub verification_reports : Map String Verification.Report
  pub review_reports : Map String Review.Report
  pub review_by_verification : Map String String
  pub closures : Map String ClosureReceipt

unfoldable pub new_memory : Memory
new_memory = record {
  recovery_state = Recovery.new;
  works = empty;
  tasks = empty;
  latest_task_rev = empty;
  tasks_by_digest = empty;
  verification_plans = empty;
  runs = empty;
  attempts = empty;
  sessions = empty;
  run_inputs = empty;
  steering_commands = empty;
  checkpoints = empty;
  checkpoint_digests = empty;
  operations = empty;
  action_idempotency = empty;
  deliveries = empty;
  evidence = empty;
  verification_reports = empty;
  review_reports = empty;
  review_by_verification = empty;
  closures = empty;
}

-- The two looks at the caller's context, before and after the wait for the lock.
abbrev pub authorized : Context → Exec Memory Unit
authorized ctx = ctx_err ctx 0 >> ctx_err ctx 1
