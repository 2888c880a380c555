-- ===== src/Api/Traffic.antt =====
-- What requests do to the store (internal/api/server.go): sequences of the store's methods, in which
-- a verification report is only written for what `Evaluate` found.
pub mod Rules
pub mod Methods
pub mod Handlers
pub mod Learning
pub mod Verdicts
use engineering_platform.Verification
use engineering_platform.Prelude.{All, Context, List, String, [], ok, some, ◌∷◌, ◌≡◌}
use engineering_platform.Core.{DeliveryReceipt, EvidenceRef, TaskContract}
use engineering_platform.Verification.{Plan, evaluate}
use engineering_platform.Digests.{Hashing}
use engineering_platform.Store.{Memory}
use engineering_platform.Store.Commands.{
  Command, Reachable, after, apply, create_verification_command,
}
use engineering_platform.Store.Growth.{apply-Grows}

-- The evidence stands in the store.
abbrev pub Held : Memory → EvidenceRef → Type 0
Held m e = (key : String) × (m.evidence key ≡ some e)

-- The report's verdict is that of `Evaluate` on a delivery and evidence of the store, by a plan whose
-- digest is in a task whose digest is in the delivery.
pub record Evaluated (h : Hashing) (m : Memory) (report : Verification.Report) : Type 0 where
  pub key : String
  pub delivery : DeliveryReceipt
  pub task : TaskContract
  pub plan : Plan
  pub items : List EvidenceRef
  pub delivered : m.deliveries key ≡ some delivery
  pub task_hashed : h.hash_task task ≡ ok delivery.task_contract_digest
  pub plan_hashed : h.hash_plan plan ≡ ok task.verification_plan_digest
  pub held : All (Held m) items
  pub same_delivery : report.delivery_receipt_id ≡ delivery.id
  pub same_verdict : report.result ≡ (evaluate plan delivery.subject_digest items).result

abbrev pub Permitted : Hashing → Memory → Command → Type 0
Permitted h m (create_verification_command report) = Evaluated h m report
Permitted h m _ = Unit

-- The stores that lie ahead of `m`.
pub data Between (h : Hashing) (m : Memory) : Memory → Type 0 where
  here : Between h m m
  then_write :
      {s : Memory} (ctx : Context) (c : Command)
      → Between h m s
      → Permitted h s c
      → Between h m (apply h ctx c s).1

module _ {h : Hashing} {m : Memory} where
  pub Between-trans : {s t : Memory} → Between h m s → Between h s t → Between h m t
  Between-trans a here = a
  Between-trans a (then_write ctx c b p) = then_write ctx c (Between-trans a b) p

  pub Between-Reachable : {s : Memory} → Reachable h m → Between h m s → Reachable h s
  Between-Reachable r here = r
  Between-Reachable r (then_write ctx c b p) = after ctx c (Between-Reachable r b)

  pub Between-delivery :
      {s : Memory} (key : String) (d : DeliveryReceipt)
      → Between h m s
      → m.deliveries key ≡ some d
      → s.deliveries key ≡ some d
  Between-delivery key d here e = e
  Between-delivery key d (then_write {s} ctx c b p) e =
      (apply-Grows h ctx s c).keeps_delivery key d (Between-delivery key d b e)

  pub Between-evidence :
      {s : Memory} (key : String) (x : EvidenceRef)
      → Between h m s
      → m.evidence key ≡ some x
      → s.evidence key ≡ some x
  Between-evidence key x here e = e
  Between-evidence key x (then_write {s} ctx c b p) e =
      (apply-Grows h ctx s c).keeps_evidence key x (Between-evidence key x b e)

  pub Between-Held :
      {s : Memory} (items : List EvidenceRef)
      → Between h m s
      → All (Held m) items
      → All (Held s) items
  Between-Held [] b a = tt
  Between-Held (x ∷ items) b ((key, e), a) =
      ((key, Between-evidence key x b e), Between-Held items b a)
