-- ===== src/Api/Actions/Answers.antt =====
-- What the answer to an action tells the client (handleCreateAction of internal/api/server.go, the
-- action service, the gateway and the store together).
use engineering_platform.Action
use engineering_platform.Run
use engineering_platform.Session
use engineering_platform.Prelude.{
  Bool, Context, Error, Option, Result, String, arith, err, false, http, if◌then◌else◌, inl, inr,
  none, ok, refl, some, true, ℕ, ◌∷◌, ◌≡◌, ◌⊎◌,
}
use engineering_platform.Core.{TaskContract}
use engineering_platform.Action.Service.{Service, World, execute}
use engineering_platform.Action.Service.Settlement.{is_unresolved}
use engineering_platform.Action.Service.Execution.{Settled, Told, execute-Told}
use engineering_platform.Gateway.{guarded}
use engineering_platform.Gateway.Dispatch.{Granted, execute-Granted}
use engineering_platform.Store.{Memory}
use engineering_platform.Store.Operations.Ledger.{store_repository-IsLedger}
use engineering_platform.Api.{Reply}
use engineering_platform.Api.Actions.{
  CreateActionRequest, action_error, execute_complete, execute_with, handle_create_action,
  incomplete, incomplete_text, replied, request_of,
}

abbrev pub status_of : Error → ℕ
status_of (http n text) = n
status_of _ = 0

-- An answer to an action that the provider was asked for: the receipt tells the state in which the
-- store holds the operation, or the status says that the service is unavailable.
abbrev pub Answered : Action.Request → Result (Reply Action.Receipt) → World Memory → Type 0
Answered req (ok reply) w = (reply.status ≡ 202) × Settled (λ m. m.operations) req reply.body w
Answered req (err e) w = status_of e ≡ 503

action_error_unresolved : (e : Error) → is_unresolved e ≡ true → status_of (action_error e) ≡ 503
unfolding action_error
action_error_unresolved e h = ground (arith, h)

replied-Answered :
    (req : Action.Request) (r : Result Action.Receipt) (w : World Memory)
    → Told (λ m. m.operations) req r w
    → Answered req (replied 202 r) w
replied-Answered req (ok t) w h = (refl, h)
replied-Answered req (err e) w h = action_error_unresolved e h

-- The request that was made, if the provider was asked.
pub record AskedFor (now : ℕ) (run_id : String) (given : CreateActionRequest)
    (reply : Result (Reply Action.Receipt)) (before after : World Memory) : Type 0 where
  pub epoch : ℕ
  pub value : Run.Run
  pub sess : Session.Session
  pub task : TaskContract
  pub epoch_given : given.recovery_epoch ≡ some epoch
  pub asked_once : after.dispatches ≡ request_of now run_id given epoch ∷ before.dispatches
  pub granted : Granted (request_of now run_id given epoch) before.ledger value sess task
  pub answered : Answered (request_of now run_id given epoch) reply after

module _ (svc : Service Memory) (ctx : ℕ → Context) (clock : ℕ → ℕ) (now : ℕ) (run_id : String)
    (given : CreateActionRequest) (w : World Memory) where
  -- The provider was not asked, or it was and this is how.
  Outcome : Result (Reply Action.Receipt) → World Memory → Type 0
  Outcome reply after = (after.dispatches ≡ w.dispatches) ⊎ AskedFor now run_id given reply w after

  execute_with-Outcome :
      (epoch : ℕ)
      → given.recovery_epoch ≡ some epoch
      → let (r, w') = execute_with ctx clock (guarded svc) (request_of now run_id given epoch) w in
        Outcome r w'
  unfolding Outcome
  execute_with-Outcome epoch q =
      let req = request_of now run_id given epoch in
      let (r, w') = execute (guarded svc) ctx clock req w in
      elim (execute-Told (guarded svc) (λ m. m.operations) ctx clock req w
        store_repository-IsLedger) [
          | inl same ↦ inl same
          | inr (once, told) ↦ elim (execute-Granted svc ctx clock req w) [
            | inl same ↦ inl same
            | inr (value, sess, task, g) ↦ inr (record {
              epoch = epoch;
              value = value;
              sess = sess;
              task = task;
              epoch_given = q;
              asked_once = once;
              granted = g;
              answered = replied-Answered req r w' told;
            })
          ]
        ]

  if_incomplete :
      (b : Bool) (p : Result (Reply Action.Receipt) × World Memory)
      → Outcome p.0 p.1
      → let (r, w') = if b then (err (http 400 incomplete_text), w) else p in Outcome r w'
  unfolding Outcome
  if_incomplete true p h = inl refl
  if_incomplete false p h = h

  execute_complete-Outcome :
      (o : Option ℕ)
      → given.recovery_epoch ≡ o
      → let (r, w') = execute_complete ctx clock (guarded svc) now run_id given o w in Outcome r w'
  unfolding Outcome
  execute_complete-Outcome none q = inl refl
  execute_complete-Outcome (some epoch) q =
      if_incomplete (incomplete given)
        (execute_with ctx clock (guarded svc) (request_of now run_id given epoch) w)
        (execute_with-Outcome epoch q)

  -- Behind the gateway and with nobody else at the store meanwhile, a request for an action either
  -- asks nothing of the provider, or asks it once, for the request that was given, with a run, a
  -- session and a task in the store that grant it; then the client gets a receipt for the state in
  -- which the store holds the operation, or the status 503, and no other error.
  pub handle_create_action-Answered :
      let (reply, after) = handle_create_action ctx clock (some (guarded svc)) now run_id given w in
      (after.dispatches ≡ w.dispatches) ⊎ AskedFor now run_id given reply w after
  unfolding handle_create_action Outcome
  handle_create_action-Answered = execute_complete-Outcome given.recovery_epoch refl
