-- ===== src/Api/Actions/Among.antt =====
-- A request for an action while others act on the store (handleCreateAction of
-- internal/api/server.go, the action service, the gateway and the store together).
use engineering_platform.Action
use engineering_platform.Prelude.{Context, List, String, some, ℕ, ◌∷◌, ◌≡◌, ◌⊎◌}
use engineering_platform.Action.Service.{Service, World}
use engineering_platform.Store.{Memory}
use engineering_platform.Gateway.Interleaved.{Authorized, Live, Shared, Unblocked}
use engineering_platform.Api.Actions.{CreateActionRequest, request_of}

-- The provider was asked once, for what was given, after the guards had passed.
pub record AskedAmong (others : ℕ → Memory → Memory) (now : ℕ) (run_id : String)
    (given : CreateActionRequest) (m : Memory) (asked : List Action.Request) (after : World Shared)
    : Type 0 where
  pub epoch : ℕ
  pub epoch_given : given.recovery_epoch ≡ some epoch
  pub asked_once : after.dispatches ≡ request_of now run_id given epoch ∷ asked
  pub authorized : Authorized (request_of now run_id given epoch) (others 1 (others 0 m))
  pub live : Live (request_of now run_id given epoch) (others 2 (others 1 (others 0 m)))
  pub unblocked :
      Unblocked (request_of now run_id given epoch) (others 3 (others 2 (others 1 (others 0 m))))

module _ (others : ℕ → Memory → Memory) (svc : Service Memory) (ctx : ℕ → Context) (clock : ℕ → ℕ)
    (now : ℕ) (run_id : String) (given : CreateActionRequest) (m : Memory)
    (asked : List Action.Request) (seen : List Action.Operation) where
  abbrev Outcome : World Shared → Type 0
  Outcome after = (after.dispatches ≡ asked) ⊎ AskedAmong others now run_id given m asked after
