-- ===== src/Prelude/Methods.antt =====
-- The errors of the platform, and methods that change a state and may fail. What a method wrote
-- before it returned an error stays written, so the state comes back beside the error too.
use Prim.Native.Nat.{ℕ, ◌+◌}
use Prim.Native.String.{String}
use mathlib.Core.Path.{◌≡◌, refl}
use mathlib.Core.Logic.{◌⊎◌, inl, inr}
use mathlib.Core.Bool.{Bool, true, false, ◌||◌}
use mathlib.Core.Option.{Option, none, some}

-- The sentinel errors that callers compare by `errors.Is`.
pub data Sentinel : Type 0 where
  exists not_found conflict : Sentinel
  run_stale_epoch run_terminal : Sentinel
  session_stale_epoch session_sequence session_runtime_not_owner : Sentinel
  recovery_stale_epoch recovery_mode already_recovering reconciliation_required : Sentinel
  invalid_work_transition invalid_context : Sentinel
  invalid_transition denied operation_exists operation_absent : Sentinel
  idempotency_conflict external_effect_unresolved : Sentinel
  action_not_allowed invalid_risk_class run_session_epoch_mismatch : Sentinel
  hypothesis_not_found evidence_required : Sentinel
  commit_outcome_unknown : Sentinel
  lease_lost no_handler risk_class recovery_blocked outcome_unknown : Sentinel

-- `canceled` is what `ctx.Err()` returns; `message` is an error made by `fmt.Errorf` or by code that
-- is not modelled; `wrapped s e` is `fmt.Errorf("%w: %w", s, e)`.
pub data Error : Type 0 where
  sentinel : Sentinel → Error
  canceled : Error
  message : String → Error
  wrapped : Sentinel → Error → Error
  http : ℕ → String → Error

pub data Result {ℓ} (A : Type ℓ) : Type ℓ where
  ok : A → Result A
  err : Error → Result A

abbrev pub is_ok {ℓ} : {A : Type ℓ} → Result A → Bool
is_ok (ok a) = true
is_ok (err e) = false

pub Result-cases {ℓ} :
    {A : Type ℓ} (r : Result A) → ((e : Error) × (r ≡ err e)) ⊎ ((a : A) × (r ≡ ok a))
Result-cases (err e) = inl (e, refl)
Result-cases (ok a) = inr (a, refl)

-- A method on a pointer receiver of type `S`.
abbrev pub Exec {ℓ} : Type ℓ → Type ℓ → Type ℓ
Exec S A = S → Result A × S

abbrev pub continue {ℓ} : {S A B : Type ℓ} → Result A → (A → Exec S B) → Exec S B
continue (ok a) f s = f a s
continue (err e) f s = (err e, s)

infixl 5 ◌>>=◌ ◌>>◌
unfoldable pub ◌>>=◌ {ℓ} : {S A B : Type ℓ} → Exec S A → (A → Exec S B) → Exec S B
◌>>=◌ m f s = let (r, s') = m s in continue r f s'

abbrev pub ◌>>◌ {ℓ} : {S B : Type ℓ} → Exec S Unit → Exec S B → Exec S B
m >> k = m >>= λ _. k

abbrev pub pure {ℓ} : {S A : Type ℓ} → A → Exec S A
pure a s = (ok a, s)

abbrev pub raise {ℓ} : {S A : Type ℓ} → Error → Exec S A
raise e s = (err e, s)

-- if cond { return e }
abbrev pub fail_if {ℓ} : {S : Type ℓ} → Bool → Sentinel → Exec S Unit
fail_if true e s = (err (sentinel e), s)
fail_if false e s = (ok tt, s)

abbrev pub lift {ℓ} : {S A : Type ℓ} → Result A → Exec S A
lift r s = (r, s)

abbrev pub modify {ℓ} : {S : Type ℓ} → (S → S) → Exec S Unit
modify f s = (ok tt, f s)

abbrev pub or_error {ℓ} : {S A : Type ℓ} → Option A → Sentinel → Exec S A
or_error none e s = (err (sentinel e), s)
or_error (some a) e s = (ok a, s)

-- v, ok := m.field[k]; if !ok { return e }
abbrev pub find {ℓ} : {S A : Type ℓ} → (S → Option A) → Sentinel → Exec S A
find f e s = or_error (f s) e s

abbrev pub is_some {ℓ} : {A : Type ℓ} → Option A → Bool
is_some none = false
is_some (some a) = true

-- if _, ok := m.field[k]; ok { return e }
abbrev pub absent {ℓ} : {S A : Type ℓ} → (S → Option A) → Sentinel → Exec S Unit
absent f e s = fail_if (is_some (f s)) e s

-- The caller's context: the answer of the n-th call of `ctx.Err()` made during an operation. The
-- caller may cancel at any time, so nothing relates the answers.
abbrev pub Context : Type 0
Context = ℕ → Option Error

abbrev pub ctx_err : {S : Type 0} → Context → ℕ → Exec S Unit
ctx_err ctx n s = elim (ctx n) [ none ↦ (ok tt, s) | some e ↦ (err e, s) ]

-- The context of a caller that never cancels.
abbrev pub background : Context
background n = none

-- The calls of `ctx.Err()` from the n-th on.
abbrev pub later : ℕ → Context → Context
later n ctx k = ctx (n + k)

-- errors.Is(err, sentinel)
abbrev pub errors_is : (Sentinel → Bool) → Error → Bool
errors_is p (sentinel s) = p s
errors_is p (wrapped s e) = p s || errors_is p e
errors_is p canceled = false
errors_is p (message m) = false
errors_is p (http n m) = false
