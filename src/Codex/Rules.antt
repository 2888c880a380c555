-- ===== src/Codex/Rules.antt =====
-- Rules for the transactions on live controls: what a chain of reads and checks ensures of its answer,
-- and what a row that was read satisfies.
use mathlib.Core.Path.{subst}
use engineering_platform.Codex.Database.{
  CodexRow, Database, Digesting, InboxRecord, RuntimeRow, identity_error, lock_codex, or_fail,
  require, scan_codex, scan_profile, select, ◌>>=◌,
}
use engineering_platform.Codex.{
  ControlDelivery, ControlRuntime, ControlTranscript, RuntimeState, Token, active, binding_eq,
  close_eq, delivery_state_eq, kind_eq, sealed, token_beq_iff, token_eq, turn_eq,
}
use engineering_platform.Codex.Transactions.{
  control_runtime, of_execution, scan_control, scan_sealed, scan_state,
}
use engineering_platform.Codex.Controls.{is_active, is_sealed}
use engineering_platform.Codex.Checks.{valid_token, validate_binding, validate_delivery}
use engineering_platform.Codex.Transcripts.{transcript_digest}
use engineering_platform.Codex.Profiles.{profile_digest}
use engineering_platform.Prelude.{
  ==_iff, ==_refl, Bool, Bool-cases, Error, Option, Result, Result-cases, String, arith, err, false,
  if◌then◌else◌, inl, inr, is_ok, nat_eq, none, not, ok, refl, some, string_eq, sym, true, ℕ, ◌!=◌,
  ◌&&◌, ◌==◌, ◌||◌, ◌≡◌, ◌≢◌,
}

abbrev pub Holds : {A : Type 0} → (A → Type 0) → Result A → Type 0
Holds P (ok a) = P a
Holds P (err e) = Unit {0}

pub record Ensures {A : Type 0} (P : A → Type 0) (r : Result A) : Type 0 where
  pub holds : Holds P r

module _ {A : Type 0} (P : A → Type 0) where
  at_ok : (r : Result A) (a : A) → Holds P r → r ≡ ok a → P a
  at_ok (ok b) a q e = subst P (ground (arith, e)) q
  at_ok (err x) a q e = cc

module _ {A : Type 0} {P : A → Type 0} where
  pub Ensures-at : {r : Result A} {a : A} → Ensures P r → r ≡ ok a → P a
  Ensures-at {r} {a} q e = at_ok P r a q.holds e

module _ {A B : Type 0} {Q : B → Type 0} where
  bind_cases :
      (r : Result A) {f : A → Result B}
      → ((a : A) → r ≡ ok a → Ensures Q (f a))
      → Ensures Q (r >>= f)
  unfolding ◌>>=◌
  bind_cases (ok a) k = k a refl
  bind_cases (err e) k = record { holds = tt }

  pub Ensures-bind :
      {r : Result A} {f : A → Result B}
      → ((a : A) → r ≡ ok a → Ensures Q (f a))
      → Ensures Q (r >>= f)
  Ensures-bind {r} k = bind_cases r k

module _ {B : Type 0} {Q : B → Type 0} where
  if_cases :
      (b : Bool) {x y : Result B} → Ensures Q x → Ensures Q y → Ensures Q (if b then x else y)
  if_cases true p q = p
  if_cases false p q = q

  pub Ensures-if :
      (b : Bool) {x y : Result B} → Ensures Q x → Ensures Q y → Ensures Q (if b then x else y)
  Ensures-if = if_cases

  pub Ensures-ok : {a : B} → Q a → Ensures Q (ok a)
  Ensures-ok q = record { holds = q }

  pub Ensures-err : {e : Error} → Ensures Q (err e)
  Ensures-err = record { holds = tt }

pub require-true : (b : Bool) (e : Error) (a : Unit {0}) → require b e ≡ ok a → b ≡ true
unfolding require
require-true true e a h = refl
require-true false e a h = cc

pub or_fail-some : {A : Type 0} (o : Option A) (e : Error) (a : A) → or_fail o e ≡ ok a → o ≡ some a
unfolding or_fail
or_fail-some none e a h = cc
or_fail-some (some b) e a h = ground (arith, h)

pub select-some :
    {A : Type 0} (id : String) (db : Database) (o : Option A) (a : A)
    → select id db o ≡ some a
    → (o ≡ some a) × (id ≡ db.run_id)
select-some id db o a h = ground (arith, h, ==_iff id db.run_id)

pub of_execution-some :
    (id : String) (o : Option RuntimeRow) (r : RuntimeRow) → of_execution id o ≡ some r → o ≡ some r
of_execution-some id none r e = e
of_execution-some id (some x) r e = ground (arith, e)

pub of_execution-none :
    (o : Option RuntimeRow) (r : RuntimeRow) → o ≡ some r → of_execution r.binding.token.id o ≢ none
of_execution-none o r e n = ground (arith, ==_refl r.binding.token.id)

pub both : (a b : Bool) → (a && b) ≡ true → (a ≡ true) × (b ≡ true)
both true b e = (refl, e)
both false b e = cc

-- if failed { return ErrIdentity }
passed_ok :
    {A : Type 0} (failed : Bool) (a a' : A)
    → (if failed then err identity_error else ok a) ≡ ok a'
    → a' ≡ a
passed_ok true a a' e = cc
passed_ok false a a' e = ground (arith, e)

module _ (h : Digesting) where
  scan_cases :
      (b : Bool) (d d' : ControlDelivery)
      → (if b then ok d else err identity_error) ≡ ok d'
      → (d' ≡ d) × (b ≡ true)
  scan_cases true d d' e = (ground (arith, e), refl)
  scan_cases false d d' e = cc

  abbrev pub is_valid : ControlDelivery → Bool
  is_valid d = is_ok (validate_delivery h.hash_payload d)

  pub scan_control-ok :
      (d d' : ControlDelivery) → scan_control h d ≡ ok d' → (d' ≡ d) × (is_valid d ≡ true)
  unfolding scan_control
  scan_control-ok d d' e = scan_cases (is_valid d) d d' e

  scan_profile-ok :
      (r r' : CodexRow) (digest : Result String) → scan_profile r digest ≡ ok r' → r' ≡ r
  scan_profile-ok r r' (err x) e = cc
  scan_profile-ok r r' (ok digest) e =
      passed_ok (not (valid_token r.token) || digest != r.token.profile_digest) r r' e

  scan_codex-ok : (r r' : CodexRow) → scan_codex h r ≡ ok r' → r' ≡ r
  unfolding scan_codex
  scan_codex-ok r r' e = scan_profile-ok r r' (profile_digest h.config r.profile) e

  abbrev RowOf : Token → Database → CodexRow × InboxRecord → Type 0
  RowOf token db p = (db.execution ≡ some p.0) × (p.0.token ≡ token) × (token.run_id ≡ db.run_id)

  -- The lock gives the row of the token.
  pub lock_codex-RowOf :
      (subject : String) (token : Token) (is_live : Bool) (now : ℕ) (db : Database)
      → Ensures (RowOf token db) (lock_codex h subject token is_live now db)
  unfolding lock_codex
  lock_codex-RowOf subject token is_live now db = Ensures-bind λ _ _. Ensures-bind λ found _.
      Ensures-bind λ inbox _. Ensures-bind λ _ _. Ensures-bind λ _ _. Ensures-bind λ stored p.
        Ensures-bind λ row q. Ensures-bind λ _ same. Ensures-bind λ _ _. Ensures-ok (
          let (here, id) = select-some _ db _ stored (or_fail-some _ _ stored p) in
          let e = scan_codex-ok stored row q in
          (
            subst (λ x. db.execution ≡ some x) (sym e) here,
            (token_beq_iff row.token token).0
                (both (row.token == token) (row.worker == subject) (require-true _ _ _ same)).0,
            id,
          ))

  scan_sealed-binding :
      (s : RuntimeRow) (t : Option ControlTranscript) (d : Option String) (r : ControlRuntime)
      → scan_sealed h s t d ≡ ok r
      → (r.binding ≡ s.binding) × (is_sealed r.state ≡ true)
  scan_sealed-binding s (some t) (some d) r e =
      elim (Result-cases (transcript_digest h.hash_payload h.hash_transcript t)) [
        | inl (x, q) ↦ absurd (ground (arith, e, q))
        | inr (digest, q) ↦ ground (arith, e, q)
      ]
  scan_sealed-binding s none d r e = cc
  scan_sealed-binding s (some t) none r e = cc

  scan_state-IsRuntime :
      (s : RuntimeRow) (to : RuntimeState) (r : ControlRuntime)
      → s.state ≡ to
      → scan_state h s to ≡ ok r
      → (r.binding ≡ s.binding) × (is_sealed r.state ≡ false → is_active s.state ≡ true)
  scan_state-IsRuntime s active r q e = (ground (arith, e), λ _. ground (arith, q))
  scan_state-IsRuntime s sealed r q e =
      let (same, closed) = scan_sealed-binding s s.transcript s.digest r e in (same, λ open'. cc)
  scan_state-IsRuntime s (RuntimeState.other x) r q e = cc

  pub control_runtime-IsRuntime :
      (s : RuntimeRow) (r : ControlRuntime)
      → control_runtime h s ≡ ok r
      → (r.binding ≡ s.binding)
        × (is_ok (validate_binding s.binding) ≡ true)
        × (is_sealed r.state ≡ false → is_active s.state ≡ true)
  unfolding control_runtime
  control_runtime-IsRuntime s r e = elim (Bool-cases (is_ok (validate_binding s.binding))) [
    | inl v ↦
        let (same, up) = scan_state-IsRuntime s s.state r refl (ground (arith, e, v)) in
        (same, v, up)
    | inr v ↦ absurd (ground (arith, e, v))
  ]
