-- ===== src/ProcessScope.antt =====
-- internal/processscope/proof.go: what the worker observed of the namespace that a process tree ran
-- in. A process id that is not positive is 0 here, and so is the zero time.
use engineering_platform.Prelude.{
  ==_iff, Bool, Eq, Result, String, arith, err, false, if◌then◌else◌, is_ok, ltb, message, nat_eq,
  not, ok, string_eq, true, ℕ, ◌!=◌, ◌&&◌, ◌==◌, ◌||◌, ◌↔◌, ◌≡◌,
}

pub record Proof : Type 0 where
  pub version : ℕ
  pub mechanism : String
  pub host_pid : ℕ
  pub namespace_id : ℕ
  pub parent_namespace_id : ℕ
  pub started_at : ℕ
  pub reaped_at : ℕ
  pub init_reaped : Bool

abbrev same_flag : Bool → Bool → Bool
same_flag a b = if a then b else not b

abbrev proof_beq : Proof → Proof → Bool
proof_beq a b =
    a.version == b.version
    && a.mechanism == b.mechanism
    && a.host_pid == b.host_pid
    && a.namespace_id == b.namespace_id
    && a.parent_namespace_id == b.parent_namespace_id
    && a.started_at == b.started_at
    && a.reaped_at == b.reaped_at
    && same_flag a.init_reaped b.init_reaped

pub proof_beq_iff : (a b : Proof) → (proof_beq a b ≡ true) ↔ (a ≡ b)
proof_beq_iff a b = ground (
  arith,
  ==_iff a.version b.version,
  ==_iff a.mechanism b.mechanism,
  ==_iff a.host_pid b.host_pid,
  ==_iff a.namespace_id b.namespace_id,
  ==_iff a.parent_namespace_id b.parent_namespace_id,
  ==_iff a.started_at b.started_at,
  ==_iff a.reaped_at b.reaped_at,
)

instance abbrev pub proof_eq : Eq Proof
proof_eq = record { equal = proof_beq; equal_iff = proof_beq_iff }

-- processscope.Proof{}
abbrev pub no_proof : Proof
no_proof = record {
  version = 0;
  mechanism = "";
  host_pid = 0;
  namespace_id = 0;
  parent_namespace_id = 0;
  started_at = 0;
  reaped_at = 0;
  init_reaped = false;
}

no_identity : Proof → Bool
no_identity p =
    p.version != 1
    || p.mechanism != "linux-user-pid-namespace-init-v1"
    || p.host_pid == 0
    || p.namespace_id == 0
    || p.parent_namespace_id == 0
    || p.namespace_id == p.parent_namespace_id
    || p.started_at == 0

unfoldable pub validate : Proof → Result (Unit {0})
unfolding no_identity
validate p =
    if no_identity p
    then err (message "dedicated PID namespace identity required")
    else if p.init_reaped
    then if p.reaped_at == 0 || ltb p.reaped_at p.started_at
      then err (message "invalid namespace reap observation")
      else ok tt
    else if p.reaped_at != 0
    then err (message "unconfirmed namespace carries reap time")
    else ok tt

unfoldable pub quiescent : Proof → Bool
unfolding validate
quiescent p = is_ok (validate p) && p.init_reaped
