-- ===== src/Digests.antt =====
-- `canonical.Digest` of internal/canonical: the SHA-256 of a value's JSON. Neither the encoder nor
-- the hash is code of the repository, so each type's digest is a field of a parameter. The methods
-- `Digest` of the repository stand here too, by that parameter.
use engineering_platform.Prelude.{Error, Option, Result, String, err, none, some}
use engineering_platform.Core.{
  RunInputManifest, TaskContract, validate_context_refs, validate_continuation,
}
use engineering_platform.Session.{CheckpointContent}
use engineering_platform.Verification.{Plan}

pub record Hashing : Type 0 where
  pub hash_task : TaskContract → Result String
  pub hash_plan : Plan → Result String
  pub hash_input : RunInputManifest → Result String
  pub hash_checkpoint : CheckpointContent → Result String

abbrev pub or_else : Option Error → Result String → Result String
or_else none r = r
or_else (some e) r = err e

continuation_error : RunInputManifest → Option Error
continuation_error m = elim m.continuation [
  | none ↦ none
  | some c ↦ validate_continuation c m.run_id
]

-- `RunInputManifest.Digest`, which refuses what may not be frozen.
unfoldable pub input_digest : Hashing → RunInputManifest → Result String
unfolding continuation_error
input_digest h m =
    or_else (continuation_error m) (or_else (validate_context_refs m.context_refs) (h.hash_input m))
