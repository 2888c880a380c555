-- ===== src/Codex/Profiles.antt =====
-- The profile of a Codex execution (`Profile` of internal/codexexec/model.go, internal/provideridentity
-- and `ValidCodexVersion` of internal/runtime/codexapp/qualification.go). The digests are parameters,
-- those of the two built-in configurations included.
use engineering_platform.Prelude.{
  Bool, List, Option, Result, String, [], all_codes, bounded, codes, err, false, fits,
  if◌then◌else◌, is_blank, is_empty, is_ok, message, nat_eq, none, not, ok, some, string_eq, true,
  ℕ, ◌!=◌, ◌&&◌, ◌==◌, ◌||◌, ◌∷◌,
}
use engineering_platform.Canonical.{is_alphanumeric, is_digit, valid_digest}

pub record Identity : Type 0 where
  pub version : ℕ
  pub provider_id : String
  pub credential_mode : String
  pub execution_mode : String
  pub provider_config_digest : String

pub record Profile : Type 0 where
  pub version : ℕ
  pub provider : Identity
  pub codex_version : String
  pub binary_digest : String
  pub qualification_digest : String
  pub engineering_config_digest : String
  pub model : String
  pub sandbox : String
  pub approval_policy : String
  pub tool_network : Bool

pub record Configuration : Type 0 where
  pub provider_config_digest : String
  pub engineering_config_digest : String
  pub hash_profile : Profile → Result String

-- What is left behind [0-9]*, and behind [0-9]+.
abbrev skip_digits : List ℕ → List ℕ
skip_digits [] = []
skip_digits (c ∷ cs) = elim (is_digit c) [ true ↦ skip_digits cs | false ↦ c ∷ cs ]

abbrev number : List ℕ → Option (List ℕ)
number [] = none
number (c ∷ cs) = if is_digit c then some (skip_digits cs) else none

abbrev dot : Option (List ℕ) → Option (List ℕ)
dot none = none
dot (some []) = none
dot (some (c ∷ cs)) = if c == b'.' then number cs else none

abbrev is_suffix : Option (List ℕ) → Bool
is_suffix none = false
is_suffix (some []) = true
is_suffix (some (c ∷ cs)) =
    (c == b'-' || c == b'+')
    && not (is_empty cs)
    && all_codes (λ d. is_alphanumeric d || d == b'.' || d == b'-') cs

-- ^[0-9]+\.[0-9]+\.[0-9]+(?:[-+][0-9A-Za-z.-]+)?$
unfoldable pub valid_codex_version : String → Bool
valid_codex_version v = fits v 64 && is_suffix (dot (dot (number (codes v))))

module _ (config : Configuration) where
  unqualified : Identity → Bool
  unfolding bounded valid_digest
  unqualified i =
      i.version != 1
      || not (bounded i.provider_id 128)
      || not (bounded i.credential_mode 128)
      || not (bounded i.execution_mode 128)
      || not (valid_digest i.provider_config_digest)

  -- `Identity.Validate`
  unfoldable pub validate_identity : Identity → Result (Unit {0})
  unfolding unqualified
  validate_identity i =
      if unqualified i
      then err (message "invalid provider identity")
      else if i.provider_id != "openai-codex"
          || i.provider_config_digest != config.provider_config_digest
      then err (message "provider is not qualified for Codex execution")
      else if (i.credential_mode == "chatgpt-session" && i.execution_mode == "trusted-self-hosted")
          || (i.credential_mode == "workload-identity" && i.execution_mode == "unattended")
      then ok tt
      else err (message "provider credential/execution combination is not admitted")

  bad_profile : Profile → Bool
  bad_profile p =
      p.version != 3
      || not (is_ok (validate_identity p.provider))
      || not (valid_codex_version p.codex_version)
      || not (valid_digest p.binary_digest)
      || not (valid_digest p.qualification_digest)
      || p.engineering_config_digest != config.engineering_config_digest
      || is_blank p.model
      || not (fits p.model 128)
      || p.sandbox != "workspace-write"
      || p.approval_policy != "never"
      || p.tool_network

  -- `Profile.Digest`, which validates first.
  unfoldable pub profile_digest : Profile → Result String
  unfolding bad_profile validate_identity valid_codex_version valid_digest is_blank
  profile_digest p =
      if bad_profile p
      then err (message "worker input identity mismatch")
      else config.hash_profile p
