-- ===== src/Canonical.antt =====
-- internal/canonical (ValidDigest) and the bounded identifiers that the platform checks by regular
-- expressions. A pattern `^…$` is matched over the code points of the whole text.
use engineering_platform.Prelude.{
  Bool, List, Option, String, [], all_codes, codes, contains, false, leb, length, nat_eq, none,
  some, string_eq, true, ℕ, ◌&&◌, ◌==◌, ◌||◌, ◌∷◌,
}

abbrev pub is_digit : ℕ → Bool
is_digit c = leb b'0' c && leb c b'9'

-- [0-9a-f]
abbrev pub is_lower_hex : ℕ → Bool
is_lower_hex c = is_digit c || (leb b'a' c && leb c b'f')

-- [0-9a-fA-F]
abbrev pub is_hex : ℕ → Bool
is_hex c = is_lower_hex c || (leb b'A' c && leb c b'F')

-- [A-Za-z0-9]
abbrev pub is_alphanumeric : ℕ → Bool
is_alphanumeric c = is_digit c || (leb b'A' c && leb c b'Z') || (leb b'a' c && leb c b'z')

-- What is left of a text behind a prefix.
unfoldable pub strip_prefix : List ℕ → List ℕ → Option (List ℕ)
strip_prefix [] cs = some cs
strip_prefix (p ∷ ps) [] = none
strip_prefix (p ∷ ps) (c ∷ cs) = elim (p == c) [ true ↦ strip_prefix ps cs | false ↦ none ]

abbrev is_hex_64 : Option (List ℕ) → Bool
is_hex_64 none = false
is_hex_64 (some cs) = length cs == 64 && all_codes is_lower_hex cs

-- ^sha256:[0-9a-f]{64}$
unfoldable pub valid_digest : String → Bool
unfolding strip_prefix
valid_digest value = is_hex_64 (strip_prefix (codes "sha256:") (codes value))

-- ^[A-Za-z0-9][A-Za-z0-9<extra>]{0,max}$
unfoldable pub matches_name : List ℕ → ℕ → List ℕ → Bool
unfolding contains
matches_name extra max [] = false
matches_name extra max (c ∷ cs) =
    is_alphanumeric c
    && leb (length cs) max
    && all_codes (λ d. is_alphanumeric d || contains extra d) cs
