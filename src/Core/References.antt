-- ===== src/Core/References.antt =====
-- What the check of a manifest's context references admits (internal/core/context.go).
use text.Mathlib.TextLemmas.{append_assoc}
use text.Mathlib.TextPositions.{len-append, slice-append_left, slice-append_right}
use engineering_platform.Prelude.{
  All, Distinct, Fresh, Fresh-see, Fresh-empty, List, String, [], arith, contains, length, map,
  nat_eq, none, string_eq, ◌↔◌, ◌∷◌, ◌≡◌, ◌≤◌, ◌<>◌, len, ==_iff, ap, sym, ◌∙◌, ◌⊎◌, inl, inr, ◌==◌,
  if◌then◌else◌, refl, false,
}
use Prim.Native.String.{slice}
use engineering_platform.Core.{
  ContextRef, ref_key, validate_context_refs, validate_ref, validate_refs, work_state_eq,
}

-- What stands before a text is determined by the whole, if its length is.
cancel_left : (t u v : String) → t <> u ≡ t <> v → u ≡ v
cancel_left t u v e =
    sym (slice-append_right t u)
    ∙ ap (λ n. slice (t <> u) (len t) n) (sym (len-append t u))
    ∙ ap (λ x. slice x (len t) (len x)) e
    ∙ ap (λ n. slice (t <> v) (len t) n) (len-append t v)
    ∙ slice-append_right t v

-- The type whose name begins with this letter.
abbrev type_of_letter : String → String
type_of_letter c =
    if c == "D"
    then "DOCUMENT"
    else if c == "S"
    then "SKILL"
    else if c == "L"
    then "LOG"
    else "EVIDENCE"

first_letter : (a b u : String) → slice ((a <> b) <> u) 0 (len a) ≡ a
first_letter a b u = ap (λ x. slice x 0 (len a)) (append_assoc a b u) ∙ slice-append_left a (b <> u)

abbrev IsKind : String → Type 0
IsKind t = (t ≡ "DOCUMENT") ⊎ (t ≡ "SKILL") ⊎ (t ≡ "LOG") ⊎ (t ≡ "EVIDENCE")

type_of_first : (t u : String) → IsKind t → type_of_letter (slice (t <> u) 0 1) ≡ t
type_of_first t u (inl e) = rw e (ap type_of_letter (first_letter "D" "OCUMENT" u))
type_of_first t u (inr (inl e)) = rw e (ap type_of_letter (first_letter "S" "KILL" u))
type_of_first t u (inr (inr (inl e))) = rw e (ap type_of_letter (first_letter "L" "OG" u))
type_of_first t u (inr (inr (inr e))) = rw e (ap type_of_letter (first_letter "E" "VIDENCE" u))

validate_ref-IsKind : (r : ContextRef) → validate_ref r ≡ none → IsKind r.type_name
unfolding validate_ref
validate_ref-IsKind r h = ground (
  arith,
  h,
  ==_iff r.type_name "DOCUMENT",
  ==_iff r.type_name "SKILL",
  ==_iff r.type_name "LOG",
  ==_iff r.type_name "EVIDENCE",
)

-- Of valid references, the key tells type and source.
ref_key_unique :
    (r s : ContextRef)
    → validate_ref r ≡ none
    → validate_ref s ≡ none
    → ref_key r ≡ ref_key s
    → (r.type_name ≡ s.type_name) × (r.source ≡ s.source)
ref_key_unique r s h k e =
    let t : r.type_name ≡ s.type_name =
      sym (type_of_first r.type_name (":" <> r.source) (validate_ref-IsKind r h))
      ∙ ap (λ x. type_of_letter (slice x 0 1)) e
      ∙ type_of_first s.type_name (":" <> s.source) (validate_ref-IsKind s k) in
    let e' : r.type_name <> ":" <> r.source ≡ r.type_name <> ":" <> s.source =
      e ∙ ap (λ x. x <> ":" <> s.source) (sym t) in
    (
      t,
      cancel_left ":" r.source s.source
          (cancel_left r.type_name (":" <> r.source) (":" <> s.source) e'),
    )

-- The two have type and source in common.
abbrev pub SameRef : ContextRef → ContextRef → Type 0
SameRef r s = (r.type_name ≡ s.type_name) × (r.source ≡ s.source)

-- No two have type and source in common.
abbrev pub Apart : List ContextRef → Type 0
Apart [] = Unit
Apart (r ∷ refs) = All (λ s. ¬ SameRef r s) refs × Apart refs

abbrev Valid : List ContextRef → Type 0
Valid = All (λ r. validate_ref r ≡ none)

ref_key_same : (r s : ContextRef) → SameRef r s → ref_key r ≡ ref_key s
ref_key_same r s (a, b) = rw (a, b) refl

not_contains :
    (r : ContextRef) (refs : List ContextRef)
    → validate_ref r ≡ none
    → Valid refs
    → (contains (map ref_key refs) (ref_key r) ≡ false) ↔ All (λ s. ¬ SameRef r s) refs
unfolding contains
not_contains r [] h v = ground arith
not_contains r (s ∷ refs) h (k, v) = ground (
  arith,
  not_contains r refs h v,
  ==_iff (ref_key s) (ref_key r),
  ref_key_unique s r k h,
  ref_key_same s r,
)

Distinct-Apart : (refs : List ContextRef) → Valid refs → Distinct (map ref_key refs) ↔ Apart refs
Distinct-Apart [] v = ground arith
Distinct-Apart (r ∷ refs) (h, v) = ground (arith, not_contains r refs h v, Distinct-Apart refs v)

validate_refs_exact :
    (seen : List String) (refs : List ContextRef)
    → (validate_refs seen refs ≡ none)
      ↔ (Valid refs × Distinct (map ref_key refs) × Fresh seen (map ref_key refs))
unfolding validate_refs
validate_refs_exact seen [] = ground arith
validate_refs_exact seen (r ∷ refs) = ground (
  arith,
  validate_refs_exact (ref_key r ∷ seen) refs,
  Fresh-see (ref_key r) seen (map ref_key refs),
)

-- The references of a manifest are admitted exactly when there are at most 64, each is valid by
-- itself, and no two have both the type and the source in common.
pub validate_context_refs_exact :
    (refs : List ContextRef)
    → (validate_context_refs refs ≡ none)
      ↔ ((length refs ≤ 64) × All (λ r. validate_ref r ≡ none) refs × Apart refs)
unfolding validate_context_refs
validate_context_refs_exact refs =
    ground (arith, validate_refs_exact [] refs, Fresh-empty (map ref_key refs), Distinct-Apart refs)
