-- ===== src/Review/Acceptance.antt =====
-- What `Validate` of a review report (internal/review) admits.
-- A finding that is well formed by itself.
use engineering_platform.Prelude.{
  ==_iff, All, Bool, Distinct, Fresh, Fresh-see, List, Result-cases, String, [], arith, bounded,
  false, if◌then◌else◌, inl, inr, length, map, nat_eq, none, ok, string_eq, true, ℕ, ◌+◌, ◌<◌, ◌==◌,
  ◌∷◌, ◌≡◌, ◌≤◌, ◌⊎◌,
}
use engineering_platform.Review.{Finding, Report, bad_identity, count_blocking, validate, weigh}

abbrev pub Admissible : Finding → Type 0
Admissible f =
    (bounded f.id 256 ≡ true)
    × (bounded f.summary 4096 ≡ true)
    × ((f.severity ≡ "INFO") ⊎ (f.severity ≡ "WARNING") ⊎ (f.severity ≡ "BLOCKING"))

abbrev pub blocks : Finding → Bool
blocks f = f.severity == "BLOCKING"

-- The number of blocking findings.
abbrev pub blocking_of : List Finding → ℕ
blocking_of [] = 0
blocking_of (f ∷ fs) = if blocks f then blocking_of fs + 1 else blocking_of fs

abbrev pub ids : List Finding → List String
ids fs = map (λ (f : Finding). f.id) fs

abbrev blocking : String
blocking = "BLOCKING"

mild : (f : Finding) → (f.severity ≡ "INFO") ⊎ (f.severity ≡ "WARNING") → blocks f ≡ false
mild f (inl e) = rw e
mild f (inr e) = rw e

count_blocking_sound :
    (seen : List String) (fs : List Finding) (n : ℕ)
    → count_blocking seen fs ≡ ok n
    → All Admissible fs × Distinct (ids fs) × Fresh seen (ids fs) × (n ≡ blocking_of fs)
unfolding count_blocking
count_blocking_sound seen [] n h = ground arith
count_blocking_sound seen (f ∷ fs) n h = elim (Result-cases (count_blocking (f.id ∷ seen) fs)) [
  | inl (e, q) ↦ ground (arith, q, h)
  | inr (k, q) ↦ ground (
    arith,
    q,
    h,
    count_blocking_sound (f.id ∷ seen) fs k q,
    Fresh-see f.id seen (ids fs),
    mild f,
    ==_iff f.severity "INFO",
    ==_iff f.severity "WARNING",
    ==_iff f.severity "BLOCKING",
  )
]

-- A report that is admitted has at most 64 findings, each well formed and with a name of its own;
-- its result is PASS or FAIL, PASS with no blocking finding, FAIL with at least one.
pub validate_sound :
    (r : Report)
    → validate r ≡ none
    → (length r.findings ≤ 64)
      × All Admissible r.findings
      × Distinct (ids r.findings)
      × (((r.result ≡ "PASS") × (blocking_of r.findings ≡ 0))
          ⊎ ((r.result ≡ "FAIL") × (0 < blocking_of r.findings)))
unfolding validate weigh bad_identity
validate_sound r h = elim (Result-cases (count_blocking [] r.findings)) [
  | inl (e, q) ↦ ground (arith, q, h)
  | inr (k, q) ↦ ground (
    arith,
    q,
    h,
    count_blocking_sound [] r.findings k q,
    ==_iff r.result "PASS",
    ==_iff r.result "FAIL",
  )
]
