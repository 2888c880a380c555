-- ===== src/Verification/Artifacts.antt =====
-- What the check that evidence refers to a delivery's artifacts admits
-- (internal/verification/verification.go).
use engineering_platform.Prelude.{
  All, Distinct, Fresh, Fresh-see, List, Option-cases, String, [], arith, contains, inl, inr, map,
  nat_eq, some, string_eq, true, ◌∷◌, ◌≡◌, ◌⊎◌,
}
use engineering_platform.Core.{ArtifactRef, DeliveryReceipt, EvidenceRef, work_state_eq}
use engineering_platform.Verification.{available_artifacts, evidence_artifacts_belong, refs_belong}

abbrev pub ids : List ArtifactRef → List String
ids xs = map (λ (a : ArtifactRef). a.id) xs

available_sound :
    (seen : List String) (xs : List ArtifactRef) (out : List String)
    → available_artifacts seen xs ≡ some out
    → (key : String) → contains out key ≡ true
    → (contains seen key ≡ true) ⊎ (contains (ids xs) key ≡ true)
unfolding available_artifacts contains
available_sound seen [] out h key k = ground arith
available_sound seen (x ∷ xs) out h key k = ground (
  arith,
  h,
  λ (rest : available_artifacts (x.id ∷ seen) xs ≡ some out).
      available_sound (x.id ∷ seen) xs out rest key k,
)

refs_sound :
    (available seen refs : List String)
    → refs_belong available seen refs ≡ true
    → All (λ key. contains available key ≡ true) refs × Distinct refs × Fresh seen refs
unfolding refs_belong
refs_sound available seen [] h = ground arith
refs_sound available seen (key ∷ refs) h =
    ground (arith, h, refs_sound available (key ∷ seen) refs, Fresh-see key seen refs)

within :
    (available : List String) (xs : List ArtifactRef) (refs : List String)
    → available_artifacts [] xs ≡ some available
    → All (λ key. contains available key ≡ true) refs
    → All (λ key. contains (ids xs) key ≡ true) refs
unfolding contains
within available xs [] h a = tt
within available xs (key ∷ refs) h (a, b) = (
  elim (available_sound [] xs available h key a) [ inl e ↦ ground (arith, e) | inr k ↦ k ],
  within available xs refs h b,
)

-- Evidence is admitted only where every artifact it refers to is one of the delivery's, and it
-- names none twice.
pub evidence_artifacts_belong_sound :
    (delivery : DeliveryReceipt) (item : EvidenceRef)
    → evidence_artifacts_belong delivery item ≡ true
    → All (λ key. contains (ids delivery.artifacts) key ≡ true) item.artifact_refs
      × Distinct item.artifact_refs
unfolding evidence_artifacts_belong
evidence_artifacts_belong_sound delivery item h =
    elim (Option-cases (available_artifacts [] delivery.artifacts)) [
      | inl q ↦ ground (arith, q, h)
      | inr (available, q) ↦
          let ok_refs : refs_belong available [] item.artifact_refs ≡ true = ground (arith, q, h) in
          let (a, b, c) = refs_sound available [] item.artifact_refs ok_refs in
          (within available delivery.artifacts item.artifact_refs q a, b)
    ]
