-- ===== src/Access/Lanes.antt =====
-- The lanes of worker profiles (`validateWorkerClaimLanes` of internal/access/worker.go).
use mathlib.Core.Path.{subst}
use engineering_platform.Prelude.{
  ==_iff, All, Bool, Bool-cases, List, Map, Option, Option-cases, String, [], ap, arith, contains,
  empty, false, inl, inr, insert, nat_eq, none, ok, some, string_eq, true, ◌==◌, ◌∷◌, ◌≡◌, ◌⊎◌,
}
use engineering_platform.Access.{
  Document, Identity, allows, lane_profiles, laned, lanes_from, new, principals_from,
  validate_worker_claim_lanes, worker_poll, worker_prepare,
}

abbrev Extends : Map String Bool → Map String Bool → Type 0
Extends l m = (p : String) (v : Bool) → l p ≡ some v → m p ≡ some v

-- Where the identity polls for workers, its profiles are in the lane of its kind.
abbrev pub Laned : Map String Bool → Identity → Type 0
Laned lane id =
    allows id worker_poll ≡ true
    → (p : String) → contains id.worker_profiles p ≡ true
    → lane p ≡ some (allows id worker_prepare)

lane_profiles_step :
    (prepare : Bool) (lanes m : Map String Bool) (p : String) (ps : List String)
    → lane_profiles prepare lanes (p ∷ ps) ≡ some m
    → (lane_profiles prepare (insert p prepare lanes) ps ≡ some m)
      × ((lanes p ≡ none) ⊎ (lanes p ≡ some prepare))
unfolding lane_profiles
lane_profiles_step prepare lanes m p ps h = elim (Option-cases (lanes p)) [
  | inl q ↦ ground (arith, h, q)
  | inr (prior, q) ↦ ground (arith, h, q)
]

insert-Extends :
    (prepare : Bool) (lanes : Map String Bool) (p : String)
    → (lanes p ≡ none) ⊎ (lanes p ≡ some prepare)
    → Extends lanes (insert p prepare lanes)
insert-Extends prepare lanes p k q v e = elim (Bool-cases (p == q)) [
  | inl t ↦ let same : lanes p ≡ some v = rw ((==_iff p q).0 t) e in ground (arith, t, k, same)
  | inr n ↦ ground (arith, n, e)
]

abbrev or_these : Map String Bool → Option (Map String Bool) → Map String Bool
or_these lanes none = lanes
or_these lanes (some m) = m

lane_profiles-Extends :
    (prepare : Bool) (lanes m : Map String Bool) (ps : List String)
    → lane_profiles prepare lanes ps ≡ some m
    → Extends lanes m × ((p : String) → contains ps p ≡ true → m p ≡ some prepare)
unfolding lane_profiles contains
lane_profiles-Extends prepare lanes m [] h = (
  λ p v e. subst (λ (l : Map String Bool). l p ≡ some v) (ap (or_these lanes) h) e,
  λ p c. ground (arith, c),
)
lane_profiles-Extends prepare lanes m (x ∷ ps) h =
    let (rest, k) = lane_profiles_step prepare lanes m x ps h in
    let (more, all) = lane_profiles-Extends prepare (insert x prepare lanes) m ps rest in
    (
      λ p v e. more p v (insert-Extends prepare lanes x k p v e),
      λ p c. elim (Bool-cases (x == p)) [
        | inl t ↦ more p prepare (ground (arith, t))
        | inr n ↦ all p (ground (arith, n, c))
      ],
    )

lanes_from_step :
    (lanes : Map String Bool) (id : Identity) (ids : List Identity)
    → lanes_from lanes (id ∷ ids) ≡ true
    → ((allows id worker_poll ≡ false) × (lanes_from lanes ids ≡ true))
      ⊎ ((m : Map String Bool) × (lane_profiles (allows id worker_prepare) lanes id.worker_profiles
            ≡ some m)
          × (lanes_from m ids ≡ true))
unfolding lanes_from
lanes_from_step lanes id ids h = elim (Bool-cases (allows id worker_poll)) [
  | inr n ↦ inl (n, ground (arith, h, n))
  | inl t ↦
      elim (Option-cases (lane_profiles (allows id worker_prepare) lanes id.worker_profiles)) [
        | inl q ↦ ground (arith, h, t, q)
        | inr (m, q) ↦ inr (m, q, ground (arith, h, t, q))
      ]
]

lanes_from-Laned :
    (lanes : Map String Bool) (ids : List Identity)
    → lanes_from lanes ids ≡ true
    → (m : Map String Bool) × Extends lanes m × All (Laned m) ids
lanes_from-Laned lanes [] h = (lanes, λ p v e. e, tt)
lanes_from-Laned lanes (id ∷ ids) h = elim (lanes_from_step lanes id ids h) [
  | inl (idle, rest) ↦
      let (m, more, all) = lanes_from-Laned lanes ids rest in
      (m, more, (λ polls p c. ground (arith, idle, polls), all))
  | inr (l, q, rest) ↦
      let (m, more, all) = lanes_from-Laned l ids rest in
      let (first, own) =
        lane_profiles-Extends (allows id worker_prepare) lanes l id.worker_profiles q in
      (
        m,
        λ p v e. more p v (first p v e),
        (λ polls p c. more p (allows id worker_prepare) (own p c), all),
      )
]

checked_of : (made ids : List Identity) → laned (some made) ≡ ok ids → lanes_from empty ids ≡ true
unfolding validate_worker_claim_lanes
checked_of made ids h = elim (Bool-cases (lanes_from empty made)) [
  | inl t ↦
      let same : made ≡ ids = ground (arith, h, t) in subst (λ x. lanes_from empty x ≡ true) same t
  | inr n ↦ ground (arith, h, n)
]

lanes_checked :
    (doc : Document) (ids : List Identity) → new doc ≡ ok ids → lanes_from empty ids ≡ true
unfolding new validate_worker_claim_lanes
lanes_checked doc ids h = elim (Option-cases (principals_from [] doc.principals)) [
  | inl q ↦ ground (arith, h, q)
  | inr (made, q) ↦ checked_of made ids (ground (arith, h, q))
]

-- In a policy that `New` accepts every worker profile has one lane: of the identities that poll for
-- the profile, either all may prepare sources or none.
pub new-Laned :
    (doc : Document) (ids : List Identity)
    → new doc ≡ ok ids
    → (lane : Map String Bool) × All (Laned lane) ids
new-Laned doc ids h =
    let (m, _, all) = lanes_from-Laned empty ids (lanes_checked doc ids h) in (m, all)
