-- ===== src/Debug/Confirmed.antt =====
-- When a confirmed hypothesis has evidence (internal/debug/hypothesis.go).
use mathlib.Core.Path.{subst}
use engineering_platform.Prelude.{
  Bool-cases, List, Option, Option-cases, String, [], ap, arith, false, inl, inr, insert, is_empty,
  nat_eq, none, some, string_eq, true, ℕ, ◌&&◌, ◌==◌, ◌>>=◌, ◌∷◌, ◌≡◌, ◌≢◌, ◌⊎◌,
}
use engineering_platform.Debug.{
  Hypothesis, Registry, Status, add, confirm, confirmed, inconclusive, is_confirmed, new_registry,
  or_proposed, other, proposed, rejected, set_status, supported,
}

abbrev pub Proven : Hypothesis → Type 0
Proven h = is_confirmed h.status ≡ true → h.evidence_refs ≢ []

-- The registries that the methods lead to, failing calls included, where what is added is not
-- confirmed without evidence.
pub data Built : Registry → Type 0 where
  nothing : Built new_registry
  added : {r : Registry} (h : Hypothesis) → Proven h → Built r → Built (add h r)
  confirmed_by :
      {r : Registry} (id : String) (evidence_refs : List String) (now : ℕ)
      → Built r
      → Built (confirm id evidence_refs now r).1
  status_set :
      {r : Registry} (id : String) (status : Status) (now : ℕ)
      → Built r
      → Built (set_status id status now r).1

abbrev or_this : Hypothesis → Option Hypothesis → Hypothesis
or_this h none = h
or_this h (some g) = g

inserted :
    (key id : String) (g h : Hypothesis) (r : Registry)
    → insert id g r key ≡ some h
    → (r key ≡ some h) ⊎ (g ≡ h)
inserted key id g h r e = elim (Bool-cases (id == key)) [
  | inl t ↦ let same : some g ≡ some h = ground (arith, t, e) in inr (ap (or_this g) same)
  | inr n ↦ inl (ground (arith, n, e))
]

or_proposed_confirmed : (s : Status) → is_confirmed (or_proposed s) ≡ true → is_confirmed s ≡ true
or_proposed_confirmed (other s) h = ground (arith, h)
or_proposed_confirmed proposed h = h
or_proposed_confirmed supported h = h
or_proposed_confirmed rejected h = h
or_proposed_confirmed confirmed h = h
or_proposed_confirmed inconclusive h = h

some_evidence : (xs : List String) → is_empty xs ≡ false → xs ≢ []
some_evidence [] e q = ground (arith, e)
some_evidence (x ∷ xs) e q = ground (arith, q)

confirm_either :
    (id : String) (refs : List String) (now : ℕ) (r : Registry)
    → ((confirm id refs now r).1 ≡ r)
      ⊎ ((g : Hypothesis) × Proven g × ((confirm id refs now r).1 ≡ insert id g r))
unfolding confirm ◌>>=◌
confirm_either id refs now r = elim (Option-cases (r id)) [
  | inl q ↦ inl (ground (arith, q))
  | inr (x, q) ↦ elim (Bool-cases (is_empty refs)) [
    | inl t ↦ inl (ground (arith, q, t))
    | inr n ↦ inr (
      record x { evidence_refs = refs; status = confirmed; updated_at = now },
      λ c. some_evidence refs n,
      ground (arith, q, n),
    )
  ]
]

set_status_either :
    (id : String) (status : Status) (now : ℕ) (r : Registry)
    → ((set_status id status now r).1 ≡ r)
      ⊎ ((g : Hypothesis) × Proven g × ((set_status id status now r).1 ≡ insert id g r))
unfolding set_status ◌>>=◌
set_status_either id status now r = elim (Option-cases (r id)) [
  | inl q ↦ inl (ground (arith, q))
  | inr (x, q) ↦ elim (Bool-cases (is_confirmed status && is_empty x.evidence_refs)) [
    | inl t ↦ inl (ground (arith, q, t))
    | inr n ↦ inr (
      record x { status = status; updated_at = now },
      λ c. some_evidence x.evidence_refs (ground (arith, n, c)),
      ground (arith, q, n),
    )
  ]
]

-- In a registry to which no hypothesis is added as confirmed without evidence, every confirmed
-- hypothesis has evidence, whatever statuses are set and confirmations asked for.
pub Built-Proven :
    {r : Registry} (key : String) (h : Hypothesis) → Built r → r key ≡ some h → Proven h
unfolding add
Built-Proven key h nothing e = ground (arith, e)
Built-Proven key h (added {r} g p b) e =
    elim (inserted key g.id (record g { status = or_proposed g.status }) h r e) [
      | inl q ↦ Built-Proven key h b q
      | inr q ↦ subst Proven q (λ c. p (or_proposed_confirmed g.status c))
    ]
Built-Proven key h (confirmed_by {r} id refs now b) e = elim (confirm_either id refs now r) [
  | inl u ↦ Built-Proven key h b (subst (λ (s : Registry). s key ≡ some h) u e)
  | inr (g, p, u) ↦ elim (inserted key id g h r (subst (λ (s : Registry). s key ≡ some h) u e)) [
    | inl q ↦ Built-Proven key h b q
    | inr q ↦ subst Proven q p
  ]
]
Built-Proven key h (status_set {r} id status now b) e = elim (set_status_either id status now r) [
  | inl u ↦ Built-Proven key h b (subst (λ (s : Registry). s key ≡ some h) u e)
  | inr (g, p, u) ↦ elim (inserted key id g h r (subst (λ (s : Registry). s key ≡ some h) u e)) [
    | inl q ↦ Built-Proven key h b q
    | inr q ↦ subst Proven q p
  ]
]
