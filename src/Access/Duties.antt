-- ===== src/Access/Duties.antt =====
-- The separation of duties that a policy guarantees (`New` of internal/access/policy.go).
use mathlib.Core.Path.{subst}
use engineering_platform.Prelude.{
  ==_iff, All, Bool, Distinct, List, Option, Option-cases, String, [], ap, arith, contains, false,
  if◌then◌else◌, inl, inr, length, map, nat_eq, none, ok, refl, some, string_eq, sym, true, ◌∙◌,
  ◌∷◌, ◌≡◌, ◌≢◌, ◌⊎◌,
}
use engineering_platform.Access.{
  Document, Identity, PrincipalSpec, Reserved, admit, allows, allows_evidence, bare, codex_evidence,
  dedicated, duties_ok, evidence_register, git_evidence, identity_of, new, only, principals_from,
  read, recovery_reconcile, reserved_ok, review_create, subjects, trusted_ci,
  validate_worker_claim_lanes, worker_evidence,
}

-- Whoever has the duty has no other, and may at most read.
abbrev pub Dedicated : String → Identity → Type 0
Dedicated duty id =
    allows id duty ≡ true → (c : String) → allows id c ≡ true → (c ≡ duty) ⊎ (c ≡ read)

-- Evidence with the issuer or with the procedure of an importer is only for the importer, which does
-- nothing but read and register evidence.
abbrev pub Guards : Reserved → Identity → Type 0
Guards r id =
    (issuer procedure : String)
    → allows_evidence id issuer procedure ≡ true
    → (issuer ≡ r.issuer) ⊎ (procedure ≡ r.procedure)
    → (id.subject ≡ r.subject)
      × (issuer ≡ r.issuer)
      × (procedure ≡ r.procedure)
      × ((c : String) → allows id c ≡ true → (c ≡ read) ⊎ (c ≡ evidence_register))

pub record Separated (id : Identity) : Type 0 where
  pub reviewer : Dedicated review_create id
  pub reconciler : Dedicated recovery_reconcile id
  pub ci_importer : Guards trusted_ci id
  pub worker_importer : Guards worker_evidence id
  pub git_importer : Guards git_evidence id
  pub codex_importer : Guards codex_evidence id

only_sound :
    (duty : String) (cs : List String) (c : String)
    → only duty cs ≡ true
    → contains cs c ≡ true
    → (c ≡ duty) ⊎ (c ≡ read)
unfolding contains
only_sound duty [] c h k = ground arith
only_sound duty (x ∷ cs) c h k =
    ground (arith, h, k, only_sound duty cs c, ==_iff x c, ==_iff x duty, ==_iff x read)

dedicated-Dedicated : (duty : String) (id : Identity) → dedicated duty id ≡ true → Dedicated duty id
unfolding dedicated allows
dedicated-Dedicated duty id h a c k = only_sound duty id.capabilities c (ground (arith, h, a)) k

single :
    (xs : List String) (a b : String)
    → length xs ≡ 1
    → contains xs a ≡ true
    → contains xs b ≡ true
    → a ≡ b
unfolding contains
single [] a b n h k = ground arith
single (x ∷ []) a b n h k = ground (arith, h, k, ==_iff x a, ==_iff x b)
single (x ∷ y ∷ xs) a b n h k = ground (arith, n)

pair :
    (xs : List String) (a b c : String)
    → a ≢ b
    → length xs ≡ 2
    → contains xs a ≡ true
    → contains xs b ≡ true
    → contains xs c ≡ true
    → (c ≡ a) ⊎ (c ≡ b)
unfolding contains
pair [] a b c d n h k l = ground arith
pair (x ∷ []) a b c d n h k l = ground (arith, n)
pair (x ∷ y ∷ []) a b c d n h k l =
    ground
      (arith, d, h, k, l, ==_iff x a, ==_iff y a, ==_iff x b, ==_iff y b, ==_iff x c, ==_iff y c)
pair (x ∷ y ∷ z ∷ xs) a b c d n h k l = ground (arith, n)

read_is_not_register : read ≢ evidence_register
read_is_not_register e = ground (arith, (==_iff read evidence_register).1 e)

reserved_ok_sound :
    (id : Identity) (r : Reserved)
    → reserved_ok (bare id) r ≡ true
    → (id.subject ≡ r.subject)
      ⊎ (id.issuer ≡ r.issuer)
      ⊎ (contains id.procedures r.procedure ≡ true)
    → (id.subject ≡ r.subject)
      × (id.issuer ≡ r.issuer)
      × (length id.procedures ≡ 1)
      × (contains id.procedures r.procedure ≡ true)
      × (length id.capabilities ≡ 2)
      × (allows id read ≡ true)
      × (allows id evidence_register ≡ true)
unfolding reserved_ok allows
reserved_ok_sound id r h k = ground (
  arith,
  h,
  k,
  ==_iff id.subject r.subject,
  ==_iff id.issuer r.issuer,
  ==_iff (length id.procedures) 1,
  ==_iff (length id.capabilities) 2,
)

allows_evidence_sound :
    (id : Identity) (issuer procedure : String)
    → allows_evidence id issuer procedure ≡ true
    → (issuer ≡ id.issuer) × (contains id.procedures procedure ≡ true)
unfolding allows_evidence
allows_evidence_sound id issuer procedure h = ground (arith, h, ==_iff issuer id.issuer)

reserved_ok-Guards : (id : Identity) (r : Reserved) → reserved_ok (bare id) r ≡ true → Guards r id
unfolding allows
reserved_ok-Guards id r h issuer procedure a k =
    let (i, p) = allows_evidence_sound id issuer procedure a in
    let held : (id.subject ≡ r.subject)
        ⊎ (id.issuer ≡ r.issuer)
        ⊎ (contains id.procedures r.procedure ≡ true) =
      elim k [
        | inl e ↦ inr (inl (sym i ∙ e))
        | inr e ↦ inr (inr (subst (λ x. contains id.procedures x ≡ true) e p))
      ] in
    let (s, j, one, q, two, x, y) = reserved_ok_sound id r h held in
    (
      s,
      i ∙ j,
      single id.procedures procedure r.procedure one p q,
      λ c l. pair id.capabilities read evidence_register c read_is_not_register two x y l,
    )

admit_sound :
    (taken : Bool) (spec : PrincipalSpec)
    → admit taken spec ≡ true
    → (taken ≡ false) × (duties_ok (bare (identity_of spec)) (identity_of spec) ≡ true)
unfolding admit
admit_sound taken spec h = ground (arith, h)

duties_ok-Separated : (id : Identity) → duties_ok (bare id) id ≡ true → Separated id
unfolding duties_ok
duties_ok-Separated id h = record {
  reviewer = dedicated-Dedicated review_create id (ground (arith, h));
  reconciler = dedicated-Dedicated recovery_reconcile id (ground (arith, h));
  ci_importer = reserved_ok-Guards id trusted_ci (ground (arith, h));
  worker_importer = reserved_ok-Guards id worker_evidence (ground (arith, h));
  git_importer = reserved_ok-Guards id git_evidence (ground (arith, h));
  codex_importer = reserved_ok-Guards id codex_evidence (ground (arith, h));
}

abbrev pub subjects_of : List Identity → List String
subjects_of ids = map (λ (i : Identity). i.subject) ids

abbrev or_these : List Identity → Option (List Identity) → List Identity
or_these made none = made
or_these made (some ids) = ids

only_then :
    (b : Bool) (o : Option (List Identity)) (ids : List Identity)
    → (if b then o else none) ≡ some ids
    → (b ≡ true) × (o ≡ some ids)
only_then true o ids h = (refl, h)
only_then false o ids h = ground (arith, h)

principals_from_step :
    (made : List Identity) (spec : PrincipalSpec) (specs : List PrincipalSpec) (ids : List Identity)
    → principals_from made (spec ∷ specs) ≡ some ids
    → (admit (contains (subjects_of made) spec.subject) spec ≡ true)
      × (principals_from (identity_of spec ∷ made) specs ≡ some ids)
unfolding principals_from subjects
principals_from_step made spec specs ids h =
    only_then (admit (contains (subjects made) spec.subject) spec)
      (principals_from (identity_of spec ∷ made) specs) ids h

principals_from-Separated :
    (made : List Identity) (specs : List PrincipalSpec) (ids : List Identity)
    → principals_from made specs ≡ some ids
    → All Separated made × Distinct (subjects_of made)
    → All Separated ids × Distinct (subjects_of ids)
unfolding principals_from
principals_from-Separated made [] ids h k =
    subst (λ x. All Separated x × Distinct (subjects_of x)) (ap (or_these made) h) k
principals_from-Separated made (spec ∷ specs) ids h (s, d) =
    let (a, rest) = principals_from_step made spec specs ids h in
    let (fresh, duties) = admit_sound (contains (subjects_of made) spec.subject) spec a in
    principals_from-Separated (identity_of spec ∷ made) specs ids rest
      ((duties_ok-Separated (identity_of spec) duties, s), (fresh, d))

accepted :
    (doc : Document) (made ids : List Identity)
    → principals_from [] doc.principals ≡ some made
    → new doc ≡ ok ids
    → made ≡ ids
unfolding new validate_worker_claim_lanes
accepted doc made ids q h = ground (arith, q, h)

-- In a policy that `New` accepts no subject has two identities; who may create reviews, or reconcile
-- a recovery, may do nothing else but read; and evidence with the issuer or the procedure of one of
-- the four importers is registered by that importer only, with both, and the importer may do
-- nothing else but read.
pub new-Separated :
    (doc : Document) (ids : List Identity)
    → new doc ≡ ok ids
    → All Separated ids × Distinct (subjects_of ids)
unfolding new
new-Separated doc ids h = elim (Option-cases (principals_from [] doc.principals)) [
  | inl q ↦ ground (arith, h, q)
  | inr (made, q) ↦
      let same : made ≡ ids = accepted doc made ids q h in
      subst (λ x. All Separated x × Distinct (subjects_of x)) same
        (principals_from-Separated [] doc.principals made q (tt, tt))
]
