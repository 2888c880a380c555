-- ===== src/Workerqueue/Same.antt =====
-- What an intent's digest says of an assignment (internal/workerqueue/model.go).
use mathlib.Core.Path.{subst}
use engineering_platform.Prelude.{
  ==_iff, Bool, Bool-cases, Error, Option, Result, String, ap, arith, err, false, inl, inr, nat_eq,
  none, ok, refl, some, string_eq, ◌∙◌, ◌≡◌,
}
use engineering_platform.Core.{RunInputManifest, work_state_eq}
use engineering_platform.Digests.{Hashing, input_digest, or_else}
use engineering_platform.Workerqueue.{
  Assignment, Intent, Validation, bad_input, bad_intent, bad_task, demand, intent_digest, then_with,
  validate,
}

module _ {A B : Type 0} where
  then_with_sound :
      (r : Result A) (f : A → Result B) (b : B)
      → then_with r f ≡ ok b
      → (x : A) × (r ≡ ok x) × (f x ≡ ok b)
  then_with_sound (err e) f b h = ground (arith, h)
  then_with_sound (ok x) f b h = (x, refl, h)

demand_sound :
    {A : Type 0} (r : Result A) (bad : A → Bool) (x : A)
    → demand r bad ≡ ok x
    → (r ≡ ok x) × (bad x ≡ false)
demand_sound (err e) bad x h = ground (arith, h)
demand_sound (ok y) bad x h = elim (Bool-cases (bad y)) [
  | inl t ↦ ground (arith, h, t)
  | inr n ↦
      let same : y ≡ x = ground (arith, h, n) in (ap ok same, subst (λ z. bad z ≡ false) same n)
]

or_else_sound : (o : Option Error) (r : Result String) (d : String) → or_else o r ≡ ok d → r ≡ ok d
or_else_sound none r d h = h
or_else_sound (some e) r d h = ground (arith, h)

module _ (h : Hashing) (hash_intent : Intent → Result String) where
  -- What `Validate` has found of an assignment.
  pub record Bound (a : Assignment) : Type 0 where
    pub intent_hashed : hash_intent a.intent ≡ ok a.intent_digest
    pub input_hashed : h.hash_input a.input ≡ ok a.intent.input_digest
    pub task_hashed : h.hash_task a.task ≡ ok a.intent.task_digest
    pub same_run : a.input.run_id ≡ a.intent.run_id
    pub same_task : a.input.task_contract_digest ≡ a.intent.task_digest

  intent_digest_sound :
      (i : Intent) (d : String) → intent_digest h hash_intent i ≡ ok d → hash_intent i ≡ ok d
  unfolding intent_digest
  intent_digest_sound i d e = ground (arith, e)

  input_digest_sound :
      (i : RunInputManifest) (d : String) → input_digest h i ≡ ok d → h.hash_input i ≡ ok d
  unfolding input_digest
  input_digest_sound i d e = or_else_sound _ _ d (or_else_sound _ _ d e)

  bad_intent_sound :
      (a : Assignment) (d : String) → bad_intent h hash_intent a d ≡ false → d ≡ a.intent_digest
  unfolding bad_intent
  bad_intent_sound a d e = ground (arith, e, ==_iff d a.intent_digest)

  bad_input_sound :
      (a : Assignment) (d : String)
      → bad_input h hash_intent a d ≡ false
      → (d ≡ a.intent.input_digest)
        × (a.input.run_id ≡ a.intent.run_id)
        × (a.input.task_contract_digest ≡ a.intent.task_digest)
  unfolding bad_input
  bad_input_sound a d e = ground (
    arith,
    e,
    ==_iff d a.intent.input_digest,
    ==_iff a.input.run_id a.intent.run_id,
    ==_iff a.input.task_contract_digest a.intent.task_digest,
  )

  bad_task_sound :
      (a : Assignment) (d : String) → bad_task h hash_intent a d ≡ false → d ≡ a.intent.task_digest
  unfolding bad_task
  bad_task_sound a d e = ground (arith, e, ==_iff d a.intent.task_digest)

  pub validate-Bound : (a : Assignment) (v : Validation) → validate h hash_intent a ≡ ok v → Bound a
  unfolding validate
  validate-Bound a v e =
      let (x, p, e) =
        then_with_sound (demand (intent_digest h hash_intent a.intent) (bad_intent h hash_intent a))
          _ v e in
      let (y, q, e) =
        then_with_sound (demand (input_digest h a.input) (bad_input h hash_intent a)) _ v e in
      let (z, r, e) =
        then_with_sound (demand (h.hash_task a.task) (bad_task h hash_intent a)) _ v e in
      let (p, i) =
        demand_sound (intent_digest h hash_intent a.intent) (bad_intent h hash_intent a) x p in
      let (q, j) = demand_sound (input_digest h a.input) (bad_input h hash_intent a) y q in
      let (r, k) = demand_sound (h.hash_task a.task) (bad_task h hash_intent a) z r in
      let (same_input, run, task) = bad_input_sound a y j in
      record {
        intent_hashed = intent_digest_sound a.intent x p ∙ ap ok (bad_intent_sound a x i);
        input_hashed = input_digest_sound a.input y q ∙ ap ok same_input;
        task_hashed = r ∙ ap ok (bad_task_sound a z k);
        same_run = run;
        same_task = task;
      }

-- The digest tells the two values apart, if they differ.
abbrev pub Distinguishes : {A : Type 0} → (A → Result String) → A → A → Type 0
Distinguishes hash a b = (d : String) → hash a ≡ ok d → hash b ≡ ok d → a ≡ b

-- Of two assignments that `Validate` accepts under the same intent digest, if no digest collides on
-- their intents, inputs or tasks, then the intents, the inputs and the task contracts are the same;
-- only the leases may differ.
pub validate_unique :
    (h : Hashing) (hash_intent : Intent → Result String) (a b : Assignment) (v w : Validation)
    → Distinguishes hash_intent a.intent b.intent
    → Distinguishes h.hash_input a.input b.input
    → Distinguishes h.hash_task a.task b.task
    → validate h hash_intent a ≡ ok v
    → validate h hash_intent b ≡ ok w
    → a.intent_digest ≡ b.intent_digest
    → (a.intent ≡ b.intent) × (a.input ≡ b.input) × (a.task ≡ b.task)
validate_unique h hash_intent a b v w i j k p q e =
    let x = validate-Bound h hash_intent a v p in
    let y = validate-Bound h hash_intent b w q in
    let same = i b.intent_digest (x.intent_hashed ∙ ap ok e) y.intent_hashed in
    let input = ap (λ (z : Intent). z.input_digest) same in
    let task = ap (λ (z : Intent). z.task_digest) same in
    (
      same,
      j b.intent.input_digest (x.input_hashed ∙ ap ok input) y.input_hashed,
      k b.intent.task_digest (x.task_hashed ∙ ap ok task) y.task_hashed,
    )
