-- ===== src/Outbox/Classes.antt =====
-- The risk classes of topics (internal/outbox/risk.go).
use engineering_platform.Prelude.{
  ==_iff, Bool-cases, String, arith, false, inl, inr, nat_eq, ok, refl, string_eq, true, ◌==◌, ◌≡◌,
  ◌≢◌, ◌⊎◌,
}
use engineering_platform.Action.{
  RiskClass, controlled_mutation, observe, other, risk_beq_iff, risk_eq, state_eq,
}
use engineering_platform.Outbox.{classify, valid_risk}

started_only :
    (topic : String)
    → (topic == "run.started") ≡ true
    → ((topic == "work.created") ≡ false) × ((topic == "") ≡ false)
started_only topic h = let e = (==_iff topic "run.started").0 h in rw e (refl, refl)

created_only : (topic : String) → (topic == "work.created") ≡ true → (topic == "") ≡ false
created_only topic h = let e = (==_iff topic "work.created").0 h in rw e refl

-- A topic that is classified has a name and gets one of the three classes, the declared one where
-- one was declared; a topic that the registry knows gets its own class, whatever was declared.
pub classify-valid_risk :
    (topic : String) (declared risk : RiskClass)
    → classify topic declared ≡ ok risk
    → (valid_risk risk ≡ true)
      × ((declared ≡ risk) ⊎ (declared ≡ other ""))
      × (topic ≡ "run.started" → risk ≡ controlled_mutation)
      × (topic ≡ "work.created" → risk ≡ observe)
      × (topic ≢ "")
unfolding classify valid_risk
classify-valid_risk topic declared risk h = elim (Bool-cases (topic == "run.started")) [
  | inl t ↦
      let (a, b) = started_only topic t in
      ground (
        arith,
        h,
        t,
        a,
        b,
        ==_iff topic "run.started",
        ==_iff topic "work.created",
        ==_iff topic "",
        risk_beq_iff declared risk,
        risk_beq_iff declared (other ""),
      )
  | inr n ↦ elim (Bool-cases (topic == "work.created")) [
    | inl t ↦
        let b = created_only topic t in
        ground (
          arith,
          h,
          n,
          t,
          b,
          ==_iff topic "run.started",
          ==_iff topic "work.created",
          ==_iff topic "",
          risk_beq_iff declared risk,
          risk_beq_iff declared (other ""),
        )
    | inr k ↦ ground (
      arith,
      h,
      n,
      k,
      ==_iff topic "run.started",
      ==_iff topic "work.created",
      ==_iff topic "",
      risk_beq_iff declared risk,
      risk_beq_iff declared (other ""),
    )
  ]
]
