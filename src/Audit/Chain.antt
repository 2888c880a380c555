-- ===== src/Audit/Chain.antt =====
-- What `Verify` (internal/audit/journal.go) accepts, and what a digest says about a journal.
use mathlib.Core.Path.{subst}
use engineering_platform.Prelude.{
  ==_iff, ==_refl, Error, List, Result, Result-cases, String, [], ap, arith, err, inl, inr, length,
  map, nat_eq, ok, refl, string_eq, suc, sym, u64, ℕ, ◌++◌, ◌+◌, ◌∙◌, ◌∷◌, ◌≡◌,
}
use engineering_platform.Audit.{
  Event, EventContent, Input, append_input, build, content_of, input_of, last_digest, verify,
  verify_event, verify_from,
}

-- The part of an event that its digest covers: all but the digest itself and the time.
abbrev pub content : Event → EventContent
content e = content_of e.sequence e.previous_digest (input_of e)

cons_path : {a b : EventContent} {xs ys : List EventContent} → a ≡ b → xs ≡ ys → a ∷ xs ≡ b ∷ ys
cons_path e f = rw (e, f)

shorter : {n : ℕ} → 0 ≡ suc n → ⊥
shorter h = omega arith

module _ (hash : EventContent → Result String) where
  verify_event_sound :
      (i : ℕ) (previous : String) (e : Event)
      → verify_event hash i previous e ≡ ok tt
      → (hash (content e) ≡ ok e.digest) × (e.previous_digest ≡ previous)
  unfolding verify_event build
  verify_event_sound i previous e h = elim (Result-cases (hash (content e))) [
    | inl (x, q) ↦ ground (arith, h, q)
    | inr (d, q) ↦ ground (arith, h, q, ==_iff e.previous_digest previous, ==_iff d e.digest)
  ]

  verify_from_sound :
      (i : ℕ) (previous : String) (e : Event) (es : List Event)
      → verify_from hash i previous (e ∷ es) ≡ ok tt
      → (verify_event hash i previous e ≡ ok tt) × (verify_from hash (i + 1) e.digest es ≡ ok tt)
  unfolding verify_from
  verify_from_sound i previous e es h = ground (arith, h)

  verify_from-append :
      (i : ℕ) (previous : String) (es : List Event) (e : Event)
      → verify_from hash i previous es ≡ ok tt
      → verify_event hash (i + length es) (last_digest previous es) e ≡ ok tt
      → verify_from hash i previous (es ++ e ∷ []) ≡ ok tt
  unfolding verify_from
  verify_from-append i previous [] e h v =
      let v' : verify_event hash i previous e ≡ ok tt =
        subst (λ n. verify_event hash n previous e ≡ ok tt) (omega arith) v in
      ground (arith, v')
  verify_from-append i previous (f ∷ es) e h v =
      let (a, b) = verify_from_sound i previous f es h in
      let v' : verify_event hash (i + 1 + length es) (last_digest f.digest es) e ≡ ok tt =
        subst (λ n. verify_event hash n (last_digest f.digest es) e ≡ ok tt) (omega arith) v in
      ground (arith, a, verify_from-append (i + 1) f.digest es e b v')

  build-verify_event :
      (i : ℕ) (previous : String) (input : Input) (now : ℕ) (e : Event)
      → build hash (u64 (i + 1)) previous input now ≡ ok e
      → verify_event hash i previous e ≡ ok tt
  unfolding verify_event build
  build-verify_event i previous input now e h =
      elim (Result-cases (hash (content_of (u64 (i + 1)) previous input))) [
        | inl (x, q) ↦ ground (arith, h, q)
        | inr (d, q) ↦ ground (arith, h, q, ==_refl previous, ==_refl d)
      ]

  append_input_failed :
      (input : Input) (now : ℕ) (es : List Event) (x : Error)
      → build hash (u64 (length es + 1)) (last_digest "" es) input now ≡ err x
      → (append_input hash input now es).1 ≡ es
  unfolding append_input
  append_input_failed input now es x q = ground (arith, q)

  append_input_done :
      (input : Input) (now : ℕ) (es : List Event) (e : Event)
      → build hash (u64 (length es + 1)) (last_digest "" es) input now ≡ ok e
      → (append_input hash input now es).1 ≡ es ++ e ∷ []
  unfolding append_input
  append_input_done input now es e q = ground (arith, q)

  append_input-verify :
      (input : Input) (now : ℕ) (es : List Event)
      → verify hash es ≡ ok tt
      → verify hash (append_input hash input now es).1 ≡ ok tt
  unfolding verify
  append_input-verify input now es h =
      elim (Result-cases (build hash (u64 (length es + 1)) (last_digest "" es) input now)) [
        | inl (x, q) ↦ rw (append_input_failed input now es x q) h
        | inr (e, q) ↦ rw (append_input_done input now es e q) (
            verify_from-append 0 "" es e h (
              subst (λ n. verify_event hash n (last_digest "" es) e ≡ ok tt) (omega arith)
                (build-verify_event (length es) (last_digest "" es) input now e q)))
      ]

  -- The journals that `Append` and `AppendInput` lead to, failing calls included.
  pub data Journal : List Event → Type 0 where
    new : Journal []
    appended :
        {es : List Event} (input : Input) (now : ℕ)
        → Journal es
        → Journal (append_input hash input now es).1

  -- Every journal that has only been appended to passes `Verify`.
  pub Journal-verify : {es : List Event} → Journal es → verify hash es ≡ ok tt
  unfolding verify
  Journal-verify new = refl
  Journal-verify (appended {es} input now j) = append_input-verify input now es (Journal-verify j)

  -- The digest does not collide on the contents of the two events.
  abbrev Distinguished : Event → Event → Type 0
  Distinguished x y =
      (d : String) → hash (content x) ≡ ok d → hash (content y) ≡ ok d → content x ≡ content y

  -- The digest does not collide on events that stand in the same place of the two journals.
  abbrev pub NoCollision : List Event → List Event → Type 0
  NoCollision (x ∷ xs) (y ∷ ys) = Distinguished x y × NoCollision xs ys
  NoCollision _ _ = Unit

  verify_from_unique :
      (i : ℕ) (p q : String) (xs ys : List Event)
      → NoCollision xs ys
      → length xs ≡ length ys
      → verify_from hash i p xs ≡ ok tt
      → verify_from hash i q ys ≡ ok tt
      → last_digest p xs ≡ last_digest q ys
      → (p ≡ q) × (map content xs ≡ map content ys)
  verify_from_unique i p q [] [] f n h k e = (e, refl)
  verify_from_unique i p q [] (y ∷ ys) f n h k e = elim (shorter n) [ ]
  verify_from_unique i p q (x ∷ xs) [] f n h k e = elim (shorter (sym n)) [ ]
  verify_from_unique i p q (x ∷ xs) (y ∷ ys) (f, fs) n h k e =
      let (hx, hxs) = verify_from_sound i p x xs h in
      let (ky, kys) = verify_from_sound i q y ys k in
      let (same, rest) =
        verify_from_unique (i + 1) x.digest y.digest xs ys fs (omega (arith, n)) hxs kys e in
      let (dx, px) = verify_event_sound i p x hx in
      let (dy, qy) = verify_event_sound i q y ky in
      let c = f y.digest (subst (λ d. hash (content x) ≡ ok d) same dx) dy in
      (sym px ∙ ap (λ (z : EventContent). z.previous_digest) c ∙ qy, cons_path c rest)

  -- If the digest does not collide on the contents that stand in the same place of the two, then two
  -- journals that pass `Verify`, have as many events and end in the same digest have the same content
  -- in every event: the last digest of a journal leaves nothing in it open but the times.
  pub verify_unique :
      (xs ys : List Event)
      → NoCollision xs ys
      → length xs ≡ length ys
      → verify hash xs ≡ ok tt
      → verify hash ys ≡ ok tt
      → last_digest "" xs ≡ last_digest "" ys
      → map content xs ≡ map content ys
  unfolding verify
  verify_unique xs ys f n h k e = (verify_from_unique 0 "" "" xs ys f n h k e).1
