-- ===== src/Prelude/Triples.antt =====
-- Pre- and postconditions of methods: from `P`, the method ends in `Q` with its result, or fails
-- in `E`. One rule for each way to build a method.
use Prim.Native.Nat.{ℕ}
use mathlib.Core.Path.{◌≡◌, refl, subst, sym}
use mathlib.Core.Bool.{false≢true, Bool, true, false}
use mathlib.Core.Option.{Option, none, some}
use native.Mathlib.Omega.{arith}
use engineering_platform.Prelude.Tests.{if◌then◌else◌}
use engineering_platform.Prelude.Methods.{
  Context, Error, Exec, Result, Sentinel, absent, continue, ctx_err, err, fail_if, find, is_ok,
  is_some, lift, ok, or_error, pure, raise, ◌>>=◌,
}

abbrev pub Post : {S A : Type 0} → (A → S → Type 0) → (Error → S → Type 0) → Result A → S → Type 0
Post Q E (ok a) s = Q a s
Post Q E (err e) s = E e s

pub record Triple {S A : Type 0} (P : S → Type 0) (m : Exec S A) (Q : A → S → Type 0)
    (E : Error → S → Type 0) : Type 0 where
  pub at : (s : S) → P s → Post Q E (m s).0 (m s).1

module _ {S A B : Type 0} (Q : A → S → Type 0) (R : B → S → Type 0) (E : Error → S → Type 0) where
  bind-Post :
      (f : A → Exec S B)
      → ((a : A) → Triple (Q a) (f a) R E)
      → (r : Result A) (s : S) → Post Q E r s
      → Post R E (continue r f s).0 (continue r f s).1
  bind-Post f k (ok a) s h = (k a).at s h
  bind-Post f k (err e) s h = h

module _ {S A B : Type 0} {P : S → Type 0} {Q : A → S → Type 0} {R : B → S → Type 0}
    {E : Error → S → Type 0} where
  pub Triple-bind :
      {m : Exec S A} {f : A → Exec S B}
      → Triple P m Q E
      → ((a : A) → Triple (Q a) (f a) R E)
      → Triple P (m >>= f) R E
  unfolding ◌>>=◌
  Triple-bind {m} {f} t k = record { at = λ s h. bind-Post Q R E f k (m s).0 (m s).1 (t.at s h) }

module _ {S A : Type 0} (P : S → Type 0) (E : Error → S → Type 0) where
  both-Post : (r : Result A) (s : S) → P s → ((e : Error) → E e s) → Post (λ _. P) E r s
  both-Post (ok a) s h k = h
  both-Post (err e) s h k = k e

module _ {S A : Type 0} (E : S → Type 0) where
  -- What holds of the final state, whether the method failed or not.
  after-Post : (r : Result A) (s : S) → Post (λ _. E) (λ _. E) r s → E s
  after-Post (ok a) s h = h
  after-Post (err e) s h = h

module _ {S A : Type 0} {P : S → Type 0} {E : Error → S → Type 0} where
  -- A method that leaves the state as it is keeps what holds of it.
  pub Triple-still :
      {m : Exec S A}
      → ((s : S) → (m s).1 ≡ s)
      → ((e : Error) (s : S) → P s → E e s)
      → Triple P m (λ _. P) E
  Triple-still {m} still weaken = record {
    at = λ s h.
        let h' = subst P (sym (still s)) h in
        both-Post P E (m s).0 (m s).1 h' (λ e. weaken e (m s).1 h');
  }

  pub Triple-keep :
      {m : Exec S A}
      → ((s : S) → P s → P (m s).1)
      → ((e : Error) (s : S) → P s → E e s)
      → Triple P m (λ _. P) E
  Triple-keep {m} keep weaken = record {
    at = λ s h. both-Post P E (m s).0 (m s).1 (keep s h) (λ e. weaken e (m s).1 (keep s h));
  }

  pub Triple-if :
      {Q : A → S → Type 0} (b : Bool) {m n : Exec S A}
      → Triple P m Q E
      → Triple P n Q E
      → Triple P (if b then m else n) Q E
  Triple-if true t u = t
  Triple-if false t u = u

  pub Triple-pure : {Q : A → S → Type 0} (a : A) → ((s : S) → P s → Q a s) → Triple P (pure a) Q E
  Triple-pure a h = record { at = h }

  pub Triple-raise :
      {Q : A → S → Type 0} (e : Error) → ((s : S) → P s → E e s) → Triple P (raise e) Q E
  Triple-raise e h = record { at = h }

module _ {S A : Type 0} {P E : S → Type 0} where
  -- The end of a method: what it establishes whether it fails or not.
  pub Triple-end : {m : Exec S A} → ((s : S) → P s → E (m s).1) → Triple P m (λ _. E) (λ _. E)
  Triple-end {m} h = record {
    at = λ s p. both-Post E (λ _. E) (m s).0 (m s).1 (h s p) (λ _. h s p);
  }

  pub Triple_after : {m : Exec S A} → Triple P m (λ _. E) (λ _. E) → (s : S) → P s → E (m s).1
  Triple_after {m} t s h = after-Post E (m s).0 (m s).1 (t.at s h)

module _ {S : Type 0} where
  pub still-ctx_err : (ctx : Context) (n : ℕ) (s : S) → (ctx_err ctx n s).1 ≡ s
  still-ctx_err ctx n s = ground arith

  pub still-fail_if : (b : Bool) (e : Sentinel) (s : S) → (fail_if b e s).1 ≡ s
  still-fail_if true e s = refl
  still-fail_if false e s = refl

  pub still-absent : {A : Type 0} (f : S → Option A) (e : Sentinel) (s : S) → (absent f e s).1 ≡ s
  still-absent f e s = still-fail_if (is_some (f s)) e s

  still-or_error : {A : Type 0} (o : Option A) (e : Sentinel) (s : S) → (or_error o e s).1 ≡ s
  still-or_error none e s = refl
  still-or_error (some a) e s = refl

  pub still-find : {A : Type 0} (f : S → Option A) (e : Sentinel) (s : S) → (find f e s).1 ≡ s
  still-find f e s = still-or_error (f s) e s

  pub still-lift : {A : Type 0} (r : Result A) (s : S) → (lift r s).1 ≡ s
  still-lift r s = refl

module _ {S A : Type 0} {P : S → Type 0} {E : Error → S → Type 0} where
  -- A method that does not fail asks nothing of its end.
  pub Triple-total : {m : Exec S A} → ((s : S) → is_ok (m s).0 ≡ true) → Triple P m (λ _ _. Unit) E
  Triple-total {m} total = record { at = λ s h. done-Post (m s).0 (m s).1 (total s) }
    where
      done-Post : (r : Result A) (s : S) → is_ok r ≡ true → Post (λ _ _. Unit) E r s
      done-Post (ok a) s h = tt
      done-Post (err e) s h = absurd (false≢true h)

module _ {S A : Type 0} (R : S → Type 0) where
  failed-Post : (r : Result A) (s : S) → Post (λ _ _. Unit {0}) (λ _. R) r s → is_ok r ≡ false → R s
  failed-Post (ok a) s h e = absurd (false≢true (sym e))
  failed-Post (err x) s h e = h

module _ {S A : Type 0} {P R : S → Type 0} where
  -- What holds after a method that failed.
  pub Triple_failed :
      {m : Exec S A}
      → Triple P m (λ _ _. Unit) (λ _. R)
      → (s : S) → P s
      → is_ok (m s).0 ≡ false
      → R (m s).1
  Triple_failed {m} t s h e = failed-Post R (m s).0 (m s).1 (t.at s h) e
