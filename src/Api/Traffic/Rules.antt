-- ===== src/Api/Traffic/Rules.antt =====
-- Rules for the handlers: what they write, between what others write.
use mathlib.Core.Path.{subst}
use engineering_platform.Prelude.{
  Bool, Context, Error, Exec, Option, Result, Sentinel, String, arith, continue, ctx_err, err,
  fail_if, false, later, lift, none, ok, pure, raise, refl, some, sym, true, ℕ, ◌>>=◌, ◌≡◌,
}
use engineering_platform.Digests.{Hashing}
use engineering_platform.Store.{Memory}
use engineering_platform.Store.Commands.{Reachable}
use engineering_platform.Api.{Net, answer, call, compute, refuse_if}
use engineering_platform.Api.Runs.{with_tag}
use engineering_platform.Api.Traffic.{Between, Between-Reachable, Between-trans, here}

-- A condition on stores that requests do not undo.
pub record Stable (h : Hashing) (P : Memory → Type 0) : Type 0 where
  pub onward : {m s : Memory} → Between h m s → P m → P s

-- From a store that the methods have led to and that satisfies `P`, the handler leads to one that
-- lies ahead.
pub record Keeps {A : Type 0} (h : Hashing) (P : Memory → Type 0) (f : Exec Memory A) : Type 0 where
  pub at : (m : Memory) → Reachable h m → P m → Between h m (f m).1

-- A method of the store that reads.
pub record Reads {A : Type 0} (f : Context → Exec Memory A) (F : A → Memory → Type 0) : Type 0 where
  pub still : (ctx : Context) (m : Memory) → (f ctx m).1 ≡ m
  pub learn : (ctx : Context) (m : Memory) (a : A) → (f ctx m).0 ≡ ok a → F a m

-- A method of the store that may be called where `P` holds.
pub record Writes {A : Type 0} (h : Hashing) (P : Memory → Type 0) (f : Context → Exec Memory A)
    : Type 0 where
  pub write : (ctx : Context) (m : Memory) → P m → Between h m (f ctx m).1

module _ {h : Hashing} {P : Memory → Type 0} where
  pub Keeps-still : {A : Type 0} {f : Exec Memory A} → ((m : Memory) → (f m).1 ≡ m) → Keeps h P f
  Keeps-still {f} still = record { at = λ m r p. subst (Between h m) (sym (still m)) here }

  pub Keeps-refuse_if : (b : Bool) (n : ℕ) (text : String) → Keeps h P (refuse_if b n text)
  unfolding refuse_if
  Keeps-refuse_if true n text = record { at = λ m r p. here }
  Keeps-refuse_if false n text = record { at = λ m r p. here }

  pub Keeps-fail_if : (b : Bool) (e : Sentinel) → Keeps h P (fail_if b e)
  Keeps-fail_if true e = record { at = λ m r p. here }
  Keeps-fail_if false e = record { at = λ m r p. here }

  pub Keeps-answer : {A : Type 0} (n : ℕ) (a : A) → Keeps h P (answer n a)
  unfolding answer
  Keeps-answer n a = record { at = λ m r p. here }

  pub Keeps-pure : {A : Type 0} (a : A) → Keeps h P (pure a)
  Keeps-pure a = record { at = λ m r p. here }

  pub Keeps-lift : {A : Type 0} (r : Result A) → Keeps h P (lift r)
  Keeps-lift r = record { at = λ m _ p. here }

  pub Keeps-compute : {A : Type 0} (tag : Error → Error) (r : Result A) → Keeps h P (compute tag r)
  unfolding compute
  Keeps-compute tag (ok a) = record { at = λ m r p. here }
  Keeps-compute tag (err e) = record { at = λ m r p. here }

module _ {h : Hashing} {A B : Type 0} (g : A → Exec Memory B) where
  pub continued :
      {m : Memory} (r : Result A) (s : Memory)
      → Between h m s
      → ((a : A) → r ≡ ok a → Between h s (g a s).1)
      → Between h m (continue r g s).1
  continued (ok a) s b k = Between-trans b (k a refl)
  continued (err e) s b k = b

  pub Keeps-bind :
      {P : Memory → Type 0} {f : Exec Memory A}
      → Stable h P
      → Keeps h P f
      → ((a : A) → Keeps h P (g a))
      → Keeps h P (f >>= g)
  unfolding ◌>>=◌
  Keeps-bind {P} {f} stable k l = record {
    at = λ m r p.
        let b = k.at m r p in
        continued (f m).0 (f m).1 b
          λ a _. (l a).at (f m).1 (Between-Reachable r b) (stable.onward b p);
  }

  -- The rest of the handler may use that a value was computed.
  pub Keeps-computed :
      {P : Memory → Type 0} (tag : Error → Error) (r : Result A)
      → ((a : A) → r ≡ ok a → Keeps h P (g a))
      → Keeps h P (compute tag r >>= g)
  unfolding compute ◌>>=◌
  Keeps-computed tag (ok a) k = k a refl
  Keeps-computed tag (err e) k = record { at = λ m r p. here }

-- A call whose context is not canceled runs its method.
module _ {A : Type 0} (f : Exec Memory A) where
  unfoldable pub guarded : Option Error → Exec Memory A
  guarded none = f
  guarded (some e) = raise e

  pub guarded_lem : (ctx : Context) (m : Memory) → (ctx_err ctx 0 >>= λ _. f) m ≡ guarded (ctx 0) m
  unfolding guarded ◌>>=◌
  guarded_lem ctx m = ground arith

  guarded-Between :
      {h : Hashing} (o : Option Error) (m s : Memory)
      → Between h m s
      → Between h s (f s).1
      → Between h m (guarded o s).1
  unfolding guarded
  guarded-Between none m s b c = Between-trans b c
  guarded-Between (some e) m s b c = b

  pub guarded-learn :
      (o : Option Error) (s : Memory) (a : A) → (guarded o s).0 ≡ ok a → (f s).0 ≡ ok a
  unfolding guarded
  guarded-learn none s a q = q
  guarded-learn (some e) s a q = ground arith

module _ (h : Hashing) (net : Net)
    (rely : (n : ℕ) (m : Memory) → Reachable h m → Between h m (net.traffic n m)) where
  module _ {A : Type 0} (n : ℕ) (tag : Error → Error) (f : Context → Exec Memory A) where
    pub Keeps-call :
        {P : Memory → Type 0} → Stable h P → Writes h P f → Keeps h P (call net n tag f)
    unfolding call
    Keeps-call {P} stable w = record {
      at = λ m r p.
          let c = later 1 (net.context n) in
          let s = net.traffic n m in
          subst (λ (x : Result A × Memory). Between h m x.1)
            (sym (guarded_lem (f c) (net.context n) s))
            (guarded-Between (f c) (net.context n 0) m s (rely n m r)
              (w.write c s (stable.onward (rely n m r) p)));
    }

module _ {A : Type 0} {h : Hashing} {P : Memory → Type 0} {f : Context → Exec Memory A} where
  pub Writes-still : ((ctx : Context) (m : Memory) → (f ctx m).1 ≡ m) → Writes h P f
  Writes-still still = record { write = λ ctx m p. subst (Between h m) (sym (still ctx m)) here }

tagged-still :
    {A : Type 0} (tag : Error → Error) (r : Result A) (m : Memory) → (compute tag r m).1 ≡ m
unfolding compute
tagged-still tag (ok a) m = refl
tagged-still tag (err e) m = refl

module _ {A : Type 0} {h : Hashing} {P : Memory → Type 0} where
  pub Keeps-with_tag :
      (tag : Error → Error) (f : Exec Memory A) → Keeps h P f → Keeps h P (with_tag tag f)
  Keeps-with_tag tag f k = record {
    at = λ m r p. subst (Between h m) (sym (tagged-still tag (f m).0 (f m).1)) (k.at m r p);
  }

abbrev pub Anything : Memory → Type 0
Anything m = Unit

pub Anything-Stable : (h : Hashing) → Stable h Anything
Anything-Stable h = record { onward = λ b p. p }

pub ruleset handler_rules = (
  Keeps-refuse_if, Keeps-compute, Keeps-answer, Keeps-pure, Keeps-lift, Keeps-fail_if, Keeps-bind,
  Keeps-with_tag, Anything-Stable,
)
