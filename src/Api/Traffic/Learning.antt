-- ===== src/Api/Traffic/Learning.antt =====
-- Rules for handlers that use, when they write, what they have read before.
use mathlib.Core.Path.{subst}
use engineering_platform.Prelude.{
  Context, Error, Exec, Option, Result, ap, arith, continue, err, later, none, ok, pure, refl, some,
  sym, ℕ, ◌>>=◌, ◌≡◌,
}
use engineering_platform.Digests.{Hashing}
use engineering_platform.Store.{Memory}
use engineering_platform.Store.Commands.{Reachable}
use engineering_platform.Api.{Net, call, tagged}
use engineering_platform.Api.Traffic.{Between, Between-Reachable, here}
use engineering_platform.Api.Traffic.Rules.{
  Keeps, Keeps-call, Reads, Stable, Writes-still, continued, guarded, guarded_lem,
}

abbrev value_or : {A : Type 0} → A → Result A → A
value_or a (ok b) = b
value_or a (err e) = a

-- The method leads to a store that lies ahead, and its result says `G` of that store.
pub record Learns {A : Type 0} (h : Hashing) (P : Memory → Type 0) (f : Exec Memory A)
    (G : A → Memory → Type 0) : Type 0 where
  pub ahead : (m : Memory) → Reachable h m → P m → Between h m (f m).1
  pub told : (m : Memory) (a : A) → Reachable h m → P m → (f m).0 ≡ ok a → G a (f m).1

pub Stable-both :
    {h : Hashing} {P Q : Memory → Type 0} → Stable h P → Stable h Q → Stable h (λ m. P m × Q m)
Stable-both p q = record { onward = λ b (x, y). (p.onward b x, q.onward b y) }

continued-told :
    {A B : Type 0} (H : B → Memory → Type 0) (g : A → Exec Memory B) (r : Result A) (s : Memory)
    (b : B)
    → ((a : A) → r ≡ ok a → (g a s).0 ≡ ok b → H b (g a s).1)
    → (continue r g s).0 ≡ ok b
    → H b (continue r g s).1
continued-told H g (ok a) s b k e = k a refl e
continued-told H g (err x) s b k e = ground (arith, e)

module _ {h : Hashing} {P : Memory → Type 0} {A B : Type 0} {G : A → Memory → Type 0}
    {H : B → Memory → Type 0} (f : Exec Memory A) (g : A → Exec Memory B) where
  pub Learns-bind :
      Stable h P
      → Learns h P f G
      → ((a : A) → Learns h (λ m. P m × G a m) (g a) H)
      → Learns h P (f >>= g) H
  unfolding ◌>>=◌
  Learns-bind stable k l = record {
    ahead = λ m r p.
        let b = k.ahead m r p in
        continued g (f m).0 (f m).1 b
          λ a e. (l a).ahead (f m).1 (Between-Reachable r b) (stable.onward b p, k.told m a r p e);
    told = λ m a r p e.
        let b = k.ahead m r p in
        continued-told H g (f m).0 (f m).1 a
          (λ x q.
            (l x).told (f m).1 a (Between-Reachable r b) (stable.onward b p, k.told m x r p q))
          e;
  }

module _ {h : Hashing} {P : Memory → Type 0} {A : Type 0} where
  pub Learns-keeps : {f : Exec Memory A} → Keeps h P f → Learns h P f (λ _ _. Unit)
  Learns-keeps k = record { ahead = k.at; told = λ m a r p e. tt }

  pub Keeps-learns : {f : Exec Memory A} {G : A → Memory → Type 0} → Learns h P f G → Keeps h P f
  Keeps-learns l = record { at = l.ahead }

  pub Learns-pure :
      {G : A → Memory → Type 0} (a : A) → ((m : Memory) → P m → G a m) → Learns h P (pure a) G
  Learns-pure {G} a g = record {
    ahead = λ m r p. here;
    told = λ m b r p e. subst (λ x. G x m) (ap (value_or a) e) (g m p);
  }

untagged :
    {A : Type 0} (tag : Error → Error) (r : Result A) (a : A) → tagged tag r ≡ ok a → r ≡ ok a
untagged tag (ok b) a e = e
untagged tag (err x) a e = ground (arith, e)

guarded-told :
    {A : Type 0} (F : A → Memory → Type 0) (f : Context → Exec Memory A) (c : Context)
    (o : Option Error) (m : Memory) (a : A)
    → Reads f F
    → (guarded (f c) o m).0 ≡ ok a
    → F a (guarded (f c) o m).1
unfolding guarded
guarded-told F f c none m a reads e = subst (F a) (sym (reads.still c m)) (reads.learn c m a e)
guarded-told F f c (some x) m a reads e = ground (arith, e)

module _ (h : Hashing) (net : Net)
    (rely : (n : ℕ) (m : Memory) → Reachable h m → Between h m (net.traffic n m)) where
  module _ {A : Type 0} {P : Memory → Type 0} {F G : A → Memory → Type 0} (n : ℕ)
      (tag : Error → Error) (f : Context → Exec Memory A) where
    -- What a call has read in a store that the methods have led to.
    pub Learns-call :
        Stable h P
        → Reads f F
        → ((a : A) (m : Memory) → Reachable h m → F a m → G a m)
        → Learns h P (call net n tag f) G
    unfolding call
    Learns-call stable reads g = record {
      ahead = (Keeps-call h net rely n tag f stable (Writes-still reads.still)).at;
      told = λ m a r p e.
          let c = later 1 (net.context n) in
          let s = net.traffic n m in
          let q = guarded_lem (f c) (net.context n) s in
          let b = (Keeps-call h net rely n tag f stable (Writes-still reads.still)).at m r p in
          let e' = untagged tag _ a e in
          g a _ (Between-Reachable r b) (
            subst (λ (x : Result A × Memory). F a x.1) (sym q)
              (guarded-told F f c (net.context n 0) s a reads
                (subst (λ (x : Result A × Memory). x.0 ≡ ok a) q e')));
    }

module _ {h : Hashing} {P : Memory → Type 0} {A B : Type 0} {G : A → Memory → Type 0}
    (f : Exec Memory A) (g : A → Exec Memory B) where
  pub Keeps-learn :
      Stable h P
      → Learns h P f G
      → ((a : A) → Keeps h (λ m. P m × G a m) (g a))
      → Keeps h P (f >>= g)
  Keeps-learn stable l k = Keeps-learns (Learns-bind f g stable l λ a. Learns-keeps (k a))
