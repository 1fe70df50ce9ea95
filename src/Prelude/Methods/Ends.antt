-- ===== src/Prelude/Methods/Ends.antt =====
-- What a method that starts in a state of one kind ends in, by whether it succeeds or fails.
use mathlib.Core.Path.{subst}
use nabu_charger.Prelude.{◌≡◌, refl, sym, Bool, true, false, Result, ok, err}
use nabu_charger.Prelude.Methods.{
  Method, pure, throw, gets, branch, handled, rescue, modify, next, ◌>>=◌,
}
use nabu_charger.Prelude.Methods.Keeps.{Keeps}

abbrev pub Done : {S E A : Type 0} → (A → S → Type 0) → (E → S → Type 0) → Result A E × S → Type 0
Done Q X (ok a, s) = Q a s
Done Q X (err e, s) = X e s

pub record Ends {S E A : Type 0} (P : S → Type 0) (m : Method S E A) (Q : A → S → Type 0)
    (X : E → S → Type 0) : Type 0 where
  pub ends : (s : S) → P s → Done Q X (m s)

module _ {S E A C : Type 0} {Q : C → S → Type 0} {X : E → S → Type 0} where
  next-Done :
      (M : A → S → Type 0) (f : A → Method S E C)
      → ((a : A) → Ends (M a) (f a) Q X)
      → (o : Result A E × S) → Done M X o
      → Done Q X (next f o)
  next-Done M f h (ok a, s) d = (h a).ends s d
  next-Done M f h (err e, s) d = d

module _ {S E A : Type 0} {Q : A → S → Type 0} {X : E → S → Type 0} where
  handled-Done :
      (M : E → S → Type 0) (f : E → Method S E A)
      → ((e : E) → Ends (M e) (f e) Q X)
      → (o : Result A E × S) → Done Q M o
      → Done Q X (handled f o)
  handled-Done M f h (ok a, s) d = d
  handled-Done M f h (err e, s) d = (h e).ends s d

kept-Done :
    {S E A : Type 0} (P : S → Type 0) (Q : A → S → Type 0) (X : E → S → Type 0) (o : Result A E × S)
    → ((a : A) → P o.1 → Q a o.1)
    → ((e : E) → P o.1 → X e o.1)
    → P o.1
    → Done Q X o
kept-Done P Q X (ok a, s) f g p = f a p
kept-Done P Q X (err e, s) f g p = g e p

module _ {S E A C : Type 0} {P : S → Type 0} {Q : C → S → Type 0} {X : E → S → Type 0} where
  -- A chain, with what holds between its parts.
  pub bind-Ends :
      (M : A → S → Type 0) (m : Method S E A) (f : A → Method S E C)
      → Ends P m M X
      → ((a : A) → Ends (M a) (f a) Q X)
      → Ends P (m >>= f) Q X
  unfolding ◌>>=◌
  bind-Ends M m f k h = record { ends = λ s p. next-Done M f h (m s) (k.ends s p) }

module _ {S E A : Type 0} {P : S → Type 0} {Q : A → S → Type 0} {X : E → S → Type 0} where
  pub rescue-Ends :
      (M : E → S → Type 0) (m : Method S E A) (f : E → Method S E A)
      → Ends P m Q M
      → ((e : E) → Ends (M e) (f e) Q X)
      → Ends P (rescue m f) Q X
  unfolding rescue
  rescue-Ends M m f k h = record { ends = λ s p. handled-Done M f h (m s) (k.ends s p) }

  pub branch-Ends :
      (b : Bool) (m k : Method S E A)
      → (b ≡ true → Ends P m Q X)
      → (b ≡ false → Ends P k Q X)
      → Ends P (branch b m k) Q X
  unfolding branch
  branch-Ends true m k g h = g refl
  branch-Ends false m k g h = h refl

  pub pure-Ends : (a : A) → ((s : S) → P s → Q a s) → Ends P (pure a) Q X
  pure-Ends a h = record { ends = h }

  pub throw-Ends : (e : E) → ((s : S) → P s → X e s) → Ends P (throw e) Q X
  throw-Ends e h = record { ends = h }

  pub gets-Ends : (f : S → A) → ((s : S) → P s → Q (f s) s) → Ends P (gets f) Q X
  gets-Ends f h = record { ends = h }

  -- A method that keeps a property ends in it either way.
  pub kept-Ends :
      (m : Method S E A)
      → Keeps P m
      → ((a : A) (s : S) → P s → Q a s)
      → ((e : E) (s : S) → P s → X e s)
      → Ends P m Q X
  kept-Ends m k f g = record {
    ends = λ s p. kept-Done P Q X (m s) (λ a. f a (m s).1) (λ e. g e (m s).1) (k.keeps s p);
  }

pub modify-Ends :
    {S E : Type 0} {P : S → Type 0} {Q : Unit {0} → S → Type 0} {X : E → S → Type 0} (f : S → S)
    → ((s : S) → P s → Q tt (f s))
    → Ends P (modify f) Q X
modify-Ends f h = record { ends = h }

weakened :
    {S E A : Type 0} (Q R : A → S → Type 0) (X Y : E → S → Type 0) (o : Result A E × S)
    → ((a : A) (s : S) → Q a s → R a s)
    → ((e : E) (s : S) → X e s → Y e s)
    → Done Q X o
    → Done R Y o
weakened Q R X Y (ok a, s) f g d = f a s d
weakened Q R X Y (err e, s) f g d = g e s d

module _ {S E A : Type 0} {P : S → Type 0} {Q R : A → S → Type 0} {X Y : E → S → Type 0} where
  pub weaken-Ends :
      {m : Method S E A}
      → ((a : A) (s : S) → Q a s → R a s)
      → ((e : E) (s : S) → X e s → Y e s)
      → Ends P m Q X
      → Ends P m R Y
  weaken-Ends {m} f g k = record { ends = λ s p. weakened Q R X Y (m s) f g (k.ends s p) }

module _ {S E A C : Type 0} {P : S → Type 0} {Q : C → S → Type 0} {X : E → S → Type 0} where
  -- A part of the state that the starting condition determines.
  pub known-Ends :
      (f : S → A) (a : A) (k : A → Method S E C)
      → ((s : S) → P s → f s ≡ a)
      → Ends P (k a) Q X
      → Ends P (gets f >>= k) Q X
  unfolding ◌>>=◌
  known-Ends f a k e h = record {
    ends = λ s p. subst (λ b. Done Q X (k b s)) (sym (e s p)) (h.ends s p);
  }

-- An equation that holds at the start.
pub given-Ends :
    {S E A : Type 0} {P : S → Type 0} {m : Method S E A} {Q : A → S → Type 0} {X : E → S → Type 0}
    (F : Type 0)
    → (F → Ends P m Q X)
    → Ends (λ s. P s × F) m Q X
given-Ends F h = record { ends = λ s p. (h p.1).ends s p.0 }
