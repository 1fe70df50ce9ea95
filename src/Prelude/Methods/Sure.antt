-- ===== src/Prelude/Methods/Sure.antt =====
-- Methods that never fail and keep a property of the state.
use nabu_charger.Prelude.{Bool, Result, ok, err}
use nabu_charger.Prelude.Methods.{Method, pure, gets, attempt, branch, rescue, ◌>>=◌}
use nabu_charger.Prelude.Methods.Keeps.{Keeps}
use nabu_charger.Prelude.Methods.Ends.{
  Done, Ends, bind-Ends, branch-Ends, rescue-Ends, kept-Ends, weaken-Ends,
}

done_keeps :
    {S E A : Type 0} (P : S → Type 0) (o : Result A E × S) → Done (λ a. P) (λ e s. ⊥) o → P o.1
done_keeps P (ok a, s) d = d
done_keeps P (err e, s) d = elim d [ ]

pub record Sure {S E A : Type 0} (P : S → Type 0) (m : Method S E A) : Type 0 where
  pub sure : Ends P m (λ a. P) (λ e s. ⊥)

module _ {S E A C : Type 0} {P : S → Type 0} where
  pub bind-Sure :
      (m : Method S E A) (f : A → Method S E C)
      → Sure P m
      → ((a : A) → Sure P (f a))
      → Sure P (m >>= f)
  bind-Sure m f k h = record { sure = bind-Ends (λ a. P) m f k.sure (λ a. (h a).sure) }

module _ {S E A : Type 0} {P : S → Type 0} where
  pub branch-Sure : (b : Bool) (m k : Method S E A) → Sure P m → Sure P k → Sure P (branch b m k)
  branch-Sure b m k g h = record { sure = branch-Ends b m k (λ e. g.sure) (λ e. h.sure) }

  pub pure-Sure : (a : A) → Sure {E = E} P (pure a)
  pure-Sure a = record { sure = record { ends = λ s p. p } }

  pub gets-Sure : (f : S → A) → Sure {E = E} P (gets f)
  gets-Sure f = record { sure = record { ends = λ s p. p } }

  pub rescue-Sure :
      (m : Method S E A) (f : E → Method S E A)
      → Keeps P m
      → ((e : E) → Sure P (f e))
      → Sure P (rescue m f)
  rescue-Sure m f k h = record {
    sure = rescue-Ends (λ e. P) m f (kept-Ends m k (λ a s p. p) (λ e s p. p)) (λ e. (h e).sure);
  }

  pub attempt-Sure : (m : Method S E A) → Keeps P m → Sure {A = Result A E} P (attempt m)
  attempt-Sure m k = record { sure = record { ends = k.keeps } }

  pub Sure-Keeps : (m : Method S E A) → Sure P m → Keeps P m
  Sure-Keeps m k = record { keeps = λ s p. done_keeps P (m s) (k.sure.ends s p) }

  -- A method that never fails, in a chain whose failures end in anything.
  pub sure-Ends : {X : E → S → Type 0} {m : Method S E A} → Sure P m → Ends P m (λ a. P) X
  sure-Ends k = weaken-Ends (λ a s p. p) (λ e s d. elim d [ ]) k.sure

pub ruleset sure_rules = (bind-Sure, branch-Sure, pure-Sure, gets-Sure, rescue-Sure, attempt-Sure)
