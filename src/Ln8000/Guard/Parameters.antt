-- ===== src/Ln8000/Guard/Parameters.antt =====
-- Setting thresholds from the registry keeps the set consistent.
use Prim.Native.String.{String}
use nabu_charger.Prelude.{
  refl, Option-cases, inl, inr, ℕ, ◌≡◌, ◌⊎◌, true, false, Option, none, some, arith,
}
use nabu_charger.Ln8000.Guard.{
  GuardLimits, if_consistent, is_consistent, replaced, apply_parameter, apply_parameter_lenient,
}

replaced-profile :
    (l : GuardLimits) (name : String) (value : ℕ) (l' : GuardLimits)
    → replaced l name value ≡ some l'
    → l'.iin_profile_ua ≡ l.iin_profile_ua
unfolding replaced
replaced-profile l name value l' e = ground arith

if_consistent-atomic :
    (l : GuardLimits) (o : Option GuardLimits)
    → ((l' : GuardLimits) → o ≡ some l' → l'.iin_profile_ua ≡ l.iin_profile_ua)
    → let (l', accepted) = if_consistent l o in
      (((accepted ≡ false) × (l' ≡ l)) ⊎ ((accepted ≡ true) × (is_consistent l' ≡ true)))
      × (l'.iin_profile_ua ≡ l.iin_profile_ua)
if_consistent-atomic l none keeps = ground arith
if_consistent-atomic l (some candidate) keeps = ground (arith, keeps candidate refl)

-- A rejected parameter leaves every threshold as it was, an accepted one leaves a consistent set,
-- and neither touches the profile limit.
pub apply_parameter-atomic :
    (l : GuardLimits) (name : String) (value : ℕ)
    → let (l', accepted) = apply_parameter l name value in
      (((accepted ≡ false) × (l' ≡ l)) ⊎ ((accepted ≡ true) × (is_consistent l' ≡ true)))
      × (l'.iin_profile_ua ≡ l.iin_profile_ua)
unfolding apply_parameter
apply_parameter-atomic l name value =
    if_consistent-atomic l (replaced l name value) (replaced-profile l name value)

-- The lenient setter accepts exactly the names and ranges of the strict one, and leaves the set as
-- it was when it refuses: whatever the strict setter makes of a value, the lenient one makes too,
-- and what the lenient one makes is accepted by the strict one exactly when it is consistent.
pub lenient-strict :
    (l : GuardLimits) (name : String) (value : ℕ)
    → let (l', accepted) = apply_parameter_lenient l name value in
      ((accepted ≡ false) × (l' ≡ l) × (apply_parameter l name value ≡ (l, false)))
      ⊎ (((accepted ≡ true)
            × (is_consistent l' ≡ true)
            × (apply_parameter l name value ≡ (l', true)))
          ⊎ ((accepted ≡ true)
              × (is_consistent l' ≡ false)
              × (apply_parameter l name value ≡ (l, false))))
unfolding apply_parameter apply_parameter_lenient
lenient-strict l name value = elim (Option-cases (replaced l name value)) [
  | inl e ↦ rw e (ground arith)
  | inr (l', e) ↦ rw e (ground arith)
]
