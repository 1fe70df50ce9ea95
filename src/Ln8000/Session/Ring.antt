-- ===== src/Ln8000/Session/Ring.antt =====
-- The two rings refine the list of what was pushed: the newest values up to the size, in order.
pub mod Reads
use mathlib.Core.List.{
  map, reverse, reverse-cons, tail, append_assoc, append-nil, reverse-append, map-append,
}
use nabu_charger.Prelude.{
  ℕ, zero, suc, ◌+◌, ◌-◌, ◌%◌, ◌≤◌, ◌<◌, ◌≡◌, ◌⊎◌, inl, inr, refl, sym, ap, ◌∙◌, Bool, true, false,
  Option, none, some, List, [], ◌∷◌, ◌++◌, length, get_elem?, set, take, drop, replicate, arith,
  min,
}
use nabu_charger.Ln8000.Session.{store, slot, last_slot, cons_some, joined, for_each_from, advance}

room_or_last : (n m : ℕ) → n ≤ m → (n < m) ⊎ (n ≡ m)
room_or_last n m h = omega arith

room_or_full : (n m : ℕ) → (suc n ≤ m) ⊎ (m ≤ n)
room_or_full n m = omega arith

wraps : (n m : ℕ) → n ≡ m → 0 < m → n % m ≡ 0
wraps n m e h = grind arith

stays : (n m : ℕ) → n < m → n % m ≡ n
stays n m h = grind arith

module _ {A : Type 0} where
  drop-cons :
      (xs : List A) (n : ℕ) (ys : List A)
      → n < length xs
      → tail (drop n xs ++ ys) ≡ drop (suc n) xs ++ ys
  drop-cons [] n ys h = elim h [ ]
  drop-cons (x ∷ xs) zero ys h = refl
  drop-cons (x ∷ xs) (suc n) ys h = drop-cons xs n ys (omega arith)

  take-set :
      (xs : List A) (n : ℕ) (v : A)
      → n < length xs
      → take (suc n) (set xs n v) ≡ take n xs ++ v ∷ []
  take-set [] n v h = elim h [ ]
  take-set (x ∷ xs) zero v h = refl
  take-set (x ∷ xs) (suc n) v h = ap (λ l. x ∷ l) (take-set xs n v (omega arith))

  drop-set : (xs : List A) (n : ℕ) (v : A) → drop (suc n) (set xs n v) ≡ drop (suc n) xs
  drop-set [] n v = refl
  drop-set (x ∷ xs) zero v = refl
  drop-set (x ∷ xs) (suc n) v = drop-set xs n v

  drop-all : (xs : List A) (n : ℕ) → length xs ≤ n → drop n xs ≡ []
  drop-all [] zero h = refl
  drop-all [] (suc n) h = refl
  drop-all (x ∷ xs) zero h = elim h [ ]
  drop-all (x ∷ xs) (suc n) h = drop-all xs n (omega arith)

  take-all : (xs : List A) (n : ℕ) → length xs ≤ n → take n xs ≡ xs
  take-all [] zero h = refl
  take-all [] (suc n) h = refl
  take-all (x ∷ xs) zero h = elim h [ ]
  take-all (x ∷ xs) (suc n) h = ap (λ l. x ∷ l) (take-all xs n (omega arith))

  pub length-set : (xs : List A) (i : ℕ) (v : A) → length (set xs i v) ≡ length xs
  length-set [] i v = refl
  length-set (x ∷ xs) zero v = refl
  length-set (x ∷ xs) (suc i) v = ap suc (length-set xs i v)

  take-snoc :
      (xs : List A) (n : ℕ) → n < length xs → (x : A) × (take (suc n) xs ≡ take n xs ++ x ∷ [])
  take-snoc [] n h = elim h [ ]
  take-snoc (x ∷ xs) zero h = (x, refl)
  take-snoc (x ∷ xs) (suc n) h = let (y, e) = take-snoc xs n (omega arith) in (y, ap (λ l. x ∷ l) e)

  -- The slots from the cursor round to the one before it: the oldest first.
  abbrev pub rotated : ℕ → List A → List A
  rotated n xs = drop n xs ++ take n xs

module _ {A : Type 0} where
  -- A write at the cursor drops the oldest slot and appends the new one.
  pub rotated-store :
      (slots : List (Option A)) (next : ℕ) (a : A)
      → next < length slots
      → rotated (advance (length slots) next) (store slots next a)
        ≡ tail (rotated next slots) ++ some a ∷ []
  unfolding store advance
  rotated-store slots next a h = elim (room_or_last (next + 1) (length slots) (omega arith)) [
    | inl room ↦
        let e : (next + 1) % length slots ≡ suc next =
          stays (next + 1) (length slots) room ∙ omega arith in
        rw
          (
            e,
            drop-set slots next (some a),
            take-set slots next (some a) h,
            drop-cons slots next (take next slots) h,
          )
          (sym (append_assoc (drop (suc next) slots) (take next slots) (some a ∷ [])))
    | inr full ↦
        let e : (next + 1) % length slots ≡ 0 =
          wraps (next + 1) (length slots) full (omega arith) in
        let whole : take (suc next) (set slots next (some a)) ≡ set slots next (some a) =
          take-all (set slots next (some a)) (suc next)
            (omega (arith, length-set slots next (some a))) in
        rw
          (
            e,
            append-nil,
            drop-cons slots next (take next slots) h,
            drop-all slots (suc next) (omega arith),
            ← whole,
          )
          (take-set slots next (some a) h)
  ]

  -- The filled slots.
  abbrev pub compact : List (Option A) → List A
  compact [] = []
  compact (o ∷ l) = cons_some o (compact l)

  compact-append : (l m : List (Option A)) → compact (l ++ m) ≡ compact l ++ compact m
  compact-append [] m = refl
  compact-append (none ∷ l) m = compact-append l m
  compact-append (some a ∷ l) m = ap (λ k. a ∷ k) (compact-append l m)

  -- What a ring of `size` slots shows after a history of pushes, the newest first.
  abbrev pub slid : ℕ → List A → List (Option A)
  slid size [] = replicate size none
  slid size (a ∷ h) = tail (slid size h) ++ some a ∷ []

  -- The newest values, the oldest of them first.
  abbrev pub recent : ℕ → List A → List A
  recent size h = reverse (take size h)

  compact-replicate : (n : ℕ) → compact (replicate n none) ≡ []
  compact-replicate zero = refl
  compact-replicate (suc n) = compact-replicate n

  compact-map : (l : List A) → compact (map some l) ≡ l
  compact-map [] = refl
  compact-map (a ∷ l) = ap (λ k. a ∷ k) (compact-map l)

  padded : ℕ → List A → List (Option A)
  padded size h = replicate (size - length h) none ++ map some (recent size h)

  -- With room left a push takes one empty slot, otherwise the oldest value.
  padded_room :
      (k size : ℕ) (a : A) (h : List A)
      → size - length h ≡ suc k
      → tail (padded size h) ++ some a ∷ [] ≡ padded size (a ∷ h)
  unfolding padded
  padded_room k size a h e =
      let less : size - suc (length h) ≡ k = omega arith in
      rw
        (
          e,
          less,
          take-all h size (omega arith),
          take-all (a ∷ h) size (omega arith),
          reverse-cons,
          map-append some (reverse h) (a ∷ []),
        )
        (append_assoc (replicate k none) (map some (reverse h)) (some a ∷ []))

  padded_full :
      (m : ℕ) (a : A) (h : List A)
      → suc m ≤ length h
      → tail (padded (suc m) h) ++ some a ∷ [] ≡ padded (suc m) (a ∷ h)
  unfolding padded
  padded_full m a h le =
      let none_left : suc m - length h ≡ 0 = omega arith in
      let none_after : suc m - suc (length h) ≡ 0 = omega arith in
      let (x, e) = take-snoc h m le in
      rw (
        none_left,
        none_after,
        e,
        reverse-append (take m h) (x ∷ []),
        reverse-cons a (take m h),
        map-append some (reverse (take m h)) (a ∷ []),
      )

  slid-padded : (size : ℕ) (h : List A) → 0 < size → slid size h ≡ padded size h
  unfolding padded
  slid-padded zero h pos = elim pos [ ]
  slid-padded (suc n) [] pos = let e : suc n - 0 ≡ suc n = omega arith in rw (e, append-nil)
  slid-padded (suc n) (a ∷ h) pos =
      let step = ap (λ l. tail l ++ some a ∷ []) (slid-padded (suc n) h pos) in
      elim (room_or_full (length h) (suc n)) [
        | inl room ↦ step ∙ padded_room (suc n - suc (length h)) (suc n) a h (omega arith)
        | inr full ↦ step ∙ padded_full n a h full
      ]

  -- Of the slots that a history leaves, the filled ones are the newest values in order.
  pub compact-slid : (size : ℕ) (h : List A) → 0 < size → compact (slid size h) ≡ recent size h
  unfolding padded
  compact-slid size h pos =
      rw
        (
          slid-padded size h pos,
          compact-append (replicate (size - length h) none) (map some (recent size h)),
          compact-replicate (size - length h),
        )
        (compact-map (recent size h))
