-- ===== src/Ln8000/Session/Ring/Reads.antt =====
-- Reading a ring: the loop over its slots and the slot before the cursor.
use nabu_charger.Prelude.{
  ℕ, zero, suc, ◌+◌, ◌-◌, ◌%◌, ◌≤◌, ◌<◌, ◌≡◌, inl, inr, refl, ◌∙◌, Option, List, [], ◌∷◌, ◌++◌,
  length, get_elem?, take, drop, arith, min, length-append, ◌==◌, if◌then◌else◌,
}
use nabu_charger.Ln8000.Session.{last_slot, cons_some, joined, for_each_from}
use nabu_charger.Ln8000.Session.Ring.{rotated, compact, drop-all, room_or_full}

module _ {A : Type 0} where
  get-append_left : (l m : List A) (i : ℕ) → i < length l → get_elem? (l ++ m) i ≡ get_elem? l i
  get-append_left [] m i h = elim h [ ]
  get-append_left (x ∷ l) m zero h = refl
  get-append_left (x ∷ l) m (suc i) h = get-append_left l m i (omega arith)

  pub get-append_right :
      (l m : List A) (i : ℕ) → length l ≤ i → get_elem? (l ++ m) i ≡ get_elem? m (i - length l)
  get-append_right [] m i h = let e : i - 0 ≡ i = omega arith in rw e
  get-append_right (x ∷ l) m zero h = elim h [ ]
  get-append_right (x ∷ l) m (suc i) h =
      let e : suc i - suc (length l) ≡ i - length l = omega arith in
      rw e (get-append_right l m i (omega arith))

  get-drop : (xs : List A) (n i : ℕ) → get_elem? (drop n xs) i ≡ get_elem? xs (n + i)
  get-drop xs zero i = let e : 0 + i ≡ i = omega arith in rw e
  get-drop [] (suc n) i = refl
  get-drop (x ∷ xs) (suc n) i =
      let e : suc n + i ≡ suc (n + i) = omega arith in rw e (get-drop xs n i)

  get-take : (xs : List A) (n i : ℕ) → i < n → get_elem? (take n xs) i ≡ get_elem? xs i
  get-take xs zero i h = elim h [ ]
  get-take [] (suc n) i h = refl
  get-take (x ∷ xs) (suc n) zero h = refl
  get-take (x ∷ xs) (suc n) (suc i) h = get-take xs n i (omega arith)

  length-drop : (n : ℕ) (xs : List A) → length (drop n xs) ≡ length xs - n
  length-drop zero xs = omega arith
  length-drop (suc n) [] = omega arith
  length-drop (suc n) (x ∷ xs) = omega (arith, length-drop n xs)

  length-take : (n : ℕ) (xs : List A) → length (take n xs) ≡ min n (length xs)
  length-take zero xs = omega arith
  length-take (suc n) [] = omega arith
  length-take (suc n) (x ∷ xs) = omega (arith, length-take n xs)

wrapped_left : (n i m : ℕ) → n + i < m → (n + i) % m ≡ n + i
wrapped_left n i m h = grind arith

wrapped_right : (n i m : ℕ) → n < m → i < m → m ≤ n + i → (n + i) % m ≡ n + i - m
wrapped_right n i m a b h = grind arith

before :
    (size next : ℕ)
    → 0 < size
    → next < size
    → (next + (size - 1)) % size ≡ (if next == 0 then size - 1 else next - 1)
before size zero h lt = rw (wrapped_left 0 (size - 1) size (omega arith)) (ground arith)
before size (suc n) h lt =
    rw (wrapped_right (suc n) (size - 1) size lt (omega arith) (omega arith)) (ground arith)

module _ {A : Type 0} where
  pub length-rotated : (n : ℕ) (xs : List A) → n ≤ length xs → length (rotated n xs) ≡ length xs
  length-rotated n xs h =
      omega (arith, length-append {0} (drop n xs) (take n xs), length-drop n xs, length-take n xs)

  -- The rotated slots read from the cursor on, wrapping once.
  get-rotated :
      (xs : List A) (n i : ℕ)
      → n < length xs
      → i < length xs
      → get_elem? (rotated n xs) i ≡ get_elem? xs ((n + i) % length xs)
  get-rotated xs n i hn hi = elim (room_or_full (n + i) (length xs)) [
    | inl inside ↦ rw (wrapped_left n i (length xs) inside) (
        get-append_left (drop n xs) (take n xs) i (omega (arith, length-drop n xs))
        ∙ get-drop xs n i)
    | inr outside ↦
        let e : i - length (drop n xs) ≡ n + i - length xs = omega (arith, length-drop n xs) in
        rw (wrapped_right n i (length xs) hn hi outside) (
          get-append_right (drop n xs) (take n xs) i (omega (arith, length-drop n xs))
          ∙ rw e (get-take xs n (n + i - length xs) (omega arith)))
  ]

module _ {A : Type 0} where
  compact-drop :
      (l : List (Option A)) (i : ℕ)
      → i < length l
      → compact (drop i l) ≡ cons_some (joined (get_elem? l i)) (compact (drop (suc i) l))
  compact-drop [] i h = elim h [ ]
  compact-drop (o ∷ l) zero h = refl
  compact-drop (o ∷ l) (suc i) h = compact-drop l i (omega arith)

  -- The loop visits the filled slots, the oldest first.
  for_each-compact :
      (slots : List (Option A)) (next index rounds : ℕ)
      → next < length slots
      → index + rounds ≡ length slots
      → for_each_from (length slots) slots next index rounds
        ≡ compact (drop index (rotated next slots))
  unfolding for_each_from
  for_each-compact slots next index zero h e =
      rw (
        drop-all (rotated next slots) index
          (omega (arith, length-rotated next slots (omega arith))))
  for_each-compact slots next index (suc rounds) h e =
      let i : index + 1 ≡ suc index = omega arith in
      rw (
        compact-drop (rotated next slots) index
            (omega (arith, length-rotated next slots (omega arith))),
        get-rotated slots next index h (omega arith),
        i,
        for_each-compact slots next (suc index) rounds h (omega arith),
      )

  -- The slot before the cursor is the last one of the rotated ring.
  last_slot-rotated :
      (slots : List (Option A)) (next : ℕ)
      → next < length slots
      → last_slot (length slots) slots next
        ≡ joined (get_elem? (rotated next slots) (length slots - 1))
  unfolding last_slot
  last_slot-rotated slots next h = rw (
    get-rotated slots next (length slots - 1) h (omega arith),
    before (length slots) next (omega arith) h,
  )

  -- The whole loop over a ring of a known size.
  pub for_each-rotated :
      (size : ℕ) (slots : List (Option A)) (next : ℕ)
      → length slots ≡ size
      → next < size
      → for_each_from size slots next 0 size ≡ compact (rotated next slots)
  for_each-rotated size slots next e h =
      rw (← e) (for_each-compact slots next 0 (length slots) (omega arith) (omega arith))

  pub last_slot-newest :
      (size : ℕ) (slots : List (Option A)) (next : ℕ)
      → length slots ≡ size
      → next < size
      → last_slot size slots next ≡ joined (get_elem? (rotated next slots) (size - 1))
  last_slot-newest size slots next e h = rw (← e) (last_slot-rotated slots next (omega arith))
