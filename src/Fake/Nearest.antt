-- ===== src/Fake/Nearest.antt =====
-- The answer to a GEORADIUS query, computed: the members within reach, sorted by distance, and cut.
use mygo_microservices.Prelude.{
  ℕ, zero, suc, ◌≤◌, String, ◌≡◌, refl, sym, ap, subst, Bool, true, false, Option, none, some, List,
  [], ◌∷◌, ◌==◌, ◌||◌, ◌⊎◌, inl, inr, All, length, leb, take, length-take-le, if◌then◌else◌, arith,
  eq_iff, Bool-cases, Option-cases,
}
use mygo_microservices.Drivers.Nearest.{
  Place, is_among, distance_of, distance_to, IsAscending, AreNearest,
}

module _ (place : String → Option Place) (distance : Place → ℕ) where
  abbrev far : String → ℕ
  far = distance_to place distance

  abbrev insert : String → List String → List String
  insert m [] = m ∷ []
  insert m (x ∷ xs) = if leb (far m) (far x) then m ∷ x ∷ xs else x ∷ insert m xs

  abbrev is_within : ℕ → Option Place → Bool
  is_within reach none = false
  is_within reach (some p) = leb (distance p) reach

  abbrev pub sorted : ℕ → List String → List String
  sorted reach [] = []
  sorted reach (x ∷ xs) =
      let rest = sorted reach xs in if is_within reach (place x) then insert x rest else rest

  All-insert :
      (P : String → Type 0) (m : String) (xs : List String) → P m → All P xs → All P (insert m xs)
  All-insert P m [] p h = (p, tt)
  All-insert P m (x ∷ xs) p h = elim (Bool-cases (leb (far m) (far x))) [
    | inl e ↦ rw e (p, h)
    | inr e ↦ rw e (h.0, All-insert P m xs p h.1)
  ]

  All-le : (a b : ℕ) (xs : List String) → a ≤ b → All (λ y. b ≤ far y) xs → All (λ y. a ≤ far y) xs
  All-le a b [] l h = tt
  All-le a b (x ∷ xs) l h = (omega (arith, l, h.0), All-le a b xs l h.1)

  insert-IsAscending :
      (m : String) (xs : List String)
      → IsAscending place distance xs
      → IsAscending place distance (insert m xs)
  insert-IsAscending m [] h = (tt, tt)
  insert-IsAscending m (x ∷ xs) h = elim (Bool-cases (leb (far m) (far x))) [
    | inl e ↦
        let l : far m ≤ far x = ground (arith, e) in rw e ((l, All-le (far m) (far x) xs l h.0), h)
    | inr e ↦
        let l : far x ≤ far m = ground (arith, e) in
        rw e (All-insert (λ y. far x ≤ far y) m xs l h.0, insert-IsAscending m xs h.1)
  ]

  is_among-insert :
      (m y : String) (xs : List String) → is_among y (insert m xs) ≡ ((y == m) || is_among y xs)
  unfolding is_among
  is_among-insert m y [] = refl
  is_among-insert m y (x ∷ xs) = ground (arith, is_among-insert m y xs)

  -- What there is to say of the whole answer, before it is cut.
  module _ (reach : ℕ) where
    abbrev IsNear : String → Type 0
    IsNear m = (p : Place) × (place m ≡ some p) × (distance p ≤ reach)

    sorted-IsNear : (xs : List String) → All IsNear (sorted reach xs)
    sorted-IsNear [] = tt
    sorted-IsNear (x ∷ xs) = elim (Option-cases (place x)) [
      | inl e ↦ rw e (sorted-IsNear xs)
      | inr (p, e) ↦ elim (Bool-cases (leb (distance p) reach)) [
        | inr out ↦ rw (e, out) (sorted-IsNear xs)
        | inl near ↦
            rw (e, near)
              (All-insert IsNear x (sorted reach xs) (p, e, ground (arith, near))
                (sorted-IsNear xs))
      ]
    ]

    sorted-IsAscending : (xs : List String) → IsAscending place distance (sorted reach xs)
    sorted-IsAscending [] = tt
    sorted-IsAscending (x ∷ xs) = elim (Bool-cases (is_within reach (place x))) [
      | inr out ↦ rw out (sorted-IsAscending xs)
      | inl near ↦ rw near (insert-IsAscending x (sorted reach xs) (sorted-IsAscending xs))
    ]

    is_among-sorted :
        (m : String) (p : Place) (xs : List String)
        → place m ≡ some p
        → distance p ≤ reach
        → is_among m xs ≡ true
        → is_among m (sorted reach xs) ≡ true
    unfolding is_among
    is_among-sorted m p [] e near h = h
    is_among-sorted m p (x ∷ xs) e near h = ground (
      arith,
      eq_iff m x,
      ap place,
      is_among-insert x m (sorted reach xs),
      is_among-sorted m p xs e near,
    )

  -- The cut keeps the nearest.
  All-take : (P : String → Type 0) (n : ℕ) (xs : List String) → All P xs → All P (take n xs)
  All-take P zero xs h = tt
  All-take P (suc n) [] h = tt
  All-take P (suc n) (x ∷ xs) h = (h.0, All-take P n xs h.1)

  take-IsAscending :
      (n : ℕ) (xs : List String)
      → IsAscending place distance xs
      → IsAscending place distance (take n xs)
  take-IsAscending zero xs h = tt
  take-IsAscending (suc n) [] h = tt
  take-IsAscending (suc n) (x ∷ xs) h =
      (All-take (λ y. far x ≤ far y) n xs h.0, take-IsAscending n xs h.1)

  among-All :
      (P : String → Type 0) (m : String) (xs : List String) → All P xs → is_among m xs ≡ true → P m
  unfolding is_among
  among-All P m [] h i = absurd (ground (arith, i))
  among-All P m (x ∷ xs) h i = elim (Bool-cases (m == x)) [
    | inl e ↦ subst P (sym ((eq_iff m x).0 e)) h.0
    | inr e ↦ among-All P m xs h.1 (ground (arith, e, i))
  ]

  cut :
      (m : String) (n : ℕ) (xs : List String)
      → IsAscending place distance xs
      → is_among m xs ≡ true
      → (is_among m (take n xs) ≡ true)
        ⊎ ((length (take n xs) ≡ n) × All (λ x. far x ≤ far m) (take n xs))
  unfolding is_among
  cut m zero xs h i = inr (refl, tt)
  cut m (suc n) [] h i = absurd (ground (arith, i))
  cut m (suc n) (x ∷ xs) h i = elim (Bool-cases (m == x)) [
    | inl e ↦ inl (ground (arith, e))
    | inr e ↦
        let there : is_among m xs ≡ true = ground (arith, e, i) in
        elim (cut m n xs h.1 there) [
          | inl kept ↦ inl (ground (arith, kept))
          | inr (full, nearer) ↦
              inr (ap suc full, (among-All (λ y. far x ≤ far y) m xs h.0 there, nearer))
        ]
  ]

  pub take-AreNearest :
      (reach count : ℕ) (names : List String)
      → ((m : String) (p : Place) → place m ≡ some p → is_among m names ≡ true)
      → AreNearest place distance reach count (take count (sorted reach names))
  unfolding distance_of
  take-AreNearest reach count names known = record {
    within = All-take (IsNear reach) count (sorted reach names) (sorted-IsNear reach names);
    ascending = take-IsAscending count (sorted reach names) (sorted-IsAscending reach names);
    few = length-take-le count (sorted reach names);
    complete = λ m p e near.
        let ms = sorted reach names in
        let i = is_among-sorted reach m p names e near (known m p e) in
        let at : far m ≡ distance p = ap (distance_of place distance) e in
        subst
          (λ d.
            (is_among m (take count ms) ≡ true)
            ⊎ ((length (take count ms) ≡ count) × All (λ x. far x ≤ d) (take count ms)))
          at (cut m count ms (sorted-IsAscending reach names) i);
  }
