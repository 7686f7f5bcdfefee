-- ===== src/Mempool/Sort.antt =====
-- A stable sort, as `Array.prototype.sort` is: an element goes before those that it does not exceed.
-- Where the comparison is no order, the language leaves the result to the engine, and what this sort gives
-- is one of the possible results.
use bt2c.Base.{◌≡◌, refl, ℕ, suc, Bool, true, false, arith, List, [], ◌∷◌, All, if◌then◌else◌}

module _ {ℓ} {A : Type ℓ} (le : A → A → Bool) where
  unfoldable pub place : A → List A → List A
  place x [] = x ∷ []
  place x (y ∷ ys) = if le x y then x ∷ y ∷ ys else y ∷ place x ys

  unfoldable pub sort : List A → List A
  unfolding place
  sort [] = []
  sort (x ∷ xs) = place x (sort xs)

  -- `x` is in order with the head of the list.
  abbrev pub InOrder : A → List A → Type 0
  InOrder x [] = Unit
  InOrder x (y ∷ ys) = le x y ≡ true

  -- Each element is in order with the next.
  abbrev pub IsSorted : List A → Type 0
  IsSorted [] = Unit
  IsSorted (x ∷ xs) = InOrder x xs × IsSorted xs

module _ {ℓ} {A : Type ℓ} where
  -- How many elements pass a test.
  abbrev pub count_if : (A → Bool) → List A → ℕ
  count_if p [] = 0
  count_if p (x ∷ xs) = if p x then suc (count_if p xs) else count_if p xs

  -- The relation holds from each element to each later one.
  abbrev pub AllPairs : (A → A → Type 0) → List A → Type ℓ
  AllPairs R [] = Unit
  AllPairs R (x ∷ xs) = All (R x) xs × AllPairs R xs

module _ {ℓ} {A : Type ℓ} (le : A → A → Bool) where
  place-InOrder :
      (x z : A) (ys : List A) → le z x ≡ true → InOrder le z ys → InOrder le z (place le x ys)
  unfolding place
  place-InOrder x z [] h i = h
  place-InOrder x z (y ∷ ys) h i = ground (arith, h, i)

  place-IsSorted :
      (total : (a b : A) → le a b ≡ false → le b a ≡ true) (x : A) (ys : List A)
      → IsSorted le ys
      → IsSorted le (place le x ys)
  unfolding place
  place-IsSorted total x [] s = (tt, tt)
  place-IsSorted total x (y ∷ ys) s =
      ground (arith, s, total x y, place-InOrder x y ys, place-IsSorted total x ys)

  pub sort-IsSorted :
      (total : (a b : A) → le a b ≡ false → le b a ≡ true) (xs : List A) → IsSorted le (sort le xs)
  unfolding sort
  sort-IsSorted total [] = tt
  sort-IsSorted total (x ∷ xs) = place-IsSorted total x (sort le xs) (sort-IsSorted total xs)

  count_if-place :
      (p : A → Bool) (x : A) (ys : List A) → count_if p (place le x ys) ≡ count_if p (x ∷ ys)
  unfolding place
  count_if-place p x [] = refl
  count_if-place p x (y ∷ ys) = ground (arith, count_if-place p x ys)

  pub count_if-sort : (p : A → Bool) (xs : List A) → count_if p (sort le xs) ≡ count_if p xs
  unfolding sort
  count_if-sort p [] = refl
  count_if-sort p (x ∷ xs) = ground (arith, count_if-place p x (sort le xs), count_if-sort p xs)

  All-place : (P : A → Type 0) (x : A) (ys : List A) → P x → All P ys → All P (place le x ys)
  unfolding place
  All-place P x [] h a = (h, tt)
  All-place P x (y ∷ ys) h a =
      elim (le x y) as (λ b. All P (if b then x ∷ y ∷ ys else y ∷ place le x ys)) [
        | true ↦ (h, a)
        | false ↦ (a.0, All-place P x ys h a.1)
      ]

  pub All-sort : (P : A → Type 0) (xs : List A) → All P xs → All P (sort le xs)
  unfolding sort
  All-sort P [] a = tt
  All-sort P (x ∷ xs) a = All-place P x (sort le xs) a.0 (All-sort P xs a.1)

  AllPairs-place :
      (R : A → A → Type 0) (symm : (a b : A) → R a b → R b a) (x : A) (ys : List A)
      → All (R x) ys
      → AllPairs R ys
      → AllPairs R (place le x ys)
  unfolding place
  AllPairs-place R symm x [] h a = (tt, tt)
  AllPairs-place R symm x (y ∷ ys) h a =
      elim (le x y) as (λ b. AllPairs R (if b then x ∷ y ∷ ys else y ∷ place le x ys)) [
        | true ↦ (h, a)
        | false ↦ (All-place (R y) x ys (symm x y h.0) a.0, AllPairs-place R symm x ys h.1 a.1)
      ]

  pub AllPairs-sort :
      (R : A → A → Type 0) (symm : (a b : A) → R a b → R b a) (xs : List A)
      → AllPairs R xs
      → AllPairs R (sort le xs)
  unfolding sort
  AllPairs-sort R symm [] a = tt
  AllPairs-sort R symm (x ∷ xs) a =
      AllPairs-place R symm x (sort le xs) (All-sort (R x) xs a.0) (AllPairs-sort R symm xs a.1)

-- On the elements with `P`, where the comparison is transitive, a sorted list has every element in order
-- with every later one.
module _ {ℓ} {A : Type ℓ} (le : A → A → Bool) (P : A → Type 0)
    (trans : (a b c : A) → P a → P b → P c → le a b ≡ true → le b c ≡ true → le a c ≡ true) where
  skip-InOrder :
      (x y : A) (ys : List A)
      → P x
      → P y
      → All P ys
      → le x y ≡ true
      → InOrder le y ys
      → InOrder le x ys
  skip-InOrder x y [] px py ps h i = tt
  skip-InOrder x y (z ∷ zs) px py ps h i = trans x y z px py ps.0 h i

  All-InOrder :
      (x : A) (ys : List A)
      → P x
      → All P ys
      → InOrder le x ys
      → IsSorted le ys
      → All (λ (y : A). le x y ≡ true) ys
  All-InOrder x [] px ps i s = tt
  All-InOrder x (y ∷ ys) px ps i s =
      (i, All-InOrder x ys px ps.1 (skip-InOrder x y ys px ps.0 ps.1 i s.0) s.1)

  pub AllPairs-IsSorted :
      (xs : List A) → All P xs → IsSorted le xs → AllPairs (λ (a b : A). le a b ≡ true) xs
  AllPairs-IsSorted [] ps s = tt
  AllPairs-IsSorted (x ∷ xs) ps s =
      (All-InOrder x xs ps.0 ps.1 s.0 s.1, AllPairs-IsSorted xs ps.1 s.1)
