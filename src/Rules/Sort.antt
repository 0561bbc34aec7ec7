-- ===== src/Rules/Sort.antt =====
-- sort.SliceStable, as the insertion sort that keeps equal elements in order, and its first element:
-- for any test that is a strict weak order, no element comes before it.
use mathlib.Core.List.{Memᴰ}
use citadel_dnxproxy.Prelude.{
  ◌≡◌, refl, ◌∙◌, ap, map, Bool, true, false, List, [], ◌∷◌, Option, none, some, inl, inr, arith,
  if◌then◌else◌, Bool-cases,
}

-- `&matches[0]`, nil where there are no matches
unfoldable pub first {ℓ} : {A : Type ℓ} → List A → Option A
first [] = none
first (x ∷ _) = some x

module _ {ℓ} {A : Type ℓ} (less : A → A → Bool) where
  insert_stable : A → List A → List A
  insert_stable x [] = x ∷ []
  insert_stable x (y ∷ ys) = if less y x then y ∷ insert_stable x ys else x ∷ y ∷ ys

  unfoldable pub slice_stable : List A → List A
  unfolding insert_stable
  slice_stable [] = []
  slice_stable (x ∷ xs) = insert_stable x (slice_stable xs)

  abbrev better : A → Option A → A
  better x none = x
  better x (some b) = if less b x then b else x

  first-insert_stable :
      (x : A) (ys : List A) → first (insert_stable x ys) ≡ some (better x (first ys))
  unfolding insert_stable first
  first-insert_stable x [] = refl
  first-insert_stable x (y ∷ ys) = ground arith

  pub first-slice_stable :
      (x : A) (xs : List A)
      → first (slice_stable (x ∷ xs)) ≡ some (better x (first (slice_stable xs)))
  unfolding slice_stable
  first-slice_stable x xs = first-insert_stable x (slice_stable xs)

  -- `b` is in the list, and no element of the list comes before it.
  pub record IsFirst (b : A) (xs : List A) : Type ℓ where
    pub member : Memᴰ b xs
    pub least : (y : A) → Memᴰ y xs → less y b ≡ false

  abbrev pub FirstIs : Option A → List A → Type ℓ
  FirstIs none xs = xs ≡ []
  FirstIs (some b) xs = IsFirst b xs

  module _ (asymmetric : (a b : A) → less a b ≡ true → less b a ≡ false)
      (weak : (a b c : A) → less a b ≡ false → less b c ≡ false → less a c ≡ false) where
    irreflexive : (a : A) → less a a ≡ false
    irreflexive a = ground (arith, asymmetric a a)

    IsFirst-single : (x : A) → IsFirst x (x ∷ [])
    IsFirst-single x = record { member = Memᴰ.head refl; least = single_least }
      where
        single_least : (y : A) → Memᴰ y (x ∷ []) → less y x ≡ false
        single_least y (Memᴰ.head e) = rw e (irreflexive x)
        single_least y (Memᴰ.tail m) = elim m [ ]

    IsFirst-older : (x b : A) (xs : List A) → IsFirst b xs → less b x ≡ true → IsFirst b (x ∷ xs)
    IsFirst-older x b xs i h = record { member = Memᴰ.tail i.member; least = older_least }
      where
        older_least : (y : A) → Memᴰ y (x ∷ xs) → less y b ≡ false
        older_least y (Memᴰ.head e) = rw e (asymmetric b x h)
        older_least y (Memᴰ.tail m) = i.least y m

    IsFirst-newer : (x b : A) (xs : List A) → IsFirst b xs → less b x ≡ false → IsFirst x (x ∷ xs)
    IsFirst-newer x b xs i h = record { member = Memᴰ.head refl; least = newer_least }
      where
        newer_least : (y : A) → Memᴰ y (x ∷ xs) → less y x ≡ false
        newer_least y (Memᴰ.head e) = rw e (irreflexive x)
        newer_least y (Memᴰ.tail m) = weak y b x (i.least y m) h

    better-FirstIs :
        (x : A) (o : Option A) (xs : List A) → FirstIs o xs → IsFirst (better x o) (x ∷ xs)
    better-FirstIs x none xs e = rw e (IsFirst-single x)
    better-FirstIs x (some b) xs i = elim (Bool-cases (less b x)) [
      | inl h ↦ rw h (IsFirst-older x b xs i h)
      | inr h ↦ rw h (IsFirst-newer x b xs i h)
    ]

    pub first-FirstIs : (xs : List A) → FirstIs (first (slice_stable xs)) xs
    unfolding first slice_stable
    first-FirstIs [] = refl
    first-FirstIs (x ∷ xs) = rw (first-slice_stable x xs) (better-FirstIs x _ xs (first-FirstIs xs))

-- A map that keeps the comparison goes past the sort.
module _ {A B : Type 0} (f : A → B) (less : A → A → Bool) (less' : B → B → Bool)
    (same : (a b : A) → less' (f a) (f b) ≡ less a b) where
  map-insert_stable :
      (x : A) (ys : List A) → map f (insert_stable less x ys) ≡ insert_stable less' (f x) (map f ys)
  unfolding insert_stable
  map-insert_stable x [] = refl
  map-insert_stable x (y ∷ ys) = elim (Bool-cases (less y x)) [
    | inl h ↦ rw (same y x, h) (ap (◌∷◌ (f y)) (map-insert_stable x ys))
    | inr h ↦ rw (same y x, h) refl
  ]

  pub map-slice_stable :
      (xs : List A) → map f (slice_stable less xs) ≡ slice_stable less' (map f xs)
  unfolding slice_stable
  map-slice_stable [] = refl
  map-slice_stable (x ∷ xs) =
      map-insert_stable x (slice_stable less xs)
      ∙ ap (insert_stable less' (f x)) (map-slice_stable xs)
