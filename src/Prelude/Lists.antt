-- ===== src/Prelude/Lists.antt =====
-- Lists measured by native numbers, list predicates and searches, under the library's names.
use Prim.Native.Nat.{ℕ, zero, suc, ◌+◌}
use mathlib.Core.Path.{◌≡◌, refl, ap}
use mathlib.Core.Logic.{◌↔◌, inl, inr}
use mathlib.Core.Bool.{Bool, true, false, ◌&&◌, ◌||◌}
use mathlib.Core.List.{List, [], ◌∷◌, ◌++◌, map, Memᴰ}
use mathlib.Core.Option.{Option, none, some}
use native.Mathlib.Omega.{arith}
use citadel_dnxproxy.Prelude.Tests.{if◌then◌else◌, Bool-cases, ◌==◌, ==_refl}

module _ {ℓ} {A : Type ℓ} where
  abbrev pub length : List A → ℕ
  length [] = 0
  length (x ∷ xs) = suc (length xs)

  abbrev pub get_elem? : List A → ℕ → Option A
  get_elem? [] i = none
  get_elem? (x ∷ xs) zero = some x
  get_elem? (x ∷ xs) (suc i) = get_elem? xs i

  abbrev pub set : List A → ℕ → A → List A
  set [] i v = []
  set (x ∷ xs) zero v = v ∷ xs
  set (x ∷ xs) (suc i) v = x ∷ set xs i v

  pub length-append : (xs ys : List A) → length (xs ++ ys) ≡ length xs + length ys
  length-append [] ys = omega arith
  length-append (x ∷ xs) ys = omega (arith, length-append xs ys)

  pub length-set : (xs : List A) (i : ℕ) (v : A) → length (set xs i v) ≡ length xs
  length-set [] i v = refl
  length-set (x ∷ xs) zero v = refl
  length-set (x ∷ xs) (suc i) v = ap suc (length-set xs i v)

module _ {ℓ κ} {A : Type ℓ} where
  abbrev pub All : (A → Type κ) → List A → Type κ
  All P [] = Unit
  All P (x ∷ xs) = P x × All P xs

pub All-map {ℓ κ μ} :
    {A : Type ℓ} {P : A → Type κ} {Q : A → Type μ}
    → ((a : A) → P a → Q a)
    → (xs : List A) → All P xs
    → All Q xs
All-map f [] h = tt
All-map f (x ∷ xs) h = (f x h.0, All-map f xs h.1)

module _ {ℓ} {A : Type ℓ} where
  unfoldable pub filter_by : (A → Bool) → List A → List A
  filter_by p [] = []
  filter_by p (x ∷ xs) = if p x then x ∷ filter_by p xs else filter_by p xs

  unfoldable pub find_by : (A → Bool) → List A → Option A
  find_by p [] = none
  find_by p (x ∷ xs) = if p x then some x else find_by p xs

  unfoldable pub any_by : (A → Bool) → List A → Bool
  any_by p [] = false
  any_by p (x ∷ xs) = p x || any_by p xs

  Memᴰ-cons_kept :
      (p : A → Bool) (a x : A) (xs ys : List A)
      → p x ≡ true
      → (Memᴰ a ys → Memᴰ a xs × (p a ≡ true))
      → Memᴰ a (x ∷ ys)
      → Memᴰ a (x ∷ xs) × (p a ≡ true)
  Memᴰ-cons_kept p a x xs ys e rest (Memᴰ.head h) = (Memᴰ.head h, rw h e)
  Memᴰ-cons_kept p a x xs ys e rest (Memᴰ.tail m) = (Memᴰ.tail (rest m).0, (rest m).1)

  pub Memᴰ-filter_by :
      (p : A → Bool) (a : A) (xs : List A) → Memᴰ a (filter_by p xs) → Memᴰ a xs × (p a ≡ true)
  unfolding filter_by
  Memᴰ-filter_by p a [] m = elim m [ ]
  Memᴰ-filter_by p a (x ∷ xs) m = elim (Bool-cases (p x)) [
    | inl e ↦ Memᴰ-cons_kept p a x xs _ e (Memᴰ-filter_by p a xs) (rw e at m)
    | inr e ↦ let r = Memᴰ-filter_by p a xs (rw e at m) in (Memᴰ.tail r.0, r.1)
  ]

  pub filter_by-Memᴰ :
      (p : A → Bool) (a : A) (xs : List A) → Memᴰ a xs → p a ≡ true → Memᴰ a (filter_by p xs)
  unfolding filter_by
  filter_by-Memᴰ p a [] m e = elim m [ ]
  filter_by-Memᴰ p a (x ∷ xs) (Memᴰ.head h) e =
      let e' : p x ≡ true = rw (← h) e in rw e' (Memᴰ.head h)
  filter_by-Memᴰ p a (x ∷ xs) (Memᴰ.tail h) e = elim (Bool-cases (p x)) [
    | inl t ↦ rw t (Memᴰ.tail (filter_by-Memᴰ p a xs h e))
    | inr t ↦ rw t (filter_by-Memᴰ p a xs h e)
  ]

module _ {ℓ κ} {A : Type ℓ} {B : Type κ} where
  pub length-map : (xs : List A) (f : A → B) → length (map f xs) ≡ length xs
  length-map [] f = refl
  length-map (x ∷ xs) f = ap suc (length-map xs f)

  pub map-Memᴰ : (f : A → B) (a : A) (xs : List A) → Memᴰ a xs → Memᴰ (f a) (map f xs)
  map-Memᴰ f a [] m = elim m [ ]
  map-Memᴰ f a (x ∷ xs) (Memᴰ.head e) = Memᴰ.head (ap f e)
  map-Memᴰ f a (x ∷ xs) (Memᴰ.tail m) = Memᴰ.tail (map-Memᴰ f a xs m)

  pub Memᴰ-map :
      (f : A → B) (b : B) (xs : List A) → Memᴰ b (map f xs) → (a : A) × Memᴰ a xs × (b ≡ f a)
  Memᴰ-map f b [] m = elim m [ ]
  Memᴰ-map f b (x ∷ xs) (Memᴰ.head e) = (x, Memᴰ.head refl, e)
  Memᴰ-map f b (x ∷ xs) (Memᴰ.tail m) = let (a, h, e) = Memᴰ-map f b xs m in (a, Memᴰ.tail h, e)

-- Equality of texts, as lists of bytes.
abbrev pub str_eq : List ℕ → List ℕ → Bool
str_eq [] [] = true
str_eq [] (_ ∷ _) = false
str_eq (_ ∷ _) [] = false
str_eq (a ∷ s) (b ∷ t) = a == b && str_eq s t

pub str_eq_refl : (s : List ℕ) → str_eq s s ≡ true
str_eq_refl [] = refl
str_eq_refl (a ∷ s) = rw (==_refl a) (str_eq_refl s)

str_eq→eq : (s t : List ℕ) → str_eq s t ≡ true → s ≡ t
str_eq→eq [] [] h = refl
str_eq→eq [] (_ ∷ _) h = cc
str_eq→eq (_ ∷ _) [] h = cc
str_eq→eq (a ∷ s) (b ∷ t) h = ground (arith, str_eq→eq s t)

pub str_eq_iff : (s t : List ℕ) → (str_eq s t ≡ true) ↔ (s ≡ t)
str_eq_iff s t = (str_eq→eq s t, λ e. rw e (str_eq_refl t))

pub str_eq_comm : (s t : List ℕ) → str_eq s t ≡ str_eq t s
str_eq_comm s t = ground (arith, str_eq_iff s t, str_eq_iff t s)
