-- ===== src/Prelude/Dict.antt =====
-- Go maps with text keys, as association lists: `m[k]`, `m[k] = v` and `delete(m, k)`.
-- A loop over a map runs through the list; the order of the list stands for the order that Go picks.
use mathlib.Core.Option
use mathlib.Core.Option.{none-ne-some, some-injective}
use citadel_dnxproxy.Prelude.{
  ℕ, ◌≡◌, refl, sym, ◌∙◌, ◌≢◌, ◌⊎◌, inl, inr, Bool-cases, true-ne-false, List, [], ◌∷◌, Option,
  none, some, arith, if◌then◌else◌, str_eq, str_eq_iff, str_eq_refl,
}

abbrev pub Dict {ℓ} : Type ℓ → Type ℓ
Dict V = List (List ℕ × V)

module _ {ℓ} {V : Type ℓ} where
  unfoldable pub get : Dict V → List ℕ → Option V
  get [] k = none
  get ((j, v) ∷ m) k = if str_eq j k then some v else get m k

  unfoldable pub put : Dict V → List ℕ → V → Dict V
  put [] k v = (k, v) ∷ []
  put ((j, w) ∷ m) k v = if str_eq j k then (k, v) ∷ m else (j, w) ∷ put m k v

  -- `delete(m, k)`
  unfoldable pub delete : Dict V → List ℕ → Dict V
  delete [] k = []
  delete ((j, v) ∷ m) k = if str_eq j k then delete m k else (j, v) ∷ delete m k

  -- `for k, v := range m { m[k] = f(v) }`
  unfoldable pub map_values : (V → V) → Dict V → Dict V
  map_values f [] = []
  map_values f ((j, v) ∷ m) = (j, f v) ∷ map_values f m

  -- `m[k]` on its own: the zero value `d` where the key is missing.
  unfoldable pub get_or : Dict V → List ℕ → V → V
  unfolding get
  get_or m k d = elim (get m k) [ none ↦ d | some v ↦ v ]

  pub get-put :
      (m : Dict V) (k j : List ℕ) (v : V)
      → get (put m k v) j ≡ (if str_eq k j then some v else get m j)
  unfolding get put
  get-put [] k j v = refl
  get-put ((i, w) ∷ m) k j v =
      ground (arith, str_eq_iff k j, str_eq_iff i k, str_eq_iff i j, get-put m k j v)

  pub get-put_self : (m : Dict V) (k : List ℕ) (v : V) → get (put m k v) k ≡ some v
  get-put_self m k v = rw (get-put m k k v, str_eq_refl k)

  pub get-put_ne : (m : Dict V) (k j : List ℕ) (v : V) → k ≢ j → get (put m k v) j ≡ get m j
  get-put_ne m k j v h = ground (arith, get-put m k j v, str_eq_iff k j)

  pub get-delete_self : (m : Dict V) (k : List ℕ) → get (delete m k) k ≡ none
  unfolding get delete
  get-delete_self [] k = refl
  get-delete_self ((i, w) ∷ m) k = ground (arith, get-delete_self m k)

  pub get-delete :
      (m : Dict V) (k j : List ℕ) → get (delete m k) j ≡ (if str_eq k j then none else get m j)
  unfolding get delete
  get-delete [] k j = ground arith
  get-delete ((i, w) ∷ m) k j =
      ground (arith, str_eq_iff k j, str_eq_iff i k, str_eq_iff i j, get-delete m k j)

  pub get-put-some :
      (m : Dict V) (k j : List ℕ) (v w : V)
      → get (put m k v) j ≡ some w
      → ((k ≡ j) × (w ≡ v)) ⊎ (get m j ≡ some w)
  get-put-some m k j v w h = elim (Bool-cases (str_eq k j)) [
    | inl e ↦ inl ((str_eq_iff k j).0 e, some-injective _ _ (sym h ∙ get-put m k j v ∙ rw e refl))
    | inr e ↦ inr (sym (get-put_ne m k j v (λ q. true-ne-false ((str_eq_iff k j).1 q) e)) ∙ h)
  ]

  pub get-delete-some :
      (m : Dict V) (k j : List ℕ) (v : V) → get (delete m k) j ≡ some v → get m j ≡ some v
  get-delete-some m k j v h = ground (arith, get-delete m k j, none-ne-some v)

  pub get-map_values :
      (f : V → V) (m : Dict V) (k : List ℕ) → get (map_values f m) k ≡ Option.map f (get m k)
  unfolding get map_values
  get-map_values f [] k = refl
  get-map_values f ((i, w) ∷ m) k = ground (arith, get-map_values f m k)

  pub get_or-put_self : (m : Dict V) (k : List ℕ) (v d : V) → get_or (put m k v) k d ≡ v
  unfolding get_or
  get_or-put_self m k v d = rw (get-put_self m k v, get_or)
