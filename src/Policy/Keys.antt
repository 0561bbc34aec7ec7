-- ===== src/Policy/Keys.antt =====
-- Users and devices are stored under their own ids.
use citadel_dnxproxy.Prelude.{◌≡◌, sym, ◌∙◌, ap, inl, inr, some}
use mathlib.Core.Option
use mathlib.Core.Option.{none-ne-some, some-injective}
use citadel_dnxproxy.Prelude.Dict
use citadel_dnxproxy.Prelude.Dict.{Dict}
use citadel_dnxproxy.Text.{Text}
use citadel_dnxproxy.Policy.Types.{PolicyData}

module _ {V : Type 0} (id_of : V → Text) where
  abbrev pub Fits : Dict V → Type 0
  Fits m = (k : Text) (v : V) → Dict.get m k ≡ some v → id_of v ≡ k

  pub put-Fits : (m : Dict V) (k : Text) (v : V) → Fits m → id_of v ≡ k → Fits (Dict.put m k v)
  put-Fits m k v h e j w g = elim (Dict.get-put-some m k j v w g) [
    | inl (i, same) ↦ ap id_of same ∙ e ∙ i
    | inr rest ↦ h j w rest
  ]

  pub delete-Fits : (m : Dict V) (k : Text) → Fits m → Fits (Dict.delete m k)
  delete-Fits m k h j w g = h j w (Dict.get-delete-some m k j w g)

  pub map_values-Fits :
      (f : V → V) (m : Dict V)
      → ((v : V) → id_of (f v) ≡ id_of v)
      → Fits m
      → Fits (Dict.map_values f m)
  map_values-Fits f m e h k w g =
      let (v, found, same) =
        (Option.map-eq-some_iff f (Dict.get m k)).0 (sym (Dict.get-map_values f m k) ∙ g) in
      ap id_of (sym same) ∙ e v ∙ h k v found

pub record KeysMatch (d : PolicyData) : Type 0 where
  pub users : Fits (λ u. u.id) d.users
  pub devices : Fits (λ dev. dev.id) d.devices
