-- ===== src/Devices/Discovery/Assignments.antt =====
-- What discovery leaves of the devices that are known.
use citadel_dnxproxy.Prelude.{
  true-ne-false, ◌≡◌, refl, sym, ◌∙◌, ap, subst, ◌≢◌, ◌⊎◌, inl, inr, true, List, [], ◌∷◌, Option,
  none, some, arith, Bool-cases, Option-cases, str_eq, str_eq_iff,
}
use citadel_dnxproxy.Prelude.Dict
use citadel_dnxproxy.Prelude.Dict.{Dict}
use citadel_dnxproxy.Prelude.Result.{Result}
use citadel_dnxproxy.Clock.{Time}
use citadel_dnxproxy.Text.{Text, is_empty}
use citadel_dnxproxy.Policy.Types.{Device, PolicyData}
use citadel_dnxproxy.Policy.Store.{StoreError}
use citadel_dnxproxy.Policy.Store.Updates.{contents-update_mutate}
use citadel_dnxproxy.Policy.Keys.{Fits, put-Fits, KeysMatch}
use citadel_dnxproxy.Devices.{DeviceRecord}
use citadel_dnxproxy.Devices.Cache.{or_else}
use citadel_dnxproxy.Devices.Discovery.{
  Manager, keeps_source, created, no_device, merged_device, merge_devices, merge_data, merge,
  merge_if_any, gathered, refresh, collapse, updated,
}

-- The user, the id, the time of creation, a name and a manual or static source stay.
pub record IsKept (dev dev' : Device) : Type 0 where
  pub id : dev'.id ≡ dev.id
  pub user_id : dev'.user_id ≡ dev.user_id
  pub created_at : dev'.created_at ≡ dev.created_at
  pub name : dev.name ≢ [] → dev'.name ≡ dev.name
  pub source : keeps_source dev.source ≡ true → dev'.source ≡ dev.source

same-IsKept : (dev : Device) → IsKept dev dev
same-IsKept dev = record {
  id = refl;
  user_id = refl;
  created_at = refl;
  name = λ h. refl;
  source = λ h. refl;
}

IsKept-trans : (a b c : Device) → IsKept a b → IsKept b c → IsKept a c
IsKept-trans a b c h k = record {
  id = k.id ∙ h.id;
  user_id = k.user_id ∙ h.user_id;
  created_at = k.created_at ∙ h.created_at;
  name = λ n. k.name (λ e. n (sym (h.name n) ∙ e)) ∙ h.name n;
  source = λ s. k.source (rw (h.source s) s) ∙ h.source s;
}

empty_text : (s : Text) → is_empty s ≡ true → s ≡ []
empty_text [] h = refl
empty_text (c ∷ s) h = cc

created-same : (id : Text) (now : Time) (dev : Device) → dev.id ≢ [] → created id now dev ≡ dev
created-same id now dev h = elim (Bool-cases (is_empty dev.id)) [
  | inl e ↦ absurd (h (empty_text dev.id e))
  | inr e ↦ rw e refl
]

or_else-same : (s t : Text) → s ≢ [] → or_else s t ≡ s
or_else-same [] t h = absurd (h refl)
or_else-same (c ∷ s) t h = refl

merged_device-IsKept :
    (id : Text) (now : Time) (rec : DeviceRecord) (dev : Device)
    → dev.id ≢ []
    → IsKept dev (merged_device id now rec dev)
unfolding merged_device
merged_device-IsKept id now rec dev h = rw (created-same id now dev h) (record {
  id = refl;
  user_id = refl;
  created_at = refl;
  name = or_else-same dev.name rec.name;
  source = λ k. ground arith;
})

-- A device that is still there, and kept.
abbrev Survives : Device → Option Device → Type 0
Survives dev o = (dev' : Device) × (o ≡ some dev') × IsKept dev dev'

Survives-trans : (a b : Device) (o : Option Device) → IsKept a b → Survives b o → Survives a o
Survives-trans a b o h (c, e, k) = (c, e, IsKept-trans a b c h k)

IsKept-nonempty : (a b : Device) → IsKept a b → a.id ≢ [] → b.id ≢ []
IsKept-nonempty a b h n e = n (sym h.id ∙ e)

get_or-some :
    (m : Dict Device) (k : Text) (dev d : Device)
    → Dict.get m k ≡ some dev
    → Dict.get_or m k d ≡ dev
unfolding Dict.get_or
get_or-some m k dev d e = rw (e, Dict.get_or) refl

merge_devices-Survives :
    (known : Dict Text) (now : Time) (records : Dict DeviceRecord) (devices : Dict Device)
    (k : Text) (dev : Device)
    → Dict.get devices k ≡ some dev
    → dev.id ≢ []
    → Survives dev (Dict.get (merge_devices known now records devices) k)
unfolding merge_devices
merge_devices-Survives known now [] devices k dev e h = (dev, e, same-IsKept dev)
merge_devices-Survives known now ((key, rec) ∷ records) devices k dev e h =
    let id = Dict.get_or known key key in
    let made = merged_device id now rec (Dict.get_or devices id no_device) in
    elim (Bool-cases (str_eq id k)) [
      | inl q ↦
          let same : id ≡ k = (str_eq_iff id k).0 q in
          let kept : IsKept dev made =
            rw (get_or-some devices id dev no_device (ap (Dict.get devices) same ∙ e))
              (merged_device-IsKept id now rec dev h) in
          Survives-trans dev made _ kept (
            merge_devices-Survives known now records (Dict.put devices id made) k made
              (rw (Dict.get-put devices id k made, q) refl) (IsKept-nonempty dev made kept h))
      | inr q ↦
          merge_devices-Survives known now records (Dict.put devices id made) k dev
            (rw (Dict.get-put devices id k made, q) e) h
    ]

-- The invariant of the keys, through the same loop.
created-id :
    (id : Text) (now : Time) (dev : Device)
    → (dev.id ≡ id) ⊎ (dev.id ≡ [])
    → (created id now dev).id ≡ id
created-id id now dev (inl e) = elim (Bool-cases (is_empty dev.id)) [
  | inl q ↦ rw q refl
  | inr q ↦ rw q e
]
created-id id now dev (inr e) = elim (Bool-cases (is_empty dev.id)) [
  | inl q ↦ rw q refl
  | inr q ↦ absurd (true-ne-false (rw e refl) q)
]

merged_device-id :
    (id : Text) (now : Time) (rec : DeviceRecord) (dev : Device)
    → (dev.id ≡ id) ⊎ (dev.id ≡ [])
    → (merged_device id now rec dev).id ≡ id
unfolding merged_device
merged_device-id id now rec dev h = created-id id now dev h

get_or-id :
    (devices : Dict Device) (id : Text)
    → Fits (λ dev. dev.id) devices
    → ((Dict.get_or devices id no_device).id ≡ id) ⊎ ((Dict.get_or devices id no_device).id ≡ [])
unfolding Dict.get_or
get_or-id devices id h = elim (Option-cases (Dict.get devices id)) [
  | inl e ↦ inr (rw (e, Dict.get_or) refl)
  | inr (dev, e) ↦ inl (rw (e, Dict.get_or) (h id dev e))
]

merge_devices-Fits :
    (known : Dict Text) (now : Time) (records : Dict DeviceRecord) (devices : Dict Device)
    → Fits (λ dev. dev.id) devices
    → Fits (λ dev. dev.id) (merge_devices known now records devices)
unfolding merge_devices
merge_devices-Fits known now [] devices h = h
merge_devices-Fits known now ((key, rec) ∷ records) devices h =
    let id = Dict.get_or known key key in
    merge_devices-Fits known now records _ (
      put-Fits (λ dev. dev.id) devices id _ h
        (merged_device-id id now rec _ (get_or-id devices id h)))

module _ (write : PolicyData → Option StoreError) (now : Time) where
  contents-updated :
      (r : Manager × Option StoreError) → (updated write r).0.store.contents ≡ r.0.store.contents
  contents-updated (m, none) = refl
  contents-updated (m, some e) = refl

  contents-merge :
      (records : List DeviceRecord) (m : Manager)
      → (merge write now records m).0.store.contents
        ≡ merge_data now (collapse now records []) m.store.contents
  unfolding merge
  contents-merge records m =
      contents-update_mutate write (λ d. (merge_data now (collapse now records []) d, none)) m.store

  merge_if_any-keeps :
      (P : PolicyData → Type 0) (records : List DeviceRecord) (m : Manager)
      → P m.store.contents
      → ((by_key : Dict DeviceRecord) → P (merge_data now by_key m.store.contents))
      → P (merge_if_any write now records m).0.store.contents
  merge_if_any-keeps P [] m h k = h
  merge_if_any-keeps P (r ∷ rs) m h k =
      subst P (sym (contents-updated (merge write now (r ∷ rs) m) ∙ contents-merge (r ∷ rs) m))
        (k (collapse now (r ∷ rs) []))

  -- What every refresh keeps, if every merge of records does.
  refresh-keeps :
      (P : PolicyData → Type 0) (results : List (Result Text (List DeviceRecord))) (m : Manager)
      → P m.store.contents
      → ((by_key : Dict DeviceRecord) → P (merge_data now by_key m.store.contents))
      → P (refresh write now results m).0.store.contents
  unfolding refresh
  refresh-keeps P results m h k = merge_if_any-keeps P (gathered write results) m h k

  -- Whatever the sources report, a refresh of the discovery keeps every stored device whose id is
  -- not empty under its key, with its id, its user, its time of creation, its name where it has
  -- one, and its source where that is manual or static.
  pub refresh-Survives :
      (results : List (Result Text (List DeviceRecord))) (m : Manager) (k : Text) (dev : Device)
      → Dict.get m.store.contents.devices k ≡ some dev
      → dev.id ≢ []
      → (dev' : Device) × (Dict.get (refresh write now results m).0.store.contents.devices k
          ≡ some dev')
        × IsKept dev dev'
  unfolding merge_data
  refresh-Survives results m k dev e h =
      refresh-keeps (λ d. Survives dev (Dict.get d.devices k)) results m (dev, e, same-IsKept dev)
        (λ by_key. merge_devices-Survives _ now by_key m.store.contents.devices k dev e h)

  -- If the users and the devices of the store are under their own ids, they are so after a refresh
  -- of the discovery, whatever the sources report.
  pub refresh-KeysMatch :
      (results : List (Result Text (List DeviceRecord))) (m : Manager)
      → KeysMatch m.store.contents
      → KeysMatch (refresh write now results m).0.store.contents
  unfolding merge_data
  refresh-KeysMatch results m h = refresh-keeps KeysMatch results m h (λ by_key. record {
    users = h.users;
    devices = merge_devices-Fits _ now by_key m.store.contents.devices h.devices;
  })
