-- ===== src/Admin/Ownership.antt =====
-- Whose the devices are after a user is changed or deleted.
use citadel_dnxproxy.Prelude.{
  true-ne-false, ◌≡◌, refl, subst, sym, ◌∙◌, ◌≢◌, ◌↔◌, inl, inr, Bool, true, false, List, [], ◌∷◌,
  Option, none, some, arith, Bool-cases, Option-cases, str_eq, str_eq_iff, str_eq_refl, any_by,
  if◌then◌else◌,
}
use mathlib.Core.List.{Memᴰ}
use mathlib.Core.Option
use mathlib.Core.Option.{none-ne-some, some-ne-none, some-injective}
use citadel_dnxproxy.Prelude.Dict
use citadel_dnxproxy.Prelude.Dict.{Dict}
use citadel_dnxproxy.Clock.{Time}
use citadel_dnxproxy.Text.{Text}
use citadel_dnxproxy.Policy.Types.{User, Device, PolicyData}
use citadel_dnxproxy.Policy.Store.{StoreError}
use citadel_dnxproxy.Policy.Keys.{KeysMatch}
use citadel_dnxproxy.Admin.{UserBody}
use citadel_dnxproxy.Admin.Users.{
  given_to, cleared, assign_found, assign_devices, clear_assignments, changed_user, update_user,
  updated_found, stored_user, delete_user,
}

-- The user id of the device with a key.
abbrev pub owner : Dict Device → Text → Option Text
owner devices k = Option.map (λ dev. dev.user_id) (Dict.get devices k)

abbrev listed : Text → List Text → Bool
listed k = any_by (λ id. str_eq id k)

cons_listed :
    (k id : Text) (ids : List Text)
    → (listed k ids ≡ true) ↔ Memᴰ k ids
    → listed k (id ∷ ids) ≡ true
    → Memᴰ k (id ∷ ids)
unfolding any_by
cons_listed k id ids rest h = elim (Bool-cases (str_eq id k)) [
  | inl e ↦ Memᴰ.head (sym ((str_eq_iff id k).0 e))
  | inr e ↦ Memᴰ.tail (rest.0 (rw e at h))
]

listed_cons :
    (k id : Text) (ids : List Text)
    → (listed k ids ≡ true) ↔ Memᴰ k ids
    → Memᴰ k (id ∷ ids)
    → listed k (id ∷ ids) ≡ true
unfolding any_by
listed_cons k id ids rest (Memᴰ.head e) = rw (e, str_eq_refl id) refl
listed_cons k id ids rest (Memᴰ.tail m) = let h = rest.1 m in ground (arith, h)

listed_iff : (k : Text) (ids : List Text) → (listed k ids ≡ true) ↔ Memᴰ k ids
unfolding any_by
listed_iff k [] = (λ h. cc, λ m. elim m [ ])
listed_iff k (id ∷ ids) =
    let rest = listed_iff k ids in (cons_listed k id ids rest, listed_cons k id ids rest)

owner-put :
    (devices : Dict Device) (id k : Text) (dev : Device)
    → owner (Dict.put devices id dev) k
      ≡ (if str_eq id k then some dev.user_id else owner devices k)
owner-put devices id k dev = elim (Bool-cases (str_eq id k)) [
  | inl e ↦ rw (Dict.get-put devices id k dev, e) refl
  | inr e ↦ rw (Dict.get-put devices id k dev, e) refl
]

owner-clear_assignments :
    (user_id : Text) (now : Time) (devices : Dict Device) (k : Text)
    → owner (clear_assignments user_id now devices) k
      ≡ Option.map (λ o. if str_eq o user_id then [] else o) (owner devices k)
unfolding clear_assignments
owner-clear_assignments user_id now devices k =
    rw (Dict.get-map_values (cleared user_id now) devices k) (cleared-owner (Dict.get devices k))
  where
    cleared-owner :
        (o : Option Device)
        → Option.map (λ dev. dev.user_id) (Option.map (cleared user_id now) o)
          ≡ Option.map (λ o. if str_eq o user_id then [] else o) (Option.map (λ dev. dev.user_id) o)
    cleared-owner none = refl
    cleared-owner (some dev) = elim (Bool-cases (str_eq dev.user_id user_id)) [
      | inl e ↦ rw e refl
      | inr e ↦ rw e refl
    ]

abbrev Owned : Text → List Text → Text → Dict Device → Dict Device × Option StoreError → Type 0
Owned user_id ids k devices (devices', e) =
    e ≡ none → owner devices' k ≡ (if listed k ids then some user_id else owner devices k)

assign_found-Owned :
    (user_id : Text) (now : Time) (id : Text) (ids : List Text) (k : Text) (devices : Dict Device)
    (continue : Dict Device → Dict Device × Option StoreError) (o : Option Device)
    → ((ds : Dict Device) → Owned user_id ids k ds (continue ds))
    → Owned user_id (id ∷ ids) k devices (assign_found user_id now id devices continue o)
unfolding any_by
assign_found-Owned user_id now id ids k devices continue none rest h = absurd (some-ne-none _ h)
assign_found-Owned user_id now id ids k devices continue (some dev) rest h =
    rest _ h ∙ rw (owner-put devices id k (given_to user_id now dev)) (ground arith)

-- The loop that succeeds gives the user the devices of the list, and leaves the owners of all others.
assign_devices-Owned :
    (user_id : Text) (now : Time) (ids : List Text) (k : Text) (devices : Dict Device)
    → Owned user_id ids k devices (assign_devices user_id now ids devices)
unfolding assign_devices any_by
assign_devices-Owned user_id now [] k devices = λ h. refl
assign_devices-Owned user_id now (id ∷ ids) k devices =
    assign_found-Owned user_id now id ids k devices (λ ds. assign_devices user_id now ids ds)
      (Dict.get devices id) (assign_devices-Owned user_id now ids k)

cleared_ne :
    (id : Text) (now : Time) (devices : Dict Device) (k : Text)
    → id ≢ []
    → owner (clear_assignments id now devices) k ≢ some id
cleared_ne id now devices k h e =
    let same = owner-clear_assignments id now devices k in
    elim (Option-cases (owner devices k)) [
      | inl o ↦ none-ne-some _ (sym (same ∙ rw o refl) ∙ e)
      | inr (u, o) ↦
          let left : (if str_eq u id then [] else u) ≡ id =
            some-injective _ _ (sym (same ∙ rw o refl) ∙ e) in
          elim (Bool-cases (str_eq u id)) [
            | inl q ↦ h (sym (rw q at left))
            | inr q ↦ true-ne-false ((str_eq_iff u id).1 (rw q at left)) q
          ]
    ]

kept :
    (id : Text) (now : Time) (devices : Dict Device) (k : Text) (dev : Device)
    → Dict.get devices k ≡ some dev
    → dev.user_id ≢ id
    → Dict.get (clear_assignments id now devices) k ≡ some dev
unfolding clear_assignments
kept id now devices k dev e n =
    rw (Dict.get-map_values (cleared id now) devices k, e)
      (elim (Bool-cases (str_eq dev.user_id id)) [
        | inl q ↦ absurd (n ((str_eq_iff dev.user_id id).0 q))
        | inr q ↦ rw q refl
      ])

-- The mutation of DELETE /users/<id>, for an id that is not empty, removes the user and no other,
-- leaves no device with that user id, and leaves every device of another owner as it was.
pub delete_user-owner :
    (id : Text) (now : Time) (d : PolicyData)
    → id ≢ []
    → let (d', e) = delete_user id now d in
      (Dict.get d'.users id ≡ none)
      × ((k : Text) → id ≢ k → Dict.get d'.users k ≡ Dict.get d.users k)
      × ((k : Text) → owner d'.devices k ≢ some id)
      × ((k : Text) (dev : Device)
          → Dict.get d.devices k ≡ some dev
          → dev.user_id ≢ id
          → Dict.get d'.devices k ≡ some dev)
unfolding delete_user
delete_user-owner id now d h = (
  Dict.get-delete_self d.users id,
  λ k n. ground (arith, Dict.get-delete d.users id k, str_eq_iff id k),
  λ k. cleared_ne id now d.devices k h,
  λ k dev e n. kept id now d.devices k dev e n,
)

stored-Owned :
    (id user_id : Text) (now : Time) (u : User) (ids : List Text) (k : Text) (d : PolicyData)
    (devices : Dict Device) (r : Dict Device × Option StoreError)
    → Owned user_id ids k devices r
    → (stored_user id now u d r).1 ≡ none
    → owner (stored_user id now u d r).0.devices k
      ≡ (if listed k ids then some user_id else owner devices k)
stored-Owned id user_id now u ids k d devices (ds, none) h e = h e
stored-Owned id user_id now u ids k d devices (ds, some f) h e = absurd (some-ne-none _ e)

assigned_iff :
    (id : Text) (now : Time) (ids : List Text) (k : Text) (devices : Dict Device) (o : Option Text)
    → id ≢ []
    → o ≡ (if listed k ids then some id else owner (clear_assignments id now devices) k)
    → (o ≡ some id) ↔ Memᴰ k ids
assigned_iff id now ids k devices o h e = elim (Bool-cases (listed k ids)) [
  | inl l ↦ (λ q. (listed_iff k ids).0 l, λ m. rw l at e)
  | inr l ↦ (
    λ q. absurd (cleared_ne id now devices k h (sym (rw l at e) ∙ q)),
    λ m. absurd (true-ne-false ((listed_iff k ids).1 m) l),
  )
]

updated_found-owner :
    (id : Text) (req : UserBody) (now : Time) (d : PolicyData) (k : Text) (o : Option User)
    → Dict.get d.users id ≡ o
    → KeysMatch d
    → id ≢ []
    → req.nil_devices ≡ false
    → let (d', e) = updated_found id req now d o in
      e ≡ none → (owner d'.devices k ≡ some id) ↔ Memᴰ k req.user.device_ids
unfolding changed_user
updated_found-owner id req now d k none found h n given = λ q. absurd (some-ne-none _ q)
updated_found-owner id req now d k (some cur) found h n given =
    let ids : List Text = req.user.device_ids in
    let u : User = record (changed_user req cur) { device_ids = ids } in
    let before : Dict Device = clear_assignments cur.id now d.devices in
    let r : Dict Device × Option StoreError = assign_devices cur.id now ids before in
    let owned =
      stored-Owned id cur.id now u ids k d before r
        (assign_devices-Owned cur.id now ids k before) in
    rw given (λ q. assigned_iff id now ids k d.devices _ n (
      subst
        (λ i.
          owner (stored_user id now u d r).0.devices k
          ≡ (if listed k ids then some i else owner (clear_assignments i now d.devices) k))
        (h.users id cur found) (owned q)))

-- The mutation of PUT /users/<id> with a list of devices, for an id that is not empty and on data
-- whose keys match, where it succeeds, makes exactly the devices of the list the user's.
pub update_user-owner :
    (id : Text) (req : UserBody) (now : Time) (d : PolicyData) (k : Text)
    → KeysMatch d
    → id ≢ []
    → req.nil_devices ≡ false
    → let (d', e) = update_user id req now d in
      e ≡ none → (owner d'.devices k ≡ some id) ↔ Memᴰ k req.user.device_ids
unfolding update_user
update_user-owner id req now d k = updated_found-owner id req now d k _ refl
