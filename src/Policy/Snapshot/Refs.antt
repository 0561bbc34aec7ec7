-- ===== src/Policy/Snapshot/Refs.antt =====
-- The devices that a snapshot lists for a user.
use citadel_dnxproxy.Prelude.{
  ◌≡◌, refl, sym, ◌∙◌, ap, subst, inl, inr, false, List, [], ◌∷◌, ◌++◌, Option, none, some,
  if◌then◌else◌, true-ne-false, Bool-cases, str_eq, str_eq_iff,
}
use mathlib.Core.List.{append-nil, append_assoc}
use mathlib.Core.Option
use mathlib.Core.Option.{none-ne-some, some-injective}
use citadel_dnxproxy.Prelude.Dict
use citadel_dnxproxy.Prelude.Dict.{Dict}
use citadel_dnxproxy.Text.{Text, is_empty}
use citadel_dnxproxy.Rules.Sort.{slice_stable}
use citadel_dnxproxy.Policy.Types.{User, Device, PolicyData}
use citadel_dnxproxy.Policy.Evaluator.{list_of}
use citadel_dnxproxy.Policy.Compiler.UserRules.{append_to-get, str_eq-empty}
use citadel_dnxproxy.Policy.Snapshot.{
  device_ids_by_user, sort_strings, with_ids, set_found, set_device_ids, clear_found,
  clear_device_ids, populate_user_device_refs,
}

-- The ids of the entries of a user, in their order.
unfoldable pub ids_of : Text → Dict Device → List Text
ids_of uid [] = []
ids_of uid ((id, dev) ∷ devices) =
    (if str_eq dev.user_id uid then id ∷ [] else []) ++ ids_of uid devices

-- A map has a key once.
abbrev pub HasKeysOnce : {V : Type 0} → Dict V → Type 0
HasKeysOnce [] = Unit
HasKeysOnce ((k, v) ∷ m) = (Dict.get m k ≡ none) × HasKeysOnce m

module _ {V : Type 0} where
  put-HasKeysOnce : (m : Dict V) (k : Text) (v : V) → HasKeysOnce m → HasKeysOnce (Dict.put m k v)
  unfolding Dict.put Dict.get
  put-HasKeysOnce [] k v h = (refl, tt)
  put-HasKeysOnce ((j, w) ∷ m) k v h = elim (Bool-cases (str_eq j k)) [
    | inl e ↦ rw e (subst (λ i. Dict.get m i ≡ none) ((str_eq_iff j k).0 e) h.0, h.1)
    | inr e ↦ rw e (
      Dict.get-put_ne m k j v (λ q. true-ne-false ((str_eq_iff j k).1 (sym q)) e) ∙ h.0,
      put-HasKeysOnce m k v h.1,
    )
  ]

device_ids_by_user-list_of :
    (devices : Dict Device) (m : Dict (List Text)) (uid : Text)
    → is_empty uid ≡ false
    → list_of (Dict.get (device_ids_by_user devices m) uid)
      ≡ list_of (Dict.get m uid) ++ ids_of uid devices
unfolding device_ids_by_user ids_of
device_ids_by_user-list_of [] m uid h = sym (append-nil _)
device_ids_by_user-list_of ((id, dev) ∷ devices) m uid h =
    elim (Bool-cases (is_empty dev.user_id)) [
      | inl e ↦
          rw (e, str_eq-empty dev.user_id uid e h) (device_ids_by_user-list_of devices m uid h)
      | inr e ↦ rw e (
          device_ids_by_user-list_of devices _ uid h
          ∙ ap (λ l. l ++ ids_of uid devices) (append_to-get m dev.user_id uid (id ∷ []))
          ∙ append_assoc (list_of (Dict.get m uid)) _ (ids_of uid devices))
    ]

device_ids_by_user-HasKeysOnce :
    (devices : Dict Device) (m : Dict (List Text))
    → HasKeysOnce m
    → HasKeysOnce (device_ids_by_user devices m)
unfolding device_ids_by_user
device_ids_by_user-HasKeysOnce [] m h = h
device_ids_by_user-HasKeysOnce ((id, dev) ∷ devices) m h =
    elim (Bool-cases (is_empty dev.user_id)) [
      | inl e ↦ rw e (device_ids_by_user-HasKeysOnce devices m h)
      | inr e ↦ rw e (device_ids_by_user-HasKeysOnce devices _ (put-HasKeysOnce m _ _ h))
    ]

abbrev set_user : Option (List Text) → Option User → Option User
set_user none o = o
set_user (some ids) o = Option.map (with_ids (sort_strings ids)) o

set_found-get :
    (k : Text) (ids : List Text) (users : Dict User) (uid : Text) (o : Option User)
    → Dict.get users k ≡ o
    → Dict.get (set_found k ids users o) uid
      ≡ (if str_eq k uid then set_user (some ids) (Dict.get users uid) else Dict.get users uid)
set_found-get k ids users uid none e = elim (Bool-cases (str_eq k uid)) [
  | inl q ↦
      let g : Dict.get users uid ≡ none =
        subst (λ i. Dict.get users i ≡ none) ((str_eq_iff k uid).0 q) e in
      rw (q, g) refl
  | inr q ↦ rw q refl
]
set_found-get k ids users uid (some u) e = elim (Bool-cases (str_eq k uid)) [
  | inl q ↦
      let g : Dict.get users uid ≡ some u =
        subst (λ i. Dict.get users i ≡ some u) ((str_eq_iff k uid).0 q) e in
      rw (Dict.get-put users k uid (with_ids (sort_strings ids) u), q, g) refl
  | inr q ↦ rw (Dict.get-put users k uid (with_ids (sort_strings ids) u), q) refl
]

set_found-HasKeysOnce :
    (k : Text) (ids : List Text) (users : Dict User) (o : Option User)
    → HasKeysOnce users
    → HasKeysOnce (set_found k ids users o)
set_found-HasKeysOnce k ids users none h = h
set_found-HasKeysOnce k ids users (some u) h = put-HasKeysOnce users k _ h

set_device_ids-HasKeysOnce :
    (by_user : Dict (List Text)) (users : Dict User)
    → HasKeysOnce users
    → HasKeysOnce (set_device_ids by_user users)
unfolding set_device_ids
set_device_ids-HasKeysOnce [] users h = h
set_device_ids-HasKeysOnce ((k, ids) ∷ by_user) users h =
    set_device_ids-HasKeysOnce by_user _ (set_found-HasKeysOnce k ids users _ h)

set_device_ids-get :
    (by_user : Dict (List Text)) (users : Dict User) (uid : Text)
    → HasKeysOnce by_user
    → Dict.get (set_device_ids by_user users) uid
      ≡ set_user (Dict.get by_user uid) (Dict.get users uid)
unfolding set_device_ids Dict.get
set_device_ids-get [] users uid h = refl
set_device_ids-get ((k, ids) ∷ by_user) users uid h =
    let users' : Dict User = set_found k ids users (Dict.get users k) in
    let rest = set_device_ids-get by_user users' uid h.1 in
    let one = set_found-get k ids users uid (Dict.get users k) refl in
    elim (Bool-cases (str_eq k uid)) [
      | inl q ↦
          let gone : Dict.get by_user uid ≡ none =
            subst (λ i. Dict.get by_user i ≡ none) ((str_eq_iff k uid).0 q) h.0 in
          rw q (rest ∙ ap (λ o. set_user o (Dict.get users' uid)) gone ∙ (rw q at one))
      | inr q ↦ rw q (rest ∙ ap (set_user (Dict.get by_user uid)) (rw q at one))
    ]

abbrev clear_user : Option (List Text) → Option User → Option User → Option User
clear_user (some ids) entry o = o
clear_user none none o = o
clear_user none (some u) o = some (with_ids [] u)

clear_found-get :
    (k : Text) (u : User) (users : Dict User) (uid : Text) (o : Option (List Text))
    → Dict.get (clear_found k u users o) uid
      ≡ (if str_eq k uid then clear_user o (some u) (Dict.get users uid) else Dict.get users uid)
clear_found-get k u users uid none = elim (Bool-cases (str_eq k uid)) [
  | inl q ↦ rw (Dict.get-put users k uid (with_ids [] u), q) refl
  | inr q ↦ rw (Dict.get-put users k uid (with_ids [] u), q) refl
]
clear_found-get k u users uid (some ids) = elim (Bool-cases (str_eq k uid)) [
  | inl q ↦ rw q refl
  | inr q ↦ rw q refl
]

clear_user-none : (o : Option (List Text)) (p : Option User) → clear_user o none p ≡ p
clear_user-none none p = refl
clear_user-none (some ids) p = refl

clear_device_ids-get :
    (by_user : Dict (List Text)) (entries users : Dict User) (uid : Text)
    → HasKeysOnce entries
    → Dict.get (clear_device_ids by_user entries users) uid
      ≡ clear_user (Dict.get by_user uid) (Dict.get entries uid) (Dict.get users uid)
unfolding clear_device_ids Dict.get
clear_device_ids-get by_user [] users uid h = sym (clear_user-none (Dict.get by_user uid) _)
clear_device_ids-get by_user ((k, u) ∷ entries) users uid h =
    let users' : Dict User = clear_found k u users (Dict.get by_user k) in
    let rest = clear_device_ids-get by_user entries users' uid h.1 in
    let one = clear_found-get k u users uid (Dict.get by_user k) in
    elim (Bool-cases (str_eq k uid)) [
      | inl q ↦
          let same : k ≡ uid = (str_eq_iff k uid).0 q in
          let gone : Dict.get entries uid ≡ none =
            subst (λ i. Dict.get entries i ≡ none) same h.0 in
          rw q (
            rest
            ∙ ap (λ o. clear_user (Dict.get by_user uid) o (Dict.get users' uid)) gone
            ∙ clear_user-none (Dict.get by_user uid) _
            ∙ (rw q at one)
            ∙ ap (λ i. clear_user (Dict.get by_user i) (some u) (Dict.get users uid)) same)
      | inr q ↦
          rw q (rest ∙ ap (clear_user (Dict.get by_user uid) (Dict.get entries uid)) (rw q at one))
    ]

listed :
    (o : Option (List Text)) (ids : List Text) (u : User)
    → list_of o ≡ ids
    → clear_user o (set_user o (some u)) (set_user o (some u))
      ≡ some (with_ids (sort_strings ids) u)
unfolding sort_strings slice_stable
listed none ids u e = ap (λ x. some (with_ids (sort_strings x) u)) e
listed (some l) ids u e = ap (λ x. some (with_ids (sort_strings x) u)) e

-- In a snapshot of data whose users have a key once, every user whose key is not empty lists
-- exactly the ids of the devices with that user id, sorted, and nothing else of the user changes.
pub populate_user_device_refs-ids_of :
    (d : PolicyData) (uid : Text) (u : User)
    → HasKeysOnce d.users
    → is_empty uid ≡ false
    → Dict.get d.users uid ≡ some u
    → Dict.get (populate_user_device_refs d).users uid
      ≡ some (record u { device_ids = sort_strings (ids_of uid d.devices) })
unfolding populate_user_device_refs Dict.get
populate_user_device_refs-ids_of d uid u once h g =
    let by_user = device_ids_by_user d.devices [] in
    let users = set_device_ids by_user d.users in
    let by_once = device_ids_by_user-HasKeysOnce d.devices [] tt in
    let set : Dict.get users uid ≡ set_user (Dict.get by_user uid) (some u) =
      set_device_ids-get by_user d.users uid by_once ∙ ap (set_user (Dict.get by_user uid)) g in
    clear_device_ids-get by_user users users uid (set_device_ids-HasKeysOnce by_user d.users once)
    ∙ ap (λ o. clear_user (Dict.get by_user uid) o o) set
    ∙ listed (Dict.get by_user uid) (ids_of uid d.devices) u
        (device_ids_by_user-list_of d.devices [] uid h)
