-- ===== src/Policy/Compiler/UserRules.antt =====
-- The domain rules that a compiled runtime holds for a user.
use mathlib.Core.List.{append-nil, append_assoc}
use citadel_dnxproxy.Prelude.{
  ◌≡◌, refl, ◌∙◌, sym, ap, true, false, List, [], ◌∷◌, ◌++◌, Option, inl, inr, str_eq, str_eq_iff,
  filter_by, Bool-cases, true-ne-false, if◌then◌else◌,
}
use citadel_dnxproxy.Prelude.Dict
use citadel_dnxproxy.Prelude.Dict.{Dict}
use citadel_dnxproxy.Clock.{Location}
use citadel_dnxproxy.Text.{Text, is_empty}
use citadel_dnxproxy.Policy.Types.{User, Device, DomainRule, PolicyData}
use citadel_dnxproxy.Policy.Evaluator.{Runtime, list_of}
use citadel_dnxproxy.Policy.Compiler.{
  compile, append_to, add_user, add_device, add_rule, add_users, add_devices, add_rules,
}

abbrev rules_of : Runtime → Text → List DomainRule
rules_of rt user_id = list_of (Dict.get rt.rules_by_user user_id)

abbrev pub owned_by : Text → List DomainRule → List DomainRule
owned_by user_id = filter_by (λ (r : DomainRule). str_eq r.user_id user_id)

pub append_to-get :
    {V : Type 0} (m : Dict (List V)) (k j : Text) (values : List V)
    → list_of (Dict.get (append_to m k values) j)
      ≡ list_of (Dict.get m j) ++ (if str_eq k j then values else [])
append_to-get m k j values = elim (Bool-cases (str_eq k j)) [
  | inl e ↦
      let same : k ≡ j = (str_eq_iff k j).0 e in
      rw (Dict.get-put m k j (list_of (Dict.get m k) ++ values), e, same) refl
  | inr e ↦
      rw (Dict.get-put m k j (list_of (Dict.get m k) ++ values), e)
        (sym (append-nil (list_of (Dict.get m j))))
]

pub str_eq-empty : (a b : Text) → is_empty a ≡ true → is_empty b ≡ false → str_eq a b ≡ false
str_eq-empty a b p q = elim (Bool-cases (str_eq a b)) [
  | inl e ↦ absurd (true-ne-false (sym (ap is_empty ((str_eq_iff a b).0 e)) ∙ p) q)
  | inr e ↦ e
]

add_rule-rules_of :
    (user_id : Text) (r : DomainRule) (rt : Runtime)
    → is_empty user_id ≡ false
    → rules_of (add_rule r rt) user_id ≡ rules_of rt user_id ++ owned_by user_id (r ∷ [])
unfolding add_rule filter_by
add_rule-rules_of user_id r rt h = elim (Bool-cases (is_empty r.user_id)) [
  | inl e ↦ rw (e, str_eq-empty r.user_id user_id e h) (sym (append-nil (rules_of rt user_id)))
  | inr e ↦ rw e (append_to-get rt.rules_by_user r.user_id user_id (r ∷ []))
]

owned_by-cons :
    (user_id : Text) (r : DomainRule) (rules : List DomainRule)
    → owned_by user_id (r ∷ []) ++ owned_by user_id rules ≡ owned_by user_id (r ∷ rules)
unfolding filter_by
owned_by-cons user_id r rules = elim (Bool-cases (str_eq r.user_id user_id)) [
  | inl e ↦ rw e refl
  | inr e ↦ rw e refl
]

add_rules-rules_of :
    (user_id : Text) (rules : List DomainRule) (rt : Runtime)
    → is_empty user_id ≡ false
    → rules_of (add_rules rules rt) user_id ≡ rules_of rt user_id ++ owned_by user_id rules
unfolding add_rules filter_by
add_rules-rules_of user_id [] rt h = sym (append-nil _)
add_rules-rules_of user_id (r ∷ rules) rt h =
    add_rules-rules_of user_id rules (add_rule r rt) h
    ∙ ap (λ l. l ++ owned_by user_id rules) (add_rule-rules_of user_id r rt h)
    ∙ append_assoc (rules_of rt user_id) (owned_by user_id (r ∷ [])) (owned_by user_id rules)
    ∙ ap (λ l. rules_of rt user_id ++ l) (owned_by-cons user_id r rules)

add_devices-rules :
    (devices : Dict Device) (rt : Runtime)
    → (add_devices devices rt).rules_by_user ≡ rt.rules_by_user
unfolding add_devices add_device
add_devices-rules [] rt = refl
add_devices-rules ((id, d) ∷ devices) rt = add_devices-rules devices _

add_users-rules :
    (users : Dict User) (rt : Runtime) → (add_users users rt).rules_by_user ≡ rt.rules_by_user
unfolding add_users add_user
add_users-rules [] rt = refl
add_users-rules ((id, u) ∷ users) rt = add_users-rules users _

-- The runtime that Compile makes holds, for every user id that is not empty, exactly the domain
-- rules of the data with that user id, in their order.
pub compile-rules_by_user :
    (load_location : Text → Option Location) (local : Location) (d : PolicyData) (user_id : Text)
    → is_empty user_id ≡ false
    → list_of (Dict.get (compile load_location local d).rules_by_user user_id)
      ≡ owned_by user_id d.domain_rules
unfolding compile Dict.get
compile-rules_by_user load_location local d user_id h =
    add_rules-rules_of user_id d.domain_rules _ h
    ∙ ap (λ m. list_of (Dict.get m user_id) ++ owned_by user_id d.domain_rules)
        (add_devices-rules d.devices _ ∙ add_users-rules d.users _)
