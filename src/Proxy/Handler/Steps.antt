-- ===== src/Proxy/Handler/Steps.antt =====
-- The steps of the handler's verdict one by one.
use citadel_dnxproxy.Prelude.{
  ◌≡◌, refl, ◌∙◌, sym, ap, subst, ◌↔◌, Bool, true, false, Option, none, some, arith, if◌then◌else◌,
  not,
}
use citadel_dnxproxy.Clock.{Time}
use citadel_dnxproxy.Config.{is_blocking_action}
use citadel_dnxproxy.Text.{Text}
use citadel_dnxproxy.Policy.Types.{
  User, DomainAction, DomainRule, PolicyData, Reason, budget_exceeded, outside_window, policy_block,
  config_block,
}
use citadel_dnxproxy.Policy.Store.{StoreError, JsonStore}
use citadel_dnxproxy.Policy.Evaluator.{match_domain_rule}
use citadel_dnxproxy.Accounting.{Decision, Manager, process_request}
use citadel_dnxproxy.Accounting.Requests.{process_request-IsApplied}
use citadel_dnxproxy.Proxy.Handler.{
  Verdict, PolicyLayer, is_no_reason, charged, budget_of, apply_action, apply_rule, rule_step,
  with_reason,
}

abbrev is_block : DomainAction → Bool
is_block DomainAction.block = true
is_block _ = false

-- A rule that blocks.
abbrev pub blocks : Option DomainRule → Bool
blocks none = false
blocks (some rule) = is_block rule.action

-- The result of an accounting that counts against the request.
abbrev pub refuses : JsonStore × Decision × Option StoreError → Bool
refuses (s, dec, none) = dec.blocked
refuses (s, dec, some e) = false

-- The reason of a request by its four tests, in the order of precedence.
abbrev pub reason_by : Bool → Bool → Bool → Bool → Reason
reason_by in_window engine_blocks budget_refuses rule_blocks =
    if in_window
    then if engine_blocks
      then config_block
      else if budget_refuses
      then budget_exceeded
      else if rule_blocks
      then policy_block
      else Reason.none
    else outside_window

pub charged-reason :
    (v : Verdict) (r : JsonStore × Decision × Option StoreError)
    → (r.1.blocked ≡ true → r.1.reason ≡ budget_exceeded)
    → v.reason ≡ Reason.none
    → is_blocking_action v.action ≡ false
    → ((charged v r).reason ≡ (if refuses r then budget_exceeded else Reason.none))
      × (is_blocking_action (charged v r).action ≡ refuses r)
      × ((charged v r).store ≡ r.0)
unfolding charged is_blocking_action
charged-reason v (s, dec, none) h e a = ground arith
charged-reason v (s, dec, some x) h e a = ground arith

pub apply_action-reason :
    (a : DomainAction) (v : Verdict)
    → v.reason ≡ Reason.none
    → is_blocking_action v.action ≡ false
    → ((apply_action a v).reason ≡ (if is_block a then policy_block else Reason.none))
      × (is_blocking_action (apply_action a v).action ≡ is_block a)
      × ((apply_action a v).store ≡ v.store)
unfolding apply_action is_blocking_action
apply_action-reason DomainAction.block v e a = (refl, refl, refl)
apply_action-reason DomainAction.allow v e a = (e, refl, refl)
apply_action-reason (DomainAction.other _) v e a = (e, a, refl)

pub apply_rule-reason :
    (o : Option DomainRule) (v : Verdict)
    → v.reason ≡ Reason.none
    → is_blocking_action v.action ≡ false
    → ((apply_rule o v).reason ≡ (if blocks o then policy_block else Reason.none))
      × (is_blocking_action (apply_rule o v).action ≡ blocks o)
      × ((apply_rule o v).store ≡ v.store)
unfolding apply_rule
apply_rule-reason none v e a = (e, a, refl)
apply_rule-reason (some r) v e a = apply_action-reason r.action v e a

-- The accounting of a request, where there is a manager.
abbrev pub Accounted : Type 0
Accounted = Option (JsonStore × Decision × Option StoreError)

abbrev pub budget_refuses : Accounted → Bool
budget_refuses none = false
budget_refuses (some r) = refuses r

abbrev pub store_after : JsonStore → Accounted → JsonStore
store_after s none = s
store_after s (some r) = r.0

abbrev pub accounted :
    (PolicyData → Option StoreError) → Option Manager → User → Time → JsonStore → Accounted
accounted write none user now s = none
accounted write (some m) user now s = some (process_request write m user now s)

pub process_request-reason :
    (write : PolicyData → Option StoreError) (m : Manager) (user : User) (now : Time)
    (s : JsonStore)
    → let r = process_request write m user now s in
      r.1.blocked ≡ true → r.1.reason ≡ budget_exceeded
process_request-reason write m user now s =
    (process_request-IsApplied write m user now s).0.settled.blocked_reason

pub budget_of-reason :
    (write : PolicyData → Option StoreError) (accounts : Option Manager) (user : User) (now : Time)
    (v : Verdict)
    → v.reason ≡ Reason.none
    → is_blocking_action v.action ≡ false
    → let a = accounted write accounts user now v.store in
      let v' = budget_of write accounts user now v in
      (v'.reason ≡ (if budget_refuses a then budget_exceeded else Reason.none))
      × (is_blocking_action v'.action ≡ budget_refuses a)
      × (v'.store ≡ store_after v.store a)
unfolding budget_of
budget_of-reason write none user now v e a = (e, a, refl)
budget_of-reason write (some m) user now v e a = rw a (
    charged-reason v (process_request write m user now v.store)
      (process_request-reason write m user now v.store) e a)

pub budget_of-blocked :
    (write : PolicyData → Option StoreError) (accounts : Option Manager) (user : User) (now : Time)
    (v : Verdict)
    → is_blocking_action v.action ≡ true
    → budget_of write accounts user now v ≡ v
unfolding budget_of
budget_of-blocked write none user now v a = refl
budget_of-blocked write (some m) user now v a = rw a refl

pub rule_step-blocked :
    (l : PolicyLayer) (user : User) (domain : Text) (v : Verdict)
    → is_blocking_action v.action ≡ true
    → rule_step l user domain v ≡ v
unfolding rule_step
rule_step-blocked l user domain v a = rw a refl

pub rule_step-reason :
    (l : PolicyLayer) (user : User) (domain : Text) (v : Verdict)
    → v.reason ≡ Reason.none
    → is_blocking_action v.action ≡ false
    → let o = match_domain_rule l.runtime.policies user.id domain in
      let v' = rule_step l user domain v in
      (v'.reason ≡ (if blocks o then policy_block else Reason.none))
      × (is_blocking_action v'.action ≡ blocks o)
      × (v'.store ≡ v.store)
unfolding rule_step
rule_step-reason l user domain v e a =
    rw a (apply_rule-reason (match_domain_rule l.runtime.policies user.id domain) v e a)

-- What a verdict says: its reason, that it blocks exactly if there is one, and its store.
pub record Says (store : JsonStore) (r : Reason) (v : Verdict) : Type 0 where
  pub reason : v.reason ≡ r
  pub passes_iff : (is_blocking_action v.action ≡ false) ↔ (r ≡ Reason.none)
  pub store_is : v.store ≡ store

pub with_reason-kept :
    (v : Verdict) → is_blocking_action v.action ≡ not (is_no_reason v.reason) → with_reason v ≡ v
unfolding with_reason
with_reason-kept v h = ground arith

pub passes-none :
    (r : Reason) (v : Verdict)
    → is_blocking_action v.action ≡ not (is_no_reason r)
    → (is_blocking_action v.action ≡ false) ↔ (r ≡ Reason.none)
unfolding is_no_reason
passes-none Reason.none v h = (λ _. refl, λ _. h)
passes-none budget_exceeded v h = (λ p. cc, λ p. cc)
passes-none outside_window v h = (λ p. cc, λ p. cc)
passes-none policy_block v h = (λ p. cc, λ p. cc)
passes-none config_block v h = (λ p. cc, λ p. cc)

-- A verdict whose action goes with its reason stays as it is.
pub with_reason-Says :
    (r : Reason) (v : Verdict) (store : JsonStore)
    → v.reason ≡ r
    → is_blocking_action v.action ≡ not (is_no_reason r)
    → v.store ≡ store
    → Says store r (with_reason v)
with_reason-Says r v store e a s =
    subst (Says store r) (sym (with_reason-kept v (a ∙ ap (λ x. not (is_no_reason x)) (sym e))))
      (record { reason = e; passes_iff = passes-none r v a; store_is = s })

pub with_reason-config :
    (v : Verdict)
    → v.reason ≡ Reason.none
    → is_blocking_action v.action ≡ true
    → with_reason v ≡ record v { reason = config_block }
unfolding with_reason is_no_reason
with_reason-config v e a = ground (arith, e, a)

pub config-Says :
    (v : Verdict)
    → v.reason ≡ Reason.none
    → is_blocking_action v.action ≡ true
    → Says v.store config_block (with_reason v)
config-Says v e a =
    subst (Says v.store config_block) (sym (with_reason-config v e a))
      (record { reason = refl; passes_iff = (λ p. cc, λ p. cc); store_is = refl })

pub blocks_reason : (b : Bool) → b ≡ not (is_no_reason (if b then policy_block else Reason.none))
unfolding is_no_reason
blocks_reason true = refl
blocks_reason false = refl

pub after_budget-Says :
    (l : PolicyLayer) (user : User) (domain : Text) (refused : Bool) (v : Verdict)
    (store : JsonStore)
    → v.reason ≡ (if refused then budget_exceeded else Reason.none)
    → is_blocking_action v.action ≡ refused
    → v.store ≡ store
    → Says store
        (reason_by true false refused
          (blocks (match_domain_rule l.runtime.policies user.id domain)))
        (with_reason (rule_step l user domain v))
unfolding is_no_reason
after_budget-Says l user domain true v store e a s =
    rw (rule_step-blocked l user domain v a) (with_reason-Says budget_exceeded v store e a s)
after_budget-Says l user domain false v store e a s =
    let (r1, b1, s1) = rule_step-reason l user domain v e a in
    with_reason-Says _ _ store r1
      (b1 ∙ blocks_reason (blocks (match_domain_rule l.runtime.policies user.id domain))) (s1 ∙ s)

-- The rest of the user's steps, behind the window.
module _ (write : PolicyData → Option StoreError) (l : PolicyLayer) (user : User)
    (domain : Text) where
  abbrev pub rest_steps : Verdict → Verdict
  rest_steps v =
      with_reason
        (rule_step l user domain (budget_of write l.runtime.accounts user l.account_now v))

  pub rest_steps-blocked :
      (v : Verdict) → is_blocking_action v.action ≡ true → rest_steps v ≡ with_reason v
  rest_steps-blocked v a =
      rw
        (
          budget_of-blocked write l.runtime.accounts user l.account_now v a,
          rule_step-blocked l user domain v a,
        )
        refl

  pub rest_steps-Says :
      (v : Verdict)
      → v.reason ≡ Reason.none
      → is_blocking_action v.action ≡ false
      → let a = accounted write l.runtime.accounts user l.account_now v.store in
        Says
          (store_after v.store a)
          (reason_by true false
            (budget_refuses a)
            (blocks (match_domain_rule l.runtime.policies user.id domain)))
          (rest_steps v)
  rest_steps-Says v e a =
      let (r1, b1, s1) = budget_of-reason write l.runtime.accounts user l.account_now v e a in
      after_budget-Says l user domain _ _ _ r1 b1 s1
