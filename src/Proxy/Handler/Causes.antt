-- ===== src/Proxy/Handler/Causes.antt =====
-- Which test decides a request.
use citadel_dnxproxy.Prelude.{
  ◌≡◌, refl, ◌∙◌, sym, ◌↔◌, Bool, true, false, [], Option, none, some, if◌then◌else◌,
}
use citadel_dnxproxy.Clock.{Location}
use citadel_dnxproxy.Config.{ActionType, blocked_time_span, is_blocking_action}
use citadel_dnxproxy.Text.{Text}
use citadel_dnxproxy.Policy.Types.{User, PolicyData, Reason, outside_window, config_block}
use citadel_dnxproxy.Policy.TimeWindow.{in_time_span}
use citadel_dnxproxy.Policy.Store.{StoreError, JsonStore}
use citadel_dnxproxy.Policy.Evaluator.{in_allow_window, match_domain_rule}
use citadel_dnxproxy.Proxy.Handler.{
  Verdict, PolicyLayer, is_no_reason, window_step, budget_step, user_steps, user_at, with_reason,
  judge,
}
use citadel_dnxproxy.Proxy.Handler.Steps.{
  blocks, reason_by, Accounted, budget_refuses, store_after, accounted, rest_steps,
  rest_steps-blocked, rest_steps-Says, Says, with_reason-Says, config-Says,
}

-- What judges a request of a user: the allow windows, the engine's action, the budget and the
-- domain rules, the first that objects.
module _ (load_location : Text → Option Location) (write : PolicyData → Option StoreError)
    (l : PolicyLayer) (store : JsonStore) (domain : Text) (action : ActionType) where
  abbrev pub in_window : User → Bool
  in_window user =
      in_allow_window l.runtime.policies user.id l.window_now (in_time_span load_location)

  -- The accounting of the request, which only takes place for a request that nothing stops yet.
  abbrev pub charge : User → Accounted
  charge user =
      if in_window user
      then if is_blocking_action action
        then none
        else accounted write l.runtime.accounts user l.account_now store
      else none

  abbrev pub reason_for : User → Reason
  reason_for user =
      reason_by (in_window user) (is_blocking_action action) (budget_refuses (charge user))
        (blocks (match_domain_rule l.runtime.policies user.id domain))

  -- The verdict for a user, if there is one, and without a user.
  abbrev pub Judged : Option User → Verdict → Type 0
  Judged none v = Says store (if is_blocking_action action then config_block else Reason.none) v
  Judged (some user) v = Says (store_after store (charge user)) (reason_for user) v

  abbrev user_start : User → Verdict
  user_start user = record {
    action = action;
    reason = Reason.none;
    user_id = user.id;
    user_name = user.name;
    store = store;
  }

  abbrev charge_by : Bool → Bool → User → Accounted
  charge_by w e user =
      if w
      then if e then none else accounted write l.runtime.accounts user l.account_now store
      else none

  abbrev rule_blocks : User → Bool
  rule_blocks user = blocks (match_domain_rule l.runtime.policies user.id domain)

  abbrev windowed : Bool → User → Verdict
  windowed w user =
      if w
      then user_start user
      else record (user_start user) { action = blocked_time_span; reason = outside_window }

  windowed-Says :
      (user : User) (w e : Bool)
      → is_blocking_action action ≡ e
      → Says
          (store_after store (charge_by w e user))
          (reason_by w e (budget_refuses (charge_by w e user)) (rule_blocks user))
          (rest_steps write l user domain (windowed w user))
  unfolding is_no_reason is_blocking_action
  windowed-Says user false e h =
      rw (rest_steps-blocked write l user domain (windowed false user) refl)
        (with_reason-Says outside_window (windowed false user) store refl refl refl)
  windowed-Says user true true h =
      rw (rest_steps-blocked write l user domain (user_start user) h)
        (config-Says (user_start user) refl h)
  windowed-Says user true false h = rest_steps-Says write l user domain (user_start user) refl h

  abbrev start : Verdict
  start = record {
    action = action;
    reason = Reason.none;
    user_id = [];
    user_name = [];
    store = store;
  }

  engine_by-Says :
      (e : Bool)
      → is_blocking_action action ≡ e
      → Says store (if e then config_block else Reason.none) (with_reason start)
  unfolding is_no_reason
  engine_by-Says true h = config-Says start refl h
  engine_by-Says false h = with_reason-Says Reason.none start store refl h refl

  judge_for :
      (o : Option User) → Judged o (with_reason (user_steps load_location write l domain start o))
  unfolding user_steps window_step budget_step
  judge_for none = engine_by-Says (is_blocking_action action) refl
  judge_for (some user) = windowed-Says user (in_window user) (is_blocking_action action) refl

  -- The handler's verdict on a request of a device with a user is that of the first of four tests
  -- that objects, in this order: the allow windows, the action of the rules engine, the budget,
  -- the user's domain rules; the accounting runs exactly if neither of the first two objects.
  -- Without a user the verdict is the engine's and nothing is accounted. It blocks exactly if it
  -- has a reason.
  pub judge-Judged :
      (client_addr : Text)
      → Judged
          (user_at l.runtime.policies client_addr)
          (judge load_location write l store domain client_addr action)
  unfolding judge
  judge-Judged client_addr = judge_for (user_at l.runtime.policies client_addr)

  says-passes_iff :
      (o : Option User) (v : Verdict)
      → Judged o v
      → (is_blocking_action v.action ≡ false) ↔ (v.reason ≡ Reason.none)
  says-passes_iff none v j =
      (λ p. j.reason ∙ j.passes_iff.0 p, λ p. j.passes_iff.1 (sym j.reason ∙ p))
  says-passes_iff (some user) v j =
      (λ p. j.reason ∙ j.passes_iff.0 p, λ p. j.passes_iff.1 (sym j.reason ∙ p))

  pub judge-passes_iff :
      (client_addr : Text)
      → let v = judge load_location write l store domain client_addr action in
        (is_blocking_action v.action ≡ false) ↔ (v.reason ≡ Reason.none)
  judge-passes_iff client_addr =
      says-passes_iff (user_at l.runtime.policies client_addr) _ (judge-Judged client_addr)
