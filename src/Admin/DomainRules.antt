-- ===== src/Admin/DomainRules.antt =====
-- The domain rule handlers of internal/adminserver/adminserver.go.
use citadel_dnxproxy.Prelude.{
  Bool, true, false, not, ◌||◌, List, [], ◌∷◌, ◌++◌, Option, none, some, if◌then◌else◌, str_eq,
  filter_by,
}
use citadel_dnxproxy.Text.{Text, codes, is_empty}
use citadel_dnxproxy.Policy.Types.{DomainAction, DomainRule, PolicyData}
use citadel_dnxproxy.Policy.Store.{StoreError, mutation_failed}
use citadel_dnxproxy.Admin.{
  Server, Method, put, delete, Request, Draws, rule_body, Reply, write_json, write_error, update,
  Env,
}
use citadel_dnxproxy.Admin.Sessions.{post_only, not_allowed, invalid_json}
use citadel_dnxproxy.Admin.Users.{non_empty_or, done_ok, id_required}

-- `action == ""`
abbrev pub no_action : DomainAction → Bool
no_action (DomainAction.other []) = true
no_action _ = false

-- The rule that POST /domainrules stores and returns.
unfoldable pub new_rule : Draws → DomainRule → DomainRule
new_rule draws rule = record rule { id = non_empty_or rule.id draws.id }

-- The mutation of POST /domainrules.
unfoldable pub create_rule : DomainRule → PolicyData → PolicyData × Option StoreError
create_rule rule d = (record d { domain_rules = d.domain_rules ++ rule ∷ [] }, none)

-- The mutation of DELETE /domainrules/<id>.
unfoldable pub delete_rule : Text → PolicyData → PolicyData × Option StoreError
delete_rule id d =
    (record d { domain_rules = filter_by (λ rule. not (str_eq rule.id id)) d.domain_rules }, none)

-- The fields that PUT /domainrules/<id> changes where the body gives them.
unfoldable pub changed_rule : DomainRule → DomainRule → DomainRule
changed_rule req rule = record rule {
  user_id = non_empty_or req.user_id rule.user_id;
  pattern = non_empty_or req.pattern rule.pattern;
  action = if no_action req.action then rule.action else req.action;
  notes = non_empty_or req.notes rule.notes;
}

abbrev with_first : DomainRule → Option (List DomainRule) → Option (List DomainRule)
with_first rule none = none
with_first rule (some rules) = some (rule ∷ rules)

-- The loop to the first rule with the id, `none` where there is none.
unfoldable pub update_first : Text → DomainRule → List DomainRule → Option (List DomainRule)
unfolding changed_rule
update_first id req [] = none
update_first id req (rule ∷ rules) =
    let rest = update_first id req rules in
    if str_eq rule.id id then some (changed_rule req rule ∷ rules) else with_first rule rest

abbrev pub found_rules : PolicyData → Option (List DomainRule) → PolicyData × Option StoreError
found_rules d none = (d, some (mutation_failed (codes "rule not found")))
found_rules d (some rules) = (record d { domain_rules = rules }, none)

-- The mutation of PUT /domainrules/<id>.
unfoldable pub update_rule : Text → DomainRule → PolicyData → PolicyData × Option StoreError
update_rule id req d = found_rules d (update_first id req d.domain_rules)

module _ (env : Env) (draws : Draws) where
  abbrev pub post_rule : Option DomainRule → Server → Server × Reply
  post_rule none s = (s, invalid_json)
  post_rule (some req) s =
      let rule = new_rule draws req in
      if is_empty rule.user_id || is_empty rule.pattern || no_action rule.action
      then (s, write_error 400 (codes "user_id, pattern, action required"))
      else update env (create_rule rule) 500 (write_json 201 (rule_body rule)) s

  unfoldable pub domain_rules_handler : Request → Server → Server × Reply
  domain_rules_handler r s = post_only r.method s (post_rule (env.json.domain_rule r.body) s)

  abbrev pub put_rule : Text → Option DomainRule → Server → Server × Reply
  put_rule id none s = (s, invalid_json)
  put_rule id (some req) s = update env (update_rule id req) 400 done_ok s

  abbrev pub rule_by_method : Text → Request → Method → Server → Server × Reply
  rule_by_method id r put s = put_rule id (env.json.domain_rule r.body) s
  rule_by_method id r delete s = update env (delete_rule id) 500 done_ok s
  rule_by_method id r _ s = (s, not_allowed)

  -- `domainRuleHandler`, with the id behind "/domainrules/"
  unfoldable pub domain_rule_handler : Text → Request → Server → Server × Reply
  domain_rule_handler id r s =
      if is_empty id then (s, id_required) else rule_by_method id r r.method s
