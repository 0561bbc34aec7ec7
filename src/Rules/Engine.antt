-- ===== src/Rules/Engine.antt =====
-- The rules engine: `EvaluateRules`, `Evaluate` and `Explain`.
pub mod InOrder
pub mod Precedence
use citadel_dnxproxy.Prelude.{
  ℕ, suc, Bool, true, false, List, [], ◌∷◌, Option, none, some, if◌then◌else◌,
}
use citadel_dnxproxy.Prelude.Int.{ℤ, pos, negsuc}
use citadel_dnxproxy.Prelude.Result.{Result, ok, err, ◌>>=◌}
use citadel_dnxproxy.Clock.{Location, Time}
use citadel_dnxproxy.Config.{ActionType, Rule, Host, Domain, Config, is_none}
use citadel_dnxproxy.Text.{Text}
use citadel_dnxproxy.TimeSpan.Days.{SpanError}
use citadel_dnxproxy.Rules.Span.{EvalResult, plain, evaluate_rule}
use citadel_dnxproxy.Rules.Pick.{DeviceNames, device_name, pick_best_host, pick_best_domain}

-- `Trace`
pub record Trace : Type 0 where
  pub device_name : Text
  pub host_pattern : Text
  pub host_rule_index : ℤ
  pub domain_pattern : Text
  pub domain_host_pattern : Text
  pub domain_host_rule_index : ℤ
  pub time_span : Text
  pub time_span_matched : Bool
  pub final_action : ActionType
  pub default_rule_fallback : Bool

-- The three results of `evaluateInternal`.
pub record Outcome : Type 0 where
  pub trace : Option Trace
  pub action : ActionType
  pub error : Option SpanError

-- The engine's fields (`now` is its clock's reading and `local` is time.Local).
pub record Engine : Type 0 where
  pub conf : Config
  pub device_names : DeviceNames
  pub now : Time
  pub local : Location

abbrev pub trace_or_nil : Bool → Trace → Option Trace
trace_or_nil true tr = some tr
trace_or_nil false tr = none

abbrev name_or_empty : Option Text → Text
name_or_empty none = []
name_or_empty (some name) = name

module _ (load_location : Text → Option Location) (re : Engine) where
  -- The loop of `EvaluateRules` from index `idx` on: the action, the index and the result of the
  -- first rule that gives an action, or None with index -1.
  unfoldable pub evaluate_from : ℕ → List Rule → Result SpanError (ActionType × ℤ × EvalResult)
  evaluate_from idx [] = ok (ActionType.none, negsuc 0, plain ActionType.none)
  evaluate_from idx (r ∷ rules) = do
    res ← evaluate_rule load_location r re.now re.local
    if is_none res.action then evaluate_from (suc idx) rules else ok (res.action, pos idx, res)

  unfoldable pub evaluate_rules : List Rule → Result SpanError (ActionType × ℤ × EvalResult)
  unfolding evaluate_from
  evaluate_rules = evaluate_from 0

  unfoldable pub fall_back : Bool → Trace → Outcome
  fall_back explain tr = record {
    trace = trace_or_nil explain (record tr { default_rule_fallback = true });
    action = re.conf.default_rule;
    error = none;
  }

  -- A rules error: the trace so far, the action for errors, and the error.
  unfoldable pub fail : Trace → SpanError → Outcome
  fail tr e = record { trace = some tr; action = re.conf.on_error_rule; error = some e }

  -- The host picked within the domain: whatever its rules give is the answer, None too.
  unfoldable pub domain_host_rules :
      Bool → Trace → Result SpanError (ActionType × ℤ × EvalResult) → Outcome
  unfolding fail
  domain_host_rules explain tr (err e) = fail tr e
  domain_host_rules explain tr (ok (act, idx, res)) = record {
    trace = trace_or_nil explain (record tr {
      domain_host_rule_index = idx;
      time_span = res.time_span;
      time_span_matched = res.time_matched;
      final_action = act;
      default_rule_fallback = false;
    });
    action = act;
    error = none;
  }

  unfoldable pub domain_host : Bool → Trace → Option Host → Outcome
  unfolding domain_host_rules fall_back
  domain_host explain tr none = fall_back explain tr
  domain_host explain tr (some h) =
      domain_host_rules explain (record tr { domain_host_pattern = h.name })
        (evaluate_rules h.rules)

  unfoldable pub domain_stage : Bool → Text → Trace → Option Domain → Outcome
  unfolding domain_host fall_back
  domain_stage explain host tr none = fall_back explain tr
  domain_stage explain host tr (some d) =
      domain_host explain (record tr { domain_pattern = d.name })
        (pick_best_host re.device_names host d.hosts)

  -- The host picked among the top-level hosts: its rules decide if they give an action.
  unfoldable pub host_rules :
      Bool → Trace → Result SpanError (ActionType × ℤ × EvalResult) → Outcome → Outcome
  unfolding fail
  host_rules explain tr (err e) next = fail tr e
  host_rules explain tr (ok (act, idx, res)) next = if is_none act then next else record {
    trace = trace_or_nil explain (record tr {
      host_rule_index = idx;
      time_span = res.time_span;
      time_span_matched = res.time_matched;
      final_action = act;
      default_rule_fallback = false;
    });
    action = act;
    error = none;
  }

  unfoldable pub host_stage : Bool → Text → Text → Trace → Option Host → Outcome
  unfolding host_rules domain_stage
  host_stage explain domain host tr none =
      domain_stage explain host tr (pick_best_domain domain re.conf.domains)
  host_stage explain domain host tr (some h) =
      let tr' = record tr { host_pattern = h.name } in
      host_rules explain tr' (evaluate_rules h.rules)
        (domain_stage explain host tr' (pick_best_domain domain re.conf.domains))

  abbrev first_trace : Text → Trace
  first_trace host = record {
    device_name = name_or_empty (device_name re.device_names host);
    host_pattern = [];
    host_rule_index = pos 0;
    domain_pattern = [];
    domain_host_pattern = [];
    domain_host_rule_index = pos 0;
    time_span = [];
    time_span_matched = false;
    final_action = re.conf.default_rule;
    default_rule_fallback = false;
  }

  unfoldable pub evaluate_internal : Bool → Text → Text → Outcome
  unfolding host_stage
  evaluate_internal explain domain host =
      host_stage explain domain host (first_trace host)
        (pick_best_host re.device_names host re.conf.hosts)

  -- What `Evaluate` makes of the three results.
  abbrev answer : Outcome → ActionType × Option SpanError
  answer o = elim o.error [ none ↦ (o.action, none) | some e ↦ (re.conf.on_error_rule, some e) ]

  unfoldable pub evaluate : Text → Text → ActionType × Option SpanError
  evaluate domain host = answer (evaluate_internal false domain host)

  unfoldable pub explain : Text → Text → Outcome
  explain domain host = evaluate_internal true domain host
