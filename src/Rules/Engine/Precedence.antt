-- ===== src/Rules/Engine/Precedence.antt =====
-- The precedence model in the head comment of rulesengine.go, as a relation, and that the engine
-- decides by it.
use citadel_dnxproxy.Prelude.{
  ℕ, ◌≡◌, refl, subst, ◌⊎◌, inl, inr, Bool, true, false, Option, none, some, arith,
}
use citadel_dnxproxy.Prelude.Int.{ℤ}
use citadel_dnxproxy.Prelude.Result.{Result, ok, err}
use citadel_dnxproxy.Clock.{Location}
use citadel_dnxproxy.Config.{ActionType, Host, Domain}
use citadel_dnxproxy.Text.{Text}
use citadel_dnxproxy.TimeSpan.Days.{SpanError}
use citadel_dnxproxy.Rules.Span.{EvalResult}
use citadel_dnxproxy.Rules.Pick.{pick_best_host, pick_best_domain}
use citadel_dnxproxy.Rules.Engine.{
  Engine, Outcome, Trace, answer, evaluate, explain, evaluate_internal, evaluate_rules, host_stage,
  host_rules, domain_stage, domain_host, domain_host_rules,
}
use citadel_dnxproxy.Rules.Engine.InOrder.{Fires, Silent, Fails, InOrder, evaluate_rules-InOrder}

module _ (load_location : Text → Option Location) (re : Engine) (domain host : Text) where
  -- No top-level host matches, or the most specific one that does stays silent.
  abbrev pub NoHostRule : Type 0
  NoHostRule =
      (pick_best_host re.device_names host re.conf.hosts ≡ none)
      ⊎ ((h : Host) × (pick_best_host re.device_names host re.conf.hosts ≡ some h)
          × Silent load_location re h.rules)

  -- `h` is the most specific host within the most specific domain that matches.
  abbrev pub DomainHost : Host → Type 0
  DomainHost h =
      (d : Domain) × (pick_best_domain domain re.conf.domains ≡ some d)
      × (pick_best_host re.device_names host d.hosts ≡ some h)

  abbrev pub NoDomainHost : Type 0
  NoDomainHost =
      (pick_best_domain domain re.conf.domains ≡ none)
      ⊎ ((d : Domain) × (pick_best_domain domain re.conf.domains ≡ some d)
          × (pick_best_host re.device_names host d.hosts ≡ none))

  pub data Decides : ActionType → Option SpanError → Type 0 where
    host_rule :
        {h : Host} {k : ℕ} {res : EvalResult} {act : ActionType}
        → pick_best_host re.device_names host re.conf.hosts ≡ some h
        → Fires load_location re h.rules k res
        → act ≡ res.action
        → Decides act none
    host_error :
        {h : Host} {e : SpanError}
        → pick_best_host re.device_names host re.conf.hosts ≡ some h
        → Fails load_location re h.rules e
        → Decides re.conf.on_error_rule (some e)
    domain_rule :
        {h : Host} {k : ℕ} {res : EvalResult} {act : ActionType}
        → NoHostRule
        → DomainHost h
        → Fires load_location re h.rules k res
        → act ≡ res.action
        → Decides act none
    domain_silent :
        {h : Host} {act : ActionType}
        → NoHostRule
        → DomainHost h
        → Silent load_location re h.rules
        → act ≡ ActionType.none
        → Decides act none
    domain_error :
        {h : Host} {e : SpanError}
        → NoHostRule
        → DomainHost h
        → Fails load_location re h.rules e
        → Decides re.conf.on_error_rule (some e)
    default : NoHostRule → NoDomainHost → Decides re.conf.default_rule none

  abbrev Decided : Outcome → Type 0
  Decided o = Decides o.action o.error

  domain_host_rules-Decides :
      (x : Bool) (tr : Trace) (h : Host) (o : Result SpanError (ActionType × ℤ × EvalResult))
      → NoHostRule
      → DomainHost h
      → InOrder load_location re 0 h.rules o
      → Decided (domain_host_rules load_location re x tr o)
  unfolding domain_host_rules
  domain_host_rules-Decides x tr h (err e) n d f = domain_error n d f
  domain_host_rules-Decides x tr h (ok (act, idx, res)) n d (inl (k, f, a, _, _)) =
      domain_rule n d f a
  domain_host_rules-Decides x tr h (ok (act, idx, res)) n d (inr (s, a, _, _)) =
      domain_silent n d s a

  domain_host-Decides :
      (x : Bool) (tr : Trace) (d : Domain) (o : Option Host)
      → NoHostRule
      → pick_best_domain domain re.conf.domains ≡ some d
      → pick_best_host re.device_names host d.hosts ≡ o
      → Decided (domain_host load_location re x tr o)
  unfolding domain_host
  domain_host-Decides x tr d none n e p = default n (inr (d, e, p))
  domain_host-Decides x tr d (some h) n e p =
      domain_host_rules-Decides x _ h (evaluate_rules load_location re h.rules) n (d, e, p)
        (evaluate_rules-InOrder load_location re h.rules)

  domain_stage-Decides :
      (x : Bool) (tr : Trace) (o : Option Domain)
      → NoHostRule
      → pick_best_domain domain re.conf.domains ≡ o
      → Decided (domain_stage load_location re x host tr o)
  unfolding domain_stage
  domain_stage-Decides x tr none n e = default n (inl e)
  domain_stage-Decides x tr (some d) n e = domain_host-Decides x _ d _ n e refl

  host_rules-Decides :
      (x : Bool) (tr : Trace) (h : Host) (o : Result SpanError (ActionType × ℤ × EvalResult))
      (next : Outcome)
      → pick_best_host re.device_names host re.conf.hosts ≡ some h
      → InOrder load_location re 0 h.rules o
      → (NoHostRule → Decided next)
      → Decided (host_rules load_location re x tr o next)
  unfolding host_rules
  host_rules-Decides x tr h (err e) next p f go_on = host_error p f
  host_rules-Decides x tr h (ok (act, idx, res)) next p (inl (k, f, a, _, n)) go_on =
      rw n (host_rule p f a)
  host_rules-Decides x tr h (ok (act, idx, res)) next p (inr (s, a, _, _)) go_on =
      rw a (go_on (inr (h, p, s)))

  host_stage-Decides :
      (x : Bool) (tr : Trace) (o : Option Host)
      → pick_best_host re.device_names host re.conf.hosts ≡ o
      → Decided (host_stage load_location re x domain host tr o)
  unfolding host_stage
  host_stage-Decides x tr none p = domain_stage-Decides x tr _ (inl p) refl
  host_stage-Decides x tr (some h) p =
      host_rules-Decides x _ h _ _ p (evaluate_rules-InOrder load_location re h.rules)
        λ n. domain_stage-Decides x _ _ n refl

  -- Every outcome of `evaluateInternal` follows the precedence relation.
  evaluate_internal-Decides :
      (x : Bool) → Decided (evaluate_internal load_location re x domain host)
  unfolding evaluate_internal
  evaluate_internal-Decides x = host_stage-Decides x _ _ refl

  Decides-on_error :
      {act : ActionType} {e : SpanError} → Decides act (some e) → act ≡ re.conf.on_error_rule
  Decides-on_error (host_error p f) = refl
  Decides-on_error (domain_error n d f) = refl

  answer-Decides :
      (act : ActionType) (e : Option SpanError) (tr : Option Trace)
      → Decides act e
      → let o = answer load_location re (record { trace = tr; action = act; error = e }) in
        Decides o.0 o.1
  answer-Decides act none tr d = d
  answer-Decides act (some e) tr d = subst (λ a. Decides a (some e)) (Decides-on_error d) d

  -- Evaluate answers by the precedence relation for every configuration, domain and host: the
  -- rules of the most specific host first, then those of the most specific host within the most
  -- specific domain (also where these stay silent, with None), then the default rule; an error of
  -- the rules that are consulted gives the error and the rule for errors.
  pub evaluate-Decides : let (act, e) = evaluate load_location re domain host in Decides act e
  unfolding evaluate
  evaluate-Decides =
      answer-Decides _ _ (evaluate_internal load_location re false domain host).trace
        (evaluate_internal-Decides false)

  -- What a trace says: the final action is the answer where there is no error, and the fallback is
  -- noted only where the answer is DefaultRule.
  abbrev pub TraceAgrees : Outcome → Option Trace → Type 0
  TraceAgrees o none = ⊥
  TraceAgrees o (some tr) =
      (o.error ≡ none → tr.final_action ≡ o.action)
      × (tr.default_rule_fallback ≡ true → (o.action ≡ re.conf.default_rule) × (o.error ≡ none))

  -- Explain gives the action and the error of Evaluate, and always a trace, whose final action is
  -- the answer where there is no error, and which notes the fallback only where the answer is the
  -- default rule without an error.
  pub explain-evaluate :
      let o = explain load_location re domain host in
      (evaluate load_location re domain host ≡ (o.action, o.error)) × TraceAgrees o o.trace
  unfolding evaluate explain evaluate_internal
  explain-evaluate = ground arith
