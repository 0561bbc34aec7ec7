-- ===== src/Rules/Engine/InOrder.antt =====
-- What it means that a list of rules, taken in order, gives an action, stays silent or fails.
use citadel_dnxproxy.Prelude.{
  ℕ, suc, ◌+◌, ◌≡◌, refl, ap, ◌∙◌, ◌⊎◌, if◌then◌else◌, true, false, List, [], ◌∷◌, Option, inl, inr,
  arith, Bool-cases,
}
use citadel_dnxproxy.Prelude.Int.{ℤ, pos, negsuc}
use citadel_dnxproxy.Prelude.Result.{Result, ok, err, ◌>>=◌}
use citadel_dnxproxy.Clock.{Location}
use citadel_dnxproxy.Config.{ActionType, Rule, is_none}
use citadel_dnxproxy.Text.{Text}
use citadel_dnxproxy.TimeSpan.Days.{SpanError}
use citadel_dnxproxy.Rules.Span.{EvalResult, plain, evaluate_rule}
use citadel_dnxproxy.Rules.Engine.{Engine, evaluate_from, evaluate_rules}

pub is_none→none : (act : ActionType) → is_none act ≡ true → act ≡ ActionType.none
is_none→none act h = ground arith

module _ (load_location : Text → Option Location) (re : Engine) where
  abbrev result_of : Rule → Result SpanError EvalResult
  result_of r = evaluate_rule load_location r re.now re.local

  -- The rule at place `idx` is the first that gives an action, and no rule before it fails.
  pub data Fires : List Rule → ℕ → EvalResult → Type 0 where
    now :
        {r : Rule} {rules : List Rule} {res : EvalResult}
        → result_of r ≡ ok res
        → is_none res.action ≡ false
        → Fires (r ∷ rules) 0 res
    later :
        {r : Rule} {rules : List Rule} {idx : ℕ} {before res : EvalResult}
        → result_of r ≡ ok before
        → is_none before.action ≡ true
        → Fires rules idx res
        → Fires (r ∷ rules) (suc idx) res

  -- No rule gives an action, and none fails.
  pub data Silent : List Rule → Type 0 where
    end : Silent []
    skip :
        {r : Rule} {rules : List Rule} {res : EvalResult}
        → result_of r ≡ ok res
        → is_none res.action ≡ true
        → Silent rules
        → Silent (r ∷ rules)

  -- The first rule that does not stay silent fails.
  pub data Fails : List Rule → SpanError → Type 0 where
    now : {r : Rule} {rules : List Rule} {e : SpanError} → result_of r ≡ err e → Fails (r ∷ rules) e
    later :
        {r : Rule} {rules : List Rule} {e : SpanError} {res : EvalResult}
        → result_of r ≡ ok res
        → is_none res.action ≡ true
        → Fails rules e
        → Fails (r ∷ rules) e

  -- What a result says of the list, where the first rule has index `start`.
  abbrev pub InOrder : ℕ → List Rule → Result SpanError (ActionType × ℤ × EvalResult) → Type 0
  InOrder start rules (err e) = Fails rules e
  InOrder start rules (ok (act, idx, res)) =
      ((k : ℕ) × Fires rules k res
        × (act ≡ res.action)
        × (idx ≡ pos (start + k))
        × (is_none act ≡ false))
      ⊎ (Silent rules × (act ≡ ActionType.none) × (idx ≡ negsuc 0) × (res ≡ plain ActionType.none))

  InOrder-skip :
      (start : ℕ) (r : Rule) (rules : List Rule) (before : EvalResult)
      → result_of r ≡ ok before
      → is_none before.action ≡ true
      → (o : Result SpanError (ActionType × ℤ × EvalResult)) → InOrder (suc start) rules o
      → InOrder start (r ∷ rules) o
  InOrder-skip start r rules before e n (err x) f = Fails.later e n f
  InOrder-skip start r rules before e n (ok (act, idx, res)) (inl (k, f, a, i, m)) =
      inl (suc k, Fires.later e n f, a, i ∙ ap pos (omega arith), m)
  InOrder-skip start r rules before e n (ok (act, idx, res)) (inr (s, a, i, p)) =
      inr (skip e n s, a, i, p)

  InOrder-step :
      (start : ℕ) (r : Rule) (rules : List Rule) (o : Result SpanError EvalResult)
      → result_of r ≡ o
      → InOrder (suc start) rules (evaluate_from load_location re (suc start) rules)
      → InOrder start (r ∷ rules) (
          o >>= λ res.
          if is_none res.action
          then evaluate_from load_location re (suc start) rules
          else ok (res.action, pos start, res))
  InOrder-step start r rules (err x) e rest = Fails.now e
  InOrder-step start r rules (ok res) e rest = elim (Bool-cases (is_none res.action)) [
    | inl n ↦ rw n (InOrder-skip start r rules res e n _ rest)
    | inr n ↦ rw n (inl (0, Fires.now e n, refl, ap pos (omega arith), n))
  ]

  evaluate_from-InOrder :
      (start : ℕ) (rules : List Rule)
      → InOrder start rules (evaluate_from load_location re start rules)
  unfolding evaluate_from
  evaluate_from-InOrder start [] = inr (end, refl, refl, refl)
  evaluate_from-InOrder start (r ∷ rules) =
      InOrder-step start r rules (result_of r) refl (evaluate_from-InOrder (suc start) rules)

  -- EvaluateRules returns the first rule that gives an action, with its index; None with index -1
  -- where no rule gives one; and the error of the first rule that fails, if none before it gives
  -- an action.
  pub evaluate_rules-InOrder :
      (rules : List Rule) → InOrder 0 rules (evaluate_rules load_location re rules)
  unfolding evaluate_rules
  evaluate_rules-InOrder rules = evaluate_from-InOrder 0 rules
