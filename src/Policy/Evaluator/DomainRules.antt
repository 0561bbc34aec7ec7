-- ===== src/Policy/Evaluator/DomainRules.antt =====
-- Which domain rule `MatchDomainRule` picks.
use mathlib.Core.Option.{some-injective}
use citadel_dnxproxy.Prelude.{
  subst, sym, true-ne-false, ◌+◌, ◌≤◌, ◌≡◌, refl, ap, ◌⊎◌, inl, inr, true, false, List, [], ◌∷◌,
  ◌++◌, Option, none, some, arith, length, All, All-map, Bool-cases,
}
use citadel_dnxproxy.Prelude.Dict
use citadel_dnxproxy.Prelude.Int.{ℤ, pos, negsuc, ◌≤ℤ◌, ◌<ℤ◌, ltb_ℤ}
use citadel_dnxproxy.Text.{Text, count_byte}
use citadel_dnxproxy.Policy.Types.{DomainRule}
use citadel_dnxproxy.Policy.Evaluator.{
  Runtime, best_rule, applies, score, list_of, match_domain_rule,
}

wildcards-le-length : (s : Text) → count_byte b'*' s + count_byte b'?' s ≤ length s
unfolding count_byte
wildcards-le-length [] = omega arith
wildcards-le-length (c ∷ s) = ground (arith, wildcards-le-length s)

pub score_nonneg : (r : DomainRule) → pos 0 ≤ℤ score r
score_nonneg r = ground (arith, wildcards-le-length r.pattern)

module _ (domain : Text) where
  abbrev pub Below : ℤ → DomainRule → Type 0
  Below bound y = applies domain y ≡ true → score y <ℤ bound

  abbrev pub AtMost : ℤ → DomainRule → Type 0
  AtMost bound y = applies domain y ≡ true → score y ≤ℤ bound

  -- `r` applies, every rule before it that applies has a lower score, and none behind it that
  -- applies has a higher one.
  pub record IsBest (rules : List DomainRule) (r : DomainRule) : Type 0 where
    pub before : List DomainRule
    pub after : List DomainRule
    pub split : rules ≡ before ++ r ∷ after
    pub hit : applies domain r ≡ true
    pub earlier : All (Below (score r)) before
    pub later : All (AtMost (score r)) after

  IsBest-cons :
      (y r : DomainRule) (rules : List DomainRule)
      → Below (score r) y
      → IsBest rules r
      → IsBest (y ∷ rules) r
  IsBest-cons y r rules h b = record {
    before = y ∷ b.before;
    after = b.after;
    split = ap (◌∷◌ y) b.split;
    hit = b.hit;
    earlier = (h, b.earlier);
    later = b.later;
  }

  -- The loop keeps `best` where no rule beats the score, and otherwise returns the best rule.
  abbrev LoopResult : List DomainRule → Option DomainRule → ℤ → Option DomainRule → Type 0
  LoopResult rules best bound result =
      ((result ≡ best) × All (AtMost bound) rules)
      ⊎ ((r : DomainRule) × (result ≡ some r) × IsBest rules r × (bound <ℤ score r))

  kept :
      (r : DomainRule) (rules : List DomainRule) (best result : Option DomainRule) (bound : ℤ)
      → AtMost bound r
      → LoopResult rules best bound result
      → LoopResult (r ∷ rules) best bound result
  kept r rules best result bound h (inl (e, all)) = inl (e, (h, all))
  kept r rules best result bound h (inr (x, e, b, higher)) =
      inr (x, e, IsBest-cons r x rules (λ a. omega (arith, h a)) b, higher)

  updated :
      (r : DomainRule) (rules : List DomainRule) (best result : Option DomainRule) (bound : ℤ)
      → applies domain r ≡ true
      → bound <ℤ score r
      → LoopResult rules (some r) (score r) result
      → LoopResult (r ∷ rules) best bound result
  updated r rules best result bound a h (inl (e, all)) = inr (
    r,
    e,
    record { before = []; after = rules; split = refl; hit = a; earlier = tt; later = all },
    h,
  )
  updated r rules best result bound a h (inr (x, e, b, higher)) =
      inr (x, e, IsBest-cons r x rules (λ _. higher) b, omega arith)

  best_rule-kept :
      (r : DomainRule) (rules : List DomainRule) (best : Option DomainRule) (bound : ℤ)
      → AtMost bound r
      → best_rule domain (r ∷ rules) best bound ≡ best_rule domain rules best bound
  unfolding best_rule
  best_rule-kept r rules best bound h = ground arith

  best_rule-updated :
      (r : DomainRule) (rules : List DomainRule) (best : Option DomainRule) (bound : ℤ)
      → applies domain r ≡ true
      → bound <ℤ score r
      → best_rule domain (r ∷ rules) best bound ≡ best_rule domain rules (some r) (score r)
  unfolding best_rule
  best_rule-updated r rules best bound a h = ground arith

  AtMost-cases :
      (bound : ℤ) (r : DomainRule)
      → AtMost bound r ⊎ ((applies domain r ≡ true) × (bound <ℤ score r))
  AtMost-cases bound r = elim (Bool-cases (applies domain r)) [
    | inr a ↦ inl (λ b. absurd (true-ne-false b a))
    | inl a ↦ elim (Bool-cases (ltb_ℤ bound (score r))) [
      | inl h ↦ inr (a, ground arith)
      | inr h ↦ inl (λ _. ground arith)
    ]
  ]

  best_rule-LoopResult :
      (rules : List DomainRule) (best : Option DomainRule) (bound : ℤ)
      → LoopResult rules best bound (best_rule domain rules best bound)
  unfolding best_rule
  best_rule-LoopResult [] best bound = inl (refl, tt)
  best_rule-LoopResult (r ∷ rules) best bound =
      let keep = best_rule-LoopResult rules best bound in
      let update = best_rule-LoopResult rules (some r) (score r) in
      elim (AtMost-cases bound r) [
        | inl h ↦
            subst (LoopResult (r ∷ rules) best bound) (sym (best_rule-kept r rules best bound h))
              (kept r rules best _ bound h keep)
        | inr (a, h) ↦
            subst (LoopResult (r ∷ rules) best bound)
              (sym (best_rule-updated r rules best bound a h))
              (updated r rules best _ bound a h update)
      ]

  none_applies : (r : DomainRule) → AtMost (negsuc 0) r → applies domain r ≡ false
  none_applies r h = elim (Bool-cases (applies domain r)) [
    | inl a ↦ absurd (omega (arith, h a, score_nonneg r))
    | inr a ↦ a
  ]

  abbrev pub Picks : List DomainRule → Option DomainRule → Type 0
  Picks rules none = All (λ y. applies domain y ≡ false) rules
  Picks rules (some r) = IsBest rules r

  Picks-of_LoopResult :
      (rules : List DomainRule) (o : Option DomainRule)
      → LoopResult rules none (negsuc 0) o
      → Picks rules o
  Picks-of_LoopResult rules none (inl (e, all)) = All-map none_applies rules all
  Picks-of_LoopResult rules none (inr (r, e, b, h)) = cc
  Picks-of_LoopResult rules (some x) (inl (e, all)) = cc
  Picks-of_LoopResult rules (some x) (inr (r, e, b, h)) =
      subst (IsBest rules) (some-injective _ _ (sym e)) b

-- MatchDomainRule finds nothing exactly when none of the user's rules applies to the domain;
-- otherwise it returns the first of the rules that apply with the highest score.
pub match_domain_rule-Picks :
    (rt : Runtime) (user_id domain : Text)
    → Picks domain
        (list_of (Dict.get rt.rules_by_user user_id))
        (match_domain_rule (some rt) user_id domain)
unfolding match_domain_rule
match_domain_rule-Picks rt user_id domain =
    Picks-of_LoopResult domain _ _ (best_rule-LoopResult domain _ none (negsuc 0))
