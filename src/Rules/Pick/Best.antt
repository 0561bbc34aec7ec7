-- ===== src/Rules/Pick/Best.antt =====
-- What `pickBestHost` and `pickBestDomain` return.
use mathlib.Core.List.Memᴰ
use mathlib.Core.List.{Memᴰ}
use mathlib.Core.Path.{fun_ext}
use citadel_dnxproxy.Prelude.{
  ◌≡◌, refl, sym, ◌∙◌, ap, Bool, true, false, List, map, Option, none, some, inl, inr, filter_by,
  Memᴰ-filter_by, filter_by-Memᴰ, map-Memᴰ, Memᴰ-map, true-ne-false, Bool-cases,
}
use citadel_dnxproxy.Config.{Host, Domain}
use citadel_dnxproxy.Text.{Text}
use citadel_dnxproxy.Utils.{wildcard_pattern_match}
use citadel_dnxproxy.Rules.Sort.{slice_stable, first, first-FirstIs, FirstIs}
use citadel_dnxproxy.Rules.Pick.{
  Candidate, DeviceNames, host_match, host_candidate, domain_candidate, host_less, domain_less,
  original_of, pick_best_host, pick_best_domain,
}
use citadel_dnxproxy.Rules.Pick.Order.{
  MoreSpecific, host_less_iff, domain_less-eq-host_less, host_less-asymmetric, host_less-weak,
}

-- `x` matches, and no element of `xs` that matches is more specific.
pub record IsMostSpecific {A : Type 0} (matches : A → Bool) (candidate : A → Candidate A)
    (xs : List A) (x : A) : Type 0 where
  pub member : Memᴰ x xs
  pub matching : matches x ≡ true
  pub best : (y : A) → Memᴰ y xs → matches y ≡ true → ¬ MoreSpecific (candidate y) (candidate x)

abbrev pub PicksBest : {A : Type 0} → (A → Bool) → (A → Candidate A) → List A → Option A → Type 0
PicksBest matches candidate xs none = (y : _) → Memᴰ y xs → matches y ≡ false
PicksBest matches candidate xs (some x) = IsMostSpecific matches candidate xs x

-- The shape of both functions: filter, make candidates, sort by a comparison, take the first.
module _ {A : Type 0} (matches : A → Bool) (candidate : A → Candidate A)
    (original : (x : A) → (candidate x).original ≡ x) (xs : List A) where
  abbrev candidates : List (Candidate A)
  candidates = map candidate (filter_by matches xs)

  candidate-of_member :
      (c : Candidate A)
      → Memᴰ c candidates
      → Memᴰ c.original xs × (matches c.original ≡ true) × (c ≡ candidate c.original)
  candidate-of_member c m =
      let (x, in_filter, e) = Memᴰ-map candidate c (filter_by matches xs) m in
      let (member, ok) = Memᴰ-filter_by matches x xs in_filter in
      let same : c.original ≡ x = ap (λ (k : Candidate A). k.original) e ∙ original x in
      (rw same member, rw same ok, e ∙ ap candidate (sym same))

  candidate-Memᴰ : (y : A) → Memᴰ y xs → matches y ≡ true → Memᴰ (candidate y) candidates
  candidate-Memᴰ y m h = map-Memᴰ candidate y _ (filter_by-Memᴰ matches y xs m h)

  PicksBest-of_FirstIs :
      (o : Option (Candidate A))
      → FirstIs host_less o candidates
      → PicksBest matches candidate xs (original_of o)
  PicksBest-of_FirstIs none e = λ y m. elim (Bool-cases (matches y)) [
    | inl h ↦ absurd (Memᴰ.not-nil (rw e at (candidate-Memᴰ y m h)))
    | inr h ↦ h
  ]
  PicksBest-of_FirstIs (some c) i =
      let (member, matching, e) = candidate-of_member c i.member in
      record {
        member = member;
        matching = matching;
        best = λ y m h s.
            true-ne-false ((host_less_iff _ _).1 (rw (← e) at s))
              (i.least (candidate y) (candidate-Memᴰ y m h));
      }

  pub sorted-PicksBest :
      PicksBest matches candidate xs (original_of (first (slice_stable host_less candidates)))
  sorted-PicksBest =
      PicksBest-of_FirstIs _
        (first-FirstIs host_less host_less-asymmetric host_less-weak candidates)

-- pickBestHost returns nil exactly when no host matches, and otherwise a host of the list that
-- matches and than which no other matching host is more specific.
pub pick_best_host-PicksBest :
    (names : DeviceNames) (host : Text) (hosts : List Host)
    → PicksBest
        (λ h. host_match names host h.name)
        (host_candidate host)
        hosts
        (pick_best_host names host hosts)
unfolding pick_best_host
pick_best_host-PicksBest names host hosts =
    sorted-PicksBest (λ h. host_match names host h.name) (host_candidate host) (λ h. refl) hosts

-- pickBestDomain returns nil exactly when no domain matches, and otherwise a domain of the list
-- that matches and than which no other matching domain is more specific.
pub pick_best_domain-PicksBest :
    (domain : Text) (domains : List Domain)
    → PicksBest
        (λ d. wildcard_pattern_match domain d.name)
        (domain_candidate domain)
        domains
        (pick_best_domain domain domains)
unfolding pick_best_domain
pick_best_domain-PicksBest domain domains = rw same_order (
    sorted-PicksBest (λ d. wildcard_pattern_match domain d.name) (domain_candidate domain)
      (λ d. refl) domains)
  where
    same_order : domain_less {A = Domain} ≡ host_less
    same_order = fun_ext λ a. fun_ext λ b. domain_less-eq-host_less a b
