-- ===== src/Rules/Pick/Order.antt =====
-- The order of specificity that the README states, and that both comparisons decide it.
use citadel_dnxproxy.Prelude.{◌<◌, ◌≡◌, refl, ◌↔◌, true, false, [], ◌∷◌, arith}
use citadel_dnxproxy.Text.{Text, text_lt}
use citadel_dnxproxy.Rules.Pick.{Candidate, host_less, domain_less}

pub text_lt-asymmetric : (s t : Text) → text_lt s t ≡ true → text_lt t s ≡ false
unfolding text_lt
text_lt-asymmetric [] [] h = refl
text_lt-asymmetric [] (_ ∷ _) h = refl
text_lt-asymmetric (_ ∷ _) [] h = cc
text_lt-asymmetric (a ∷ s) (b ∷ t) h = ground (arith, text_lt-asymmetric s t)

pub text_lt-weak : (s t u : Text) → text_lt s t ≡ false → text_lt t u ≡ false → text_lt s u ≡ false
unfolding text_lt
text_lt-weak [] [] u h k = k
text_lt-weak [] (_ ∷ _) u h k = cc
text_lt-weak (_ ∷ _) t [] h k = refl
text_lt-weak (_ ∷ _) [] (_ ∷ _) h k = cc
text_lt-weak (a ∷ s) (b ∷ t) (c ∷ u) h k = ground (arith, text_lt-weak s t u)

pub text_lt-connected : (s t : Text) → text_lt s t ≡ false → text_lt t s ≡ false → s ≡ t
unfolding text_lt
text_lt-connected [] [] h k = refl
text_lt-connected [] (_ ∷ _) h k = cc
text_lt-connected (_ ∷ _) [] h k = cc
text_lt-connected (a ∷ s) (b ∷ t) h k = ground (arith, text_lt-connected s t)

-- An exact pattern comes first; then fewer wildcards, then a longer pattern, then the alphabet.
pub data MoreSpecific {A : Type 0} (a b : Candidate A) : Type 0 where
  by_exact : a.exact ≡ true → b.exact ≡ false → MoreSpecific a b
  by_wildcards : a.exact ≡ b.exact → a.wildcards < b.wildcards → MoreSpecific a b
  by_length : a.exact ≡ b.exact → a.wildcards ≡ b.wildcards → b.length < a.length → MoreSpecific a b
  by_alphabet :
      a.exact ≡ b.exact
      → a.wildcards ≡ b.wildcards
      → a.length ≡ b.length
      → text_lt a.pattern b.pattern ≡ true
      → MoreSpecific a b

module _ {A : Type 0} (a b : Candidate A) where
  MoreSpecific→host_less : MoreSpecific a b → host_less a b ≡ true
  unfolding host_less
  MoreSpecific→host_less (by_exact p q) = ground arith
  MoreSpecific→host_less (by_wildcards p q) = ground arith
  MoreSpecific→host_less (by_length p q r) = ground arith
  MoreSpecific→host_less (by_alphabet p q r s) = ground arith

  host_less→MoreSpecific : host_less a b ≡ true → MoreSpecific a b
  unfolding host_less
  host_less→MoreSpecific h = grind (arith, by_exact, by_wildcards, by_length, by_alphabet)

  pub host_less_iff : (host_less a b ≡ true) ↔ MoreSpecific a b
  host_less_iff = (host_less→MoreSpecific, MoreSpecific→host_less)

  -- The comparison that sorts domains is the one that sorts hosts, on every two candidates.
  pub domain_less-eq-host_less : domain_less a b ≡ host_less a b
  unfolding domain_less host_less
  domain_less-eq-host_less = ground arith

  pub host_less-asymmetric : host_less a b ≡ true → host_less b a ≡ false
  unfolding host_less
  host_less-asymmetric h = ground (arith, text_lt-asymmetric a.pattern b.pattern)

pub host_less-weak :
    {A : Type 0} (a b c : Candidate A)
    → host_less a b ≡ false
    → host_less b c ≡ false
    → host_less a c ≡ false
unfolding host_less
host_less-weak a b c h k = ground (arith, text_lt-weak a.pattern b.pattern c.pattern)
