-- ===== src/Config/Validate/Addresses.antt =====
-- What a validated configuration means for blocked responses (internal/proxy/block.go).
use citadel_dnxproxy.Prelude.{
  ℕ, ◌≡◌, ap, true-ne-false, if◌then◌else◌, refl, Bool, true, false, not, Option, none, some,
  str_eq, [], ◌∷◌,
}
use citadel_dnxproxy.Config.{Config, BlockStrategy}
use citadel_dnxproxy.Config.Validate.{
  Report, Problem, ◌<|>◌, reject, validate_block_strategy, validate,
}
use citadel_dnxproxy.Text.{Text, codes, to_lower, trim_space}
use citadel_dnxproxy.Proxy.Dns.{Dns, Question}
use citadel_dnxproxy.Proxy.Block.{
  ip4_query, ip6_query, strategy_of, block_ipv4, block_ipv6, build_blocked_response, or_text,
}

<|>-none : (a b : Report) → (a <|> b) ≡ none → (a ≡ none) × (b ≡ none)
<|>-none none b h = (refl, h)
<|>-none (some e) b h = cc

abbrev pub is_some : Option Text → Bool
is_some none = false
is_some (some t) = true

validate-block_strategy :
    (parse_ip parse_mac split_host_port load_location : Text → Bool) (c : Config)
    → validate parse_ip parse_mac split_host_port load_location c ≡ none
    → validate_block_strategy parse_ip
        (codes "BlockStrategy")
        c.block_strategy
        c.ipv4_block_resolve
        c.ipv6_block_resolve
      ≡ none
unfolding validate
validate-block_strategy parse_ip parse_mac split_host_port load_location c h = (<|>-none _ _ h).1

reject-none : (b : Bool) (path : Text) (p : Problem) → reject (not b) path p ≡ none → b ≡ true
reject-none true path p h = refl
reject-none false path p h = cc

is_some-some : (o : Option Text) → is_some o ≡ true → (t : Text) × (o ≡ some t)
is_some-some none h = cc
is_some-some (some t) h = (t, refl)

-- A text that parses where the empty one does not is the one chosen, whatever stands behind it.
or_text-parses :
    (parse_ip : Text → Option Text) (a b c : Text)
    → parse_ip [] ≡ none
    → is_some (parse_ip (or_text a b)) ≡ true
    → (ip : Text) × (parse_ip (or_text a (or_text b c)) ≡ some ip)
or_text-parses parse_ip [] [] c h k = absurd (true-ne-false k (ap is_some h))
or_text-parses parse_ip [] (x ∷ b) c h k = is_some-some _ k
or_text-parses parse_ip (x ∷ a) b c h k = is_some-some _ k

else-none :
    (test : Bool) (addresses : Report) (e : Text × Problem)
    → (if test then addresses else some e) ≡ none
    → addresses ≡ none
else-none true addresses e h = h
else-none false addresses e h = cc

-- In an accepted strategy that answers with addresses, both parse.
strategy-addresses :
    (parse_ip : Text → Option Text) (path : Text) (b : BlockStrategy) (v4 v6 : Text)
    → let action = or_text (to_lower (trim_space b.action)) (codes "nullroute") in
      validate_block_strategy (λ s. is_some (parse_ip s)) path b v4 v6 ≡ none
      → str_eq action (codes "nxdomain") ≡ false
      → str_eq action (codes "refuse") ≡ false
      → (is_some (parse_ip (or_text b.sinkhole_ipv4 v4)) ≡ true)
        × (is_some (parse_ip (or_text b.sinkhole_ipv6 v6)) ≡ true)
unfolding validate_block_strategy
strategy-addresses parse_ip path b v4 v6 h n r =
    let (p, q) = <|>-none _ _ (else-none _ _ _ (rw (n, r) at h)) in
    (reject-none _ _ _ p, reject-none _ _ _ q)

-- In a configuration that Validate accepts, with an address parser that takes no empty text, and
-- with a strategy other than nxdomain and refuse, the blocked response to a question of type A or
-- AAAA is one answer of that type with an address that parses.
pub validate-build_blocked_response :
    (parse_ip : Text → Option Text) (parse_mac split_host_port load_location : Text → Bool)
    (c : Config) (dns : Dns) (private_ip : Text) (m : dns.Msg) (q : Question)
    → parse_ip [] ≡ none
    → validate (λ s. is_some (parse_ip s)) parse_mac split_host_port load_location c ≡ none
    → str_eq (strategy_of c) (codes "nxdomain") ≡ false
    → str_eq (strategy_of c) (codes "refuse") ≡ false
    → ((ip : Text) × (build_blocked_response dns parse_ip c private_ip m q ip4_query
          ≡ dns.add_answer
              (dns.set_reply m)
              (record { owner = q.name; rrtype = 1; ttl = 10; ip = some ip })))
      × ((ip : Text) × (build_blocked_response dns parse_ip c private_ip m q ip6_query
            ≡ dns.add_answer
                (dns.set_reply m)
                (record { owner = q.name; rrtype = 28; ttl = 10; ip = some ip })))
unfolding build_blocked_response strategy_of block_ipv4 block_ipv6
validate-build_blocked_response parse_ip parse_mac split_host_port load_location c dns private_ip m
      q h valid n r =
    let b = c.block_strategy in
    let accepted =
      validate-block_strategy (λ s. is_some (parse_ip s)) parse_mac split_host_port load_location c
        valid in
    let (p4, p6) =
      strategy-addresses parse_ip _ b c.ipv4_block_resolve c.ipv6_block_resolve accepted n r in
    let (ip4, e4) =
      or_text-parses parse_ip b.sinkhole_ipv4 c.ipv4_block_resolve
        (if str_eq (strategy_of c) (codes "sinkhole")
          then or_text private_ip (codes "0.0.0.0")
          else codes "0.0.0.0")
        h p4 in
    let (ip6, e6) =
      or_text-parses parse_ip b.sinkhole_ipv6 c.ipv6_block_resolve (codes "::") h p6 in
    let answer : ℕ → Option Text → dns.Msg = λ t ip.
      dns.add_answer (dns.set_reply m) (record { owner = q.name; rrtype = t; ttl = 10; ip = ip }) in
    ((ip4, rw (n, r) (ap (answer 1) e4)), (ip6, rw (n, r) (ap (answer 28) e6)))
