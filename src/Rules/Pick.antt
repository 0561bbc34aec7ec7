-- ===== src/Rules/Pick.antt =====
-- `HostMatch`, `pickBestHost` and `pickBestDomain`: the candidates, and the most specific of them.
pub mod Order
pub mod Best
use mathlib.Core.Option
use citadel_dnxproxy.Prelude.{
  ℕ, ◌+◌, Bool, true, false, not, ◌&&◌, List, [], ◌∷◌, map, Option, none, some, ltb, ◌==◌,
  if◌then◌else◌, str_eq, length, filter_by,
}
use citadel_dnxproxy.Config.{Host, Domain}
use citadel_dnxproxy.Text.{Text, codes, count_byte, contains_any, text_lt}
use citadel_dnxproxy.Utils.{wildcard_pattern_match}
use citadel_dnxproxy.Rules.Sort.{slice_stable, first}

-- `deviceCache.IPToName`, absent where no device cache is set; its `none` is ErrDeviceIPNotFound.
abbrev pub DeviceNames : Type 0
DeviceNames = Option (Text → Option Text)

abbrev pub device_name : DeviceNames → Text → Option Text
device_name none host = none
device_name (some ip_to_name) host = ip_to_name host

unfoldable pub host_match : DeviceNames → Text → Text → Bool
host_match names host pattern =
    if str_eq host pattern then true else elim (device_name names host) [
      | some name ↦ wildcard_pattern_match name pattern
      | none ↦ wildcard_pattern_match host pattern
    ]

-- `patternMatch`, and `domainMatch` with its `matchScore`; `original` is the host or the domain.
pub record Candidate (A : Type 0) : Type 0 where
  pub pattern : Text
  pub wildcards : ℕ
  pub length : ℕ
  pub exact : Bool
  pub original : A

abbrev pub count_wildcards : Text → ℕ
count_wildcards p = count_byte b'*' p + count_byte b'?' p

-- One round of the loop of `pickBestHost`, for a host that matches.
unfoldable pub host_candidate : Text → Host → Candidate Host
host_candidate host h = record {
  pattern = h.name;
  wildcards = count_wildcards h.name;
  length = length h.name;
  exact = not (contains_any h.name (codes "*?")) && str_eq host h.name;
  original = h;
}

unfoldable pub domain_candidate : Text → Domain → Candidate Domain
domain_candidate domain d = record {
  pattern = d.name;
  wildcards = count_wildcards d.name;
  length = length d.name;
  exact = str_eq domain d.name;
  original = d;
}

abbrev same_bool : Bool → Bool → Bool
same_bool true b = b
same_bool false b = not b

-- The comparison of `pickBestHost`: more specific first.
unfoldable pub host_less : {A : Type 0} → Candidate A → Candidate A → Bool
host_less a b =
    if not (same_bool a.exact b.exact)
    then a.exact
    else if not (a.wildcards == b.wildcards)
    then ltb a.wildcards b.wildcards
    else if not (a.length == b.length)
    then ltb b.length a.length
    else text_lt a.pattern b.pattern

unfoldable pub compare_score : {A : Type 0} → Candidate A → Candidate A → Bool
compare_score a b =
    if not (same_bool a.exact b.exact)
    then a.exact
    else if not (a.wildcards == b.wildcards)
    then ltb a.wildcards b.wildcards
    else if not (a.length == b.length)
    then ltb b.length a.length
    else false

-- The comparison of `pickBestDomain`.
unfoldable pub domain_less : {A : Type 0} → Candidate A → Candidate A → Bool
unfolding compare_score
domain_less a b =
    if compare_score a b
    then true
    else if compare_score b a
    then false
    else text_lt a.pattern b.pattern

abbrev original_of : {A : Type 0} → Option (Candidate A) → Option A
original_of none = none
original_of (some c) = some c.original

unfoldable pub pick_best_host : DeviceNames → Text → List Host → Option Host
unfolding host_match host_candidate host_less slice_stable first filter_by
pick_best_host names host hosts = original_of (
    first (
      slice_stable host_less
        (map (host_candidate host) (filter_by (λ h. host_match names host h.name) hosts))))

-- The domain's pattern is its name, so the domain alone is returned.
unfoldable pub pick_best_domain : Text → List Domain → Option Domain
unfolding domain_candidate domain_less slice_stable first filter_by
pick_best_domain domain domains = original_of (
    first (
      slice_stable domain_less (
        map (domain_candidate domain)
          (filter_by (λ d. wildcard_pattern_match domain d.name) domains))))
