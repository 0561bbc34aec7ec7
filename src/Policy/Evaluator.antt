-- ===== src/Policy/Evaluator.antt =====
-- internal/policy/evaluator.go.
pub mod DomainRules
use citadel_dnxproxy.Prelude.{
  ℕ, ◌+◌, ◌*◌, Bool, true, false, List, [], ◌∷◌, Option, none, some, if◌then◌else◌, length, any_by,
}
use citadel_dnxproxy.Prelude.Dict
use citadel_dnxproxy.Prelude.Dict.{Dict}
use citadel_dnxproxy.Prelude.Int.{ℤ, pos, negsuc, sub_ℕ, ltb_ℤ}
use citadel_dnxproxy.Clock.{Location, Moment}
use citadel_dnxproxy.Text.{Text, to_lower, count_byte, replace_byte, is_empty}
use citadel_dnxproxy.Utils.{wildcard_pattern_match, strip_port_from_addr}
use citadel_dnxproxy.Policy.Types.{User, Device, DomainRule, Settings, TimeWindow, AuditEvent}

-- `Runtime` of compiler.go
pub record Runtime : Type 0 where
  pub users_by_id : Dict User
  pub devices_by_id : Dict Device
  pub devices_by_ip : Dict Device
  pub devices_by_mac : Dict Device
  pub rules_by_user : Dict (List DomainRule)
  pub settings : Settings
  pub budget_tz : Location
  pub allow_windows : Dict (List TimeWindow)
  pub audit : List AuditEvent

-- `*Evaluator`: `none` where the evaluator or its runtime is nil.
abbrev pub Evaluator : Type 0
Evaluator = Option Runtime

unfoldable pub match_device : Evaluator → Text → Option Device
match_device none ip = none
match_device (some rt) ip = Dict.get rt.devices_by_ip (strip_port_from_addr (to_lower ip))

unfoldable pub match_device_by_mac : Evaluator → Text → Option Device
match_device_by_mac none mac = none
match_device_by_mac (some rt) mac =
    Dict.get rt.devices_by_mac (to_lower (replace_byte b'-' b':' mac))

unfoldable pub match_user : Evaluator → Device → Option User
match_user none device = none
match_user (some rt) device =
    if is_empty device.user_id then none else Dict.get rt.users_by_id device.user_id

-- `len(r.Pattern)*2 - wildcards`
abbrev pub score : DomainRule → ℤ
score r = sub_ℕ (length r.pattern * 2) (count_byte b'*' r.pattern + count_byte b'?' r.pattern)

abbrev pub applies : Text → DomainRule → Bool
applies domain r = wildcard_pattern_match domain (to_lower r.pattern)

-- The loop, with `best` and `found` as one option beside `bestScore`.
unfoldable pub best_rule : Text → List DomainRule → Option DomainRule → ℤ → Option DomainRule
best_rule domain [] best best_score = best
best_rule domain (r ∷ rules) best best_score =
    let update = best_rule domain rules (some r) (score r) in
    let keep = best_rule domain rules best best_score in
    if applies domain r then if ltb_ℤ best_score (score r) then update else keep else keep

abbrev pub list_of {ℓ} : {A : Type ℓ} → Option (List A) → List A
list_of none = []
list_of (some l) = l

unfoldable pub match_domain_rule : Evaluator → Text → Text → Option DomainRule
unfolding best_rule
match_domain_rule none user_id domain = none
match_domain_rule (some rt) user_id domain =
    best_rule domain (list_of (Dict.get rt.rules_by_user user_id)) none (negsuc 0)

-- The two loops over the windows: none at all, or one that the checker accepts.
abbrev any_window : List TimeWindow → Moment → (Text → Moment → Bool) → Bool
any_window [] now checker = true
any_window (w ∷ windows) now checker =
    any_by (λ (v : TimeWindow). checker v.time_span now) (w ∷ windows)

unfoldable pub in_allow_window : Evaluator → Text → Moment → (Text → Moment → Bool) → Bool
in_allow_window none user_id now checker = true
in_allow_window (some rt) user_id now checker =
    any_window (list_of (Dict.get rt.allow_windows user_id)) now checker
