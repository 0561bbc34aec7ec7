-- ===== src/Proxy/Upstream.antt =====
-- internal/proxy/upstream.go. Durations are nanoseconds. `exchange` is the resolver's field of that
-- name, the dns client: its first argument is the number of calls made before, so that the network
-- may answer each call as it likes.

pub mod Calls
pub mod Caching
use citadel_dnxproxy.Prelude.{
  ℕ, zero, suc, ◌+◌, ◌*◌, ◌/◌, ◌%◌, Bool, true, false, not, ◌&&◌, List, [], ◌∷◌, ◌++◌, map, Option,
  none, some, ltb, leb, ◌==◌, if◌then◌else◌,
}
use Prim.Native.Nat.{min}
use citadel_dnxproxy.Prelude.Dict
use citadel_dnxproxy.Prelude.Dict.{Dict}
use citadel_dnxproxy.Prelude.Int.{ℤ, pos, negsuc, sub_ℕ, ◌+ℤ◌, ◌*ℤ◌, ltb_ℤ}
use citadel_dnxproxy.Prelude.Result.{Result, ok, err}
use citadel_dnxproxy.Clock.{Time, nanoseconds}
use citadel_dnxproxy.Config.{Config, NameServer}
use citadel_dnxproxy.Text.{Text, to_lower, decimal}
use citadel_dnxproxy.Proxy.Dns.{Dns, Question}

pub record UpstreamState : Type 0 where
  pub addr : Text
  pub failures : ℕ
  pub last_fail : Time

pub record CacheEntry (Msg : Type 0) : Type 0 where
  pub msg : Msg
  pub expires_at : ℤ
  pub negative : Bool

-- `UpstreamResolver`, less its clock and its functions; `cache` is the items of the responseCache.
pub record UpstreamResolver (Msg : Type 0) : Type 0 where
  pub upstreams : List UpstreamState
  pub timeout : ℤ
  pub retries : ℤ
  pub max_fails : ℤ
  pub fail_window : ℤ
  pub cache : Dict (CacheEntry Msg)
  pub cache_enabled : Bool
  pub cache_ttl_override : ℤ
  pub negative_cache_ttl : ℤ

abbrev milliseconds : ℤ → ℤ
milliseconds n = n *ℤ pos 1_000_000

abbrev pub seconds : ℤ → ℤ
seconds n = n *ℤ pos nanoseconds

unfoldable pub new_upstream_resolver : {Msg : Type 0} → Config → UpstreamResolver Msg
new_upstream_resolver conf = record {
  upstreams =
      map (λ (ns : NameServer). record { addr = ns.ip; failures = 0; last_fail = 0 })
        conf.name_servers;
  timeout = milliseconds conf.upstream_timeout_ms;
  retries = conf.upstream_retries;
  max_fails = conf.upstream_max_fails;
  fail_window = seconds conf.upstream_fail_window_sec;
  cache = [];
  cache_enabled = conf.cache_enabled;
  cache_ttl_override = seconds conf.cache_ttl_override_sec;
  negative_cache_ttl = seconds conf.negative_cache_ttl;
}

unfoldable pub cache_key : Question → Text
unfolding decimal
cache_key q = to_lower q.name ++ b'|' ∷ decimal q.qtype

abbrev min_from : ℕ → List ℕ → ℕ
min_from least [] = least
min_from least (t ∷ ts) = min_from (if ltb t least then t else least) ts

unfoldable pub min_ttl : List ℕ → ℤ
min_ttl [] = pos 0
min_ttl (t ∷ ts) = pos (min_from t ts * nanoseconds)

-- `isUnhealthy`, with the state that it leaves
unfoldable pub is_unhealthy : ℤ → ℤ → Time → UpstreamState → Bool × UpstreamState
is_unhealthy max_fails fail_window now s =
    let since = sub_ℕ now s.last_fail in
    if not (ltb_ℤ max_fails (pos 0)) && not (ltb_ℤ (pos 0) max_fails)
    then (false, s)
    else if not (ltb_ℤ (pos s.failures) max_fails) && ltb_ℤ since fail_window
    then (true, s)
    else if not (ltb_ℤ since fail_window)
    then (false, record s { failures = 0 })
    else (false, s)

unfoldable pub mark_fail : Time → UpstreamState → UpstreamState
mark_fail now s = record s { failures = s.failures + 1; last_fail = now }

unfoldable pub mark_success : UpstreamState → UpstreamState
mark_success s = record s { failures = 0 }

-- `if tries < 1 { tries = 1 }`
abbrev pub tries_of : ℤ → ℕ
tries_of (pos zero) = 1
tries_of (pos (suc n)) = suc n
tries_of (negsuc n) = 1

module _ (dns : Dns) where
  open dns use {Msg, question, answer_ttls, copy, set_id, id, set_rcode}

  -- `responseCache.get`
  unfoldable pub cache_get : Dict (CacheEntry Msg) → Text → Time → Option Msg
  cache_get items key now = elim (Dict.get items key) [
    | none ↦ none
    | some entry ↦ if ltb_ℤ entry.expires_at (pos now) then none else some (copy entry.msg)
  ]

  -- `responseCache.put`
  unfoldable pub cache_put :
      Dict (CacheEntry Msg) → Text → Msg → ℤ → Bool → Time → Dict (CacheEntry Msg)
  cache_put items key msg ttl negative now =
      Dict.put items key
        (record { msg = copy msg; expires_at = pos now +ℤ ttl; negative = negative })

  -- The end of a pass over the upstreams: their new states, the number of calls made so far, the
  -- addresses called in the pass, the last error, and the reply if one came.
  pub record Pass : Type 0 where
    pub upstreams : List UpstreamState
    pub calls : ℕ
    pub called : List Text
    pub last_err : Option Text
    pub reply : Option Msg

  abbrev cons_state : UpstreamState → Pass → Pass
  cons_state s p = record p { upstreams = s ∷ p.upstreams }

  abbrev called_first : Text → Pass → Pass
  called_first addr p = record p { called = addr ∷ p.called }

  abbrev pub called_before : List Text → Pass → Pass
  called_before called p = record p { called = called ++ p.called }

  -- The time to live of a reply in the cache.
  abbrev pub reply_ttl : UpstreamResolver Msg → Msg → ℤ
  reply_ttl u resp =
      if ltb_ℤ (pos 0) u.cache_ttl_override
      then u.cache_ttl_override
      else min_ttl (answer_ttls resp)

  unfoldable pub store_reply : UpstreamResolver Msg → Text → Msg → Time → UpstreamResolver Msg
  unfolding cache_put min_ttl
  store_reply u key resp now =
      if u.cache_enabled && ltb_ℤ (pos 0) (reply_ttl u resp)
      then record u { cache = cache_put u.cache key resp (reply_ttl u resp) false now }
      else u

  abbrev finish :
      UpstreamResolver Msg
      → Text
      → Time
      → Pass
      → UpstreamResolver Msg × Result (Option Text) Msg × List Text
  finish u key now p = elim p.reply [
    | none ↦ (record u { upstreams = p.upstreams }, err p.last_err, p.called)
    | some resp ↦
        (store_reply (record u { upstreams = p.upstreams }) key resp now, ok resp, p.called)
  ]

  -- `if u.cacheEnabled { if cached, ok := u.cache.get(key, now); ok { … } }`
  abbrev pub cached : UpstreamResolver Msg → Text → Time → Option Msg
  cached u key now = if u.cache_enabled then cache_get u.cache key now else none

  module _ (exchange : ℕ → Msg → Text → Text → ℤ → Result Text Msg) where
    module _ (u : UpstreamResolver Msg) (req : Msg) (proto : Text) (now : Time) where
      -- What follows the exchange with the upstream `s`: `rest` goes on from the number of calls
      -- and the last error.
      abbrev after_call :
          UpstreamState
          → List UpstreamState
          → ℕ
          → Option Text
          → (ℕ → Option Text → Pass)
          → Result Text Msg
          → Pass
      after_call s ss calls last_err rest (err e) =
          called_first s.addr (cons_state (mark_fail now s) (rest (suc calls) (some e)))
      after_call s ss calls last_err rest (ok resp) = record {
        upstreams = mark_success s ∷ ss;
        calls = suc calls;
        called = s.addr ∷ [];
        last_err = last_err;
        reply = some resp;
      }

      -- The loop over the upstreams.
      unfoldable pub try_upstreams : List UpstreamState → ℕ → Option Text → Pass
      unfolding is_unhealthy mark_fail mark_success
      try_upstreams [] calls last_err = record {
        upstreams = [];
        calls = calls;
        called = [];
        last_err = last_err;
        reply = none;
      }
      try_upstreams (s ∷ ss) calls last_err =
          let (unhealthy, s') = is_unhealthy u.max_fails u.fail_window now s in
          let skip = cons_state s' (try_upstreams ss calls last_err) in
          let call =
            after_call s' ss calls last_err (try_upstreams ss)
              (exchange calls req s'.addr proto u.timeout) in
          if unhealthy then skip else call

      -- The loop over the tries. Between two passes the resolver sleeps 10 ms, which the model
      -- leaves out: `now` was read before.
      unfoldable pub try_passes : ℕ → List UpstreamState → ℕ → Option Text → Pass
      unfolding try_upstreams
      try_passes zero ss calls last_err = record {
        upstreams = ss;
        calls = calls;
        called = [];
        last_err = last_err;
        reply = none;
      }
      try_passes (suc tries) ss calls last_err =
          let p = try_upstreams ss calls last_err in
          let again = try_passes tries p.upstreams p.calls p.last_err in
          elim p.reply [ some resp ↦ p | none ↦ called_before p.called again ]

    -- `Exchange`: the new state, the reply or the last error, and the addresses of the
    -- upstreams called, in their order.
    unfoldable pub exchange_msg :
        UpstreamResolver Msg
        → Msg
        → Text
        → Time
        → UpstreamResolver Msg × Result (Option Text) Msg × List Text
    exchange_msg u req proto now =
        let key = cache_key (question req) in
        elim (cached u key now) [
          | some msg ↦ (u, ok (set_id msg (id req)), [])
          | none ↦
              finish u key now (try_passes u req proto now (tries_of u.retries) u.upstreams 0 none)
        ]

  -- `CacheNegative`
  unfoldable pub cache_negative : UpstreamResolver Msg → Msg → ℕ → Time → UpstreamResolver Msg
  unfolding cache_put
  cache_negative u req rcode now =
      if not u.cache_enabled
      then u
      else if not (ltb_ℤ (pos 0) u.negative_cache_ttl)
      then u
      else record u {
        cache =
            cache_put u.cache (cache_key (question req)) (set_rcode req rcode) u.negative_cache_ttl
              true now;
      }

  -- `ClearCache`
  unfoldable pub clear_cache : UpstreamResolver Msg → UpstreamResolver Msg
  clear_cache u = record u { cache = [] }
