-- ===== src/Proxy/Upstream/Caching.antt =====
-- What the cache answers.
use citadel_dnxproxy.Prelude.{
  [], ℕ, ◌≡◌, refl, sym, Bool, true, false, Option, none, some, inl, inr, arith, Option-cases,
}
use citadel_dnxproxy.Prelude.Dict
use citadel_dnxproxy.Prelude.Dict.{Dict}
use citadel_dnxproxy.Prelude.Int.{ℤ, pos, ◌+ℤ◌, ◌≤ℤ◌, ◌<ℤ◌}
use citadel_dnxproxy.Prelude.Result.{Result, ok}
use citadel_dnxproxy.Clock.{Time}
use citadel_dnxproxy.Text.{Text}
use citadel_dnxproxy.Proxy.Dns.{Dns}
use citadel_dnxproxy.Proxy.Upstream.{
  UpstreamResolver, CacheEntry, Pass, cache_key, cache_get, cache_put, cached, finish, store_reply,
  reply_ttl, exchange_msg,
}
use citadel_dnxproxy.Proxy.Upstream.Calls.{exchange_msg-miss, all_passes}

module _ (dns : Dns) where
  -- A message put in the cache is found under its key until its time to live has passed, and not
  -- after.
  pub cache_get-cache_put_self :
      (items : Dict (CacheEntry dns.Msg)) (key : Text) (msg : dns.Msg) (ttl : ℤ) (negative : Bool)
      (put_at now : Time)
      → (pos now ≤ℤ pos put_at +ℤ ttl
          → cache_get dns (cache_put dns items key msg ttl negative put_at) key now ≡ some msg)
        × (pos put_at +ℤ ttl <ℤ pos now
            → cache_get dns (cache_put dns items key msg ttl negative put_at) key now ≡ none)
  unfolding cache_get cache_put
  cache_get-cache_put_self items key msg ttl negative put_at now =
      let entry : CacheEntry dns.Msg = record {
        msg = dns.copy msg;
        expires_at = pos put_at +ℤ ttl;
        negative = negative;
      } in
      ground
        (arith, Dict.get-put_self items key entry, dns.copy_same msg, dns.copy_same (dns.copy msg))

  -- The resolver that stored a reply answers it.
  stored-cached :
      (u : UpstreamResolver dns.Msg) (key : Text) (resp : dns.Msg) (now now' : Time)
      → u.cache_enabled ≡ true
      → pos 0 <ℤ reply_ttl dns u resp
      → pos now' ≤ℤ pos now +ℤ reply_ttl dns u resp
      → cached dns (store_reply dns u key resp now) key now' ≡ some resp
  unfolding store_reply
  stored-cached u key resp now now' enabled ttl fresh =
      let put = cache_get-cache_put_self u.cache key resp (reply_ttl dns u resp) false now now' in
      ground (arith, enabled, ttl, put.0 fresh)

  finish_reply-cached :
      (u : UpstreamResolver dns.Msg) (key : Text) (resp : dns.Msg) (now now' : Time) (p : Pass dns)
      (o : Option dns.Msg)
      → u.cache_enabled ≡ true
      → (finish dns u key now (record p { reply = o })).1 ≡ ok resp
      → pos 0 <ℤ reply_ttl dns u resp
      → pos now' ≤ℤ pos now +ℤ reply_ttl dns u resp
      → cached dns (finish dns u key now (record p { reply = o })).0 key now' ≡ some resp
  finish_reply-cached u key resp now now' p none enabled answer ttl fresh = cc
  finish_reply-cached u key resp now now' p (some r) enabled answer ttl fresh =
      let same : r ≡ resp = cc in
      rw same
        (stored-cached (record u { upstreams = p.upstreams }) key resp now now' enabled ttl fresh)

  -- A pass that ended with a reply leaves a resolver that answers it.
  finish-cached :
      (u : UpstreamResolver dns.Msg) (key : Text) (resp : dns.Msg) (now now' : Time) (p : Pass dns)
      → u.cache_enabled ≡ true
      → (finish dns u key now p).1 ≡ ok resp
      → pos 0 <ℤ reply_ttl dns u resp
      → pos now' ≤ℤ pos now +ℤ reply_ttl dns u resp
      → cached dns (finish dns u key now p).0 key now' ≡ some resp
  finish-cached u key resp now now' p enabled answer ttl fresh =
      finish_reply-cached u key resp now now' p p.reply enabled answer ttl fresh

  module _ (exchange : ℕ → dns.Msg → Text → Text → ℤ → Result Text dns.Msg) where
    -- A cached reply is returned under the id of the new request, without a call and without a change.
    pub exchange_msg-hit :
        (u : UpstreamResolver dns.Msg) (req msg : dns.Msg) (proto : Text) (now : Time)
        → cached dns u (cache_key (dns.question req)) now ≡ some msg
        → exchange_msg dns exchange u req proto now ≡ (u, ok (dns.set_id msg (dns.id req)), [])
    unfolding exchange_msg
    exchange_msg-hit u req msg proto now hit = rw (hit, exchange_msg)

  module _ (exchange : ℕ → dns.Msg → Text → Text → ℤ → Result Text dns.Msg) where
    finish-settings :
        (u : UpstreamResolver dns.Msg) (key : Text) (now : Time) (p : Pass dns)
        → let u' = (finish dns u key now p).0 in
          (u'.cache_enabled ≡ u.cache_enabled) × (u'.negative_cache_ttl ≡ u.negative_cache_ttl)
    unfolding store_reply
    finish-settings u key now p = ground arith

    -- An exchange leaves the settings of the cache as they are.
    pub exchange_msg-settings :
        (u : UpstreamResolver dns.Msg) (req : dns.Msg) (proto : Text) (now : Time)
        → let u' = (exchange_msg dns exchange u req proto now).0 in
          (u'.cache_enabled ≡ u.cache_enabled) × (u'.negative_cache_ttl ≡ u.negative_cache_ttl)
    unfolding exchange_msg
    exchange_msg-settings u req proto now =
        elim (Option-cases (cached dns u (cache_key (dns.question req)) now)) [
          | inl miss ↦
              rw (exchange_msg-miss dns exchange u req proto now miss)
                (finish-settings u _ now (all_passes dns exchange u req proto now))
          | inr (msg, hit) ↦ rw (exchange_msg-hit exchange u req msg proto now hit) (refl, refl)
        ]

    -- With the cache on, if nothing was cached for a request, an upstream's reply came and its
    -- time to live is positive, then a request with the same key within that time gets the same
    -- message under its own id, with no upstream call and the resolver unchanged, whatever the
    -- upstreams would answer by then.
    pub exchange_msg-again :
        (exchange' : ℕ → dns.Msg → Text → Text → ℤ → Result Text dns.Msg)
        (u : UpstreamResolver dns.Msg) (req req' resp : dns.Msg) (proto proto' : Text)
        (now now' : Time)
        → u.cache_enabled ≡ true
        → cached dns u (cache_key (dns.question req)) now ≡ none
        → (exchange_msg dns exchange u req proto now).1 ≡ ok resp
        → pos 0 <ℤ reply_ttl dns u resp
        → cache_key (dns.question req') ≡ cache_key (dns.question req)
        → pos now' ≤ℤ pos now +ℤ reply_ttl dns u resp
        → let u' = (exchange_msg dns exchange u req proto now).0 in
          exchange_msg dns exchange' u' req' proto' now'
          ≡ (u', ok (dns.set_id resp (dns.id req')), [])
    exchange_msg-again exchange' u req req' resp proto proto' now now' enabled miss answer ttl same
          fresh =
        exchange_msg-hit exchange' _ req' resp proto' now' (
          rw (same, exchange_msg-miss dns exchange u req proto now miss)
            (finish-cached u (cache_key (dns.question req)) resp now now'
              (all_passes dns exchange u req proto now) enabled
              (rw (sym (exchange_msg-miss dns exchange u req proto now miss)) answer) ttl fresh))
