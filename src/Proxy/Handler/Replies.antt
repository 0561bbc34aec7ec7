-- ===== src/Proxy/Handler/Replies.antt =====
-- What a request gets back, and what it costs upstream.
use citadel_dnxproxy.Prelude.{
  ℕ, ◌≡◌, ◌≢◌, ◌↔◌, refl, ◌∙◌, sym, ap, subst, true, false, Option, none, some, inl, inr, arith,
  List, [], true-ne-false, Bool-cases, Option-cases,
}
use citadel_dnxproxy.Prelude.Int.{ℤ, pos, ◌+ℤ◌, ◌≤ℤ◌, ◌<ℤ◌}
use citadel_dnxproxy.Prelude.Result.{Result, ok, err}
use citadel_dnxproxy.Clock.{Time, Location}
use citadel_dnxproxy.Config.{is_blocking_action}
use citadel_dnxproxy.Text.{Text, to_upper}
use citadel_dnxproxy.Proxy.Dns.{Dns}
use citadel_dnxproxy.Proxy.Block.{is_ip_query, build_blocked_response, resolved_response}
use citadel_dnxproxy.Proxy.Upstream.{
  UpstreamResolver, exchange_msg, cache_negative, cached, cache_key, tries_of,
}
use citadel_dnxproxy.Proxy.Upstream.Calls.{Rounds, Rounds-none, addresses, exchange_msg-calls}
use citadel_dnxproxy.Proxy.Upstream.Caching.{
  cache_get-cache_put_self, exchange_msg-hit, exchange_msg-settings,
}
use citadel_dnxproxy.Proxy.Handler.{
  Verdict, Server, Served, lower_names, after_exchange, do_dns_exchange, respond, resolve,
  request_domain, client_address, decide, dns_handler,
}
use citadel_dnxproxy.Proxy.Runtime.{refresh_policy_runtime}
use citadel_dnxproxy.Policy.Store.{StoreError, JsonStore}
use citadel_dnxproxy.Policy.Types.{Reason, PolicyData}
use citadel_dnxproxy.Proxy.Handler.Causes.{judge-passes_iff}

module _ (dns : Dns) where
  -- The resolver that remembers a failure answers it with the failure's message until the negative
  -- time to live has passed.
  pub cache_negative-cached :
      (u : UpstreamResolver dns.Msg) (req : dns.Msg) (rcode : ℕ) (now now' : Time)
      → u.cache_enabled ≡ true
      → pos 0 <ℤ u.negative_cache_ttl
      → pos now' ≤ℤ pos now +ℤ u.negative_cache_ttl
      → cached dns (cache_negative dns u req rcode now) (cache_key (dns.question req)) now'
        ≡ some (dns.set_rcode req rcode)
  unfolding cache_negative
  cache_negative-cached u req rcode now now' enabled ttl fresh =
      let put =
        cache_get-cache_put_self dns u.cache (cache_key (dns.question req))
          (dns.set_rcode req rcode) u.negative_cache_ttl true now now' in
      ground (arith, enabled, ttl, put.0 fresh)

  -- The request as it goes upstream.
  abbrev pub upper_case : dns.Msg → dns.Msg
  upper_case m = dns.set_question_name m (to_upper (dns.question m).name)

  after_exchange-failed :
      (m : dns.Msg) (store : JsonStore) (later : Time)
      (r : UpstreamResolver dns.Msg × Result (Option Text) dns.Msg × List Text)
      → (after_exchange dns m store later r).reply ≡ none
      → (after_exchange dns m store later r).upstream ≡ cache_negative dns r.0 m 2 later
  unfolding after_exchange
  after_exchange-failed m store later (u, ok r, calls) h = cc
  after_exchange-failed m store later (u, err e, calls) h = refl

  module _ (exchange : ℕ → dns.Msg → Text → Text → ℤ → Result Text dns.Msg) where
    after_exchange-calls :
        (m : dns.Msg) (store : JsonStore) (later : Time)
        (r : UpstreamResolver dns.Msg × Result (Option Text) dns.Msg × List Text)
        → (after_exchange dns m store later r).calls ≡ r.2
    unfolding after_exchange
    after_exchange-calls m store later (u, ok r, calls) = refl
    after_exchange-calls m store later (u, err e, calls) = refl

    -- With negative caching on, if the exchange of a request leaves the client without a reply, a
    -- request with the same key gets the failure's message under its own id until the negative
    -- time to live has passed, with no upstream call and the resolver unchanged, whatever the
    -- upstreams would answer by then.
    pub do_dns_exchange-again :
        (exchange' : ℕ → dns.Msg → Text → Text → ℤ → Result Text dns.Msg) (sv sv' : Server dns.Msg)
        (store store' : JsonStore) (m m' : dns.Msg) (proto proto' : Text)
        → sv'.upstream ≡ (do_dns_exchange dns exchange sv store m proto).upstream
        → (do_dns_exchange dns exchange sv store m proto).reply ≡ none
        → sv.upstream.cache_enabled ≡ true
        → pos 0 <ℤ sv.upstream.negative_cache_ttl
        → cache_key (dns.question (upper_case m')) ≡ cache_key (dns.question (upper_case m))
        → pos sv'.exchange_now ≤ℤ pos sv.later +ℤ sv.upstream.negative_cache_ttl
        → let s = do_dns_exchange dns exchange' sv' store' m' proto' in
          (s.reply
            ≡ some (
                lower_names dns
                  (dns.set_id (dns.set_rcode (upper_case m) 2) (dns.id (upper_case m')))))
          × (s.calls ≡ [])
          × (s.upstream ≡ sv'.upstream)
    unfolding do_dns_exchange after_exchange
    do_dns_exchange-again exchange' sv sv' store store' m m' proto proto' same failed enabled ttl
          key fresh =
        let upper = upper_case m in
        let r = exchange_msg dns exchange sv.upstream upper proto sv.exchange_now in
        let (on, keeps) =
          exchange_msg-settings dns exchange sv.upstream upper proto sv.exchange_now in
        let left = same ∙ after_exchange-failed upper store sv.later r failed in
        let hit =
          cache_negative-cached r.0 upper 2 sv.later sv'.exchange_now (on ∙ enabled)
            (subst (λ t. pos 0 <ℤ t) (sym keeps) ttl)
            (subst (λ t. pos sv'.exchange_now ≤ℤ pos sv.later +ℤ t) (sym keeps) fresh) in
        let found =
          ap (λ u. cached dns u (cache_key (dns.question (upper_case m'))) sv'.exchange_now) left
          ∙ ap (λ k. cached dns (cache_negative dns r.0 upper 2 sv.later) k sv'.exchange_now) key
          ∙ hit in
        rw
          (exchange_msg-hit dns exchange' sv'.upstream (upper_case m') _ proto' sv'.exchange_now
            found)
          (refl, refl, refl)

    -- An exchange, with a cached reply or without one, calls each upstream once in each try at most.
    exchange_msg-Rounds :
        (u : UpstreamResolver dns.Msg) (req : dns.Msg) (proto : Text) (now : Time)
        → Rounds
            (addresses u.upstreams)
            (tries_of u.retries)
            (exchange_msg dns exchange u req proto now).2
    exchange_msg-Rounds u req proto now =
        elim (Option-cases (cached dns u (cache_key (dns.question req)) now)) [
          | inl miss ↦ (exchange_msg-calls dns exchange u req proto now miss).1
          | inr (msg, hit) ↦
              rw (exchange_msg-hit dns exchange u req msg proto now hit)
                (Rounds-none (addresses u.upstreams) (tries_of u.retries))
        ]

    do_dns_exchange-Rounds :
        (sv : Server dns.Msg) (store : JsonStore) (m : dns.Msg) (proto : Text)
        → Rounds
            (addresses sv.upstream.upstreams)
            (tries_of sv.upstream.retries)
            (do_dns_exchange dns exchange sv store m proto).calls
    unfolding do_dns_exchange
    do_dns_exchange-Rounds sv store m proto =
        rw (after_exchange-calls (upper_case m) store sv.later _)
          (exchange_msg-Rounds sv.upstream (upper_case m) proto sv.exchange_now)

    after_exchange-store :
        (m : dns.Msg) (store : JsonStore) (later : Time)
        (r : UpstreamResolver dns.Msg × Result (Option Text) dns.Msg × List Text)
        → (after_exchange dns m store later r).store ≡ store
    unfolding after_exchange
    after_exchange-store m store later (u, ok r, calls) = refl
    after_exchange-store m store later (u, err e, calls) = refl

    module _ (parse_ip : Text → Option Text) (sv : Server dns.Msg) (m : dns.Msg)
        (proto domain : Text) (v : Verdict) where
      abbrev pub blocked_reply : dns.Msg
      blocked_reply =
          build_blocked_response dns parse_ip sv.engine.conf sv.private_ip m (dns.question m)
            (is_ip_query (dns.question m))

      -- What the client and the upstreams see of a request with the verdict `v`: one that is blocked
      -- gets the blocked response, one for a local name the local address, both without an upstream
      -- call; any other is served by the exchange. Each try calls an upstream once at most, and only a
      -- forwarded request can stay without a reply.
      pub record IsServed (s : Served dns.Msg) : Type 0 where
        pub blocked :
            v.reason ≢ Reason.none
            → (s.reply ≡ some blocked_reply) × (s.calls ≡ []) × (s.upstream ≡ sv.upstream)
        pub local :
            v.reason ≡ Reason.none
            → (addr : Text) → resolve sv.resolver_conf sv.device_cache domain ≡ some addr
            → (s.reply
                ≡ some (resolved_response dns parse_ip m addr (is_ip_query (dns.question m))))
              × (s.calls ≡ [])
              × (s.upstream ≡ sv.upstream)
        pub forwarded :
            v.reason ≡ Reason.none
            → resolve sv.resolver_conf sv.device_cache domain ≡ none
            → s ≡ do_dns_exchange dns exchange sv v.store m proto
        pub rounds : Rounds (addresses sv.upstream.upstreams) (tries_of sv.upstream.retries) s.calls
        pub unanswered :
            s.reply ≡ none
            → (v.reason ≡ Reason.none) × (resolve sv.resolver_conf sv.device_cache domain ≡ none)
        pub store_is : s.store ≡ v.store

      respond_passed-IsServed :
          is_blocking_action v.action ≡ false
          → v.reason ≡ Reason.none
          → IsServed (respond dns parse_ip exchange sv m proto domain v)
      unfolding respond
      respond_passed-IsServed b p =
          elim (Option-cases (resolve sv.resolver_conf sv.device_cache domain)) [
            | inl e ↦
                rw (b, e)
                  (record {
                    blocked = λ h. absurd (h p);
                    local = λ _ addr h. cc;
                    forwarded = λ _ _. refl;
                    rounds = do_dns_exchange-Rounds sv v.store m proto;
                    unanswered = λ _. (p, e);
                    store_is = after_exchange-store _ v.store sv.later _;
                  })
            | inr (addr, e) ↦
                rw (b, e)
                  (record {
                    blocked = λ h. absurd (h p);
                    local = λ _ a h. let same : addr ≡ a = cc in rw same (refl, refl, refl);
                    forwarded = λ _ h. cc;
                    rounds =
                        Rounds-none (addresses sv.upstream.upstreams)
                          (tries_of sv.upstream.retries);
                    unanswered = λ h. cc;
                    store_is = refl;
                  })
          ]

      respond-IsServed :
          (is_blocking_action v.action ≡ false) ↔ (v.reason ≡ Reason.none)
          → IsServed (respond dns parse_ip exchange sv m proto domain v)
      unfolding respond
      respond-IsServed i = elim (Bool-cases (is_blocking_action v.action)) [
        | inl b ↦ rw b (record {
          blocked = λ _. (refl, refl, refl);
          local = λ p. absurd (true-ne-false b (i.1 p));
          forwarded = λ p. absurd (true-ne-false b (i.1 p));
          rounds = Rounds-none (addresses sv.upstream.upstreams) (tries_of sv.upstream.retries);
          unanswered = λ e. cc;
          store_is = refl;
        })
        | inr b ↦ respond_passed-IsServed b (i.0 b)
      ]

    -- The handler refreshes the policy runtime from the store and serves each request by its
    -- verdict under that runtime: a request with a reason to block gets the blocked response, and
    -- one for a name of the resolver its local address, both without an upstream call and with the
    -- upstream resolver unchanged; any other is forwarded by the exchange. The upstream calls are
    -- those of its tries, each of which calls every upstream once at most and in their order; only
    -- a forwarded request can stay without a reply; and the policy store is the one the verdict
    -- leaves.
    pub dns_handler-IsServed :
        (parse_ip : Text → Option Text) (load_location : Text → Option Location) (local : Location)
        (write : PolicyData → Option StoreError) (sv : Server dns.Msg) (m : dns.Msg)
        (remote proto : Text)
        → let (rt, s) =
            dns_handler dns parse_ip exchange load_location local write sv m remote proto in
          let layer = record sv.layer { runtime = rt } in
          let domain = request_domain (dns.question m) in
          let v =
            decide load_location write layer sv.engine sv.policy_store domain
              (client_address remote) in
          (rt
            ≡ refresh_policy_runtime load_location local
                (some sv.policy_store)
                sv.refresh_now
                sv.layer.runtime)
          × IsServed parse_ip sv m proto domain v s
    unfolding dns_handler decide
    dns_handler-IsServed parse_ip load_location local write sv m remote proto = (
      refl,
      respond-IsServed parse_ip sv m proto _ _
          (judge-passes_iff load_location write _ sv.policy_store _ _ _),
    )
