-- ===== src/Proxy/Upstream/Calls.antt =====
-- How often the upstreams are called, and where a reply comes from.
use mathlib.Core.Path.{ap₂}
use mathlib.Core.List.{Memᴰ, append-nil}
use citadel_dnxproxy.Prelude.{
  subst, length-append, if_cases, ℕ, zero, suc, ◌+◌, ◌≤◌, ◌<◌, ◌≡◌, refl, ap, ◌∙◌, sym, List, [],
  ◌∷◌, ◌++◌, map, Option, none, some, arith, length,
}
use citadel_dnxproxy.Prelude.Int.{ℤ}
use citadel_dnxproxy.Prelude.Result.{Result, ok, err}
use citadel_dnxproxy.Clock.{Time}
use citadel_dnxproxy.Text.{Text}
use citadel_dnxproxy.Proxy.Dns.{Dns}
use citadel_dnxproxy.Proxy.Upstream.{
  UpstreamState, UpstreamResolver, Pass, is_unhealthy, try_upstreams, try_passes, exchange_msg,
  finish, store_reply, cached, cache_key, after_call, mark_fail, mark_success, tries_of,
  called_before,
}

abbrev pub addresses : List UpstreamState → List Text
addresses = map (λ (s : UpstreamState). s.addr)

-- Some of the upstreams, each once and in their order.
pub data CallsOnce : List Text → List Text → Type 0 where
  ends : CallsOnce [] []
  skips :
      {addr : Text} {addrs called : List Text}
      → CallsOnce addrs called
      → CallsOnce (addr ∷ addrs) called
  takes :
      {addr : Text} {addrs called : List Text}
      → CallsOnce addrs called
      → CallsOnce (addr ∷ addrs) (addr ∷ called)

CallsOnce-none : (addrs : List Text) → CallsOnce addrs []
CallsOnce-none [] = CallsOnce.ends
CallsOnce-none (addr ∷ addrs) = CallsOnce.skips (CallsOnce-none addrs)

-- The calls of a number of tries.
abbrev pub Rounds : List Text → ℕ → List Text → Type 0
Rounds addrs zero called = called ≡ []
Rounds addrs (suc tries) called =
    (first : List Text) × (rest : List Text) × (called ≡ first ++ rest)
    × CallsOnce addrs first
    × Rounds addrs tries rest

pub Rounds-none : (addrs : List Text) (tries : ℕ) → Rounds addrs tries []
Rounds-none addrs zero = refl
Rounds-none addrs (suc tries) = ([], [], refl, CallsOnce-none addrs, Rounds-none addrs tries)

is_unhealthy-addr :
    (max_fails fail_window : ℤ) (now : Time) (s : UpstreamState)
    → (is_unhealthy max_fails fail_window now s).1.addr ≡ s.addr
unfolding is_unhealthy
is_unhealthy-addr max_fails fail_window now s = ground arith

module _ (dns : Dns) (exchange : ℕ → dns.Msg → Text → Text → ℤ → Result Text dns.Msg)
    (u : UpstreamResolver dns.Msg) (req : dns.Msg) (proto : Text) (now : Time) where
  -- A reply that the upstreams of `ss` gave to one of the calls from number `calls` on.
  abbrev pub GivenBy : List UpstreamState → ℕ → ℕ → Option dns.Msg → Type 0
  GivenBy ss calls end none = Unit
  GivenBy ss calls end (some resp) =
      (k : ℕ) × (s : UpstreamState) × (calls ≤ k)
      × (k < end)
      × Memᴰ s.addr (addresses ss)
      × (exchange k req s.addr proto u.timeout ≡ ok resp)

  -- What a pass over `ss` does: it keeps the addresses in their order, calls each upstream once at
  -- most, in their order, and a reply is an upstream's answer to one of its calls.
  pub record IsPass (ss : List UpstreamState) (calls : ℕ) (p : Pass dns) : Type 0 where
    pub same_addresses : addresses p.upstreams ≡ addresses ss
    pub numbered : p.calls ≡ calls + length p.called
    pub once : CallsOnce (addresses ss) p.called
    pub given : GivenBy ss calls p.calls p.reply

  -- The same of a number of passes.
  pub record ArePasses (tries : ℕ) (ss : List UpstreamState) (calls : ℕ) (p : Pass dns)
      : Type 0 where
    pub same_addresses : addresses p.upstreams ≡ addresses ss
    pub numbered : p.calls ≡ calls + length p.called
    pub rounds : Rounds (addresses ss) tries p.called
    pub given : GivenBy ss calls p.calls p.reply

  GivenBy-weaken :
      (s : UpstreamState) (ss : List UpstreamState) (calls calls' end : ℕ) (o : Option dns.Msg)
      → calls ≤ calls'
      → GivenBy ss calls' end o
      → GivenBy (s ∷ ss) calls end o
  GivenBy-weaken s ss calls calls' end none h g = tt
  GivenBy-weaken s ss calls calls' end (some resp) h (k, t, lo, hi, m, e) =
      (k, t, omega arith, hi, Memᴰ.tail m, e)

  IsPass-skip :
      (s : UpstreamState) (ss : List UpstreamState) (calls : ℕ) (s' : UpstreamState) (p : Pass dns)
      → s'.addr ≡ s.addr
      → IsPass ss calls p
      → IsPass (s ∷ ss) calls (record p { upstreams = s' ∷ p.upstreams })
  IsPass-skip s ss calls s' p same i = record {
    same_addresses = ap₂ ◌∷◌ same i.same_addresses;
    numbered = i.numbered;
    once = CallsOnce.skips i.once;
    given = GivenBy-weaken s ss calls calls p.calls p.reply (omega arith) i.given;
  }

  IsPass-call :
      (s : UpstreamState) (ss : List UpstreamState) (calls : ℕ) (s' : UpstreamState) (addr : Text)
      → (p : Pass dns) → s'.addr ≡ s.addr
      → addr ≡ s.addr
      → IsPass ss (suc calls) p
      → IsPass (s ∷ ss) calls (record p { upstreams = s' ∷ p.upstreams; called = addr ∷ p.called })
  IsPass-call s ss calls s' addr p same called i = record {
    same_addresses = ap₂ ◌∷◌ same i.same_addresses;
    numbered = omega (arith, i.numbered);
    once =
        subst (λ a. CallsOnce (addresses (s ∷ ss)) (a ∷ p.called)) (sym called)
          (CallsOnce.takes i.once);
    given = GivenBy-weaken s ss calls (suc calls) p.calls p.reply (omega arith) i.given;
  }

  after_call-IsPass :
      (s s' : UpstreamState) (ss : List UpstreamState) (calls : ℕ) (last_err : Option Text)
      (rest : ℕ → Option Text → Pass dns) (o : Result Text dns.Msg)
      → s'.addr ≡ s.addr
      → exchange calls req s'.addr proto u.timeout ≡ o
      → ((e : Option Text) → IsPass ss (suc calls) (rest (suc calls) e))
      → IsPass (s ∷ ss) calls (after_call dns exchange u req proto now s' ss calls last_err rest o)
  unfolding mark_fail mark_success
  after_call-IsPass s s' ss calls last_err rest (err e) same answer ih =
      IsPass-call s ss calls _ s'.addr _ same same (ih (some e))
  after_call-IsPass s s' ss calls last_err rest (ok resp) same answer ih = record {
    same_addresses = ap₂ ◌∷◌ same refl;
    numbered = omega arith;
    once =
        subst (λ a. CallsOnce (addresses (s ∷ ss)) (a ∷ [])) (sym same)
          (CallsOnce.takes (CallsOnce-none (addresses ss)));
    given = (
      calls,
      s,
      omega arith,
      omega arith,
      Memᴰ.head refl,
      ap (λ a. exchange calls req a proto u.timeout) (sym same) ∙ answer,
    );
  }

  try_upstreams-IsPass :
      (ss : List UpstreamState) (calls : ℕ) (last_err : Option Text)
      → IsPass ss calls (try_upstreams dns exchange u req proto now ss calls last_err)
  unfolding try_upstreams
  try_upstreams-IsPass [] calls last_err = record {
    same_addresses = refl;
    numbered = omega arith;
    once = CallsOnce.ends;
    given = tt;
  }
  try_upstreams-IsPass (s ∷ ss) calls last_err =
      let same = is_unhealthy-addr u.max_fails u.fail_window now s in
      let s' = (is_unhealthy u.max_fails u.fail_window now s).1 in
      if_cases (IsPass (s ∷ ss) calls) (is_unhealthy u.max_fails u.fail_window now s).0 _ _
        (λ _. IsPass-skip s ss calls s' _ same (try_upstreams-IsPass ss calls last_err))
        (λ _.
          after_call-IsPass s s' ss calls last_err (try_upstreams dns exchange u req proto now ss) _
            same refl (λ e. try_upstreams-IsPass ss (suc calls) e))

  -- The upstreams a pass leaves behind have the addresses of those before it.
  GivenBy-same :
      (ss ss' : List UpstreamState) (calls calls' end : ℕ) (o : Option dns.Msg)
      → addresses ss' ≡ addresses ss
      → calls ≤ calls'
      → GivenBy ss' calls' end o
      → GivenBy ss calls end o
  GivenBy-same ss ss' calls calls' end none same h g = tt
  GivenBy-same ss ss' calls calls' end (some resp) same h (k, t, lo, hi, m, e) =
      (k, t, omega arith, hi, subst (Memᴰ t.addr) same m, e)

  -- A pass, and others over what it leaves.
  ArePasses-suc :
      (tries : ℕ) (ss : List UpstreamState) (calls : ℕ) (p q : Pass dns)
      → IsPass ss calls p
      → ArePasses tries p.upstreams p.calls q
      → ArePasses (suc tries) ss calls (called_before dns p.called q)
  ArePasses-suc tries ss calls p q i j = record {
    same_addresses = j.same_addresses ∙ i.same_addresses;
    numbered = omega (arith, i.numbered, j.numbered, length-append p.called q.called);
    rounds = (
      p.called,
      q.called,
      refl,
      i.once,
      subst (λ addrs. Rounds addrs tries q.called) i.same_addresses j.rounds,
    );
    given =
        GivenBy-same ss p.upstreams calls p.calls q.calls q.reply i.same_addresses
          (omega (arith, i.numbered)) j.given;
  }

  ArePasses-one :
      (tries : ℕ) (ss : List UpstreamState) (calls : ℕ) (p : Pass dns)
      → IsPass ss calls p
      → ArePasses (suc tries) ss calls p
  ArePasses-one tries ss calls p i = record {
    same_addresses = i.same_addresses;
    numbered = i.numbered;
    rounds = (p.called, [], sym (append-nil p.called), i.once, Rounds-none (addresses ss) tries);
    given = i.given;
  }

  ArePasses-either :
      (tries : ℕ) (ss : List UpstreamState) (calls : ℕ) (o : Option dns.Msg) (p q : Pass dns)
      → ArePasses tries ss calls p
      → ArePasses tries ss calls q
      → ArePasses tries ss calls (elim o [ some resp ↦ p | none ↦ q ])
  ArePasses-either tries ss calls none p q i j = j
  ArePasses-either tries ss calls (some resp) p q i j = i

  try_passes-ArePasses :
      (tries : ℕ) (ss : List UpstreamState) (calls : ℕ) (last_err : Option Text)
      → ArePasses tries ss calls (try_passes dns exchange u req proto now tries ss calls last_err)
  unfolding try_passes
  try_passes-ArePasses zero ss calls last_err = record {
    same_addresses = refl;
    numbered = omega arith;
    rounds = refl;
    given = tt;
  }
  try_passes-ArePasses (suc tries) ss calls last_err =
      let p = try_upstreams dns exchange u req proto now ss calls last_err in
      let again = try_passes dns exchange u req proto now tries p.upstreams p.calls p.last_err in
      let i = try_upstreams-IsPass ss calls last_err in
      let j = try_passes-ArePasses tries p.upstreams p.calls p.last_err in
      ArePasses-either (suc tries) ss calls p.reply p _ (ArePasses-one tries ss calls p i)
        (ArePasses-suc tries ss calls p again i j)

  abbrev pub reply_of : Result (Option Text) dns.Msg → Option dns.Msg
  reply_of (ok resp) = some resp
  reply_of (err e) = none

  finish-calls :
      (key : Text) (p : Pass dns)
      → let (u', answer, calls) = finish dns u key now p in
        (addresses u'.upstreams ≡ addresses p.upstreams)
        × (calls ≡ p.called)
        × (reply_of answer ≡ p.reply)
  unfolding store_reply
  finish-calls key p = ground arith

  abbrev pub all_passes : Pass dns
  all_passes = try_passes dns exchange u req proto now (tries_of u.retries) u.upstreams 0 none

  pub exchange_msg-miss :
      cached dns u (cache_key (dns.question req)) now ≡ none
      → exchange_msg dns exchange u req proto now
        ≡ finish dns u (cache_key (dns.question req)) now all_passes
  unfolding exchange_msg
  exchange_msg-miss miss = rw (miss, exchange_msg)

  -- Exchange without a cached reply keeps the addresses of the upstreams in their order; the calls
  -- it makes are those of its tries, one after the other, each of which calls every upstream once
  -- at most and in their order; and a reply that it returns is the answer of one of its upstreams
  -- to one of these calls.
  pub exchange_msg-calls :
      cached dns u (cache_key (dns.question req)) now ≡ none
      → let (u', answer, called) = exchange_msg dns exchange u req proto now in
        (addresses u'.upstreams ≡ addresses u.upstreams)
        × Rounds (addresses u.upstreams) (tries_of u.retries) called
        × GivenBy u.upstreams 0 (length called) (reply_of answer)
  exchange_msg-calls miss =
      let i = try_passes-ArePasses (tries_of u.retries) u.upstreams 0 none in
      let (same, called, reply) = finish-calls (cache_key (dns.question req)) all_passes in
      rw (exchange_msg-miss miss) (
        same ∙ i.same_addresses,
        rw called i.rounds,
        rw (called, reply)
            (subst (λ n. GivenBy u.upstreams 0 n all_passes.reply) (omega (arith, i.numbered))
              i.given),
      )
