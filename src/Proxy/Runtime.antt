-- ===== src/Proxy/Runtime.antt =====
-- The policy runtime that internal/proxy/proxy.go keeps for the handler, and its refresh.
use citadel_dnxproxy.Prelude.{
  ◌*◌, ◌-◌, ◌≤◌, ◌<◌, ◌≡◌, ◌⊎◌, Bool, true, false, ◌||◌, Option, none, some, ltb, arith,
  if◌then◌else◌,
}
use citadel_dnxproxy.Clock.{Time, Location, nanoseconds}
use citadel_dnxproxy.Text.{Text}
use citadel_dnxproxy.Policy.Evaluator.{Runtime}
use citadel_dnxproxy.Policy.Store.{JsonStore}
use citadel_dnxproxy.Policy.Snapshot.{data_snapshot}
use citadel_dnxproxy.Policy.Compiler.{compile}
use citadel_dnxproxy.Accounting.{Manager, new_manager}

-- The variables `policies`, `accountMgr` and `lastPolicyRefresh`.
pub record PolicyRuntime : Type 0 where
  pub policies : Option Runtime
  pub accounts : Option Manager
  pub last_refresh : Time

-- `forcePolicyRuntimeReload`
unfoldable pub force_reload : PolicyRuntime → PolicyRuntime
force_reload rt = record rt { last_refresh = 0 }

module _ (load_location : Text → Option Location) (local : Location) where
  -- A runtime of the store, and its accounting.
  unfoldable pub compiled : JsonStore → Time → PolicyRuntime
  compiled store now =
      let rt = compile load_location local (data_snapshot store) in
      record {
        policies = some rt;
        accounts = some (new_manager rt.settings.idle_timeout_minutes rt.budget_tz);
        last_refresh = now;
      }

  abbrev is_nil : Option Runtime → Bool
  is_nil none = true
  is_nil (some rt) = false

  -- `refreshPolicyRuntime`, with the store, or none for nil.
  unfoldable pub refresh_policy_runtime : Option JsonStore → Time → PolicyRuntime → PolicyRuntime
  unfolding compiled
  refresh_policy_runtime none now rt = rt
  refresh_policy_runtime (some store) now rt =
      if is_nil rt.policies || ltb (2 * nanoseconds) (now - rt.last_refresh)
      then compiled store now
      else rt

  -- With a store, and two seconds after the zero time, the refresh after a forced reload makes the
  -- runtime of the store's snapshot; any other refresh either makes it too, or leaves the runtime,
  -- which was made at most two seconds ago.
  pub refresh_policy_runtime-compiled :
      (store : JsonStore) (now : Time) (rt : PolicyRuntime)
      → 2 * nanoseconds < now
      → (refresh_policy_runtime (some store) now (force_reload rt) ≡ compiled store now)
        × ((refresh_policy_runtime (some store) now rt ≡ compiled store now)
            ⊎ ((refresh_policy_runtime (some store) now rt ≡ rt)
                × (now - rt.last_refresh ≤ 2 * nanoseconds)))
  unfolding refresh_policy_runtime force_reload
  refresh_policy_runtime-compiled store now rt h = ground arith
