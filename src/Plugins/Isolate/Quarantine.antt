-- ===== src/Plugins/Isolate/Quarantine.antt =====
-- What network.isolate may write to the cluster.
use reactive_policy.Common.{true, err, String, false, ok, Error, ◌≡◌, is_not_found}
use reactive_policy.Platform.{Platform}
use Prim.Native.String.{◌++◌ as join}
use reactive_policy.Action.Types.{Target}
use reactive_policy.Plugins.Kit.{Client, Kit, Attempt, NetworkPolicy}
use reactive_policy.Plugins.Isolate.Policy.{is_empty}

-- The name of the policy for a target
abbrev pub own_name : Target → String
own_name target = join "rp-isolate-" target.name

-- A property of the outside that is kept when the clock, the target, and the policy for it in its
-- namespace are read; and when a policy with that name, in that namespace, is created where the read
-- found none, or is written over the one that the read gave, under the name and namespace of that
-- one. What is written has a selector: an empty one would take in every pod of the namespace.
pub record KeptByQuarantine {W F O : Type 0} (p : Platform W F) (c : Client W O) (target : Target)
    (P : W → Type 0) : Type 0 where
  pub kept_now : (w : W) → P w → P (p.now w).1
  pub kept_get :
      (w : W) → P w → P (c.get target.api_version target.kind target.namespace target.name w).1
  pub kept_get_policy :
      (w : W) → P w → P (c.get_network_policy target.namespace (own_name target) w).1
  pub kept_create :
      (np : NetworkPolicy) (failure : Error) (w : W)
      → let got = c.get_network_policy target.namespace (own_name target) w in
        got.0 ≡ err failure
        → is_not_found failure ≡ true
        → np.namespace ≡ target.namespace
        → np.name ≡ own_name target
        → is_empty np.pod_selector ≡ false
        → P got.1
        → P (c.create_network_policy np got.1).1
  pub kept_update :
      (np existing : NetworkPolicy) (w : W)
      → let got = c.get_network_policy target.namespace (own_name target) w in
        got.0 ≡ ok existing
        → np.namespace ≡ existing.namespace
        → np.name ≡ existing.name
        → is_empty np.pod_selector ≡ false
        → P got.1
        → P (c.update_network_policy np got.1).1

module _ {W : Type 0} (P : W → Type 0) where
  abbrev Keeps : {A : Type 0} → Attempt W A → Type 0
  Keeps m = (w : W) → P w → P (m w).1
