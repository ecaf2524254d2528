-- ===== src/Plugins/Isolate/Traffic.antt =====
-- What the NetworkPolicy of network.isolate lets through.
use reactive_policy.Common.{
  ℕ, List, [], ◌∷◌, ◌==◌, Bool, true, false, not, ◌||◌, ◌&&◌, Assoc, String, ◌≡◌, arith,
}
use reactive_policy.Action.Types.{ExecuteInput}
use reactive_policy.Plugins.Kit.{NetworkPolicy, PolicyType, Protocol, PortRule}
use reactive_policy.Plugins.Isolate.Policy.{
  IsolateParams, desired_policy, isolates_ingress, isolates_egress, allow_dns,
}

-- How Kubernetes documents a NetworkPolicy: of the directions that its types name, it lets through
-- what some rule lets through, and it does not touch the others. A policy that names no types is for
-- ingress, and for egress as well if it has egress rules. A rule without ports is for all.
abbrev same_protocol : Protocol → Protocol → Bool
same_protocol Protocol.tcp Protocol.tcp = true
same_protocol Protocol.udp Protocol.udp = true
same_protocol Protocol.sctp Protocol.sctp = true
same_protocol _ _ = false

abbrev has_port : Protocol → ℕ → List (Protocol × ℕ) → Bool
has_port protocol port [] = false
has_port protocol port ((here, number) ∷ rest) =
    (same_protocol here protocol && number == port) || has_port protocol port rest

abbrev lets_through : Protocol → ℕ → List (Protocol × ℕ) → Bool
lets_through protocol port [] = true
lets_through protocol port (first ∷ rest) = has_port protocol port (first ∷ rest)

abbrev some_rule : Protocol → ℕ → List PortRule → Bool
some_rule protocol port [] = false
some_rule protocol port (rule ∷ rest) =
    lets_through protocol port rule.ports || some_rule protocol port rest

abbrev same_type : PolicyType → PolicyType → Bool
same_type PolicyType.ingress PolicyType.ingress = true
same_type PolicyType.egress PolicyType.egress = true
same_type _ _ = false

abbrev concerns : PolicyType → List PolicyType → Bool
concerns way [] = false
concerns way (here ∷ rest) = same_type here way || concerns way rest

abbrev rules_of : PolicyType → NetworkPolicy → List PortRule
rules_of PolicyType.ingress np = np.ingress_rules
rules_of PolicyType.egress np = np.egress_rules

abbrev types_or_default : NetworkPolicy → List PolicyType → List PolicyType
types_or_default np (way ∷ ways) = way ∷ ways
types_or_default np [] = elim np.egress_rules [
  | [] ↦ PolicyType.ingress ∷ []
  | rule ∷ rest ↦ PolicyType.ingress ∷ PolicyType.egress ∷ []
]

abbrev pub allows : NetworkPolicy → PolicyType → Protocol → ℕ → Bool
allows np way protocol port =
    not (concerns way (types_or_default np np.policy_types))
    || some_rule protocol port (rules_of way np)

-- A DNS request, over UDP or TCP.
abbrev pub is_dns : Protocol → ℕ → Bool
is_dns Protocol.sctp port = false
is_dns _ port = 53 == port

-- The policy that isolates a workload lets in everything if the direction is egress, and nothing
-- otherwise; so it does for a direction that is none of ingress, egress and both, which Execute takes
-- although Validate does not. It lets out nothing if the direction is egress or both, but for DNS over
-- UDP and TCP on port 53 unless that is forbidden, and everything otherwise.
pub desired_policy-allows :
    (input : ExecuteInput) (params : IsolateParams) (selector : Assoc String) (protocol : Protocol)
    (port : ℕ)
    → let np = desired_policy input params selector in
      (allows np PolicyType.ingress protocol port
        ≡ not (isolates_ingress params) && isolates_egress params)
      × (allows np PolicyType.egress protocol port
          ≡ not (isolates_egress params) || (allow_dns params && is_dns protocol port))
unfolding desired_policy
desired_policy-allows input params selector protocol port = (ground arith, ground arith)
