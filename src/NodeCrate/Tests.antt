-- ===== src/NodeCrate/Tests.antt =====
-- A configuration read from the environment.
use dual_optimistic_l.Base.{◌≡◌, refl, [], ◌∷◌, arith}
use dual_optimistic_l.NodeCrate.Config.{NodeConfig, ConfigResult, from_env}
use dual_optimistic_l.NodeCrate.Config.Print.{env_of, from_env-env_of}

-- Two peers, `a:1` and `b`.
abbrev third_node : NodeConfig
third_node = record {
  node_index = 2;
  committee_size = 4;
  consensus_port = 9000;
  rpc_port = 8545;
  health_port = 9001;
  peers = (97 ∷ 58 ∷ 49 ∷ []) ∷ (98 ∷ []) ∷ [];
}

from_env-env_of_example : from_env (env_of third_node) ≡ ConfigResult.config third_node
from_env-env_of_example =
    from_env-env_of third_node (omega arith) (omega arith) (omega arith) (omega arith) (omega arith)
      ((refl, refl), ((refl, refl), tt))
