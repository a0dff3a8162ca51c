-- ===== src/NodeCrate/Config.antt =====
-- `NodeConfig` of crates/node/src/lib.rs. A string is its code points, and the environment a function from
-- the variables that the source names.
pub mod Print
use dual_optimistic_l.Base.{
  ℕ, ◌+◌, ◌-◌, ◌*◌, ◌^◌, ◌==◌, ◌&&◌, Bool, true, false, Option, none, some, List, [], ◌∷◌, keep,
  leb, if◌then◌else◌,
}
use dual_optimistic_l.Base.Map.Values.{or_default}

pub data EnvKey : Type 0 where
  node_index committee_size consensus_port rpc_port health_port peers : EnvKey

abbrev pub Env : Type 0
Env = EnvKey → Option (List ℕ)

pub record NodeConfig : Type 0 where
  pub node_index : ℕ
  pub committee_size : ℕ
  pub consensus_port : ℕ
  pub rpc_port : ℕ
  pub health_port : ℕ
  pub peers : List (List ℕ)

-- `Result`: the error names the variable.
pub data ConfigResult : Type 0 where
  config : NodeConfig → ConfigResult
  invalid : EnvKey → ConfigResult

-- The digits of `parse`, up to the largest value of the type.
unfoldable pub parse_digits : ℕ → ℕ → List ℕ → Option ℕ
parse_digits max value [] = some value
parse_digits max value (ch ∷ rest) =
    let next = value * 10 + (ch - 48) in
    let more = parse_digits max next rest in
    if (leb 48 ch && leb ch 57) && leb next max then more else none

-- `parse::<usize>` and `parse::<u16>`: a plus sign may stand in front of at least one digit.
unfoldable pub parse : ℕ → List ℕ → Option ℕ
parse max [] = none
parse max (ch ∷ []) = parse_digits max 0 (ch ∷ [])
parse max (ch ∷ next ∷ rest) =
    parse_digits max 0 (if ch == 43 then next ∷ rest else (ch ∷ next ∷ rest))

abbrev pub push : ℕ → List (List ℕ) → List (List ℕ)
push ch [] = (ch ∷ []) ∷ []
push ch (word ∷ words) = (ch ∷ word) ∷ words

-- `split(',')`
unfoldable pub split : List ℕ → List (List ℕ)
split [] = [] ∷ []
split (ch ∷ rest) = let more = split rest in if ch == 44 then [] ∷ more else push ch more

abbrev pub is_word : List ℕ → Bool
is_word [] = false
is_word (ch ∷ rest) = true

abbrev pub max_usize : ℕ
max_usize = 2 ^ 64 - 1

abbrev pub max_u16 : ℕ
max_u16 = 2 ^ 16 - 1

-- A variable, or its default, as a number; what follows has the number.
unfoldable pub read : Env → EnvKey → ℕ → ℕ → (ℕ → ConfigResult) → ConfigResult
read env key max default next = elim (env key) [
  | none ↦ next default
  | some text ↦ elim (parse max text) [ none ↦ ConfigResult.invalid key | some n ↦ next n ]
]

unfoldable pub from_env : Env → ConfigResult
from_env env = read env EnvKey.node_index max_usize 0 (λ index.
    read env EnvKey.committee_size max_usize 4 (λ size.
      read env EnvKey.consensus_port max_u16 9000 (λ consensus.
        read env EnvKey.rpc_port max_u16 8545 (λ rpc.
          read env EnvKey.health_port max_u16 9001 (λ health. ConfigResult.config (record {
            node_index = index;
            committee_size = size;
            consensus_port = consensus;
            rpc_port = rpc;
            health_port = health;
            peers = keep is_word (split (or_default [] (env EnvKey.peers)));
          }))))))
