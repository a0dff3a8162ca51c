-- ===== src/NodeCrate/Config/Print.antt =====
-- A configuration written into the environment is read back.
use dual_optimistic_l.Base.{
  ℕ, zero, suc, ◌+◌, ◌*◌, ◌/◌, ◌%◌, ◌≤◌, ◌<◌, ◌==◌, ◌≡◌, refl, sym, ap, ◌∙◌, inl, inr, true, not,
  some, List, [], ◌∷◌, ◌++◌, All, all, keep, ltb, if◌then◌else◌, arith, Bool-cases,
}
use dual_optimistic_l.NodeCrate.Config.{
  EnvKey, Env, NodeConfig, ConfigResult, parse_digits, parse, split, is_word, max_usize, max_u16,
  read, from_env,
}

-- The decimal digits of a number in front of a text.
unfoldable pub print_digits : ℕ → ℕ → List ℕ → List ℕ
print_digits zero n text = (48 + n) ∷ text
print_digits (suc fuel) n text =
    if ltb n 10 then (48 + n) ∷ text else print_digits fuel (n / 10) ((48 + n % 10) ∷ text)

abbrev pub print : ℕ → List ℕ
print n = print_digits n n []

parse_one :
    (max v d : ℕ) (text : List ℕ)
    → d < 10
    → v * 10 + d ≤ max
    → parse_digits max v ((48 + d) ∷ text) ≡ parse_digits max (v * 10 + d) text
unfolding parse_digits
parse_one max v d text h l = ground arith

parse_digits-print_digits :
    (fuel max n : ℕ) (text : List ℕ)
    → n ≤ fuel
    → n ≤ max
    → parse_digits max 0 (print_digits fuel n text) ≡ parse_digits max n text
unfolding print_digits
parse_digits-print_digits zero max n text f m =
    let z : n ≡ 0 = omega arith in rw z (parse_one max 0 0 text (omega arith) (omega arith))
parse_digits-print_digits (suc fuel) max n text f m = elim (Bool-cases (ltb n 10)) [
  | inl small ↦ rw small (
      parse_one max 0 n text (ground arith) (omega arith)
      ∙ ap (λ v. parse_digits max v text) (omega arith))
  | inr large ↦ rw large (
      parse_digits-print_digits fuel max (n / 10) ((48 + n % 10) ∷ text) (ground arith)
        (omega arith)
      ∙ parse_one max (n / 10) (n % 10) text (omega arith) (omega arith)
      ∙ ap (λ v. parse_digits max v text) (omega arith))
]

starts_with_digit :
    (fuel n : ℕ) (text : List ℕ)
    → n ≤ fuel
    → (ch : ℕ) × (rest : List ℕ) × (print_digits fuel n text ≡ ch ∷ rest) × (48 ≤ ch)
unfolding print_digits
starts_with_digit zero n text f = (48 + n, text, refl, omega arith)
starts_with_digit (suc fuel) n text f = elim (Bool-cases (ltb n 10)) [
  | inl small ↦ (48 + n, text, rw small, omega arith)
  | inr large ↦
      let (ch, rest, e, h) =
        starts_with_digit fuel (n / 10) ((48 + n % 10) ∷ text) (ground arith) in
      (ch, rest, rw large e, h)
]

parse_signless :
    (max ch : ℕ) (rest : List ℕ) → 48 ≤ ch → parse max (ch ∷ rest) ≡ parse_digits max 0 (ch ∷ rest)
unfolding parse
parse_signless max ch [] h = refl
parse_signless max ch (next ∷ rest) h = ap (parse_digits max 0) (ground arith)

parse-print : (max n : ℕ) → n ≤ max → parse max (print n) ≡ some n
unfolding parse_digits
parse-print max n m =
    let (ch, rest, e, h) = starts_with_digit n n [] (omega arith) in
    ap (parse max) e
    ∙ parse_signless max ch rest h
    ∙ ap (parse_digits max 0) (sym e)
    ∙ parse_digits-print_digits n max n [] (omega arith) m

-- The peers, with commas between them.
unfoldable pub join : List (List ℕ) → List ℕ
join [] = []
join (p ∷ []) = p
join (p ∷ q ∷ rest) = p ++ (44 ∷ join (q ∷ rest))

-- A peer that can be written: not empty, and without a comma.
abbrev pub IsPeer : List ℕ → Type 0
IsPeer p = (is_word p ≡ true) × (all (λ ch. not (ch == 44)) p ≡ true)

split_word : (p : List ℕ) → all (λ ch. not (ch == 44)) p ≡ true → split p ≡ p ∷ []
unfolding split
split_word [] h = refl
split_word (ch ∷ rest) h = ground (arith, split_word rest)

split_first :
    (p more : List ℕ)
    → all (λ ch. not (ch == 44)) p ≡ true
    → split (p ++ (44 ∷ more)) ≡ p ∷ split more
unfolding split
split_first [] more h = refl
split_first (ch ∷ rest) more h = ground (arith, split_first rest more)

keep_word :
    (p : List ℕ) (ws : List (List ℕ))
    → is_word p ≡ true
    → keep is_word (p ∷ ws) ≡ p ∷ keep is_word ws
keep_word p ws h = rw (h, keep)

split-join : (ps : List (List ℕ)) → All IsPeer ps → keep is_word (split (join ps)) ≡ ps
unfolding join split
split-join [] h = refl
split-join (p ∷ []) h = ap (keep is_word) (split_word p h.0.1) ∙ keep_word p [] h.0.0
split-join (p ∷ q ∷ rest) h =
    ap (keep is_word) (split_first p (join (q ∷ rest)) h.0.1)
    ∙ keep_word p (split (join (q ∷ rest))) h.0.0
    ∙ ap (λ ws. p ∷ ws) (split-join (q ∷ rest) h.1)

-- Every variable set to a value of the configuration.
abbrev pub env_of : NodeConfig → Env
env_of c EnvKey.node_index = some (print c.node_index)
env_of c EnvKey.committee_size = some (print c.committee_size)
env_of c EnvKey.consensus_port = some (print c.consensus_port)
env_of c EnvKey.rpc_port = some (print c.rpc_port)
env_of c EnvKey.health_port = some (print c.health_port)
env_of c EnvKey.peers = some (join c.peers)

read_printed :
    (env : Env) (key : EnvKey) (max default n : ℕ) (next : ℕ → ConfigResult)
    → env key ≡ some (print n)
    → n ≤ max
    → read env key max default next ≡ next n
unfolding read
read_printed env key max default n next e h = rw (e, parse-print max n h, read)

-- A configuration whose numbers fit their types, and whose peers are not empty and have no comma, is read
-- back unchanged from the environment that sets every variable to its value, the numbers in decimal
-- and the peers with commas between them.
pub from_env-env_of :
    (c : NodeConfig)
    → c.node_index ≤ max_usize
    → c.committee_size ≤ max_usize
    → c.consensus_port ≤ max_u16
    → c.rpc_port ≤ max_u16
    → c.health_port ≤ max_u16
    → All IsPeer c.peers
    → from_env (env_of c) ≡ ConfigResult.config c
unfolding from_env
from_env-env_of c h1 h2 h3 h4 h5 h6 =
    let e = env_of c in
    read_printed e EnvKey.node_index max_usize 0 c.node_index _ refl h1
    ∙ read_printed e EnvKey.committee_size max_usize 4 c.committee_size _ refl h2
    ∙ read_printed e EnvKey.consensus_port max_u16 9000 c.consensus_port _ refl h3
    ∙ read_printed e EnvKey.rpc_port max_u16 8545 c.rpc_port _ refl h4
    ∙ read_printed e EnvKey.health_port max_u16 9001 c.health_port _ refl h5
    ∙ ap (λ ps. ConfigResult.config (record c { peers = ps })) (split-join c.peers h6)
