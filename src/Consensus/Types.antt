-- ===== src/Consensus/Types.antt =====
-- crates/consensus/src/types.rs: blocks, their references and slots. A 32-byte digest is the number
-- that its bytes spell, most significant first, so that its order is the byte order; a transaction
-- is its bytes. SHA3-256 is a parameter.
pub mod Digest
use dual_optimistic_l.Base.{
  ℕ, zero, suc, ◌-◌, ◌/◌, ◌%◌, ◌^◌, ◌≡◌, ◌↔◌, Bool, true, false, ◌&&◌, ◌||◌, List, [], ◌∷◌, ◌++◌,
  length, ltb, ◌==◌, arith,
}
use dual_optimistic_l.Base.Key.{Key}
use dual_optimistic_l.Consensus.Committee.{Committee}

abbrev pub genesis_round : ℕ
genesis_round = 0

abbrev pub digest_max : ℕ
digest_max = 2 ^ 256 - 1

pub record BlockRef : Type 0 where
  pub round : ℕ
  pub author : ℕ
  pub digest : ℕ

pub record Slot : Type 0 where
  pub round : ℕ
  pub authority : ℕ

-- `Slot::from(BlockRef)`
abbrev pub slot_of : BlockRef → Slot
slot_of b = record { round = b.round; authority = b.author }

abbrev pub slot_eqb : Slot → Slot → Bool
slot_eqb s t = s.round == t.round && s.authority == t.authority

-- The derived `Eq` and `Ord` of `BlockRef`: by round, author and digest.
abbrev pub ref_eqb : BlockRef → BlockRef → Bool
ref_eqb a b = a.round == b.round && (a.author == b.author && a.digest == b.digest)

abbrev pub ref_less : BlockRef → BlockRef → Bool
ref_less a b =
    ltb a.round b.round
    || (a.round == b.round
        && (ltb a.author b.author || (a.author == b.author && ltb a.digest b.digest)))

pub ref_iff : (a b : BlockRef) → (ref_eqb a b ≡ true) ↔ (a ≡ b)
ref_iff a b = ground arith

pub ref_irrefl : (a : BlockRef) → ref_less a a ≡ false
ref_irrefl a = ground arith

pub ref_trans : (a b c : BlockRef) → ref_less a b ≡ true → ref_less b c ≡ true → ref_less a c ≡ true
ref_trans a b c h k = ground arith

pub ref_total : (a b : BlockRef) → ref_eqb a b ≡ false → ref_less a b ≡ false → ref_less b a ≡ true
ref_total a b h k = ground arith

instance abbrev pub ref_key : Key BlockRef
ref_key = record {
  eqb = ref_eqb;
  less = ref_less;
  eqb_iff = ref_iff;
  less_irrefl = ref_irrefl;
  less_trans = ref_trans;
  less_total = ref_total;
}

abbrev pub Transaction : Type 0
Transaction = List ℕ

pub record Block : Type 0 where
  pub epoch : ℕ
  pub round : ℕ
  pub author : ℕ
  pub timestamp_ms : ℕ
  pub ancestors : List BlockRef
  pub transactions : List Transaction

-- A block with its cached digest.
pub record VerifiedBlock : Type 0 where
  pub block : Block
  pub open block use *
  pub digest : ℕ

abbrev pub reference : VerifiedBlock → BlockRef
reference b = record { round = b.round; author = b.author; digest = b.digest }

abbrev pub slot : VerifiedBlock → Slot
slot b = record { round = b.round; authority = b.author }

-- `to_le_bytes` of a number of `n` bytes.
unfoldable pub le_bytes : ℕ → ℕ → List ℕ
le_bytes zero x = []
le_bytes (suc n) x = (x % 256) ∷ le_bytes n (x / 256)

-- The 32 bytes of a digest, most significant first.
unfoldable pub be_bytes : ℕ → ℕ → List ℕ
be_bytes zero x = []
be_bytes (suc n) x = (x / 256 ^ n % 256) ∷ be_bytes n x

unfoldable pub ancestor_bytes : List BlockRef → List ℕ
ancestor_bytes [] = []
ancestor_bytes (a ∷ rest) = be_bytes 32 a.digest ++ ancestor_bytes rest

unfoldable pub transaction_bytes : List Transaction → List ℕ
transaction_bytes [] = []
transaction_bytes (t ∷ rest) = le_bytes 4 (length t % 2 ^ 32) ++ (t ++ transaction_bytes rest)

-- All that `compute_digest` feeds to the hash.
unfoldable pub digest_input : Block → List ℕ
digest_input b =
    le_bytes 4 b.round
    ++ (le_bytes 4 b.author
        ++ (le_bytes 8 b.epoch
            ++ (le_bytes 8 b.timestamp_ms
                ++ (ancestor_bytes b.ancestors
                    ++ (le_bytes 4 (length b.transactions % 2 ^ 32)
                        ++ transaction_bytes b.transactions)))))

module _ (sha3 : List ℕ → ℕ) where
  unfoldable pub compute_digest : Block → ℕ
  compute_digest b = sha3 (digest_input b)

  unfoldable pub new_verified : Block → VerifiedBlock
  new_verified b = record { block = b; digest = compute_digest b }

  -- The block of one authority at round 0.
  unfoldable pub genesis_block : ℕ → ℕ → VerifiedBlock
  genesis_block epoch author = new_verified (record {
    epoch = epoch;
    round = genesis_round;
    author = author;
    timestamp_ms = 0;
    ancestors = [];
    transactions = [];
  })

  -- The authorities from index `i` on, `n` of them.
  unfoldable pub genesis_from : ℕ → ℕ → ℕ → List VerifiedBlock
  genesis_from epoch i zero = []
  genesis_from epoch i (suc n) = genesis_block epoch i ∷ genesis_from epoch (suc i) n

  unfoldable pub genesis_blocks : Committee → List VerifiedBlock
  genesis_blocks c = genesis_from c.epoch 0 (length c.authorities)
