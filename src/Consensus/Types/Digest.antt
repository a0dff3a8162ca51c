-- ===== src/Consensus/Types/Digest.antt =====
-- What the bytes that are hashed for a block determine.
use dual_optimistic_l.Base.{ℕ, ◌+◌, ◌*◌, ◌^◌, ◌<◌, ◌≡◌, refl, List, [], ◌∷◌, ◌++◌, arith}
use dual_optimistic_l.Consensus.Types.{
  Block, le_bytes, be_bytes, ancestor_bytes, transaction_bytes, digest_input, compute_digest,
}

cons_inj : (a b : ℕ) (xs ys : List ℕ) → ◌≡◌ {A = List ℕ} (a ∷ xs) (b ∷ ys) → (a ≡ b) × (xs ≡ ys)
cons_inj a b xs ys e = ground arith

-- Four bytes more in front.
four_inj :
    (a b c d a' b' c' d' : ℕ) (xs ys : List ℕ)
    → ◌≡◌ {A = List ℕ} (a ∷ b ∷ c ∷ d ∷ xs) (a' ∷ b' ∷ c' ∷ d' ∷ ys)
    → (a ≡ a') × (b ≡ b') × (c ≡ c') × (d ≡ d') × (xs ≡ ys)
four_inj a b c d a' b' c' d' xs ys e =
    let (p, e1) = cons_inj a a' _ _ e in
    let (q, e2) = cons_inj b b' _ _ e1 in
    let (r, e3) = cons_inj c c' _ _ e2 in let (s, e4) = cons_inj d d' xs ys e3 in (p, q, r, s, e4)

le4_inj :
    (x y : ℕ) (xs ys : List ℕ)
    → x < 2 ^ 32
    → y < 2 ^ 32
    → le_bytes 4 x ++ xs ≡ le_bytes 4 y ++ ys
    → (x ≡ y) × (xs ≡ ys)
unfolding le_bytes
le4_inj x y xs ys h k e =
    let (p, q, r, s, rest) = four_inj _ _ _ _ _ _ _ _ xs ys e in (omega arith, rest)

le8_inj :
    (x y : ℕ) (xs ys : List ℕ)
    → x < 2 ^ 64
    → y < 2 ^ 64
    → le_bytes 8 x ++ xs ≡ le_bytes 8 y ++ ys
    → (x ≡ y) × (xs ≡ ys)
unfolding le_bytes
le8_inj x y xs ys h k e =
    let (p, q, r, s, e1) = four_inj _ _ _ _ _ _ _ _ _ _ e in
    let (t, u, v, w, rest) = four_inj _ _ _ _ _ _ _ _ xs ys e1 in (omega arith, rest)

-- The fields of a block that have a fixed width are machine integers.
pub record IsEncodable (b : Block) : Type 0 where
  pub round : b.round < 2 ^ 32
  pub author : b.author < 2 ^ 32
  pub epoch : b.epoch < 2 ^ 64
  pub timestamp_ms : b.timestamp_ms < 2 ^ 64

-- Two blocks with machine integers in their fields that feed the same bytes to the hash have the same
-- round, author, epoch and timestamp.
pub digest_input-header :
    (b d : Block)
    → IsEncodable b
    → IsEncodable d
    → digest_input b ≡ digest_input d
    → (b.round ≡ d.round)
      × (b.author ≡ d.author)
      × (b.epoch ≡ d.epoch)
      × (b.timestamp_ms ≡ d.timestamp_ms)
unfolding digest_input
digest_input-header b d i j e =
    let (p, e1) = le4_inj b.round d.round _ _ i.round j.round e in
    let (q, e2) = le4_inj b.author d.author _ _ i.author j.author e1 in
    let (r, e3) = le8_inj b.epoch d.epoch _ _ i.epoch j.epoch e2 in
    let (s, e4) = le8_inj b.timestamp_ms d.timestamp_ms _ _ i.timestamp_ms j.timestamp_ms e3 in
    (p, q, r, s)

-- A block whose only ancestor has, as its digest, the bytes of a transaction count of one and of a
-- transaction length of 28.
abbrev pub with_ancestor : Block → ℕ → ℕ → Block
with_ancestor b round author = record b {
  ancestors = record { round = round; author = author; digest = 256 ^ 31 + 28 * 256 ^ 27 } ∷ [];
  transactions = [];
}

-- A block without ancestors and with one transaction of 28 zero bytes.
abbrev pub with_transaction : Block → Block
with_transaction b = record b {
  ancestors = [];
  transactions =
      (0 ∷ 0 ∷ 0 ∷ 0 ∷ 0 ∷ 0 ∷ 0 ∷ 0 ∷ 0 ∷ 0 ∷ 0 ∷ 0 ∷ 0 ∷ 0 ∷ 0 ∷ 0 ∷ 0 ∷ 0 ∷ 0 ∷ 0 ∷ 0 ∷ 0 ∷ 0 ∷ 0
        ∷ 0 ∷ 0 ∷ 0 ∷ 0 ∷ [])
      ∷ [];
}

-- Whatever the hash and the header, a block with one ancestor and no transaction and a block with no
-- ancestor and one transaction have the same digest, if the ancestor's digest is chosen for it.
pub compute_digest_collides :
    (sha3 : List ℕ → ℕ) (b : Block) (round author : ℕ)
    → compute_digest sha3 (with_ancestor b round author) ≡ compute_digest sha3 (with_transaction b)
unfolding compute_digest digest_input ancestor_bytes transaction_bytes le_bytes be_bytes
compute_digest_collides sha3 b round author = refl
