-- ===== src/Consensus/TestsDigest.antt =====
-- Two concrete blocks with the same bytes to hash.
use dual_optimistic_l.Base.{ℕ, ◌≡◌, refl, List, [], arith}
use dual_optimistic_l.Consensus.Types.{
  Block, digest_input, ancestor_bytes, transaction_bytes, le_bytes, be_bytes, compute_digest,
}
use dual_optimistic_l.Consensus.Types.Digest.{
  IsEncodable, with_ancestor, with_transaction, digest_input-header, compute_digest_collides,
}

abbrev checksum : List ℕ → ℕ
checksum bytes = 7

abbrev empty_block : Block
empty_block = record {
  epoch = 0;
  round = 2;
  author = 1;
  timestamp_ms = 6;
  ancestors = [];
  transactions = [];
}

abbrev with_first : Block
with_first = with_ancestor empty_block 1 0

abbrev with_bytes : Block
with_bytes = with_transaction empty_block

with_first-IsEncodable : IsEncodable with_first
with_first-IsEncodable = record {
  round = omega arith;
  author = omega arith;
  epoch = omega arith;
  timestamp_ms = omega arith;
}

with_bytes-IsEncodable : IsEncodable with_bytes
with_bytes-IsEncodable = record {
  round = omega arith;
  author = omega arith;
  epoch = omega arith;
  timestamp_ms = omega arith;
}

same_input : digest_input with_first ≡ digest_input with_bytes
unfolding digest_input ancestor_bytes transaction_bytes le_bytes be_bytes
same_input = refl

digest_input-header_example :
    (with_first.round ≡ with_bytes.round)
    × (with_first.author ≡ with_bytes.author)
    × (with_first.epoch ≡ with_bytes.epoch)
    × (with_first.timestamp_ms ≡ with_bytes.timestamp_ms)
digest_input-header_example =
    digest_input-header with_first with_bytes with_first-IsEncodable with_bytes-IsEncodable
      same_input

compute_digest_collides_example :
    compute_digest checksum (with_ancestor empty_block 1 0)
    ≡ compute_digest checksum (with_transaction empty_block)
compute_digest_collides_example = compute_digest_collides checksum empty_block 1 0
