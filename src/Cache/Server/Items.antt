-- ===== src/Cache/Server/Items.antt =====
-- cache/serve.go, GetItem: what it returns from well-formed files.
use sialite.Base.{
  ℕ, suc, ◌+◌, ◌-◌, ◌*◌, ◌≤◌, ◌<◌, ◌≡◌, refl, true, false, List, [], ◌∷◌, All, Bytes, length,
  concat, slice, ◌==◌, ==-refl, ltb, lt→ltb, le→ltb, if◌then◌else◌, Result, ok, arith,
}
use sialite.Cache.Server.{
  Server, Location, no_compression, snappy, data_start, data_end, find_block, get_block_location,
  all_sized, pieces, with_proof, item_of_block, get_item,
}

all_sized-All :
    (size : ℕ) (hs : List Bytes) → All (λ h. length h ≡ size) hs → all_sized size hs ≡ true
unfolding all_sized
all_sized-All size [] a = refl
all_sized-All size (h ∷ hs) a = rw (a.0, ==-refl size) (all_sized-All size hs a.1)

module _ (hash_size : ℕ) (prove : ℕ → List Bytes → Result (List Bytes)) (s : Server)
    (item block : ℕ) (l : Location) where
  -- The hashes of the leaves of the block.
  abbrev pub leaves : List Bytes
  leaves =
      let n = l.next_start - l.payouts_start in
      pieces n hash_size (slice (l.payouts_start * hash_size) (n * hash_size) s.files.leaves_hashes)

  pub get_item-located :
      (hashes : List Bytes)
      → item < s.nitems
      → data_start s item ≤ data_end s item
      → data_end s item ≤ length s.files.blockchain
      → find_block s item ≡ suc block
      → get_block_location s block ≡ l
      → l.payouts_start ≤ l.next_start
      → l.payouts_start * hash_size + (l.next_start - l.payouts_start) * hash_size
        ≤ length s.files.leaves_hashes
      → prove (item - l.payouts_start) leaves ≡ ok hashes
      → All (λ h. length h ≡ hash_size) hashes
      → get_item hash_size prove s item
        ≡ ok (record {
          data_bytes =
              slice (data_start s item) (data_end s item - data_start s item) s.files.blockchain;
          compression = if ltb item l.txs_start then no_compression else snappy;
          block = block;
          index = item - l.payouts_start;
          num_leaves = l.next_start - l.payouts_start;
          merkle_proof = concat hashes;
        })
  unfolding get_item item_of_block with_proof
  get_item-located hashes in_range ordered inside found at le room proof sized =
      rw
        (
          lt→ltb item s.nitems in_range,
          le→ltb (data_end s item) (data_start s item) ordered,
          le→ltb (length s.files.blockchain) (data_end s item) inside,
          found,
          not_zero,
          back,
          at,
          le→ltb l.next_start l.payouts_start le,
          le→ltb (length s.files.leaves_hashes) _ room,
          proof,
          all_sized-All hash_size hashes sized,
        )
        refl
    where
      not_zero : (suc block == 0) ≡ false
      not_zero = ground arith

      back : suc block - 1 ≡ block
      back = omega arith
