-- ===== src/Cache/Server.antt =====
-- cache/serve.go, Server: items by their index, and the history of an address.
pub mod Items
pub mod Opened
pub mod History
use sialite.Base.{
  ℕ, zero, suc, ◌+◌, ◌-◌, ◌*◌, ◌/◌, ◌≡◌, Bool, true, false, not, Option, none, some, List, [], ◌∷◌,
  Bytes, length, take, drop, replicate, concat, slice, copy, get_le, ◌==◌, ltb, if◌then◌else◌,
  Result, ok, err, panic, Error, bad_address_len, too_large_index, bad_locations_len,
  bad_offsets_len,
}
use Prim.Native.Nat.{min}
use sialite.Fastmap.Search.{search}
use sialite.Fastmap.Inline.{Inliner, no_inliner, new_ffoo_inliner}
use sialite.Fastmap.MultiMap.{MultiMap, open_multi_map, multi_lookup}

-- MAX_HISTORY_SIZE
abbrev pub max_history_size : ℕ
max_history_size = 2

-- The content of parameters.json
pub record Parameters : Type 0 where
  pub offset_len : ℕ
  pub offset_index_len : ℕ
  pub address_page_len : ℕ
  pub address_prefix_len : ℕ
  pub address_fastmap_prefix_len : ℕ
  pub address_offset_len : ℕ

-- The files that NewServer maps into memory.
pub record Files : Type 0 where
  pub blockchain : Bytes
  pub offsets : Bytes
  pub block_locations : Bytes
  pub leaves_hashes : Bytes
  pub addresses_fastmap_data : Bytes
  pub addresses_fastmap_prefixes : Bytes
  pub addresses_indices : Bytes

pub record Server : Type 0 where
  pub files : Files
  pub address_map : MultiMap
  pub offset_len : ℕ
  pub offset_index_len : ℕ
  pub address_prefix_len : ℕ
  pub nblocks : ℕ
  pub nitems : ℕ

-- The inliner and the length of a container, chosen by the lengths of the offsets.
container_of : Parameters → Result (Inliner × ℕ)
container_of p =
    if p.address_offset_len == p.offset_index_len
    then elim (new_ffoo_inliner p.offset_index_len) [
      | ok u ↦ ok (u, 2 * p.offset_index_len)
      | err e ↦ err e
      | panic ↦ panic
    ]
    else ok (no_inliner, p.offset_index_len)

open_addresses : Parameters → Files → Result (Inliner × ℕ) → Result MultiMap
open_addresses p f (ok (u, container_len)) =
    open_multi_map p.address_page_len p.address_prefix_len p.offset_index_len container_len
      f.addresses_fastmap_data f.addresses_fastmap_prefixes f.addresses_indices u
open_addresses p f (err e) = err e
open_addresses p f panic = panic

-- The counts of blocks and items, with the two divisions by zero.
with_counts : Parameters → Files → Result MultiMap → Result Server
with_counts p f (ok m) =
    let nblocks = length f.block_locations / (2 * p.offset_index_len) in
    let nitems = length f.offsets / p.offset_len in
    if p.offset_index_len == 0
    then panic
    else if not (nblocks * (2 * p.offset_index_len) == length f.block_locations)
    then err bad_locations_len
    else if p.offset_len == 0
    then panic
    else if not (nitems * p.offset_len == length f.offsets)
    then err bad_offsets_len
    else ok (record {
      files = f;
      address_map = m;
      offset_len = p.offset_len;
      offset_index_len = p.offset_index_len;
      address_prefix_len = p.address_prefix_len;
      nblocks = nblocks;
      nitems = nitems;
    })
with_counts p f (err e) = err e
with_counts p f panic = panic

-- NewServer, once the files are mapped.
unfoldable pub new_server : Parameters → Files → Result Server
unfolding container_of open_addresses with_counts
new_server p f = with_counts p f (open_addresses p f (container_of p))

-- `copy(tmpBytes, b)` and `Uint64`
unfoldable pub number : Bytes → ℕ
number b = get_le (copy (replicate 8 0) b)

-- getPayoutsStart
unfoldable pub get_payouts_start : Server → ℕ → ℕ
unfolding number
get_payouts_start s index =
    let p1 = index * (2 * s.offset_index_len) in
    number (slice p1 s.offset_index_len s.files.block_locations)

-- What getBlockLocation returns; the number of leaves is `next_start - payouts_start`.
pub record Location : Type 0 where
  pub payouts_start : ℕ
  pub txs_start : ℕ
  pub next_start : ℕ

-- getBlockLocation of a block that exists
unfoldable pub get_block_location : Server → ℕ → Location
unfolding number
get_block_location s index =
    let p1 = index * (2 * s.offset_index_len) in
    let p2 = p1 + s.offset_index_len in
    let p3 = p2 + s.offset_index_len in
    record {
      payouts_start = number (slice p1 s.offset_index_len s.files.block_locations);
      txs_start = number (slice p2 s.offset_index_len s.files.block_locations);
      next_start =
          if index == s.nblocks - 1
          then s.nitems
          else number (slice p3 s.offset_index_len s.files.block_locations);
    }

pub data Compression : Type 0 where
  no_compression snappy : Compression

pub record Item : Type 0 where
  pub data_bytes : Bytes
  pub compression : Compression
  pub block : ℕ
  pub index : ℕ
  pub num_leaves : ℕ
  pub merkle_proof : Bytes

-- `blockIndex + 1`: the number of blocks that start at or before the item, by sort.Search.
unfoldable pub find_block : Server → ℕ → ℕ
find_block s item_index = search s.nblocks (λ i. ltb item_index (get_payouts_start s i))

-- Where the data of an item starts, and where it ends.
unfoldable pub data_start : Server → ℕ → ℕ
unfolding number
data_start s item_index = number (slice (item_index * s.offset_len) s.offset_len s.files.offsets)

unfoldable pub data_end : Server → ℕ → ℕ
unfolding number
data_end s item_index =
    if item_index == s.nitems - 1
    then length s.files.blockchain
    else number (slice (item_index * s.offset_len + s.offset_len) s.offset_len s.files.offsets)

-- The hashes of a proof, which have to be of one size.
all_sized : ℕ → List Bytes → Bool
all_sized size [] = true
all_sized size (h ∷ hs) = let rest = all_sized size hs in if length h == size then rest else false

-- `n` pieces of a slice.
unfoldable pub pieces : ℕ → ℕ → Bytes → List Bytes
pieces zero size b = []
pieces (suc n) size b = take size b ∷ pieces n size (drop size b)

-- `crypto.HashSize`, and the Merkle tree that is given an index and leaves and makes the proof.
module _ (hash_size : ℕ) (prove : ℕ → List Bytes → Result (List Bytes)) where
  with_proof : Item → Result (List Bytes) → Result Item
  unfolding all_sized
  with_proof item (ok hashes) =
      if all_sized hash_size hashes
      then ok (record item { merkle_proof = concat hashes })
      else panic
  with_proof item (err e) = err e
  with_proof item panic = panic

  -- The part of GetItem below the search.
  item_of_block : Server → ℕ → Bytes → ℕ → Result Item
  unfolding with_proof
  item_of_block s item_index bytes block =
      let l = get_block_location s block in
      let nleaves = l.next_start - l.payouts_start in
      let hstart = l.payouts_start * hash_size in
      if ltb l.next_start l.payouts_start
      then panic
      else if ltb (length s.files.leaves_hashes) (hstart + nleaves * hash_size)
      then panic
      else with_proof
          (record {
            data_bytes = bytes;
            compression = if ltb item_index l.txs_start then no_compression else snappy;
            block = block;
            index = item_index - l.payouts_start;
            num_leaves = nleaves;
            merkle_proof = [];
          })
          (prove (item_index - l.payouts_start)
            (pieces nleaves hash_size (slice hstart (nleaves * hash_size) s.files.leaves_hashes)))

  -- GetItem of an index that is not negative; where no block starts at or before the item, the
  -- block's index is -1 and out of range.
  unfoldable pub get_item : Server → ℕ → Result Item
  unfolding item_of_block find_block data_start data_end
  get_item s item_index =
      let first = data_start s item_index in
      let end = data_end s item_index in
      let found = find_block s item_index in
      if not (ltb item_index s.nitems)
      then err too_large_index
      else if ltb end first
      then panic
      else if ltb (length s.files.blockchain) end
      then panic
      else if found == 0
      then panic
      else item_of_block s item_index (slice first (end - first) s.files.blockchain) (found - 1)

  add_item : Result Item → Result (List Item) → Result (List Item)
  add_item (ok i) (ok is) = ok (i ∷ is)
  add_item (ok i) r = r
  add_item (err e) r = err e
  add_item panic r = panic

  -- The loop of GetHistory; an index of 0 on the wire is item -1, which is out of range.
  history_items : ℕ → Server → Bytes → Result (List Item)
  unfolding add_item get_item
  history_items zero s values = ok []
  history_items (suc n) s values =
      let wire = number (take s.offset_index_len values) in
      let rest = history_items n s (drop s.offset_index_len values) in
      if wire == 0 then panic else add_item (get_item s (wire - 1)) rest

  history_of : Server → Result (Option Bytes) → Result (List Item)
  unfolding history_items
  history_of s (ok (some values)) =
      history_items (min (length values / s.offset_index_len) max_history_size) s values
  history_of s (ok none) = ok []
  history_of s (err e) = err e
  history_of s panic = panic

  -- GetHistory; the string `next` that it returns is always empty.
  unfoldable pub get_history : Server → Bytes → Result (List Item)
  unfolding history_of
  get_history s address =
      if not (length address == hash_size)
      then err bad_address_len
      else if ltb hash_size s.address_prefix_len
      then panic
      else history_of s (multi_lookup s.address_map (take s.address_prefix_len address))
