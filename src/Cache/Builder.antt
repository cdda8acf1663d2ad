-- ===== src/Cache/Builder.antt =====
-- cache/build.go, Builder: the files are written block by block.
pub mod Items
pub mod Loops
pub mod Entries
pub mod Addresses
pub mod Blocks
pub mod Files
pub mod Whole
use sialite.Base.{
  ℕ, zero, suc, ◌+◌, ◌-◌, ◌*◌, ◌%◌, ◌^◌, Bool, true, false, not, List, [], ◌∷◌, ◌++◌, Bytes, length,
  take, drop, replicate, map, concat, copy, copy_at, put_le, ◌==◌, ltb, if◌then◌else◌, M, done,
  fail, crash, Error, short_write, too_large_offset, get, modify, fail_if, on, pure, ◌>>=◌, ◌>>◌,
}
use Prim.Native.Nat.{max}
use sialite.Fastmap.Sink.{Sink, put, put_full, close}

-- A contract or a revision: the unlock hashes of its valid and missed proof outputs.
pub record Contract : Type 0 where
  pub valid_proof_outputs : List Bytes
  pub missed_proof_outputs : List Bytes

-- What the builder reads of a transaction of package types: unlock hashes, that of the unlock
-- conditions for an input, and what MarshalSia writes.
pub record Transaction : Type 0 where
  pub siacoin_inputs : List Bytes
  pub siafund_inputs : List Bytes
  pub siacoin_outputs : List Bytes
  pub siafund_outputs : List Bytes
  pub file_contracts : List Contract
  pub file_contract_revisions : List Contract
  pub marshalled : Bytes

pub record MinerPayout : Type 0 where
  pub unlock_hash : Bytes
  pub marshalled : Bytes

-- `header` is what the encoder writes for the blockHeader.
pub record Block : Type 0 where
  pub header : Bytes
  pub miner_payouts : List MinerPayout
  pub transactions : List Transaction

-- Over the state `A` of the sorted writer of addresses. A file and the buffer before it are one
-- sink, whose Close is the Flush and the Close.
pub record Builder (A : Type 0) : Type 0 where
  pub blockchain : Sink
  pub blockchain_len : ℕ
  pub leaves_hashes : Sink
  pub headers_file : Sink
  pub offsets : Sink
  pub offset_index : ℕ
  pub block_locations : Sink
  pub addresses : A
  pub addressestmp : Sink
  pub buf : Bytes
  pub offset_end : ℕ
  pub offset_len : ℕ
  pub offset_index_len : ℕ
  pub address_record_size : ℕ
  pub address_prefix_len : ℕ

-- The end of NewBuilder: the buffer, the bound for offsets, and the record of an address.
unfoldable pub new_builder :
    {A : Type 0} → Sink → Sink → Sink → Sink → Sink → A → Sink → ℕ → ℕ → ℕ → Builder A
new_builder blockchain leaves_hashes headers_file offsets block_locations addresses addressestmp
      offset_len offset_index_len address_prefix_len =
    record {
      blockchain = blockchain;
      blockchain_len = 0;
      leaves_hashes = leaves_hashes;
      headers_file = headers_file;
      offsets = offsets;
      offset_index = 0;
      block_locations = block_locations;
      addresses = addresses;
      addressestmp = addressestmp;
      buf = replicate (max 8 (address_prefix_len + offset_index_len)) 0;
      offset_end = (2 ^ (8 * offset_len) + (2 ^ 64 - 1)) % 2 ^ 64;
      offset_len = offset_len;
      offset_index_len = offset_index_len;
      address_record_size = address_prefix_len + offset_index_len;
      address_prefix_len = address_prefix_len;
    }

-- `snappy.Encode`, the Merkle tree's hash, and Write and Close of the sorted writer.
module _ {A : Type 0} (compress : Bytes → Bytes) (sia_hash : Bytes → Bytes) (write : Bytes → M A ℕ)
    (close_addresses : M A (Unit {0})) where
  abbrev on_offsets : M Sink (Unit {0}) → M (Builder A) (Unit {0})
  on_offsets = on (λ s. s.offsets) (λ s t. record s { offsets = t })

  abbrev on_locations : M Sink (Unit {0}) → M (Builder A) (Unit {0})
  on_locations = on (λ s. s.block_locations) (λ s t. record s { block_locations = t })

  abbrev on_addresses {ℓ} : {B : Type ℓ} → M A B → M (Builder A) B
  on_addresses = on (λ s. s.addresses) (λ s t. record s { addresses = t })

  abbrev on_leaves {ℓ} : {B : Type ℓ} → M Sink B → M (Builder A) B
  on_leaves = on (λ s. s.leaves_hashes) (λ s t. record s { leaves_hashes = t })

  abbrev on_blockchain {ℓ} : {B : Type ℓ} → M Sink B → M (Builder A) B
  on_blockchain = on (λ s. s.blockchain) (λ s t. record s { blockchain = t })

  abbrev on_headers {ℓ} : {B : Type ℓ} → M Sink B → M (Builder A) B
  on_headers = on (λ s. s.headers_file) (λ s t. record s { headers_file = t })

  -- `writeAddress`; the record is the front of the shared buffer.
  unfoldable pub write_address : Bytes → M (Builder A) (Unit {0})
  write_address uh = do
    modify (λ s. record s { buf = copy s.buf (take s.address_prefix_len uh) })
    s ← get
    n ← on_addresses (write (take s.address_record_size s.buf))
    fail_if (not (n == s.address_record_size)) short_write

  unfoldable pub write_addresses : List Bytes → M (Builder A) (Unit {0})
  unfolding write_address
  write_addresses [] = pure tt
  write_addresses (uh ∷ uhs) = do write_address uh; write_addresses uhs

  -- The offset of the item, in the front of the shared buffer.
  unfoldable pub write_offset : M (Builder A) (Unit {0})
  write_offset = do
    modify (λ s. record s { buf = copy s.buf (put_le 8 s.blockchain_len) })
    s ← get
    on_offsets (put_full (take s.offset_len s.buf))

  -- `copy(locOfAddress, s.tmpBuf)`
  unfoldable pub set_location : Builder A → Builder A
  set_location s = record s {
    buf = copy_at s.address_prefix_len s.buf (
        take (s.address_record_size - s.address_prefix_len)
          (put_le 8 ((s.offset_index + 1) % 2 ^ 64)));
  }

  -- A round of either loop of Add: how it writes its addresses, the bytes that are a leaf of the
  -- Merkle tree, and those that are stored.
  unfoldable pub add_item : M (Builder A) (Unit {0}) → Bytes → Bytes → M (Builder A) (Unit {0})
  unfolding write_offset set_location
  add_item write_item plain stored = do
    write_offset
    modify set_location
    write_item
    modify (λ s. record s { offset_index = (s.offset_index + 1) % 2 ^ 64 })
    on_leaves (put (sia_hash (0 ∷ plain)))
    modify (λ s. record s { blockchain_len = (s.blockchain_len + length stored) % 2 ^ 64 })
    on_blockchain (put stored)
    pure tt

  -- The loop over the miner payouts.
  unfoldable pub add_payouts : List MinerPayout → M (Builder A) (Unit {0})
  add_payouts [] = pure tt
  add_payouts (mp ∷ mps) = do
    add_item (write_address mp.unlock_hash) mp.marshalled mp.marshalled
    add_payouts mps

  -- The loop over contracts, and that over revisions.
  unfoldable pub write_contracts : List Contract → M (Builder A) (Unit {0})
  write_contracts [] = pure tt
  write_contracts (c ∷ cs) = do
    write_addresses c.valid_proof_outputs
    write_addresses c.missed_proof_outputs
    write_contracts cs

  -- The loops that write the addresses of a transaction.
  unfoldable pub write_transaction : Transaction → M (Builder A) (Unit {0})
  write_transaction tx = do
    write_addresses tx.siacoin_inputs
    write_addresses tx.siafund_inputs
    write_addresses tx.siacoin_outputs
    write_addresses tx.siafund_outputs
    write_contracts tx.file_contracts
    write_contracts tx.file_contract_revisions

  -- The loop over the transactions.
  unfoldable pub add_transactions : List Transaction → M (Builder A) (Unit {0})
  add_transactions [] = pure tt
  add_transactions (tx ∷ txs) = do
    add_item (write_transaction tx) tx.marshalled (compress tx.marshalled)
    add_transactions txs

  -- The two numbers of the block, in the front of the shared buffer.
  pub write_location : ℕ → ℕ → M (Builder A) (Unit {0})
  write_location first_miner_payout first_transaction = do
    modify (λ s. record s {
      buf =
          copy_at s.offset_index_len
            (copy s.buf (take s.offset_index_len (put_le 8 first_miner_payout)))
            (take s.offset_index_len (put_le 8 first_transaction));
    })
    s ← get
    on_locations (put_full (take (s.offset_index_len * 2) s.buf))

  crash_if : Bool → M (Builder A) (Unit {0})
  crash_if true s = crash
  crash_if false s = done tt s

  -- Add; the slice `s.buf[:s.offsetIndexLen*2]` may reach past the buffer.
  unfoldable pub add_block : Block → M (Builder A) (Unit {0})
  unfolding write_location crash_if
  add_block block = do
    on_headers (put block.header)
    s ← get
    crash_if (ltb (length s.buf) (s.offset_index_len * 2))
    add_payouts block.miner_payouts
    t ← get
    add_transactions block.transactions
    write_location s.offset_index t.offset_index
    u ← get
    fail_if (ltb u.offset_end u.blockchain_len) too_large_offset

  -- Close; the removal of the temporary file is not modelled.
  unfoldable pub close_builder : M (Builder A) (Unit {0})
  close_builder = do
    on_blockchain close
    on_leaves close
    on_headers close
    on_offsets close
    on_locations close
    on_addresses close_addresses
    on (λ s. s.addressestmp) (λ s t. record s { addressestmp = t }) close

  -- The calls of Add.
  unfoldable pub add_blocks : List Block → M (Builder A) (Unit {0})
  add_blocks [] = pure tt
  add_blocks (b ∷ bs) = do add_block b; add_blocks bs
