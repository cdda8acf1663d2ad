-- ===== src/Cache/Builder/Items.antt =====
-- The items that Add stores, and their addresses, listed without a builder.
use sialite.Base.{List, [], ◌∷◌, ◌++◌, Bytes, map, concat, M, ℕ}
use sialite.Cache.Builder.{Contract, Transaction, MinerPayout}

-- A miner payout or a transaction: the unlock hashes of its addresses, the bytes
-- that are a leaf of the Merkle tree, and those that are stored.
pub record Entry : Type 0 where
  pub hashes : List Bytes
  pub plain : Bytes
  pub stored : Bytes

-- The addresses of a contract or a revision.
unfoldable pub contract_hashes : Contract → List Bytes
contract_hashes c = c.valid_proof_outputs ++ c.missed_proof_outputs

-- The addresses of a transaction.
unfoldable pub transaction_hashes : Transaction → List Bytes
transaction_hashes tx =
    tx.siacoin_inputs
    ++ (tx.siafund_inputs
        ++ (tx.siacoin_outputs
            ++ (tx.siafund_outputs
                ++ (concat (map contract_hashes tx.file_contracts)
                    ++ concat (map contract_hashes tx.file_contract_revisions)))))

module _ {A : Type 0} (compress : Bytes → Bytes) (sia_hash : Bytes → Bytes) (write : Bytes → M A ℕ)
    (close_addresses : M A (Unit {0})) where
  unfoldable pub payout_entry : MinerPayout → Entry
  payout_entry mp = record {
    hashes = mp.unlock_hash ∷ [];
    plain = mp.marshalled;
    stored = mp.marshalled;
  }

  unfoldable pub transaction_entry : Transaction → Entry
  transaction_entry tx = record {
    hashes = transaction_hashes tx;
    plain = tx.marshalled;
    stored = compress tx.marshalled;
  }
