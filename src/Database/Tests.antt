-- ===== src/Database/Tests.antt =====
-- Two blocks: the second claims a siafund output of the first, and revises and proves its contract.
use sialite.Base.{
  ◌==◌, arith, ℕ, ◌+◌, ◌-◌, ◌*◌, ◌/◌, ◌≡◌, refl, false, none, some, List, [], ◌∷◌, if◌then◌else◌,
  done,
}
use sialite.Database.Types.{Currency, Block, Ids, Database}
use sialite.Database.Store.{new_database}
use sialite.Database.Adding.{add_block, process_blocks}
use sialite.Database.Outputs.{
  latest, owned_by, listed, resolves, blocks_resolve, block_outputs, blocks_outputs, blocks_funds,
  txs_funds, txs_formed, txs_pool, blocks_pools,
}
use sialite.Database.Blocks.{IsSound, Extended, new_database-IsSound, add_block-Extended}
use sialite.Netlib.{Stream, opened, received, download_blocks}
use sialite.Netlib.Chain.{IsChain}
use sialite.Database.Fetch.{finished, fetch_blocks, fetch_blocks-Extended}
use sialite.Database.Extensions.{ResultOf}
use sialite.Database.Process.{limit, process_blocks-holds}

abbrev money : Currency ℕ
money = record {
  nothing = 0;
  add = λ a b. a + b;
  sub = λ a b. a - b;
  mul = λ a b. a * b;
  div64 = λ a b. a / b;
}

abbrev ids : Ids ℕ
ids = record {
  block_id = λ b. b.address;
  tx_id = λ tx. tx.address;
  siacoin_output_id = λ tx i. 1000 + tx.address * 10 + i;
  siafund_output_id = λ tx i. 2000 + tx.address * 10 + i;
  miner_payout_id = λ b i. 3000 + b.address * 10 + i;
  file_contract_id = λ tx i. 4000 + tx.address * 10 + i;
  proof_output_id = λ c valid i. 50000 + c * 10 + (if valid then i else 5 + i);
  claim_output_id = λ k. 9000 + k;
}

abbrev first_block : Block ℕ
first_block = record {
  address = 1;
  parent_id = 0;
  miner_payouts = record { value = 5; unlock_hash = 7 } ∷ [];
  transactions =
      record {
        address = 11;
        siacoin_inputs = 77 ∷ [];
        siafund_inputs = [];
        siacoin_outputs = record { value = 3; unlock_hash = 7 } ∷ [];
        siafund_outputs = record { value = 100; unlock_hash = 8 } ∷ [];
        file_contracts =
            record {
              payout = 10;
              valid_proof_outputs = record { value = 9; unlock_hash = 7 } ∷ [];
              missed_proof_outputs = [];
            }
            ∷ [];
        file_contract_revisions = [];
        storage_proofs = [];
      }
      ∷ [];
}

abbrev second_block : Block ℕ
second_block = record {
  address = 2;
  parent_id = 1;
  miner_payouts = [];
  transactions =
      record {
        address = 12;
        siacoin_inputs = [];
        siafund_inputs = record { parent_id = 2110; claim_unlock_hash = 7 } ∷ [];
        siacoin_outputs = [];
        siafund_outputs = [];
        file_contracts = [];
        file_contract_revisions =
            record {
              parent_id = 4110;
              new_valid_proof_outputs = record { value = 8; unlock_hash = 7 } ∷ [];
              new_missed_proof_outputs = [];
            }
            ∷ [];
        storage_proofs = 4110 ∷ [];
      }
      ∷ [];
}

abbrev two : List (Block ℕ)
two = first_block ∷ second_block ∷ []

add_block-Extended_example :
    (t : Database ℕ) × (add_block money ids first_block new_database ≡ done tt t)
    × Extended money ids
        (first_block ∷ [])
        (block_outputs money ids first_block)
        (txs_funds money ids first_block.transactions)
        (txs_formed money ids first_block.transactions)
        (txs_pool money ids 0 first_block.transactions ∷ [])
        new_database
        t
unfolding resolves
add_block-Extended_example =
    add_block-Extended money ids first_block new_database new_database-IsSound refl

process_blocks-holds_example :
    (t : Database ℕ) × (process_blocks money ids 0 two ≡ done tt t)
    × (t.height2block ≡ two)
    × (t.height2sfpool ≡ blocks_pools money ids 0 two)
    × ((a : ℕ) → t.address2sco a ≡ owned_by a (blocks_outputs money ids two))
    × ((a : ℕ) → t.address2sfo a ≡ owned_by a (blocks_funds money ids two))
    × ((k : ℕ) → t.id2sco k ≡ latest (blocks_outputs money ids two) k none)
unfolding blocks_resolve resolves limit txs_funds listed sialite.Database.Outputs.contract_ids
    txs_formed
process_blocks-holds_example = process_blocks-holds money ids 0 two refl

-- The pool grows by the tax of the contract.
pools-eq : blocks_pools money ids 0 two ≡ 1 ∷ 1 ∷ []
unfolding blocks_pools txs_pool sialite.Database.Outputs.contracts_pool
    sialite.Database.Outputs.sum_of
pools-eq = refl

abbrev next_block : Block ℕ
next_block = record {
  address = 3;
  parent_id = 1;
  miner_payouts = record { value = 5; unlock_hash = 6 } ∷ [];
  transactions = [];
}

abbrev small : Database ℕ
small = record new_database {
  height2block = first_block ∷ [];
  height2sfpool = 1 ∷ [];
  block2id = λ k. if k == 1 then some 1 else none;
}

small-IsSound : IsSound small
small-IsSound = record { pools = refl; funds = λ k o e. absurd (cc) }

abbrev peer : Stream (Block ℕ)
peer = record {
  write_name = none;
  write_history = none;
  rounds = received (next_block ∷ []) false ∷ [];
}

fetch_blocks-Extended_example :
    (t : Database ℕ) × (fetch_blocks money ids (opened peer) small ≡ finished (done tt t))
    × IsChain ids.block_id (λ b. b.parent_id) 1 (next_block ∷ [])
    × ResultOf money ids (next_block ∷ []) small t
unfolding download_blocks blocks_resolve resolves
fetch_blocks-Extended_example =
    fetch_blocks-Extended money ids peer small [] first_block 1 small-IsSound refl refl refl
      (omega arith) refl
