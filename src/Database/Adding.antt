-- ===== src/Database/Adding.antt =====
-- sialite.go: addBlock, processBlocks and fetchBlocks.
use sialite.Base.{
  ℕ, suc, ◌+◌, ◌-◌, not, ◌&&◌, Option, none, some, List, [], ◌∷◌, ◌++◌, length, get_elem?, ◌==◌,
  ltb, if◌then◌else◌, Outcome, done, crash, M, get, modify, pure, ◌>>=◌, ◌>>◌,
}
use sialite.Database.Types.{
  Currency, Payment, FundSpend, FileContract, FileContractRevision, Tx, Block, Ids, siacoin_output,
  miner_payout, valid_proof_output, missed_proof_output, valid_proof_output_in_revision,
  missed_proof_output_in_revision, SiacoinOutput, Contract, ContractHistory, Nature, Database,
}
use sialite.Database.Store.{new_database, set, add_sco, add_sfo, add_sci, add_sfi}

-- A value that may be missing, a run-time panic then.
abbrev pub take_some : {S A : Type 0} → Option A → M S A
take_some (some a) s = done a s
take_some none s = crash

module _ {C : Type 0} (money : Currency C) (ids : Ids C) where
  -- A loop over outputs that adds one for each index.
  unfoldable pub add_scos : (ℕ → SiacoinOutput C) → ℕ → List (Payment C) → M (Database C) (Unit {0})
  unfolding add_sco
  add_scos make i [] = pure tt
  add_scos make i (o ∷ os) = do add_sco money ids (make i); add_scos make (suc i) os

  unfoldable pub add_sfos : Tx C → ℕ → List (Payment C) → M (Database C) (Unit {0})
  add_sfos tx i [] = pure tt
  add_sfos tx i (o ∷ os) = do
    add_sfo money ids (record { tx = tx; index = i })
    add_sfos tx (suc i) os

  unfoldable pub add_scis : Tx C → ℕ → List ℕ → M (Database C) (Unit {0})
  add_scis tx i [] = pure tt
  add_scis tx i (p ∷ ps) = do
    add_sci money ids (record { tx = tx; index = i })
    add_scis tx (suc i) ps

  unfoldable pub add_sfis : Tx C → ℕ → List FundSpend → M (Database C) (Unit {0})
  add_sfis tx i [] = pure tt
  add_sfis tx i (s ∷ ss) = do
    add_sfi money ids (record { tx = tx; index = i })
    add_sfis tx (suc i) ss

  abbrev pub payout_of : Block C → ℕ → SiacoinOutput C
  payout_of b i = record { tx = none; block = some b; nature = miner_payout; index = i; index0 = 0 }

  abbrev pub output_of : Block C → Tx C → ℕ → SiacoinOutput C
  output_of b tx i = record {
    tx = some tx;
    block = some b;
    nature = siacoin_output;
    index = i;
    index0 = 0;
  }

  -- An output of a contract or a revision.
  abbrev pub proof_output_of : Block C → Tx C → Nature → ℕ → ℕ → SiacoinOutput C
  proof_output_of b tx n i0 i = record {
    tx = some tx;
    block = some b;
    nature = n;
    index = i;
    index0 = i0;
  }

  -- The sum of the values, in the order of the loop.
  unfoldable pub total : C → List (Payment C) → C
  total sum [] = sum
  total sum (o ∷ os) = total (money.add sum o.value) os

  -- The history of a formed contract, a new one or the old with another contract.
  unfoldable pub form : Tx C → ℕ → Database C → Database C
  form tx i0 db =
      let id = ids.file_contract_id tx i0 in
      let c : Contract C = record { tx = tx; index = i0 } in
      let h : ContractHistory C = elim (db.id2history id) [
        | none ↦ record { contract = c; revs = []; proof = none }
        | some h ↦ record h { contract = c }
      ] in
      record db { id2history = set id h db.id2history }

  unfoldable pub add_contracts : Block C → Tx C → ℕ → List (FileContract C) → C → M (Database C) C
  unfolding form add_scos total
  add_contracts b tx i0 [] pool = pure pool
  add_contracts b tx i0 (c ∷ cs) pool = do
    modify (form tx i0)
    add_scos (proof_output_of b tx valid_proof_output i0) 0 c.valid_proof_outputs
    add_scos (proof_output_of b tx missed_proof_output i0) 0 c.missed_proof_outputs
    add_contracts b tx (suc i0) cs
        (money.add pool (money.sub c.payout (total money.nothing c.valid_proof_outputs)))

  unfoldable pub append_rev : Tx C → ℕ → ℕ → M (Database C) (Unit {0})
  append_rev tx i0 parent_id = do
    db ← get
    h ← take_some (db.id2history parent_id)
    modify (λ db. record db {
      id2history =
          set parent_id (record h { revs = h.revs ++ record { tx = tx; index = i0 } ∷ [] })
            db.id2history;
    })

  unfoldable pub add_revisions :
      Block C → Tx C → ℕ → List (FileContractRevision C) → M (Database C) (Unit {0})
  unfolding append_rev
  add_revisions b tx i0 [] = pure tt
  add_revisions b tx i0 (r ∷ rs) = do
    append_rev tx i0 r.parent_id
    add_scos (proof_output_of b tx valid_proof_output_in_revision i0) 0 r.new_valid_proof_outputs
    add_scos (proof_output_of b tx missed_proof_output_in_revision i0) 0 r.new_missed_proof_outputs
    add_revisions b tx (suc i0) rs

  unfoldable pub set_proof : Tx C → ℕ → ℕ → M (Database C) (Unit {0})
  set_proof tx i0 parent_id = do
    db ← get
    h ← take_some (db.id2history parent_id)
    modify (λ db. record db {
      id2history =
          set parent_id (record h { proof = some (record { tx = tx; index = i0 }) }) db.id2history;
    })

  unfoldable pub add_proofs : Tx C → ℕ → List ℕ → M (Database C) (Unit {0})
  unfolding set_proof
  add_proofs tx i0 [] = pure tt
  add_proofs tx i0 (p ∷ ps) = do set_proof tx i0 p; add_proofs tx (suc i0) ps

  -- `db.id2tx[tx.ID()] = tx; db.tx2block[tx] = block`
  abbrev pub register_tx : Block C → Tx C → Database C → Database C
  register_tx b tx db = record db {
    id2tx = set (ids.tx_id tx) tx db.id2tx;
    tx2block = set tx.address b db.tx2block;
  }

  -- A round of the loop over the transactions.
  unfoldable pub add_transaction : Block C → Tx C → C → M (Database C) C
  unfolding add_scis add_sfis add_scos add_sfos add_contracts add_revisions add_proofs
  add_transaction b tx pool = do
    modify (register_tx b tx)
    add_scis tx 0 tx.siacoin_inputs
    add_sfis tx 0 tx.siafund_inputs
    add_scos (output_of b tx) 0 tx.siacoin_outputs
    add_sfos tx 0 tx.siafund_outputs
    pool' ← add_contracts b tx 0 tx.file_contracts pool
    add_revisions b tx 0 tx.file_contract_revisions
    add_proofs tx 0 tx.storage_proofs
    pure pool'

  unfoldable pub add_transactions : Block C → List (Tx C) → C → M (Database C) C
  unfolding add_transaction
  add_transactions b [] pool = pure pool
  add_transactions b (tx ∷ txs) pool = do
    pool' ← add_transaction b tx pool
    add_transactions b txs pool'

  -- The part of addBlock before the loops, for the block's height.
  abbrev pub register : Block C → Database C → Database C
  register b db =
      let height = length db.height2block in
      let id = ids.block_id b in
      record db {
        height2block = db.height2block ++ b ∷ [];
        block2height = set b.address height db.block2height;
        block2id = set b.address id db.block2id;
        id2block = set id b db.id2block;
      }

  -- The pool to start from; the last of no pools is a run-time panic.
  abbrev pub start_pool : ℕ → List C → Option C
  start_pool height pools =
      if height == 0 then some money.nothing else get_elem? pools (length pools - 1)

  -- addBlock; it never returns an error.
  unfoldable pub add_block : Block C → M (Database C) (Unit {0})
  unfolding add_scos add_transactions
  add_block b = do
    old ← get
    modify (register b)
    pool ← take_some (start_pool (length old.height2block) old.height2sfpool)
    add_scos (payout_of b) 0 b.miner_payouts
    pool' ← add_transactions b b.transactions pool
    modify (λ db. record db { height2sfpool = db.height2sfpool ++ pool' ∷ [] })

  -- The loop of processBlocks, with the flag nblocks and the counter before the block.
  unfoldable pub process_loop : ℕ → ℕ → List (Block C) → M (Database C) (Unit {0})
  unfolding add_block
  process_loop nblocks i [] db = done tt db
  process_loop nblocks i (b ∷ bs) db =
      let rest = (do add_block b; process_loop nblocks (suc i) bs) in
      if not (nblocks == 0) && ltb nblocks (i + 1) then done tt db else rest db

  -- processBlocks, over the blocks that the channel gives until it is closed.
  unfoldable pub process_blocks : ℕ → List (Block C) → Outcome (Database C) (Unit {0})
  unfolding process_loop
  process_blocks nblocks bs = process_loop nblocks 0 bs new_database
