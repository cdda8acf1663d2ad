-- ===== src/Database/Outputs.antt =====
-- The outputs that a block creates, in order, without a database.
use sialite.Base.{
  ℕ, suc, ◌≡◌, refl, ap, Bool, true, false, ◌&&◌, ◌||◌, Option, some, List, [], ◌∷◌, ◌++◌, map,
  ◌==◌, if◌then◌else◌,
}
use sialite.Database.Types.{
  Currency, Payment, FundSpend, FileContract, FileContractRevision, Tx, Block, Ids,
  valid_proof_output, missed_proof_output, valid_proof_output_in_revision,
  missed_proof_output_in_revision, SiacoinOutput, SiafundOutput,
}
use sialite.Database.Store.{claim_output}
use sialite.Database.Adding.{payout_of, output_of, proof_output_of}

-- An output with its ID and the address that owns it.
pub record Listed (V : Type 0) : Type 0 where
  pub id : ℕ
  pub owner : ℕ
  pub output : V

-- The last of the outputs with an ID, or what was there before.
unfoldable pub latest : {V : Type 0} → List (Listed V) → ℕ → Option V → Option V
latest [] k old = old
latest (e ∷ es) k old = latest es k (if e.id == k then some e.output else old)

-- The outputs of an address.
unfoldable pub owned_by : {V : Type 0} → ℕ → List (Listed V) → List V
owned_by a [] = []
owned_by a (e ∷ es) = let rest = owned_by a es in if e.owner == a then e.output ∷ rest else rest

pub latest-append :
    {V : Type 0} (es es' : List (Listed V)) (k : ℕ) (old : Option V)
    → latest (es ++ es') k old ≡ latest es' k (latest es k old)
unfolding latest
latest-append [] es' k old = refl
latest-append (e ∷ es) es' k old = latest-append es es' k (if e.id == k then some e.output else old)

pub owned_by-append :
    {V : Type 0} (a : ℕ) (es es' : List (Listed V))
    → owned_by a (es ++ es') ≡ owned_by a es ++ owned_by a es'
unfolding owned_by
owned_by-append a [] es' = refl
owned_by-append a (e ∷ es) es' = go (e.owner == a) (owned_by-append a es es')
  where
    go :
        (t : Bool)
        → owned_by a (es ++ es') ≡ owned_by a es ++ owned_by a es'
        → (if t then e.output ∷ owned_by a (es ++ es') else owned_by a (es ++ es'))
          ≡ (if t then e.output ∷ owned_by a es else owned_by a es) ++ owned_by a es'
    go true h = ap (◌∷◌ e.output) h
    go false h = h

-- A list of payments, from an index on.
unfoldable pub listed : {C V : Type 0} → (ℕ → ℕ) → (ℕ → V) → ℕ → List (Payment C) → List (Listed V)
listed key make i [] = []
listed key make i (p ∷ ps) =
    record { id = key i; owner = p.unlock_hash; output = make i } ∷ listed key make (suc i) ps

abbrev pub has : ℕ → List ℕ → Bool
has k [] = false
has k (x ∷ xs) = let rest = has k xs in if x == k then true else rest

abbrev pub all_known : (ℕ → Bool) → List ℕ → Bool
all_known known [] = true
all_known known (k ∷ ks) = let rest = all_known known ks in if known k then rest else false

module _ {C : Type 0} (money : Currency C) (ids : Ids C) where
  unfoldable pub claims : Block C → Tx C → ℕ → List FundSpend → List (Listed (SiacoinOutput C))
  claims b tx i [] = []
  claims b tx i (s ∷ ss) =
      record {
        id = ids.claim_output_id s.parent_id;
        owner = s.claim_unlock_hash;
        output = claim_output money ids (some b) tx i;
      }
      ∷ claims b tx (suc i) ss

  unfoldable pub contract_outputs :
      Block C → Tx C → ℕ → List (FileContract C) → List (Listed (SiacoinOutput C))
  contract_outputs b tx i0 [] = []
  contract_outputs b tx i0 (c ∷ cs) =
      listed (ids.proof_output_id (ids.file_contract_id tx i0) true)
        (proof_output_of money ids b tx valid_proof_output i0) 0 c.valid_proof_outputs
      ++ (listed (ids.proof_output_id (ids.file_contract_id tx i0) false)
            (proof_output_of money ids b tx missed_proof_output i0) 0 c.missed_proof_outputs
          ++ contract_outputs b tx (suc i0) cs)

  unfoldable pub revision_outputs :
      Block C → Tx C → ℕ → List (FileContractRevision C) → List (Listed (SiacoinOutput C))
  revision_outputs b tx i0 [] = []
  revision_outputs b tx i0 (r ∷ rs) =
      listed (ids.proof_output_id r.parent_id true)
        (proof_output_of money ids b tx valid_proof_output_in_revision i0) 0
        r.new_valid_proof_outputs
      ++ (listed (ids.proof_output_id r.parent_id false)
            (proof_output_of money ids b tx missed_proof_output_in_revision i0) 0
            r.new_missed_proof_outputs
          ++ revision_outputs b tx (suc i0) rs)

  unfoldable pub coin_outputs : Block C → Tx C → List (Listed (SiacoinOutput C))
  coin_outputs b tx =
      listed (ids.siacoin_output_id tx) (output_of money ids b tx) 0 tx.siacoin_outputs

  -- The siacoin outputs of a transaction: claims, outputs, and those of contracts and revisions.
  unfoldable pub tx_outputs : Block C → Tx C → List (Listed (SiacoinOutput C))
  unfolding claims coin_outputs contract_outputs revision_outputs
  tx_outputs b tx =
      claims b tx 0 tx.siafund_inputs
      ++ (coin_outputs b tx
          ++ (contract_outputs b tx 0 tx.file_contracts
              ++ revision_outputs b tx 0 tx.file_contract_revisions))

  unfoldable pub txs_outputs : Block C → List (Tx C) → List (Listed (SiacoinOutput C))
  unfolding tx_outputs
  txs_outputs b [] = []
  txs_outputs b (tx ∷ txs) = tx_outputs b tx ++ txs_outputs b txs

  unfoldable pub payout_outputs : Block C → List (Listed (SiacoinOutput C))
  payout_outputs b = listed (ids.miner_payout_id b) (payout_of money ids b) 0 b.miner_payouts

  unfoldable pub block_outputs : Block C → List (Listed (SiacoinOutput C))
  unfolding payout_outputs txs_outputs
  block_outputs b = payout_outputs b ++ txs_outputs b b.transactions

  unfoldable pub blocks_outputs : List (Block C) → List (Listed (SiacoinOutput C))
  blocks_outputs [] = []
  blocks_outputs (b ∷ bs) = block_outputs b ++ blocks_outputs bs

  -- The siafund outputs.
  unfoldable pub tx_funds : Tx C → List (Listed (SiafundOutput C))
  tx_funds tx =
      listed (ids.siafund_output_id tx) (λ i. record { tx = tx; index = i }) 0 tx.siafund_outputs

  unfoldable pub txs_funds : List (Tx C) → List (Listed (SiafundOutput C))
  txs_funds [] = []
  txs_funds (tx ∷ txs) = tx_funds tx ++ txs_funds txs

  unfoldable pub blocks_funds : List (Block C) → List (Listed (SiafundOutput C))
  blocks_funds [] = []
  blocks_funds (b ∷ bs) = txs_funds b.transactions ++ blocks_funds bs

  -- The IDs of the contracts that a transaction forms.
  unfoldable pub contract_ids : Tx C → ℕ → List (FileContract C) → List ℕ
  contract_ids tx i0 [] = []
  contract_ids tx i0 (c ∷ cs) = ids.file_contract_id tx i0 ∷ contract_ids tx (suc i0) cs

  unfoldable pub formed : Tx C → List ℕ
  formed tx = contract_ids tx 0 tx.file_contracts

  unfoldable pub txs_formed : List (Tx C) → List ℕ
  txs_formed [] = []
  txs_formed (tx ∷ txs) = formed tx ++ txs_formed txs

  unfoldable pub blocks_formed : List (Block C) → List ℕ
  blocks_formed [] = []
  blocks_formed (b ∷ bs) = txs_formed b.transactions ++ blocks_formed bs

  abbrev pub or_in : List ℕ → (ℕ → Bool) → ℕ → Bool
  or_in ks known k = has k ks || known k

  -- Whether the siafund outputs that are spent and the contracts that are revised or proved exist
  -- when the transactions come, given which are known before.
  unfoldable pub resolves : (ℕ → Bool) → (ℕ → Bool) → List (Tx C) → Bool
  unfolding tx_funds formed
  resolves funds contracts [] = true
  resolves funds contracts (tx ∷ txs) =
      let contracts' = or_in (formed tx) contracts in
      all_known funds (map (λ s. s.parent_id) tx.siafund_inputs)
      && (all_known contracts' (map (λ r. r.parent_id) tx.file_contract_revisions)
          && (all_known contracts' tx.storage_proofs
              && resolves (or_in (map (λ e. e.id) (tx_funds tx)) funds) contracts' txs))

  unfoldable pub blocks_resolve : (ℕ → Bool) → (ℕ → Bool) → List (Block C) → Bool
  blocks_resolve funds contracts [] = true
  blocks_resolve funds contracts (b ∷ bs) =
      resolves funds contracts b.transactions
      && blocks_resolve (or_in (map (λ e. e.id) (txs_funds b.transactions)) funds)
          (or_in (txs_formed b.transactions) contracts) bs

  -- The sum of some values, to which each value is added in turn.
  unfoldable pub sum_of : C → List C → C
  sum_of sum [] = sum
  sum_of sum (v ∷ vs) = sum_of (money.add sum v) vs

  -- The siafund pool after contracts: the tax of each is its payout less what it pays when proved.
  unfoldable pub contracts_pool : C → List (FileContract C) → C
  contracts_pool pool [] = pool
  contracts_pool pool (c ∷ cs) =
      contracts_pool
        (money.add pool
          (money.sub c.payout (sum_of money.nothing (map (λ o. o.value) c.valid_proof_outputs))))
        cs

  unfoldable pub txs_pool : C → List (Tx C) → C
  txs_pool pool [] = pool
  txs_pool pool (tx ∷ txs) = txs_pool (contracts_pool pool tx.file_contracts) txs

  -- The pool after each block.
  unfoldable pub blocks_pools : C → List (Block C) → List C
  blocks_pools pool [] = []
  blocks_pools pool (b ∷ bs) =
      txs_pool pool b.transactions ∷ blocks_pools (txs_pool pool b.transactions) bs
