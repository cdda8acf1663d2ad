-- ===== src/Database/Types.antt =====
-- What the database reads of the blocks of package types, and the types of sialite.go.
use sialite.Base.{ℕ, Bool, Option, List}

-- types.Currency: its zero, Add, Sub, Mul and Div64.
pub record Currency (C : Type 0) : Type 0 where
  pub nothing : C
  pub add : C → C → C
  pub sub : C → C → C
  pub mul : C → C → C
  pub div64 : C → ℕ → C

-- types.SiacoinOutput and types.SiafundOutput; hashes and IDs are numbers.
pub record Payment (C : Type 0) : Type 0 where
  pub value : C
  pub unlock_hash : ℕ

-- types.SiafundInput
pub record FundSpend : Type 0 where
  pub parent_id : ℕ
  pub claim_unlock_hash : ℕ

-- types.FileContract
pub record FileContract (C : Type 0) : Type 0 where
  pub payout : C
  pub valid_proof_outputs : List (Payment C)
  pub missed_proof_outputs : List (Payment C)

-- types.FileContractRevision
pub record FileContractRevision (C : Type 0) : Type 0 where
  pub parent_id : ℕ
  pub new_valid_proof_outputs : List (Payment C)
  pub new_missed_proof_outputs : List (Payment C)

-- A pointer to a types.Transaction: the address that tells pointers apart, and the transaction. A
-- siacoin input and a storage proof are the IDs that they name.
pub record Tx (C : Type 0) : Type 0 where
  pub address : ℕ
  pub siacoin_inputs : List ℕ
  pub siafund_inputs : List FundSpend
  pub siacoin_outputs : List (Payment C)
  pub siafund_outputs : List (Payment C)
  pub file_contracts : List (FileContract C)
  pub file_contract_revisions : List (FileContractRevision C)
  pub storage_proofs : List ℕ

-- A pointer to a types.Block.
pub record Block (C : Type 0) : Type 0 where
  pub address : ℕ
  pub parent_id : ℕ
  pub miner_payouts : List (Payment C)
  pub transactions : List (Tx C)

-- The IDs that package types computes; `proof_output_id` has ProofValid as `true`.
pub record Ids (C : Type 0) : Type 0 where
  pub block_id : Block C → ℕ
  pub tx_id : Tx C → ℕ
  pub siacoin_output_id : Tx C → ℕ → ℕ
  pub siafund_output_id : Tx C → ℕ → ℕ
  pub miner_payout_id : Block C → ℕ → ℕ
  pub file_contract_id : Tx C → ℕ → ℕ
  pub proof_output_id : ℕ → Bool → ℕ → ℕ
  pub claim_output_id : ℕ → ℕ

-- The values of SiacoinOutput.nature.
pub data Nature : Type 0 where
  siacoin_output miner_payout valid_proof_output missed_proof_output : Nature
  valid_proof_output_in_revision missed_proof_output_in_revision sia_claim_output : Nature

pub record SiacoinOutput (C : Type 0) : Type 0 where
  pub tx : Option (Tx C)
  pub block : Option (Block C)
  pub nature : Nature
  pub index : ℕ
  pub index0 : ℕ

pub record SiafundOutput (C : Type 0) : Type 0 where
  pub tx : Tx C
  pub index : ℕ

pub record SiacoinInput (C : Type 0) : Type 0 where
  pub tx : Tx C
  pub index : ℕ

pub record SiafundInput (C : Type 0) : Type 0 where
  pub tx : Tx C
  pub index : ℕ

pub record Contract (C : Type 0) : Type 0 where
  pub tx : Tx C
  pub index : ℕ

pub record ContractRev (C : Type 0) : Type 0 where
  pub tx : Tx C
  pub index : ℕ

pub record StorageProof (C : Type 0) : Type 0 where
  pub tx : Tx C
  pub index : ℕ

pub record ContractHistory (C : Type 0) : Type 0 where
  pub contract : Contract C
  pub revs : List (ContractRev C)
  pub proof : Option (StorageProof C)

-- A map is the function of its look-ups; a missing list of outputs is the empty one.
pub record Database (C : Type 0) : Type 0 where
  pub block2height : ℕ → Option ℕ
  pub block2id : ℕ → Option ℕ
  pub height2block : List (Block C)
  pub height2sfpool : List C
  pub id2block : ℕ → Option (Block C)
  pub id2tx : ℕ → Option (Tx C)
  pub tx2block : ℕ → Option (Block C)
  pub id2sco : ℕ → Option (SiacoinOutput C)
  pub id2sfo : ℕ → Option (SiafundOutput C)
  pub id2sci : ℕ → Option (SiacoinInput C)
  pub id2sfi : ℕ → Option (SiafundInput C)
  pub address2sco : ℕ → List (SiacoinOutput C)
  pub address2sfo : ℕ → List (SiafundOutput C)
  pub id2history : ℕ → Option (ContractHistory C)
