-- ===== src/Database/Store.antt =====
-- sialite.go: the look-ups of an output's ID and value, and the additions of one entry.
use sialite.Base.{
  ℕ, ◌+◌, ◌-◌, true, false, Option, none, some, List, [], ◌∷◌, ◌++◌, get_elem?, ◌==◌, ltb,
  if◌then◌else◌, done, crash, M,
}
use sialite.Database.Types.{
  Currency, Payment, FundSpend, Tx, Block, Ids, Nature, siacoin_output, miner_payout,
  valid_proof_output, missed_proof_output, valid_proof_output_in_revision,
  missed_proof_output_in_revision, sia_claim_output, SiacoinOutput, SiafundOutput, SiacoinInput,
  SiafundInput, Database,
}

-- A dereference or an index: nil or out of range is none, a run-time panic.
abbrev pub then_get : {A B : Type 0} → Option A → (A → Option B) → Option B
then_get (some a) f = f a
then_get none f = none

-- Writing to a map, and appending to the list of a key.
abbrev pub set : {V : Type 0} → ℕ → V → (ℕ → Option V) → ℕ → Option V
set k v m k' = if k == k' then some v else m k'

abbrev pub push : {V : Type 0} → ℕ → V → (ℕ → List V) → ℕ → List V
push k v m k' = if k == k' then m k' ++ v ∷ [] else m k'

-- NewDatabase; the two slices are nil.
abbrev pub new_database : {C : Type 0} → Database C
new_database = record {
  block2height = λ k. none;
  block2id = λ k. none;
  height2block = [];
  height2sfpool = [];
  id2block = λ k. none;
  id2tx = λ k. none;
  tx2block = λ k. none;
  id2sco = λ k. none;
  id2sfo = λ k. none;
  id2sci = λ k. none;
  id2sfi = λ k. none;
  address2sco = λ k. [];
  address2sfo = λ k. [];
  id2history = λ k. none;
}

-- `db.block2height[db.tx2block[tx]]`, which is 0 when either key is missing.
unfoldable pub height_of : {C : Type 0} → Database C → Tx C → ℕ
height_of db tx = elim (db.tx2block tx.address) [
  | none ↦ 0
  | some b ↦ elim (db.block2height b.address) [ none ↦ 0 | some h ↦ h ]
]

-- Value of a SiafundOutput.
unfoldable pub fund_value : {C : Type 0} → SiafundOutput C → Option (Payment C)
fund_value o = get_elem? o.tx.siafund_outputs o.index

module _ {C : Type 0} (money : Currency C) (ids : Ids C) where
  -- ID of a SiacoinOutput.
  unfoldable pub id_by : Nature → Tx C → ℕ → ℕ → Option ℕ
  id_by siacoin_output tx index0 index = some (ids.siacoin_output_id tx index)
  id_by miner_payout tx index0 index = none
  id_by valid_proof_output tx index0 index =
      some (ids.proof_output_id (ids.file_contract_id tx index0) true index)
  id_by missed_proof_output tx index0 index =
      some (ids.proof_output_id (ids.file_contract_id tx index0) false index)
  id_by valid_proof_output_in_revision tx index0 index =
      then_get (get_elem? tx.file_contract_revisions index0)
        (λ r. some (ids.proof_output_id r.parent_id true index))
  id_by missed_proof_output_in_revision tx index0 index =
      then_get (get_elem? tx.file_contract_revisions index0)
        (λ r. some (ids.proof_output_id r.parent_id false index))
  id_by sia_claim_output tx index0 index =
      then_get (get_elem? tx.siafund_inputs index) (λ i. some (ids.claim_output_id i.parent_id))

  unfoldable pub id_of : SiacoinOutput C → Option ℕ
  unfolding id_by
  id_of o = elim (o.nature) [
    | miner_payout ↦ then_get o.block (λ b. some (ids.miner_payout_id b o.index))
    | n ↦ then_get o.tx (λ tx. id_by n tx o.index0 o.index)
  ]

  -- The value of a claim: the part of the pool's growth from block1 to block2, one block before
  -- the claim's. `block2 > block1` is `block1 + 1 < height` for the claim's height.
  unfoldable pub claim_value : Database C → Tx C → FundSpend → Option (Payment C)
  unfolding height_of fund_value
  claim_value db tx sfi = then_get (db.id2sfo sfi.parent_id) (λ sfo.
      let block1 = height_of db sfo.tx in
      let height = height_of db tx in
      if ltb (block1 + 1) height
      then then_get (get_elem? db.height2sfpool (height - 1)) (λ pool2.
        then_get (get_elem? db.height2sfpool block1) (λ pool1. then_get (fund_value sfo) (λ v.
          some (record {
            value = money.div64 (money.mul (money.sub pool2 pool1) v.value) 10000;
            unlock_hash = sfi.claim_unlock_hash;
          }))))
      else some (record { value = money.nothing; unlock_hash = sfi.claim_unlock_hash }))

  -- Value of a SiacoinOutput.
  unfoldable pub value_by : Database C → Nature → Tx C → ℕ → ℕ → Option (Payment C)
  unfolding claim_value
  value_by db siacoin_output tx index0 index = get_elem? tx.siacoin_outputs index
  value_by db miner_payout tx index0 index = none
  value_by db valid_proof_output tx index0 index =
      then_get (get_elem? tx.file_contracts index0) (λ c. get_elem? c.valid_proof_outputs index)
  value_by db missed_proof_output tx index0 index =
      then_get (get_elem? tx.file_contracts index0) (λ c. get_elem? c.missed_proof_outputs index)
  value_by db valid_proof_output_in_revision tx index0 index =
      then_get (get_elem? tx.file_contract_revisions index0)
        (λ r. get_elem? r.new_valid_proof_outputs index)
  value_by db missed_proof_output_in_revision tx index0 index =
      then_get (get_elem? tx.file_contract_revisions index0)
        (λ r. get_elem? r.new_missed_proof_outputs index)
  value_by db sia_claim_output tx index0 index =
      then_get (get_elem? tx.siafund_inputs index) (λ sfi. claim_value db tx sfi)

  unfoldable pub value_of : Database C → SiacoinOutput C → Option (Payment C)
  unfolding value_by
  value_of db o = elim (o.nature) [
    | miner_payout ↦ then_get o.block (λ b. get_elem? b.miner_payouts o.index)
    | n ↦ then_get o.tx (λ tx. value_by db n tx o.index0 o.index)
  ]

  -- addSco
  unfoldable pub add_sco : SiacoinOutput C → M (Database C) (Unit {0})
  unfolding id_of value_of
  add_sco o db = elim (id_of o) [
    | none ↦ crash
    | some id ↦
        let db' = record db { id2sco = set id o db.id2sco } in
        elim (value_of db' o) [
          | none ↦ crash
          | some v ↦ done tt (record db' { address2sco = push v.unlock_hash o db'.address2sco })
        ]
  ]

  -- addSfo
  unfoldable pub add_sfo : SiafundOutput C → M (Database C) (Unit {0})
  add_sfo o db =
      let db' = record db { id2sfo = set (ids.siafund_output_id o.tx o.index) o db.id2sfo } in
      elim (fund_value o) [
        | none ↦ crash
        | some v ↦ done tt (record db' { address2sfo = push v.unlock_hash o db'.address2sfo })
      ]

  -- addSci
  unfoldable pub add_sci : SiacoinInput C → M (Database C) (Unit {0})
  add_sci i db = elim (get_elem? i.tx.siacoin_inputs i.index) [
    | none ↦ crash
    | some parent_id ↦ done tt (record db { id2sci = set parent_id i db.id2sci })
  ]

  -- The output for the claim of a siafund input.
  abbrev pub claim_output : Option (Block C) → Tx C → ℕ → SiacoinOutput C
  claim_output block tx i = record {
    tx = some tx;
    block = block;
    nature = sia_claim_output;
    index = i;
    index0 = 0;
  }

  -- addSfi
  unfoldable pub add_sfi : SiafundInput C → M (Database C) (Unit {0})
  unfolding add_sco
  add_sfi i db = elim (get_elem? i.tx.siafund_inputs i.index) [
    | none ↦ crash
    | some sfi ↦
        add_sco (claim_output (db.tx2block i.tx.address) i.tx i.index)
          (record db { id2sfi = set sfi.parent_id i db.id2sfi })
  ]
