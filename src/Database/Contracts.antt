-- ===== src/Database/Contracts.antt =====
-- The loops of addBlock over contracts, revisions and storage proofs.
use mathlib.Core.Path.{fun_ext}
use sialite.Base.{
  subst, ==→eq, modify, ℕ, suc, ◌≡◌, refl, sym, ap, ap₂, ◌∙◌, Bool, true, false, ◌||◌, inl, inr,
  Bool-cases, Option, some, List, [], ◌∷◌, ◌++◌, append_assoc, length, length-append, get_elem?,
  map, ◌==◌, if◌then◌else◌, arith,
}
use sialite.Database.Types.{
  Payment, FileContract, FileContractRevision, valid_proof_output, missed_proof_output,
  valid_proof_output_in_revision, missed_proof_output_in_revision, Currency, Tx, Block, Ids,
  SiacoinOutput, ContractHistory, Database,
}
use sialite.Database.Store.{set, id_of, value_of}
use sialite.Database.Adding.{
  add_contracts, add_revisions, add_proofs, append_rev, set_proof, form, proof_output_of, total,
}
use sialite.Database.Outputs.{
  sum_of, contract_outputs, revision_outputs, contract_ids, contracts_pool, has, Listed, all_known,
}
use sialite.Database.Growth.{is_some, Grows, Grows-refl, get-mid}
use sialite.Database.Store.{id_by, value_by}
use sialite.Database.Loops.{Adds, pure-Adds, then-Adds, add_scos-Adds}
use sialite.Database.Claims.{known-some, all_known-head, all_known-tail}

module _ {C : Type 0} (money : Currency C) (ids : Ids C) where
  -- Only histories change.
  history-Grows :
      (cs : List ℕ) (db : Database C) (m : ℕ → Option (ContractHistory C))
      → ((k : ℕ) → is_some (m k) ≡ (has k cs || is_some (db.id2history k)))
      → Grows [] [] cs db (record db { id2history = m })
  history-Grows cs db m h =
      let g = Grows-refl db in
      record {
        scos = g.scos;
        owners = g.owners;
        sfos = g.sfos;
        fund_owners = g.fund_owners;
        contracts = h;
        blocks = refl;
        pools = refl;
        heights = refl;
        block_ids = refl;
      }

  set-new :
      (k : ℕ) (h : ContractHistory C) (m : ℕ → Option (ContractHistory C)) (k' : ℕ)
      → is_some (set k h m k') ≡ (has k' (k ∷ []) || is_some (m k'))
  set-new k h m k' = go (k == k')
    where
      go :
          (t : Bool)
          → is_some (if t then some h else m k') ≡ ((if t then true else false) || is_some (m k'))
      go true = refl
      go false = refl

  set-old :
      (k : ℕ) (h : ContractHistory C) (m : ℕ → Option (ContractHistory C)) (k' : ℕ)
      → is_some (m k) ≡ true
      → is_some (set k h m k') ≡ is_some (m k')
  set-old k h m k' known = elim (Bool-cases (k == k')) [
    | inl same ↦
        let e : k ≡ k' = ==→eq k k' same in
        ap (λ t. is_some (if t then some h else m k')) same ∙ sym known ∙ ap (λ k. is_some (m k)) e
    | inr other ↦ ap (λ t. is_some (if t then some h else m k')) other
  ]

  form-Adds :
      (tx : Tx C) (i0 : ℕ) (db : Database C)
      → Adds (modify (form money ids tx i0)) tt [] [] (ids.file_contract_id tx i0 ∷ []) db
  unfolding form
  form-Adds tx i0 db = record {
    result = form money ids tx i0 db;
    run = refl;
    grows =
        history-Grows (ids.file_contract_id tx i0 ∷ []) db _
          (λ k. set-new (ids.file_contract_id tx i0) _ db.id2history k);
    same_txs = refl;
  }

  module _ (b : Block C) (tx : Tx C) (i0 : ℕ) where
    valid_id :
        (i : ℕ)
        → id_of money ids (proof_output_of money ids b tx valid_proof_output i0 i)
          ≡ some (ids.proof_output_id (ids.file_contract_id tx i0) true i)
    unfolding id_of id_by
    valid_id i = refl

    missed_id :
        (i : ℕ)
        → id_of money ids (proof_output_of money ids b tx missed_proof_output i0 i)
          ≡ some (ids.proof_output_id (ids.file_contract_id tx i0) false i)
    unfolding id_of id_by
    missed_id i = refl

    valid_value :
        (c : FileContract C)
        → get_elem? tx.file_contracts i0 ≡ some c
        → (i : ℕ) (db : Database C)
        → value_of money ids db (proof_output_of money ids b tx valid_proof_output i0 i)
          ≡ get_elem? c.valid_proof_outputs i
    unfolding value_of value_by
    valid_value c here i db = rw here refl

    missed_value :
        (c : FileContract C)
        → get_elem? tx.file_contracts i0 ≡ some c
        → (i : ℕ) (db : Database C)
        → value_of money ids db (proof_output_of money ids b tx missed_proof_output i0 i)
          ≡ get_elem? c.missed_proof_outputs i
    unfolding value_of value_by
    missed_value c here i db = rw here refl

    new_valid_id :
        (r : FileContractRevision C)
        → get_elem? tx.file_contract_revisions i0 ≡ some r
        → (i : ℕ)
        → id_of money ids (proof_output_of money ids b tx valid_proof_output_in_revision i0 i)
          ≡ some (ids.proof_output_id r.parent_id true i)
    unfolding id_of id_by
    new_valid_id r here i = rw here refl

    new_missed_id :
        (r : FileContractRevision C)
        → get_elem? tx.file_contract_revisions i0 ≡ some r
        → (i : ℕ)
        → id_of money ids (proof_output_of money ids b tx missed_proof_output_in_revision i0 i)
          ≡ some (ids.proof_output_id r.parent_id false i)
    unfolding id_of id_by
    new_missed_id r here i = rw here refl

    new_valid_value :
        (r : FileContractRevision C)
        → get_elem? tx.file_contract_revisions i0 ≡ some r
        → (i : ℕ) (db : Database C)
        → value_of money ids db (proof_output_of money ids b tx valid_proof_output_in_revision i0 i)
          ≡ get_elem? r.new_valid_proof_outputs i
    unfolding value_of value_by
    new_valid_value r here i db = rw here refl

    new_missed_value :
        (r : FileContractRevision C)
        → get_elem? tx.file_contract_revisions i0 ≡ some r
        → (i : ℕ) (db : Database C)
        → value_of money ids db
            (proof_output_of money ids b tx missed_proof_output_in_revision i0 i)
          ≡ get_elem? r.new_missed_proof_outputs i
    unfolding value_of value_by
    new_missed_value r here i db = rw here refl

  total-sum :
      (sum : C) (os : List (Payment C))
      → total money ids sum os ≡ sum_of money ids sum (map (λ o. o.value) os)
  unfolding total sum_of
  total-sum sum [] = refl
  total-sum sum (o ∷ os) = total-sum (money.add sum o.value) os

  pub add_contracts-Adds :
      (b : Block C) (tx : Tx C) (front cs : List (FileContract C))
      → tx.file_contracts ≡ front ++ cs
      → (i0 : ℕ) → i0 ≡ length front
      → (pool : C) (db : Database C)
      → Adds
          (add_contracts money ids b tx i0 cs pool)
          (contracts_pool money ids pool cs)
          (contract_outputs money ids b tx i0 cs)
          []
          (contract_ids money ids tx i0 cs)
          db
  unfolding add_contracts contract_outputs contracts_pool contract_ids
  add_contracts-Adds b tx front [] e i0 n pool db = pure-Adds pool db
  add_contracts-Adds b tx front (c ∷ cs) e i0 n pool db =
      let here = ap₂ get_elem? e n ∙ get-mid front c cs in
      let pool' =
        money.add pool (money.sub c.payout (total money ids money.nothing c.valid_proof_outputs)) in
      let first = form-Adds tx i0 db in
      let second =
        add_scos-Adds money ids (proof_output_of money ids b tx valid_proof_output i0)
          (ids.proof_output_id (ids.file_contract_id tx i0) true) c.valid_proof_outputs
          (valid_id b tx i0) (valid_value b tx i0 c here) [] c.valid_proof_outputs refl 0 refl
          first.result in
      let third =
        add_scos-Adds money ids (proof_output_of money ids b tx missed_proof_output i0)
          (ids.proof_output_id (ids.file_contract_id tx i0) false) c.missed_proof_outputs
          (missed_id b tx i0) (missed_value b tx i0 c here) [] c.missed_proof_outputs refl 0 refl
          second.result in
      let tax =
        ap (λ t. contracts_pool money ids (money.add pool (money.sub c.payout t)) cs)
          (total-sum money.nothing c.valid_proof_outputs) in
      subst
        (λ p.
          Adds (add_contracts money ids b tx i0 (c ∷ cs) pool) p
            (contract_outputs money ids b tx i0 (c ∷ cs)) [] (contract_ids money ids tx i0 (c ∷ cs))
            db)
        tax
        (then-Adds first (
          then-Adds second (
            then-Adds third (
              add_contracts-Adds b tx (front ++ c ∷ []) cs
                (e ∙ sym (append_assoc front (c ∷ []) cs)) (suc i0)
                (omega (arith, n, length-append front (c ∷ []))) pool' third.result))))

  -- A history that exists is changed.
  pub append_rev-Adds :
      (tx : Tx C) (i0 p : ℕ) (db : Database C)
      → is_some (db.id2history p) ≡ true
      → Adds (append_rev money ids tx i0 p) tt [] [] [] db
  unfolding append_rev
  append_rev-Adds tx i0 p db known =
      let (h, found) = known-some (db.id2history p) known in
      record {
        result = record db {
          id2history =
              set p (record h { revs = h.revs ++ record { tx = tx; index = i0 } ∷ [] })
                db.id2history;
        };
        run = rw found refl;
        grows = history-Grows [] db _ (λ k. set-old p _ db.id2history k known);
        same_txs = refl;
      }

  pub set_proof-Adds :
      (tx : Tx C) (i0 p : ℕ) (db : Database C)
      → is_some (db.id2history p) ≡ true
      → Adds (set_proof money ids tx i0 p) tt [] [] [] db
  unfolding set_proof
  set_proof-Adds tx i0 p db known =
      let (h, found) = known-some (db.id2history p) known in
      record {
        result = record db {
          id2history =
              set p (record h { proof = some (record { tx = tx; index = i0 }) }) db.id2history;
        };
        run = rw found refl;
        grows = history-Grows [] db _ (λ k. set-old p _ db.id2history k known);
        same_txs = refl;
      }

  still_known :
      (es : List (Listed (SiacoinOutput C))) (db t : Database C) (ks : List ℕ)
      → Grows es [] [] db t
      → all_known (λ k. is_some (db.id2history k)) ks ≡ true
      → all_known (λ k. is_some (t.id2history k)) ks ≡ true
  still_known es db t ks g h = ap (λ f. all_known f ks) (fun_ext g.contracts) ∙ h

  pub add_proofs-Adds :
      (tx : Tx C) (i0 : ℕ) (ps : List ℕ) (db : Database C)
      → all_known (λ k. is_some (db.id2history k)) ps ≡ true
      → Adds (add_proofs money ids tx i0 ps) tt [] [] [] db
  unfolding add_proofs
  add_proofs-Adds tx i0 [] db known = pure-Adds tt db
  add_proofs-Adds tx i0 (p ∷ ps) db known =
      let first =
        set_proof-Adds tx i0 p db (all_known-head (λ k. is_some (db.id2history k)) p ps known) in
      then-Adds first (
        add_proofs-Adds tx (suc i0) ps first.result (
          still_known [] db first.result ps first.grows
            (all_known-tail (λ k. is_some (db.id2history k)) p ps known)))

  pub add_revisions-Adds :
      (b : Block C) (tx : Tx C) (front rs : List (FileContractRevision C))
      → tx.file_contract_revisions ≡ front ++ rs
      → (i0 : ℕ) → i0 ≡ length front
      → (db : Database C)
      → all_known (λ k. is_some (db.id2history k)) (map (λ r. r.parent_id) rs) ≡ true
      → Adds
          (add_revisions money ids b tx i0 rs)
          tt
          (revision_outputs money ids b tx i0 rs)
          []
          []
          db
  unfolding add_revisions revision_outputs
  add_revisions-Adds b tx front [] e i0 n db known = pure-Adds tt db
  add_revisions-Adds b tx front (r ∷ rs) e i0 n db known =
      let here = ap₂ get_elem? e n ∙ get-mid front r rs in
      let ks = map (λ r. r.parent_id) rs in
      let first =
        append_rev-Adds tx i0 r.parent_id db
          (all_known-head (λ k. is_some (db.id2history k)) r.parent_id ks known) in
      let second =
        add_scos-Adds money ids (proof_output_of money ids b tx valid_proof_output_in_revision i0)
          (ids.proof_output_id r.parent_id true) r.new_valid_proof_outputs
          (new_valid_id b tx i0 r here) (new_valid_value b tx i0 r here) []
          r.new_valid_proof_outputs refl 0 refl first.result in
      let third =
        add_scos-Adds money ids (proof_output_of money ids b tx missed_proof_output_in_revision i0)
          (ids.proof_output_id r.parent_id false) r.new_missed_proof_outputs
          (new_missed_id b tx i0 r here) (new_missed_value b tx i0 r here) []
          r.new_missed_proof_outputs refl 0 refl second.result in
      let known' = still_known _ second.result third.result ks third.grows (
        still_known _ first.result second.result ks second.grows (
          still_known [] db first.result ks first.grows
            (all_known-tail (λ k. is_some (db.id2history k)) r.parent_id ks known))) in
      then-Adds first (
        then-Adds second (
          then-Adds third (
            add_revisions-Adds b tx (front ++ r ∷ []) rs (e ∙ sym (append_assoc front (r ∷ []) rs))
              (suc i0) (omega (arith, n, length-append front (r ∷ []))) third.result known')))
