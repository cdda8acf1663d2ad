-- ===== src/Database/Transactions.antt =====
-- A transaction, and the loop over the transactions of a block.
use mathlib.Core.Path.{fun_ext}
use sialite.Base.{
  All, ==-refl, ◌&&◌, ℕ, suc, ◌≡◌, refl, sym, ap, ap₂, subst, ◌∙◌, Bool, true, ◌||◌, some, List, [],
  ◌∷◌, ◌++◌, append_assoc, append-nil, length, length-append, get_elem?, map, if◌then◌else◌,
  Outcome, done, fail, crash, M, pure, ◌>>◌, arith,
}
use sialite.Database.Types.{
  Currency, Payment, Tx, Block, Ids, SiacoinOutput, SiafundOutput, Database,
}
use sialite.Database.Store.{id_by, value_by, fund_value, id_of, value_of}
use sialite.Database.Adding.{
  register_tx, add_transaction, add_transactions, output_of, add_revisions, add_proofs,
}
use sialite.Database.Outputs.{
  or_in, resolves, tx_outputs, txs_outputs, coin_outputs, txs_funds, formed, txs_formed,
  contracts_pool, txs_pool, contract_outputs, revision_outputs, has, Listed, latest, listed,
  all_known, claims, tx_funds,
}
use sialite.Database.Growth.{is_some, Grows, Grows-refl, Grows-trans, get-mid}
use sialite.Database.Loops.{
  Ready, pure-Adds, bind-Adds, then-Adds, add_scis-Adds, add_scos-Adds, add_sfos-Adds,
}
use sialite.Database.Claims.{add_sfis-Adds, Ready-kept}
use sialite.Database.Contracts.{add_contracts-Adds, add_revisions-Adds, add_proofs-Adds}
use sialite.Database.Known.{and_left, and_right, is_some-latest, Ready-grown, Valued}

-- A run that adds these, and links between transactions and blocks.
pub record Ran {C : Type 0} {A : Type 0} (m : M (Database C) A) (a : A)
    (es : List (Listed (SiacoinOutput C))) (fs : List (Listed (SiafundOutput C))) (cs : List ℕ)
    (db : Database C) : Type 0 where
  pub result : Database C
  pub run : m db ≡ done a result
  pub grows : Grows es fs cs db result

module _ {C : Type 0} (money : Currency C) (ids : Ids C) where
  pub funds-Valued :
      (tx : Tx C) (front ps : List (Payment C))
      → tx.siafund_outputs ≡ front ++ ps
      → (i : ℕ) → i ≡ length front
      → All
          (λ e. Valued e.output)
          (listed {V = SiafundOutput C}
            (ids.siafund_output_id tx)
            (λ i. record { tx = tx; index = i })
            i
            ps)
  unfolding listed fund_value
  funds-Valued tx front [] e i n = tt
  funds-Valued tx front (p ∷ ps) e i n = (
    (p, ap₂ get_elem? e n ∙ get-mid front p ps),
    funds-Valued tx (front ++ p ∷ []) ps (e ∙ sym (append_assoc front (p ∷ []) ps)) (suc i)
        (omega (arith, n, length-append front (p ∷ []))),
  )

  register_tx-Grows :
      (b : Block C) (tx : Tx C) (db : Database C)
      → Grows [] [] [] db (register_tx money ids b tx db)
  register_tx-Grows b tx db =
      let g = Grows-refl db in
      record {
        scos = g.scos;
        owners = g.owners;
        sfos = g.sfos;
        fund_owners = g.fund_owners;
        contracts = g.contracts;
        blocks = refl;
        pools = refl;
        heights = refl;
        block_ids = refl;
      }

  -- The empty ends.
  trim :
      (us bs cs rs : List (Listed (SiacoinOutput C))) (fs : List (Listed (SiafundOutput C)))
      (ks : List ℕ) (db t : Database C)
      → Grows (us ++ (bs ++ (cs ++ (rs ++ [])))) (fs ++ []) (ks ++ []) db t
      → Grows (us ++ (bs ++ (cs ++ rs))) fs ks db t
  trim us bs cs rs fs ks db t g =
      let g₁ =
        subst (λ rs'. Grows (us ++ (bs ++ (cs ++ rs'))) (fs ++ []) (ks ++ []) db t) (append-nil rs)
          g in
      let g₂ =
        subst (λ fs'. Grows (us ++ (bs ++ (cs ++ rs))) fs' (ks ++ []) db t) (append-nil fs) g₁ in
      subst (λ ks'. Grows (us ++ (bs ++ (cs ++ rs))) fs ks' db t) (append-nil ks) g₂

  coin_id :
      (b : Block C) (tx : Tx C) (i : ℕ)
      → id_of money ids (output_of money ids b tx i) ≡ some (ids.siacoin_output_id tx i)
  unfolding id_of id_by
  coin_id b tx i = refl

  coin_value :
      (b : Block C) (tx : Tx C) (i : ℕ) (db : Database C)
      → value_of money ids db (output_of money ids b tx i) ≡ get_elem? tx.siacoin_outputs i
  unfolding value_of value_by
  coin_value b tx i db = refl

  pub add_transaction-Ran :
      (b : Block C) (tx : Tx C) (pool : C) (db : Database C)
      → Ready b db
      → all_known (λ k. is_some (db.id2sfo k)) (map (λ s. s.parent_id) tx.siafund_inputs) ≡ true
      → all_known
          (or_in money ids (formed money ids tx) (λ k. is_some (db.id2history k)))
          (map (λ r. r.parent_id) tx.file_contract_revisions)
        ≡ true
      → all_known
          (or_in money ids (formed money ids tx) (λ k. is_some (db.id2history k)))
          tx.storage_proofs
        ≡ true
      → Ran
          (add_transaction money ids b tx pool)
          (contracts_pool money ids pool tx.file_contracts)
          (tx_outputs money ids b tx)
          (tx_funds money ids tx)
          (formed money ids tx)
          db
  unfolding add_transaction tx_outputs coin_outputs tx_funds formed latest
  add_transaction-Ran b tx pool db r funds revs proofs =
      let db₁ = register_tx money ids b tx db in
      let at : db₁.tx2block tx.address ≡ some b =
        ap (λ t. if t then some b else db.tx2block tx.address) (==-refl tx.address) in
      let s₁ = add_scis-Adds money ids tx [] tx.siacoin_inputs refl 0 refl db₁ in
      let r₁ =
        Ready-kept money ids b db₁ s₁.result _ _ (record { height = r.height; funds = r.funds })
          s₁.grows in
      let at₁ = ap (λ f. f tx.address) s₁.same_txs ∙ at in
      let funds' =
        ap (λ f. all_known (λ k. is_some (f k)) (map (λ s. s.parent_id) tx.siafund_inputs))
          (fun_ext s₁.grows.sfos)
        ∙ funds in
      let s₂ =
        add_sfis-Adds money ids b tx [] tx.siafund_inputs refl 0 refl s₁.result r₁ at₁ funds' in
      let s₃ =
        add_scos-Adds money ids (output_of money ids b tx) (ids.siacoin_output_id tx)
          tx.siacoin_outputs (coin_id b tx) (coin_value b tx) [] tx.siacoin_outputs refl 0 refl
          s₂.result in
      let s₄ = add_sfos-Adds money ids tx [] tx.siafund_outputs refl 0 refl s₃.result in
      let s₅ = add_contracts-Adds money ids b tx [] tx.file_contracts refl 0 refl pool s₄.result in
      let known : (λ k. is_some (s₅.result.id2history k))
          ≡ or_in money ids (formed money ids tx) (λ k. is_some (db.id2history k)) =
        fun_ext (λ k.
          s₅.grows.contracts k
          ∙ ap (λ t. has k (formed money ids tx) || t)
              (s₄.grows.contracts k
                ∙ s₃.grows.contracts k
                ∙ s₂.grows.contracts k
                ∙ s₁.grows.contracts k)) in
      let s₆ =
        add_revisions-Adds money ids b tx [] tx.file_contract_revisions refl 0 refl s₅.result (
          ap (λ f. all_known f (map (λ r. r.parent_id) tx.file_contract_revisions)) known ∙ revs) in
      let s₇ =
        add_proofs-Adds money ids tx 0 tx.storage_proofs s₆.result
          (ap (λ f. all_known f tx.storage_proofs) (fun_ext s₆.grows.contracts ∙ known) ∙ proofs) in
      let pool' = contracts_pool money ids pool tx.file_contracts in
      let last = then-Adds s₆ (then-Adds s₇ (pure-Adds pool' s₇.result)) in
      let all = then-Adds s₁ (
        then-Adds s₂ (
          then-Adds s₃ (
            then-Adds s₄ (
              bind-Adds
                (λ pool'. do
                  add_revisions money ids b tx 0 tx.file_contract_revisions
                  add_proofs money ids tx 0 tx.storage_proofs
                  pure pool')
                s₅ last)))) in
      record {
        result = all.result;
        run = all.run;
        grows = Grows-trans [] _ [] _ [] _ db db₁ all.result (register_tx-Grows b tx db) (
            trim (claims money ids b tx 0 tx.siafund_inputs) (coin_outputs money ids b tx)
              (contract_outputs money ids b tx 0 tx.file_contracts)
              (revision_outputs money ids b tx 0 tx.file_contract_revisions) (tx_funds money ids tx)
              (formed money ids tx) db₁ all.result all.grows);
      }

  pub add_transactions-Ran :
      (b : Block C) (txs : List (Tx C)) (pool : C) (db : Database C)
      → Ready b db
      → resolves money ids (λ k. is_some (db.id2sfo k)) (λ k. is_some (db.id2history k)) txs ≡ true
      → Ran
          (add_transactions money ids b txs pool)
          (txs_pool money ids pool txs)
          (txs_outputs money ids b txs)
          (txs_funds money ids txs)
          (txs_formed money ids txs)
          db
  unfolding add_transactions txs_pool txs_outputs txs_funds txs_formed resolves tx_funds
  add_transactions-Ran b [] pool db r known = record {
    result = db;
    run = refl;
    grows = Grows-refl db;
  }
  add_transactions-Ran b (tx ∷ txs) pool db r known =
      let fs = tx_funds money ids tx in
      let ks = formed money ids tx in
      let funds : ℕ → Bool = λ k. is_some (db.id2sfo k) in
      let contracts : ℕ → Bool = λ k. is_some (db.id2history k) in
      let a = all_known funds (map (λ s. s.parent_id) tx.siafund_inputs) in
      let c =
        all_known (or_in money ids ks contracts)
          (map (λ r. r.parent_id) tx.file_contract_revisions) in
      let d = all_known (or_in money ids ks contracts) tx.storage_proofs in
      let e =
        resolves money ids (or_in money ids (map (λ e. e.id) fs) funds)
          (or_in money ids ks contracts) txs in
      let h₁ : (c && (d && e)) ≡ true = and_right a (c && (d && e)) known in
      let h₂ : (d && e) ≡ true = and_right c (d && e) h₁ in
      let first =
        add_transaction-Ran b tx pool db r (and_left a (c && (d && e)) known)
          (and_left c (d && e) h₁) (and_left d e h₂) in
      let t = first.result in
      let r' =
        Ready-grown b db t (tx_outputs money ids b tx) fs ks r
          (funds-Valued tx [] tx.siafund_outputs refl 0 refl) first.grows in
      let same_funds : (λ k. is_some (t.id2sfo k)) ≡ or_in money ids (map (λ e. e.id) fs) funds =
        fun_ext (λ k. ap is_some (first.grows.sfos k) ∙ is_some-latest fs k (db.id2sfo k)) in
      let same_contracts : (λ k. is_some (t.id2history k)) ≡ or_in money ids ks contracts =
        fun_ext first.grows.contracts in
      let rest =
        add_transactions-Ran b txs (contracts_pool money ids pool tx.file_contracts) t r'
          (ap₂ (λ f g. resolves money ids f g txs) same_funds same_contracts ∙ and_right d e h₂) in
      record {
        result = rest.result;
        run =
            ap
              (λ (o : Outcome (Database C) C). elim o [
                | done a s ↦ add_transactions money ids b txs a s
                | fail e s ↦ fail e s
                | crash ↦ crash
              ])
              first.run
            ∙ rest.run;
        grows =
            Grows-trans (tx_outputs money ids b tx) (txs_outputs money ids b txs) fs
              (txs_funds money ids txs) ks (txs_formed money ids txs) db t rest.result first.grows
              rest.grows;
      }
