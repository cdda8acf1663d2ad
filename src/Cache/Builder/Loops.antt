-- ===== src/Cache/Builder/Loops.antt =====
-- The loops of Add write the items, one after the other.
use mathlib.Core.Path.{fun_ext}
use sialite.Base.{
  ℕ, ◌≡◌, refl, sym, ap, ap₂, ◌∙◌, List, [], ◌∷◌, ◌++◌, map, concat, Bytes, M, Outcome, done, fail,
  crash, pure, ◌>>◌,
}
use sialite.Cache.Builder.{
  Builder, Contract, Transaction, MinerPayout, write_address, write_addresses, add_item,
  add_payouts, write_contracts, write_transaction, add_transactions,
}
use sialite.Cache.Builder.Items.{
  Entry, contract_hashes, transaction_hashes, payout_entry, transaction_entry,
}

-- Steps can be bracketed otherwise, and an empty last step left out.
then_assoc : {S : Type 0} (m k l : M S (Unit {0})) → ((m >> k) >> l) ≡ (m >> (k >> l))
then_assoc {S} m k l = fun_ext (λ s. go s (m s))
  where
    go : (s : S) (o : Outcome S (Unit {0})) → (((λ _. o) >> k) >> l) s ≡ ((λ _. o) >> (k >> l)) s
    go s (done a t) = refl
    go s (fail e t) = refl
    go s crash = refl

then_pure : {S : Type 0} (m : M S (Unit {0})) → (m >> pure tt) ≡ m
then_pure {S} m = fun_ext (λ s. go s (m s))
  where
    go : (s : S) (o : Outcome S (Unit {0})) → ((λ _. o) >> pure tt) s ≡ o
    go s (done a t) = refl
    go s (fail e t) = refl
    go s crash = refl

module _ {A : Type 0} (compress : Bytes → Bytes) (sia_hash : Bytes → Bytes) (write : Bytes → M A ℕ)
    (close_addresses : M A (Unit {0})) where
  unfoldable pub add_entry : Entry → M (Builder A) (Unit {0})
  add_entry e =
      add_item compress sia_hash write close_addresses
        (write_addresses compress sia_hash write close_addresses e.hashes) e.plain e.stored

  unfoldable pub add_entries : List Entry → M (Builder A) (Unit {0})
  add_entries [] = pure tt
  add_entries (e ∷ es) = do add_entry e; add_entries es

  abbrev each : List Bytes → M (Builder A) (Unit {0})
  each = write_addresses compress sia_hash write close_addresses

  each-append : (xs ys : List Bytes) → (each xs >> each ys) ≡ each (xs ++ ys)
  unfolding write_addresses
  each-append [] ys = refl
  each-append (x ∷ xs) ys =
      then_assoc (write_address compress sia_hash write close_addresses x) (each xs) (each ys)
      ∙ ap (◌>>◌ (write_address compress sia_hash write close_addresses x)) (each-append xs ys)

  contracts-each :
      (cs : List Contract)
      → write_contracts compress sia_hash write close_addresses cs
        ≡ each (concat (map contract_hashes cs))
  unfolding write_contracts write_addresses contract_hashes
  contracts-each [] = refl
  contracts-each (c ∷ cs) =
      let rest = concat (map contract_hashes cs) in
      ap (λ m. each c.valid_proof_outputs >> (each c.missed_proof_outputs >> m)) (contracts-each cs)
      ∙ sym (then_assoc (each c.valid_proof_outputs) (each c.missed_proof_outputs) (each rest))
      ∙ ap (λ m. m >> each rest) (each-append c.valid_proof_outputs c.missed_proof_outputs)
      ∙ each-append (c.valid_proof_outputs ++ c.missed_proof_outputs) rest

  -- The loops of a transaction write just the addresses of the list.
  transaction-each :
      (tx : Transaction)
      → write_transaction compress sia_hash write close_addresses tx ≡ each (transaction_hashes tx)
  unfolding write_transaction transaction_hashes
  transaction-each tx =
      let cs = concat (map contract_hashes tx.file_contracts) in
      let rs = concat (map contract_hashes tx.file_contract_revisions) in
      ap₂
        (λ m n.
          each tx.siacoin_inputs
          >> (each tx.siafund_inputs
              >> (each tx.siacoin_outputs >> (each tx.siafund_outputs >> (m >> n)))))
        (contracts-each tx.file_contracts) (contracts-each tx.file_contract_revisions)
      ∙ ap
          (λ m.
            each tx.siacoin_inputs
            >> (each tx.siafund_inputs
                >> (each tx.siacoin_outputs >> (each tx.siafund_outputs >> m))))
          (each-append cs rs)
      ∙ ap
          (λ m.
            each tx.siacoin_inputs >> (each tx.siafund_inputs >> (each tx.siacoin_outputs >> m)))
          (each-append tx.siafund_outputs (cs ++ rs))
      ∙ ap (λ m. each tx.siacoin_inputs >> (each tx.siafund_inputs >> m))
          (each-append tx.siacoin_outputs _)
      ∙ ap (λ m. each tx.siacoin_inputs >> m) (each-append tx.siafund_inputs _)
      ∙ each-append tx.siacoin_inputs _

  pub payouts-entries :
      (mps : List MinerPayout)
      → add_payouts compress sia_hash write close_addresses mps
        ≡ add_entries (map (payout_entry compress sia_hash write close_addresses) mps)
  unfolding add_payouts add_entries add_entry payout_entry write_addresses
  payouts-entries [] = refl
  payouts-entries (mp ∷ mps) =
      ap₂
        (λ m n. add_item compress sia_hash write close_addresses m mp.marshalled mp.marshalled >> n)
        (sym (then_pure (write_address compress sia_hash write close_addresses mp.unlock_hash)))
        (payouts-entries mps)

  pub transactions-entries :
      (txs : List Transaction)
      → add_transactions compress sia_hash write close_addresses txs
        ≡ add_entries (map (transaction_entry compress sia_hash write close_addresses) txs)
  unfolding add_transactions add_entries add_entry transaction_entry
  transactions-entries [] = refl
  transactions-entries (tx ∷ txs) =
      ap₂
        (λ m n.
          add_item compress sia_hash write close_addresses m tx.marshalled (compress tx.marshalled)
          >> n)
        (transaction-each tx) (transactions-entries txs)
