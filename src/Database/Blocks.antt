-- ===== src/Database/Blocks.antt =====
-- addBlock, and a whole run of it.
use mathlib.Core.Path.{fun_ext}
use sialite.Base.{
  All, All-append, ==-refl, ℕ, suc, ◌-◌, ◌<◌, ◌≡◌, refl, sym, ap, ap₂, ◌∙◌, true, false, ◌||◌, some,
  List, [], ◌∷◌, ◌++◌, length, length-append, get_elem?, ◌==◌, if◌then◌else◌, done, arith,
}
use sialite.Database.Types.{Currency, Tx, Block, Ids, SiacoinOutput, SiafundOutput, Database}
use sialite.Database.Store.{id_of, value_of, new_database}
use sialite.Database.Adding.{payout_of, register, start_pool, add_scos, add_transactions, add_block}
use sialite.Database.Outputs.{
  Listed, latest, owned_by, has, resolves, txs_outputs, payout_outputs, block_outputs, txs_funds,
  tx_funds, txs_formed, txs_pool,
}
use sialite.Database.Growth.{is_some, Grows, Grows-refl, Grows-trans}
use sialite.Database.Loops.{Ready, add_scos-Adds}
use sialite.Database.Claims.{Ready-kept}
use sialite.Database.Known.{Ready-grown, Valued}
use sialite.Database.Transactions.{funds-Valued, add_transactions-Ran}

-- The pool to start from.
abbrev pub last_pool : {C : Type 0} → C → List C → C
last_pool start [] = start
last_pool start (p ∷ ps) = last_pool p ps

pub last_pool-snoc :
    {C : Type 0} (start : C) (ps : List C) (p : C) → last_pool start (ps ++ p ∷ []) ≡ p
last_pool-snoc start [] p = refl
last_pool-snoc start (q ∷ ps) p = last_pool-snoc q ps p

-- Between two calls of addBlock: a pool for each block, and every siafund output has a value.
pub record IsSound {C : Type 0} (db : Database C) : Type 0 where
  pub pools : length db.height2sfpool ≡ length db.height2block
  pub funds : (k : ℕ) (o : SiafundOutput C) → db.id2sfo k ≡ some o → Valued o

pub new_database-IsSound : {C : Type 0} → IsSound {C = C} new_database
new_database-IsSound = record { pools = refl; funds = λ k o e. absurd (cc) }

last-get :
    {C : Type 0} (start : C) (ps : List C)
    → 0 < length ps
    → get_elem? ps (length ps - 1) ≡ some (last_pool start ps)
last-get start [] h = absurd (omega arith)
last-get start (p ∷ []) h = refl
last-get start (p ∷ q ∷ ps) h =
    let e : suc (suc (length ps)) - 1 ≡ suc (suc (length ps) - 1) = omega arith in
    ap (get_elem? (p ∷ q ∷ ps)) e ∙ last-get p (q ∷ ps) (omega arith)

module _ {C : Type 0} (money : Currency C) (ids : Ids C) where
  -- What blocks with these outputs, pools and contracts have made of a database.
  pub record Extended (bs : List (Block C)) (es : List (Listed (SiacoinOutput C)))
      (fs : List (Listed (SiafundOutput C))) (cs : List ℕ) (pools : List C) (db t : Database C)
      : Type 0 where
    pub scos : (k : ℕ) → t.id2sco k ≡ latest es k (db.id2sco k)
    pub owners : (a : ℕ) → t.address2sco a ≡ db.address2sco a ++ owned_by a es
    pub sfos : (k : ℕ) → t.id2sfo k ≡ latest fs k (db.id2sfo k)
    pub fund_owners : (a : ℕ) → t.address2sfo a ≡ db.address2sfo a ++ owned_by a fs
    pub contracts : (k : ℕ) → is_some (t.id2history k) ≡ (has k cs || is_some (db.id2history k))
    pub blocks : t.height2block ≡ db.height2block ++ bs
    pub sfpools : t.height2sfpool ≡ db.height2sfpool ++ pools
    pub sound : IsSound t

  start_pool-last :
      (db : Database C)
      → IsSound db
      → start_pool money ids (length db.height2block) db.height2sfpool
        ≡ some (last_pool money.nothing db.height2sfpool)
  start_pool-last db s =
      ap (λ n. start_pool money ids n db.height2sfpool) (sym s.pools) ∙ go db.height2sfpool
    where
      go : (ps : List C) → start_pool money ids (length ps) ps ≡ some (last_pool money.nothing ps)
      go [] = refl
      go (p ∷ ps) =
          let some_blocks : (suc (length ps) == 0) ≡ false = ground arith in
          ap (λ t. if t then some money.nothing else get_elem? (p ∷ ps) (suc (length ps) - 1))
            some_blocks
          ∙ last-get money.nothing (p ∷ ps) (omega arith)

  register-Grows :
      (b : Block C) (db : Database C)
      → Grows [] [] [] (register money ids b db) (register money ids b db)
  register-Grows b db = Grows-refl (register money ids b db)

  payout_id :
      (b : Block C) (i : ℕ)
      → id_of money ids (payout_of money ids b i) ≡ some (ids.miner_payout_id b i)
  unfolding id_of
  payout_id b i = refl

  payout_value :
      (b : Block C) (i : ℕ) (db : Database C)
      → value_of money ids db (payout_of money ids b i) ≡ get_elem? b.miner_payouts i
  unfolding value_of
  payout_value b i db = refl

  txs_funds-Valued : (txs : List (Tx C)) → All (λ e. Valued e.output) (txs_funds money ids txs)
  unfolding txs_funds tx_funds
  txs_funds-Valued [] = tt
  txs_funds-Valued (tx ∷ txs) =
      All-append (λ e. Valued e.output) (tx_funds money ids tx) (txs_funds money ids txs)
        (funds-Valued money ids tx [] tx.siafund_outputs refl 0 refl) (txs_funds-Valued txs)

  add_block_run :
      (b : Block C) (db t₁ t₂ : Database C) (pool pool' : C)
      → start_pool money ids (length db.height2block) db.height2sfpool ≡ some pool
      → add_scos money ids (payout_of money ids b) 0 b.miner_payouts (register money ids b db)
        ≡ done tt t₁
      → add_transactions money ids b b.transactions pool t₁ ≡ done pool' t₂
      → add_block money ids b db
        ≡ done tt (record t₂ { height2sfpool = t₂.height2sfpool ++ pool' ∷ [] })
  unfolding add_block
  add_block_run b db t₁ t₂ pool pool' start payouts txs = ground (arith, start, payouts, txs)

  -- On a sound database that has the siafund outputs and the contracts that the block's
  -- transactions refer to, but for those that the block itself creates before, addBlock does not
  -- panic: it files every siacoin and siafund output of the block under its ID and behind those of
  -- its address, in order, knows the contracts formed, appends the block, and appends the
  -- siafund pool, which has grown by the contracts' taxes. The database stays sound.
  pub add_block-Extended :
      (b : Block C) (db : Database C)
      → IsSound db
      → resolves money ids
          (λ k. is_some (db.id2sfo k))
          (λ k. is_some (db.id2history k))
          b.transactions
        ≡ true
      → (t : Database C) × (add_block money ids b db ≡ done tt t)
        × Extended
            (b ∷ [])
            (block_outputs money ids b)
            (txs_funds money ids b.transactions)
            (txs_formed money ids b.transactions)
            (txs_pool money ids (last_pool money.nothing db.height2sfpool) b.transactions ∷ [])
            db
            t
  unfolding block_outputs payout_outputs latest
  add_block-Extended b db s known =
      let db₁ = register money ids b db in
      let pool = last_pool money.nothing db.height2sfpool in
      let at : db₁.block2height b.address ≡ some (length db.height2sfpool) =
        ap (λ t. if t then some (length db.height2block) else db.block2height b.address)
          (==-refl b.address)
        ∙ ap some (sym s.pools) in
      let r₁ : Ready b db₁ = record { height = at; funds = s.funds } in
      let first =
        add_scos-Adds money ids (payout_of money ids b) (ids.miner_payout_id b) b.miner_payouts
          (payout_id b) (payout_value b) [] b.miner_payouts refl 0 refl db₁ in
      let t₁ = first.result in
      let r₂ = Ready-kept money ids b db₁ t₁ _ _ r₁ first.grows in
      let known' =
        ap₂ (λ f g. resolves money ids (λ k. is_some (f k)) g b.transactions)
          (fun_ext first.grows.sfos) (fun_ext first.grows.contracts)
        ∙ known in
      let rest = add_transactions-Ran money ids b b.transactions pool t₁ r₂ known' in
      let t₂ = rest.result in
      let fs = txs_funds money ids b.transactions in
      let cs = txs_formed money ids b.transactions in
      let all =
        Grows-trans (payout_outputs money ids b) (txs_outputs money ids b b.transactions) [] fs []
          cs db₁ t₁ t₂ first.grows rest.grows in
      let r₃ = Ready-grown b db₁ t₂ _ fs cs r₁ (txs_funds-Valued b.transactions) all in
      let pool' = txs_pool money ids pool b.transactions in
      (
        record t₂ { height2sfpool = t₂.height2sfpool ++ pool' ∷ [] },
        add_block_run b db t₁ t₂ pool pool' (start_pool-last db s) first.run rest.run,
        record {
          scos = all.scos;
          owners = all.owners;
          sfos = all.sfos;
          fund_owners = all.fund_owners;
          contracts = all.contracts;
          blocks = all.blocks;
          sfpools = ap (λ ps. ps ++ pool' ∷ []) all.pools;
          sound = record {
            pools = omega (
              arith,
              length-append t₂.height2sfpool (pool' ∷ []),
              ap length all.pools,
              s.pools,
              ap length all.blocks,
              length-append db.height2block (b ∷ []),
            );
            funds = r₃.funds;
          };
        },
      )
