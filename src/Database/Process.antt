-- ===== src/Database/Process.antt =====
-- processBlocks: the database of the blocks of a channel.
use mathlib.Core.Path.{fun_ext}
use sialite.Base.{
  ◌&&◌, ℕ, zero, suc, ◌+◌, ◌-◌, ◌≡◌, refl, sym, ap, ap₂, subst, ◌∙◌, Bool, true, false, not,
  Bool-cases, inl, inr, none, List, [], ◌∷◌, take, map, ◌==◌, ltb, if◌then◌else◌, Outcome, done,
  fail, crash, ◌>>◌, arith,
}
use sialite.Database.Types.{Currency, Block, Ids, Database}
use sialite.Database.Store.{new_database}
use sialite.Database.Adding.{add_block, process_loop, process_blocks}
use sialite.Database.Outputs.{
  latest, owned_by, or_in, resolves, blocks_resolve, block_outputs, blocks_outputs, txs_funds,
  blocks_funds, txs_formed, blocks_pools,
}
use sialite.Database.Growth.{is_some}
use sialite.Database.Known.{and_left, and_right, is_some-latest}
use sialite.Database.Blocks.{IsSound, new_database-IsSound, Extended, add_block-Extended}
use sialite.Database.Extensions.{ResultOf, nothing-Extended, cons-Extended}

-- The blocks that are taken, with the flag nblocks and the counter.
unfoldable pub limit : {B : Type 0} → ℕ → ℕ → List B → List B
limit nblocks i bs = if nblocks == 0 then bs else take (nblocks - i) bs

limit_stop :
    {B : Type 0} (nblocks i : ℕ) (bs : List B)
    → (not (nblocks == 0) && ltb nblocks (i + 1)) ≡ true
    → limit nblocks i bs ≡ []
unfolding limit
limit_stop nblocks i bs h =
    let nonzero : (nblocks == 0) ≡ false = ground arith in
    let none_left : nblocks - i ≡ 0 = ground arith in rw (nonzero, none_left) refl

limit_next :
    {B : Type 0} (nblocks i : ℕ) (b : B) (bs : List B)
    → (not (nblocks == 0) && ltb nblocks (i + 1)) ≡ false
    → limit nblocks i (b ∷ bs) ≡ b ∷ limit nblocks (suc i) bs
unfolding limit
limit_next nblocks i b bs h = elim (Bool-cases (nblocks == 0)) [
  | inl zero_blocks ↦ rw zero_blocks refl
  | inr some_blocks ↦
      let left : nblocks - i ≡ suc (nblocks - suc i) = ground arith in rw (some_blocks, left) refl
]

module _ {C : Type 0} (money : Currency C) (ids : Ids C) where
  stop_run :
      (nblocks i : ℕ) (b : Block C) (bs : List (Block C)) (db : Database C)
      → (not (nblocks == 0) && ltb nblocks (i + 1)) ≡ true
      → process_loop money ids nblocks i (b ∷ bs) db ≡ done tt db
  unfolding process_loop
  stop_run nblocks i b bs db h =
      ap
        (λ c.
          if c
          then done tt db
          else ((add_block money ids b >> process_loop money ids nblocks (suc i) bs) db))
        h

  next_run :
      (nblocks i : ℕ) (b : Block C) (bs : List (Block C)) (db t : Database C)
      → (not (nblocks == 0) && ltb nblocks (i + 1)) ≡ false
      → add_block money ids b db ≡ done tt t
      → process_loop money ids nblocks i (b ∷ bs) db ≡ process_loop money ids nblocks (suc i) bs t
  unfolding process_loop
  next_run nblocks i b bs db t h run =
      ap
        (λ c.
          if c
          then done tt db
          else ((add_block money ids b >> process_loop money ids nblocks (suc i) bs) db))
        h
      ∙ ap
          (λ (o : Outcome (Database C) (Unit {0})). elim o [
            | done a s ↦ process_loop money ids nblocks (suc i) bs s
            | fail e s ↦ fail e s
            | crash ↦ crash
          ])
          run

  rest_resolves :
      (b : Block C) (bs : List (Block C)) (db t : Database C) (pool : C)
      → Extended money ids
          (b ∷ [])
          (block_outputs money ids b)
          (txs_funds money ids b.transactions)
          (txs_formed money ids b.transactions)
          (pool ∷ [])
          db
          t
      → blocks_resolve money ids
          (λ k. is_some (db.id2sfo k))
          (λ k. is_some (db.id2history k))
          (b ∷ bs)
        ≡ true
      → blocks_resolve money ids (λ k. is_some (t.id2sfo k)) (λ k. is_some (t.id2history k)) bs
        ≡ true
  unfolding blocks_resolve
  rest_resolves b bs db t pool g known =
      let fs = txs_funds money ids b.transactions in
      let same_funds : (λ k. is_some (t.id2sfo k))
          ≡ or_in money ids (map (λ e. e.id) fs) (λ k. is_some (db.id2sfo k)) =
        fun_ext (λ k. ap is_some (g.sfos k) ∙ is_some-latest fs k (db.id2sfo k)) in
      let same_contracts : (λ k. is_some (t.id2history k))
          ≡ or_in money ids (txs_formed money ids b.transactions) (λ k. is_some (db.id2history k)) =
        fun_ext g.contracts in
      ap₂ (λ f g. blocks_resolve money ids f g bs) same_funds same_contracts
      ∙ and_right
          (resolves money ids (λ k. is_some (db.id2sfo k)) (λ k. is_some (db.id2history k))
            b.transactions)
          _ known

  first_resolves :
      (b : Block C) (bs : List (Block C)) (f g : ℕ → Bool)
      → blocks_resolve money ids f g (b ∷ bs) ≡ true
      → resolves money ids f g b.transactions ≡ true
  unfolding blocks_resolve
  first_resolves b bs f g known = and_left (resolves money ids f g b.transactions) _ known

  limit_nil : (nblocks i : ℕ) → limit {B = Block C} nblocks i [] ≡ []
  unfolding limit
  limit_nil nblocks i = go (nblocks == 0) (nblocks - i)
    where
      go : (t : Bool) (n : ℕ) → ◌≡◌ {A = List (Block C)} (if t then [] else take n []) []
      go true n = refl
      go false zero = refl
      go false (suc n) = refl

  abbrev Processed : ℕ → ℕ → List (Block C) → Database C → Type 0
  Processed nblocks i bs db =
      (t : Database C) × (process_loop money ids nblocks i bs db ≡ done tt t)
      × ResultOf money ids (limit nblocks i bs) db t

  stop-Processed :
      (nblocks i : ℕ) (bs : List (Block C)) (db : Database C)
      → IsSound db
      → limit nblocks i bs ≡ []
      → process_loop money ids nblocks i bs db ≡ done tt db
      → Processed nblocks i bs db
  stop-Processed nblocks i bs db s e run =
      (db, run, subst (λ l. ResultOf money ids l db db) (sym e) (nothing-Extended money ids db s))

  pub process_loop-Extended :
      (nblocks i : ℕ) (bs : List (Block C)) (db : Database C)
      → IsSound db
      → blocks_resolve money ids
          (λ k. is_some (db.id2sfo k))
          (λ k. is_some (db.id2history k))
          (limit nblocks i bs)
        ≡ true
      → Processed nblocks i bs db
  unfolding process_loop
  process_loop-Extended nblocks i [] db s known =
      stop-Processed nblocks i [] db s (limit_nil nblocks i) refl
  process_loop-Extended nblocks i (b ∷ bs) db s known =
      elim (Bool-cases (not (nblocks == 0) && ltb nblocks (i + 1))) [
        | inl over ↦
            stop-Processed nblocks i (b ∷ bs) db s (limit_stop nblocks i (b ∷ bs) over)
              (stop_run nblocks i b bs db over)
        | inr more ↦
            let next = limit_next nblocks i b bs more in
            let known' =
              subst
                (λ l.
                  blocks_resolve money ids (λ k. is_some (db.id2sfo k))
                    (λ k. is_some (db.id2history k)) l
                  ≡ true)
                next known in
            let rest = limit nblocks (suc i) bs in
            let (t, run, g) = add_block-Extended money ids b db s (
              first_resolves b rest (λ k. is_some (db.id2sfo k)) (λ k. is_some (db.id2history k))
                known') in
            let (u, run', h) =
              process_loop-Extended nblocks (suc i) bs t g.sound
                (rest_resolves b rest db t _ g known') in
            (
              u,
              next_run nblocks i b bs db t more run ∙ run',
              subst (λ l. ResultOf money ids l db u) (sym next)
                  (cons-Extended money ids b rest db t u g h),
            )
      ]

  -- The blocks of a channel, in which each siafund output that is spent and each contract that
  -- is revised or proved comes before it is referred to. processBlocks does not panic on
  -- them, and the database that it returns holds the first nblocks of the blocks, or all with
  -- nblocks = 0: height2block has them in order, height2sfpool the siafund pool after each,
  -- address2sco and address2sfo for each address all outputs that it owns, in order, and id2sco
  -- the last output with each ID.
  pub process_blocks-holds :
      (nblocks : ℕ) (bs : List (Block C))
      → blocks_resolve money ids (λ k. false) (λ k. false) (limit nblocks 0 bs) ≡ true
      → (t : Database C) × (process_blocks money ids nblocks bs ≡ done tt t)
        × (t.height2block ≡ limit nblocks 0 bs)
        × (t.height2sfpool ≡ blocks_pools money ids money.nothing (limit nblocks 0 bs))
        × ((a : ℕ) → t.address2sco a ≡ owned_by a (blocks_outputs money ids (limit nblocks 0 bs)))
        × ((a : ℕ) → t.address2sfo a ≡ owned_by a (blocks_funds money ids (limit nblocks 0 bs)))
        × ((k : ℕ) → t.id2sco k ≡ latest (blocks_outputs money ids (limit nblocks 0 bs)) k none)
  unfolding process_blocks
  process_blocks-holds nblocks bs known =
      let (t, run, g) =
        process_loop-Extended nblocks 0 bs new_database new_database-IsSound known in
      (t, run, g.blocks, g.sfpools, g.owners, g.fund_owners, g.scos)
