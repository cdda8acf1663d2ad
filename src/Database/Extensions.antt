-- ===== src/Database/Extensions.antt =====
-- The outcomes of several calls of addBlock, one after the other.
use sialite.Base.{
  ℕ, ◌≡◌, refl, sym, ap, subst, ◌∙◌, Bool, true, false, ◌||◌, List, [], ◌∷◌, ◌++◌, append_assoc,
  append-nil,
}
use sialite.Database.Types.{Currency, Block, Ids, SiacoinOutput, SiafundOutput, Database}
use sialite.Database.Outputs.{
  Listed, latest, latest-append, owned_by, owned_by-append, has, block_outputs, blocks_outputs,
  txs_funds, blocks_funds, txs_formed, blocks_formed, txs_pool, blocks_pools,
}
use sialite.Database.Growth.{is_some, has-append}
use sialite.Database.Blocks.{last_pool, last_pool-snoc, IsSound, Extended}

module _ {C : Type 0} (money : Currency C) (ids : Ids C) where
  abbrev pub ResultOf : List (Block C) → Database C → Database C → Type 0
  ResultOf bs db t =
      Extended money ids bs (blocks_outputs money ids bs) (blocks_funds money ids bs)
        (blocks_formed money ids bs)
        (blocks_pools money ids (last_pool money.nothing db.height2sfpool) bs) db t

  pub nothing-Extended : (db : Database C) → IsSound db → ResultOf [] db db
  unfolding blocks_outputs blocks_funds blocks_formed blocks_pools latest owned_by
  nothing-Extended db s = record {
    scos = λ k. refl;
    owners = λ a. sym (append-nil (db.address2sco a));
    sfos = λ k. refl;
    fund_owners = λ a. sym (append-nil (db.address2sfo a));
    contracts = λ k. refl;
    blocks = sym (append-nil db.height2block);
    sfpools = sym (append-nil db.height2sfpool);
    sound = s;
  }

  or_swap : (a b c : Bool) → (b || (a || c)) ≡ ((a || b) || c)
  or_swap true true c = refl
  or_swap true false c = refl
  or_swap false b c = refl

  Extended-trans :
      (bs bs' : List (Block C)) (es es' : List (Listed (SiacoinOutput C)))
      (fs fs' : List (Listed (SiafundOutput C))) (cs cs' : List ℕ) (ps ps' : List C)
      (db t u : Database C)
      → Extended money ids bs es fs cs ps db t
      → Extended money ids bs' es' fs' cs' ps' t u
      → Extended money ids (bs ++ bs') (es ++ es') (fs ++ fs') (cs ++ cs') (ps ++ ps') db u
  Extended-trans bs bs' es es' fs fs' cs cs' ps ps' db t u g h = record {
    scos =
        λ k. h.scos k ∙ ap (latest es' k) (g.scos k) ∙ sym (latest-append es es' k (db.id2sco k));
    owners = λ a.
        h.owners a
        ∙ ap (λ l. l ++ owned_by a es') (g.owners a)
        ∙ append_assoc (db.address2sco a) (owned_by a es) (owned_by a es')
        ∙ ap (◌++◌ (db.address2sco a)) (sym (owned_by-append a es es'));
    sfos =
        λ k. h.sfos k ∙ ap (latest fs' k) (g.sfos k) ∙ sym (latest-append fs fs' k (db.id2sfo k));
    fund_owners = λ a.
        h.fund_owners a
        ∙ ap (λ l. l ++ owned_by a fs') (g.fund_owners a)
        ∙ append_assoc (db.address2sfo a) (owned_by a fs) (owned_by a fs')
        ∙ ap (◌++◌ (db.address2sfo a)) (sym (owned_by-append a fs fs'));
    contracts = λ k.
        h.contracts k
        ∙ ap (λ b. has k cs' || b) (g.contracts k)
        ∙ or_swap (has k cs) (has k cs') (is_some (db.id2history k))
        ∙ ap (λ b. b || is_some (db.id2history k)) (sym (has-append k cs cs'));
    blocks = h.blocks ∙ ap (λ l. l ++ bs') g.blocks ∙ append_assoc db.height2block bs bs';
    sfpools = h.sfpools ∙ ap (λ l. l ++ ps') g.sfpools ∙ append_assoc db.height2sfpool ps ps';
    sound = h.sound;
  }

  -- One block, and then others.
  pub cons-Extended :
      (b : Block C) (bs : List (Block C)) (db t u : Database C)
      → Extended money ids
          (b ∷ [])
          (block_outputs money ids b)
          (txs_funds money ids b.transactions)
          (txs_formed money ids b.transactions)
          (txs_pool money ids (last_pool money.nothing db.height2sfpool) b.transactions ∷ [])
          db
          t
      → ResultOf bs t u
      → ResultOf (b ∷ bs) db u
  unfolding blocks_outputs blocks_funds blocks_formed blocks_pools
  cons-Extended b bs db t u g h =
      let pool' = txs_pool money ids (last_pool money.nothing db.height2sfpool) b.transactions in
      let same : last_pool money.nothing t.height2sfpool ≡ pool' =
        ap (last_pool money.nothing) g.sfpools
        ∙ last_pool-snoc money.nothing db.height2sfpool pool' in
      Extended-trans (b ∷ []) bs _ _ _ _ _ _ (pool' ∷ []) (blocks_pools money ids pool' bs) db t u g
        (subst
          (λ p.
            Extended money ids bs (blocks_outputs money ids bs) (blocks_funds money ids bs)
              (blocks_formed money ids bs) (blocks_pools money ids p bs) t u)
          same h)
