-- ===== src/Database/Loops.antt =====
-- The loops of addBlock over outputs and inputs.
use sialite.Base.{
  ℕ, suc, ◌≡◌, refl, sym, ap, ap₂, subst, ◌∙◌, some, List, [], ◌∷◌, ◌++◌, append_assoc, length,
  length-append, get_elem?, Outcome, done, fail, crash, M, pure, ◌>>=◌, ◌>>◌, arith,
}
use sialite.Database.Types.{
  Currency, Payment, Tx, Block, Ids, SiacoinOutput, SiafundOutput, Database,
}
use sialite.Database.Store.{set, push, fund_value, id_of, value_of, add_sco, add_sfo, add_sci}
use sialite.Database.Adding.{add_scos, add_sfos, add_scis}
use sialite.Database.Outputs.{Listed, latest, owned_by, listed}
use sialite.Database.Growth.{Grows, Grows-refl, Grows-trans, push-owned, get-mid}

-- The height of the block is that of the pool to come, and the siafund outputs have values.
pub record Ready {C : Type 0} (b : Block C) (db : Database C) : Type 0 where
  pub height : db.block2height b.address ≡ some (length db.height2sfpool)
  pub funds :
      (k : ℕ) (o : SiafundOutput C)
      → db.id2sfo k ≡ some o
      → (v : Payment C) × (fund_value o ≡ some v)

-- A run that succeeds and adds these.
pub record Adds {C : Type 0} {A : Type 0} (m : M (Database C) A) (a : A)
    (es : List (Listed (SiacoinOutput C))) (fs : List (Listed (SiafundOutput C))) (cs : List ℕ)
    (db : Database C) : Type 0 where
  pub result : Database C
  pub run : m db ≡ done a result
  pub grows : Grows es fs cs db result
  pub same_txs : result.tx2block ≡ db.tx2block

pub pure-Adds : {C A : Type 0} (a : A) (db : Database C) → Adds (pure a) a [] [] [] db
pure-Adds a db = record { result = db; run = refl; grows = Grows-refl db; same_txs = refl }

-- Two runs, one after the other.
pub bind-Adds :
    {C A B : Type 0} {m : M (Database C) A} {a : A} {b : B} (k : A → M (Database C) B)
    {es es' : List (Listed (SiacoinOutput C))} {fs fs' : List (Listed (SiafundOutput C))}
    {cs cs' : List ℕ} {db : Database C} (h : Adds m a es fs cs db)
    → Adds (k a) b es' fs' cs' h.result
    → Adds (m >>= k) b (es ++ es') (fs ++ fs') (cs ++ cs') db
bind-Adds {C} {A} {B} {m} {a} {b} k {es} {es'} {fs} {fs'} {cs} {cs'} {db} h h' = record {
  result = h'.result;
  run =
      ap
        (λ (o : Outcome (Database C) A). elim o [
          | done a s ↦ k a s
          | fail e s ↦ fail e s
          | crash ↦ crash
        ])
        h.run
      ∙ h'.run;
  grows = Grows-trans es es' fs fs' cs cs' db h.result h'.result h.grows h'.grows;
  same_txs = h'.same_txs ∙ h.same_txs;
}

pub then-Adds :
    {C A B : Type 0} {m : M (Database C) A} {n : M (Database C) B} {a : A} {b : B}
    {es es' : List (Listed (SiacoinOutput C))} {fs fs' : List (Listed (SiafundOutput C))}
    {cs cs' : List ℕ} {db : Database C} (h : Adds m a es fs cs db)
    → Adds n b es' fs' cs' h.result
    → Adds (m >> n) b (es ++ es') (fs ++ fs') (cs ++ cs') db
then-Adds {n} h h' = bind-Adds (λ u. n) h h'

module _ {C : Type 0} (money : Currency C) (ids : Ids C) where
  pub one-Adds :
      (o : SiacoinOutput C) (db : Database C) (k : ℕ) (v : Payment C)
      → id_of money ids o ≡ some k
      → value_of money ids (record db { id2sco = set k o db.id2sco }) o ≡ some v
      → Adds
          (add_sco money ids o)
          tt
          (record { id = k; owner = v.unlock_hash; output = o } ∷ [])
          []
          []
          db
  unfolding add_sco latest owned_by
  one-Adds o db k v id value =
      let e : Listed (SiacoinOutput C) = record { id = k; owner = v.unlock_hash; output = o } in
      let g = Grows-refl db in
      record {
        result = record db {
          id2sco = set k o db.id2sco;
          address2sco = push v.unlock_hash o db.address2sco;
        };
        run = rw (add_sco, id, value) refl;
        grows = record {
          scos = λ k. refl;
          owners = λ a. push-owned v.unlock_hash e a db.address2sco refl;
          sfos = g.sfos;
          fund_owners = g.fund_owners;
          contracts = g.contracts;
          blocks = refl;
          pools = refl;
          heights = refl;
          block_ids = refl;
        };
        same_txs = refl;
      }

  pub add_scos-Adds :
      (make : ℕ → SiacoinOutput C) (key : ℕ → ℕ) (whole : List (Payment C))
      → ((i : ℕ) → id_of money ids (make i) ≡ some (key i))
      → ((i : ℕ) (db : Database C) → value_of money ids db (make i) ≡ get_elem? whole i)
      → (front ps : List (Payment C)) → whole ≡ front ++ ps
      → (i : ℕ) → i ≡ length front
      → (db : Database C) → Adds (add_scos money ids make i ps) tt (listed key make i ps) [] [] db
  unfolding add_scos listed
  add_scos-Adds make key whole id value front [] e i n db = pure-Adds tt db
  add_scos-Adds make key whole id value front (p ∷ ps) e i n db =
      let here : get_elem? whole i ≡ some p = ap₂ get_elem? e n ∙ get-mid front p ps in
      let first =
        one-Adds (make i) db (key i) p (id i)
          (value i (record db { id2sco = set (key i) (make i) db.id2sco }) ∙ here) in
      then-Adds first (
        add_scos-Adds make key whole id value (front ++ p ∷ []) ps
          (e ∙ sym (append_assoc front (p ∷ []) ps)) (suc i)
          (omega (arith, n, length-append front (p ∷ []))) first.result)

  one_fund-Adds :
      (tx : Tx C) (i : ℕ) (p : Payment C) (db : Database C)
      → get_elem? tx.siafund_outputs i ≡ some p
      → Adds
          (add_sfo money ids (record { tx = tx; index = i }))
          tt
          []
          (record {
            id = ids.siafund_output_id tx i;
            owner = p.unlock_hash;
            output = record { tx = tx; index = i };
          }
            ∷ [])
          []
          db
  unfolding add_sfo fund_value latest owned_by
  one_fund-Adds tx i p db here =
      let e : Listed (SiafundOutput C) = record {
        id = ids.siafund_output_id tx i;
        owner = p.unlock_hash;
        output = record { tx = tx; index = i };
      } in
      let g = Grows-refl db in
      record {
        result = record db {
          id2sfo = set e.id e.output db.id2sfo;
          address2sfo = push p.unlock_hash e.output db.address2sfo;
        };
        run = rw (add_sfo, fund_value, here) refl;
        grows = record {
          scos = g.scos;
          owners = g.owners;
          sfos = λ k. refl;
          fund_owners = λ a. push-owned p.unlock_hash e a db.address2sfo refl;
          contracts = g.contracts;
          blocks = refl;
          pools = refl;
          heights = refl;
          block_ids = refl;
        };
        same_txs = refl;
      }

  pub add_sfos-Adds :
      (tx : Tx C) (front ps : List (Payment C))
      → tx.siafund_outputs ≡ front ++ ps
      → (i : ℕ) → i ≡ length front
      → (db : Database C)
      → Adds
          (add_sfos money ids tx i ps)
          tt
          []
          (listed (ids.siafund_output_id tx) (λ i. record { tx = tx; index = i }) i ps)
          []
          db
  unfolding add_sfos listed
  add_sfos-Adds tx front [] e i n db = pure-Adds tt db
  add_sfos-Adds tx front (p ∷ ps) e i n db =
      let first = one_fund-Adds tx i p db (ap₂ get_elem? e n ∙ get-mid front p ps) in
      then-Adds first (
        add_sfos-Adds tx (front ++ p ∷ []) ps (e ∙ sym (append_assoc front (p ∷ []) ps)) (suc i)
          (omega (arith, n, length-append front (p ∷ []))) first.result)

  pub same-Grows :
      (db t : Database C)
      → t ≡ record db { id2sci = t.id2sci; id2sfi = t.id2sfi }
      → Grows [] [] [] db t
  same-Grows db t e = subst (Grows [] [] [] db) (sym e) (kept (Grows-refl db))
    where
      kept :
          Grows [] [] [] db db
          → Grows [] [] [] db (record db { id2sci = t.id2sci; id2sfi = t.id2sfi })
      kept g = record {
        scos = g.scos;
        owners = g.owners;
        sfos = g.sfos;
        fund_owners = g.fund_owners;
        contracts = g.contracts;
        blocks = refl;
        pools = refl;
        heights = refl;
        block_ids = refl;
      }

  one_input-Adds :
      (tx : Tx C) (i p : ℕ) (db : Database C)
      → get_elem? tx.siacoin_inputs i ≡ some p
      → Adds (add_sci money ids (record { tx = tx; index = i })) tt [] [] [] db
  unfolding add_sci
  one_input-Adds tx i p db here =
      let t : Database C = record db { id2sci = set p (record { tx = tx; index = i }) db.id2sci } in
      record {
        result = t;
        run = rw (add_sci, here) refl;
        grows = same-Grows db t refl;
        same_txs = refl;
      }

  pub add_scis-Adds :
      (tx : Tx C) (front ps : List ℕ)
      → tx.siacoin_inputs ≡ front ++ ps
      → (i : ℕ) → i ≡ length front
      → (db : Database C) → Adds (add_scis money ids tx i ps) tt [] [] [] db
  unfolding add_scis
  add_scis-Adds tx front [] e i n db = pure-Adds tt db
  add_scis-Adds tx front (p ∷ ps) e i n db =
      let first = one_input-Adds tx i p db (ap₂ get_elem? e n ∙ get-mid front p ps) in
      then-Adds first (
        add_scis-Adds tx (front ++ p ∷ []) ps (e ∙ sym (append_assoc front (p ∷ []) ps)) (suc i)
          (omega (arith, n, length-append front (p ∷ []))) first.result)
