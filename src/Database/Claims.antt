-- ===== src/Database/Claims.antt =====
-- addSfi: the claims, whose values look into the pools of earlier blocks.
use mathlib.Core.Path.{fun_ext}
use sialite.Base.{
  ℕ, suc, ◌+◌, ◌-◌, ◌≡◌, refl, sym, ap, ap₂, subst, ◌∙◌, Bool, true, false, inl, inr, Bool-cases,
  Option, none, some, List, [], ◌∷◌, ◌++◌, append_assoc, length, length-append, get_elem?, map, ltb,
  ltb→lt, if◌then◌else◌, done, arith,
}
use sialite.Database.Types.{Currency, Payment, FundSpend, Tx, Block, Ids, SiacoinOutput, Database}
use sialite.Database.Store.{
  set, height_of, claim_value, claim_output, id_of, value_of, add_sco, add_sfi,
}
use sialite.Database.Adding.{add_sfis}
use sialite.Database.Outputs.{Listed, latest, all_known, claims}
use sialite.Database.Growth.{is_some, Grows, Grows-trans, get-inside, get-mid}
use sialite.Database.Store.{id_by, value_by}
use sialite.Database.Loops.{Ready, Adds, pure-Adds, then-Adds, one-Adds, same-Grows}

pub known-some : {A : Type 0} (x : Option A) → is_some x ≡ true → (a : A) × (x ≡ some a)
known-some (some a) h = (a, refl)
known-some none h = absurd (cc)

pub all_known-head :
    (known : ℕ → Bool) (k : ℕ) (ks : List ℕ) → all_known known (k ∷ ks) ≡ true → known k ≡ true
all_known-head known k ks h = go (known k) (all_known known ks) h
  where
    go : (t r : Bool) → (if t then r else false) ≡ true → t ≡ true
    go true r h = refl
    go false r h = h

pub all_known-tail :
    (known : ℕ → Bool) (k : ℕ) (ks : List ℕ)
    → all_known known (k ∷ ks) ≡ true
    → all_known known ks ≡ true
all_known-tail known k ks h = go (known k) (all_known known ks) h
  where
    go : (t r : Bool) → (if t then r else false) ≡ true → r ≡ true
    go true r h = h
    go false r h = absurd (cc)

module _ {C : Type 0} (money : Currency C) (ids : Ids C) where
  height_of-eq :
      (b : Block C) (db : Database C) (tx : Tx C) (h : ℕ)
      → db.tx2block tx.address ≡ some b
      → db.block2height b.address ≡ some h
      → height_of db tx ≡ h
  unfolding height_of
  height_of-eq b db tx h same height = rw (height_of, same, height) refl

  -- A claim of a known siafund output has a value, for the address that it names.
  pub claim_value-some :
      (b : Block C) (db : Database C) (tx : Tx C) (sfi : FundSpend)
      → Ready b db
      → db.tx2block tx.address ≡ some b
      → is_some (db.id2sfo sfi.parent_id) ≡ true
      → (v : Payment C) × (claim_value money ids db tx sfi ≡ some v)
        × (v.unlock_hash ≡ sfi.claim_unlock_hash)
  unfolding claim_value
  claim_value-some b db tx sfi r same known =
      let (sfo, found) = known-some (db.id2sfo sfi.parent_id) known in
      let (v, valued) = r.funds sfi.parent_id sfo found in
      let high = height_of-eq b db tx (length db.height2sfpool) same r.height in
      elim (Bool-cases (ltb (height_of db sfo.tx + 1) (height_of db tx))) [
        | inl before ↦
            let lt = ltb→lt _ _ before in
            let (p2, e2) =
              get-inside db.height2sfpool (height_of db tx - 1) (omega (arith, high, lt)) in
            let (p1, e1) =
              get-inside db.height2sfpool (height_of db sfo.tx) (omega (arith, high, lt)) in
            (
              record {
                value = money.div64 (money.mul (money.sub p2 p1) v.value) 10000;
                unlock_hash = sfi.claim_unlock_hash;
              },
              rw (claim_value, found, before, e2, e1, valued) refl,
              refl,
            )
        | inr late ↦ (
          record { value = money.nothing; unlock_hash = sfi.claim_unlock_hash },
          rw (claim_value, found, late) refl,
          refl,
        )
      ]

  claim_id :
      (b : Block C) (tx : Tx C) (i : ℕ) (sfi : FundSpend)
      → get_elem? tx.siafund_inputs i ≡ some sfi
      → id_of money ids (claim_output money ids (some b) tx i)
        ≡ some (ids.claim_output_id sfi.parent_id)
  unfolding id_of id_by
  claim_id b tx i sfi here = rw here refl

  claim_of :
      (b : Block C) (db : Database C) (tx : Tx C) (i : ℕ) (sfi : FundSpend)
      → get_elem? tx.siafund_inputs i ≡ some sfi
      → value_of money ids db (claim_output money ids (some b) tx i)
        ≡ claim_value money ids db tx sfi
  unfolding value_of value_by
  claim_of b db tx i sfi here = rw here refl

  add_sfi_run :
      (b : Block C) (tx : Tx C) (i : ℕ) (sfi : FundSpend) (db t : Database C)
      → get_elem? tx.siafund_inputs i ≡ some sfi
      → db.tx2block tx.address ≡ some b
      → add_sco money ids
          (claim_output money ids (some b) tx i)
          (record db { id2sfi = set sfi.parent_id (record { tx = tx; index = i }) db.id2sfi })
        ≡ done tt t
      → add_sfi money ids (record { tx = tx; index = i }) db ≡ done tt t
  unfolding add_sfi
  add_sfi_run b tx i sfi db t here same run = rw (add_sfi, here, same) run

  one_claim-Adds :
      (b : Block C) (tx : Tx C) (i : ℕ) (sfi : FundSpend) (db : Database C)
      → Ready b db
      → db.tx2block tx.address ≡ some b
      → is_some (db.id2sfo sfi.parent_id) ≡ true
      → get_elem? tx.siafund_inputs i ≡ some sfi
      → Adds
          (add_sfi money ids (record { tx = tx; index = i }))
          tt
          (record {
            id = ids.claim_output_id sfi.parent_id;
            owner = sfi.claim_unlock_hash;
            output = claim_output money ids (some b) tx i;
          }
            ∷ [])
          []
          []
          db
  one_claim-Adds b tx i sfi db r same known here =
      let o = claim_output money ids (some b) tx i in
      let k = ids.claim_output_id sfi.parent_id in
      let db₁ : Database C = record db {
        id2sfi = set sfi.parent_id (record { tx = tx; index = i }) db.id2sfi;
      } in
      let db₂ : Database C = record db₁ { id2sco = set k o db₁.id2sco } in
      let (v, value, owner) =
        claim_value-some b db₂ tx sfi (record { height = r.height; funds = r.funds }) same known in
      let first =
        subst
          (λ a.
            Adds (add_sco money ids o) tt (record { id = k; owner = a; output = o } ∷ []) [] [] db₁)
          owner
          (one-Adds money ids o db₁ k v (claim_id b tx i sfi here)
            (claim_of b db₂ tx i sfi here ∙ value)) in
      record {
        result = first.result;
        run = add_sfi_run b tx i sfi db first.result here same first.run;
        grows =
            Grows-trans [] _ [] [] [] [] db db₁ first.result (same-Grows money ids db db₁ refl)
              first.grows;
        same_txs = first.same_txs;
      }

  -- What is ready stays ready while no siafund output comes.
  pub Ready-kept :
      (b : Block C) (db t : Database C) (es : List (Listed (SiacoinOutput C))) (cs : List ℕ)
      → Ready b db
      → Grows es [] cs db t
      → Ready b t
  unfolding latest
  Ready-kept b db t es cs r g = record {
    height = ap (λ f. f b.address) g.heights ∙ r.height ∙ ap (λ p. some (length p)) (sym g.pools);
    funds = λ k o e. r.funds k o (sym (g.sfos k) ∙ e);
  }

  pub add_sfis-Adds :
      (b : Block C) (tx : Tx C) (front ss : List FundSpend)
      → tx.siafund_inputs ≡ front ++ ss
      → (i : ℕ) → i ≡ length front
      → (db : Database C) → Ready b db
      → db.tx2block tx.address ≡ some b
      → all_known (λ k. is_some (db.id2sfo k)) (map (λ s. s.parent_id) ss) ≡ true
      → Adds (add_sfis money ids tx i ss) tt (claims money ids b tx i ss) [] [] db
  unfolding add_sfis claims latest
  add_sfis-Adds b tx front [] e i n db r same known = pure-Adds tt db
  add_sfis-Adds b tx front (s ∷ ss) e i n db r same known =
      let here = ap₂ get_elem? e n ∙ get-mid front s ss in
      let head =
        all_known-head (λ k. is_some (db.id2sfo k)) s.parent_id (map (λ s. s.parent_id) ss) known in
      let tail =
        all_known-tail (λ k. is_some (db.id2sfo k)) s.parent_id (map (λ s. s.parent_id) ss) known in
      let first = one_claim-Adds b tx i s db r same head here in
      let known' : all_known (λ k. is_some (first.result.id2sfo k)) (map (λ s. s.parent_id) ss)
          ≡ true =
        ap (λ f. all_known (λ k. is_some (f k)) (map (λ s. s.parent_id) ss))
          (fun_ext first.grows.sfos)
        ∙ tail in
      then-Adds first (
        add_sfis-Adds b tx (front ++ s ∷ []) ss (e ∙ sym (append_assoc front (s ∷ []) ss)) (suc i)
          (omega (arith, n, length-append front (s ∷ []))) first.result
          (Ready-kept b db first.result _ [] r first.grows)
          (ap (λ f. f tx.address) first.same_txs ∙ same) known')
