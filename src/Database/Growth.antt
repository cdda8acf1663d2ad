-- ===== src/Database/Growth.antt =====
-- What additions do to the maps of the database, and what they need of it.
use sialite.Base.{
  ℕ, zero, suc, ◌<◌, ◌≡◌, refl, sym, ap, ◌∙◌, Bool, true, false, ◌||◌, Option, none, some, List, [],
  ◌∷◌, ◌++◌, append_assoc, append-nil, length, get_elem?, ◌==◌, if◌then◌else◌, arith,
}
use sialite.Database.Types.{SiacoinOutput, SiafundOutput, Database}
use sialite.Database.Store.{push}
use sialite.Database.Outputs.{Listed, latest, owned_by, latest-append, owned_by-append, has}

abbrev pub is_some : {A : Type 0} → Option A → Bool
is_some none = false
is_some (some a) = true

pub has-append : (k : ℕ) (xs ys : List ℕ) → has k (xs ++ ys) ≡ (has k xs || has k ys)
has-append k [] ys = refl
has-append k (x ∷ xs) ys = go (x == k) (has-append k xs ys)
  where
    go :
        (t : Bool)
        → has k (xs ++ ys) ≡ (has k xs || has k ys)
        → (if t then true else has k (xs ++ ys)) ≡ ((if t then true else has k xs) || has k ys)
    go true h = refl
    go false h = h

-- These siacoin outputs, siafund outputs and contracts have been added, and blocks and pools are
-- the same.
pub record Grows {C : Type 0} (es : List (Listed (SiacoinOutput C)))
    (fs : List (Listed (SiafundOutput C))) (cs : List ℕ) (db t : Database C) : Type 0 where
  pub scos : (k : ℕ) → t.id2sco k ≡ latest es k (db.id2sco k)
  pub owners : (a : ℕ) → t.address2sco a ≡ db.address2sco a ++ owned_by a es
  pub sfos : (k : ℕ) → t.id2sfo k ≡ latest fs k (db.id2sfo k)
  pub fund_owners : (a : ℕ) → t.address2sfo a ≡ db.address2sfo a ++ owned_by a fs
  pub contracts : (k : ℕ) → is_some (t.id2history k) ≡ (has k cs || is_some (db.id2history k))
  pub blocks : t.height2block ≡ db.height2block
  pub pools : t.height2sfpool ≡ db.height2sfpool
  pub heights : t.block2height ≡ db.block2height
  pub block_ids : t.block2id ≡ db.block2id

pub Grows-refl : {C : Type 0} (db : Database C) → Grows [] [] [] db db
unfolding latest owned_by
Grows-refl db = record {
  scos = λ k. refl;
  owners = λ a. sym (append-nil (db.address2sco a));
  sfos = λ k. refl;
  fund_owners = λ a. sym (append-nil (db.address2sfo a));
  contracts = λ k. refl;
  blocks = refl;
  pools = refl;
  heights = refl;
  block_ids = refl;
}

or_swap : (a b c : Bool) → (b || (a || c)) ≡ ((a || b) || c)
or_swap true true c = refl
or_swap true false c = refl
or_swap false b c = refl

pub Grows-trans :
    {C : Type 0} (es es' : List (Listed (SiacoinOutput C)))
    (fs fs' : List (Listed (SiafundOutput C))) (cs cs' : List ℕ) (db t u : Database C)
    → Grows es fs cs db t
    → Grows es' fs' cs' t u
    → Grows (es ++ es') (fs ++ fs') (cs ++ cs') db u
Grows-trans es es' fs fs' cs cs' db t u g h = record {
  scos = λ k. h.scos k ∙ ap (latest es' k) (g.scos k) ∙ sym (latest-append es es' k (db.id2sco k));
  owners = λ a.
      h.owners a
      ∙ ap (λ l. l ++ owned_by a es') (g.owners a)
      ∙ append_assoc (db.address2sco a) (owned_by a es) (owned_by a es')
      ∙ ap (◌++◌ (db.address2sco a)) (sym (owned_by-append a es es'));
  sfos = λ k. h.sfos k ∙ ap (latest fs' k) (g.sfos k) ∙ sym (latest-append fs fs' k (db.id2sfo k));
  fund_owners = λ a.
      h.fund_owners a
      ∙ ap (λ l. l ++ owned_by a fs') (g.fund_owners a)
      ∙ append_assoc (db.address2sfo a) (owned_by a fs) (owned_by a fs')
      ∙ ap (◌++◌ (db.address2sfo a)) (sym (owned_by-append a fs fs'));
  contracts = λ k.
      h.contracts k
      ∙ ap (λ b. has k cs' || b) (g.contracts k)
      ∙ or_swap (has k cs) (has k cs') (is_some (db.id2history k))
      ∙ ap (λ b. b || is_some (db.id2history k)) (sym (has-append k cs cs'));
  blocks = h.blocks ∙ g.blocks;
  pools = h.pools ∙ g.pools;
  heights = h.heights ∙ g.heights;
  block_ids = h.block_ids ∙ g.block_ids;
}

-- One more output of an address.
pub push-owned :
    {V : Type 0} (k : ℕ) (e : Listed V) (a : ℕ) (m : ℕ → List V)
    → e.owner ≡ k
    → push k e.output m a ≡ m a ++ owned_by a (e ∷ [])
unfolding owned_by
push-owned k e a m h = ap (λ k. push k e.output m a) (sym h) ∙ go (e.owner == a)
  where
    go :
        (t : Bool)
        → (if t then m a ++ e.output ∷ [] else m a) ≡ m a ++ (if t then e.output ∷ [] else [])
    go true = refl
    go false = sym (append-nil (m a))

pub get-inside :
    {A : Type 0} (xs : List A) (i : ℕ) → i < length xs → (x : A) × (get_elem? xs i ≡ some x)
get-inside [] i h = absurd (omega arith)
get-inside (x ∷ xs) zero h = (x, refl)
get-inside (x ∷ xs) (suc i) h = get-inside xs i (omega arith)

pub get-mid :
    {A : Type 0} (xs : List A) (x : A) (ys : List A)
    → get_elem? (xs ++ (x ∷ ys)) (length xs) ≡ some x
get-mid [] x ys = refl
get-mid (z ∷ xs) x ys = get-mid xs x ys
