-- ===== src/Database/Known.antt =====
-- What is known of the siafund outputs after some more.
use sialite.Base.{
  All, ◌&&◌, ℕ, ◌≡◌, refl, sym, ap, subst, ◌∙◌, Bool, true, false, ◌||◌, Option, some, List, [],
  ◌∷◌, length, map, ◌==◌, if◌then◌else◌,
}
use sialite.Database.Types.{Payment, Block, SiacoinOutput, SiafundOutput, Database}
use sialite.Database.Store.{fund_value}
use sialite.Database.Outputs.{has, Listed, latest}
use sialite.Database.Growth.{is_some, Grows}
use sialite.Database.Loops.{Ready}

pub and_left : (a b : Bool) → (a && b) ≡ true → a ≡ true
and_left true b h = refl
and_left false b h = h

pub and_right : (a b : Bool) → (a && b) ≡ true → b ≡ true
and_right true b h = h
and_right false b h = absurd (cc)

pub is_some-latest :
    {V : Type 0} (fs : List (Listed V)) (k : ℕ) (old : Option V)
    → is_some (latest fs k old) ≡ (has k (map (λ e. e.id) fs) || is_some old)
unfolding latest
is_some-latest [] k old = refl
is_some-latest (e ∷ fs) k old =
    is_some-latest fs k (if e.id == k then some e.output else old)
    ∙ go (e.id == k) (has k (map (λ e. e.id) fs))
  where
    go :
        (t h : Bool)
        → (h || is_some (if t then some e.output else old))
          ≡ ((if t then true else h) || is_some old)
    go true true = refl
    go true false = refl
    go false h = refl

module _ {C : Type 0} where
  abbrev pub Valued : SiafundOutput C → Type 0
  Valued o = (v : Payment C) × (fund_value o ≡ some v)

  latest-Valued :
      (fs : List (Listed (SiafundOutput C))) (k : ℕ) (old : Option (SiafundOutput C))
      → All (λ e. Valued e.output) fs
      → ((o : SiafundOutput C) → old ≡ some o → Valued o)
      → (o : SiafundOutput C) → latest fs k old ≡ some o
      → Valued o
  unfolding latest
  latest-Valued [] k old h r o e = r o e
  latest-Valued (f ∷ fs) k old h r o e =
      latest-Valued fs k (if f.id == k then some f.output else old) h.1 (go (f.id == k)) o e
    where
      go : (t : Bool) (o : SiafundOutput C) → (if t then some f.output else old) ≡ some o → Valued o
      go true o e = subst Valued (let q : f.output ≡ o = cc in q) h.0
      go false o e = r o e

  pub Ready-grown :
      (b : Block C) (db t : Database C) (es : List (Listed (SiacoinOutput C)))
      (fs : List (Listed (SiafundOutput C))) (cs : List ℕ)
      → Ready b db
      → All (λ e. Valued e.output) fs
      → Grows es fs cs db t
      → Ready b t
  Ready-grown b db t es fs cs r h g = record {
    height = ap (λ f. f b.address) g.heights ∙ r.height ∙ ap (λ p. some (length p)) (sym g.pools);
    funds = λ k o e. latest-Valued fs k (db.id2sfo k) h (r.funds k) o (sym (g.sfos k) ∙ e);
  }
