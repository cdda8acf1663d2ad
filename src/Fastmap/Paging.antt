-- ===== src/Fastmap/Paging.antt =====
-- What a file of pages promises: ascending keys, and prefixes that no two pages share.
use sialite.Base.{
  ◌+◌, ◌≤◌, ◌<◌, ◌≡◌, ap, subst, ◌≢◌, List, [], ◌∷◌, ◌++◌, All, All-append, All-left, All-right,
  All-map, All-map₂, length, length-append, Before, Before-NotAfter, NotAfter-Before, NotAfter-ne,
  Before-take, compare-lt_trans, arith,
}
use sialite.Fastmap.Writer.Pages.{Entry, Layout, Sized, per_page}
use sialite.Fastmap.Writer.Shared.{prefix_of}

abbrev pub Ascending : List Entry → Type 0
Ascending [] = Unit {0}
Ascending (e ∷ es) = All (λ f. Before e.key f.key) es × Ascending es

-- Every entry of `p` has a lower prefix than every entry of `q`.
abbrev pub PrefixBefore : Layout → List Entry → List Entry → Type 0
PrefixBefore c p q = All (λ e. All (λ f. Before (prefix_of c e) (prefix_of c f)) q) p

pub record IsPage (c : Layout) (p : List Entry) : Type 0 where
  pub ascending : Ascending p
  pub some_entry : 0 < length p
  pub fits : length p ≤ per_page c
  pub sized : All (Sized c) p

abbrev pub Separated : Layout → List (List Entry) → Type 0
Separated c [] = Unit {0}
Separated c (p ∷ ps) = IsPage c p × All (PrefixBefore c p) ps × Separated c ps

pub Ascending-snoc :
    (es : List Entry) (e : Entry)
    → Ascending es
    → All (λ f. Before f.key e.key) es
    → Ascending (es ++ e ∷ [])
Ascending-snoc [] e h k = (tt, tt)
Ascending-snoc (x ∷ es) e h k =
    (All-append (λ f. Before x.key f.key) es (e ∷ []) h.0 (k.0, tt), Ascending-snoc es e h.1 k.1)

-- All entries sort before what the last one sorts before.
pub Ascending-last :
    (front : List Entry) (last e : Entry)
    → Ascending (front ++ last ∷ [])
    → Before last.key e.key
    → All (λ f. Before f.key e.key) (front ++ last ∷ [])
Ascending-last [] last e h o = (o, tt)
Ascending-last (x ∷ front) last e h o = (
  compare-lt_trans x.key last.key e.key
      (All-right (λ f. Before x.key f.key) front (last ∷ []) h.0).0 o,
  Ascending-last front last e h.1 o,
)

pub Ascending-left : (es fs : List Entry) → Ascending (es ++ fs) → Ascending es
Ascending-left [] fs h = tt
Ascending-left (x ∷ es) fs h =
    (All-left (λ f. Before x.key f.key) es fs h.0, Ascending-left es fs h.1)

pub Ascending-right : (es fs : List Entry) → Ascending (es ++ fs) → Ascending fs
Ascending-right [] fs h = h
Ascending-right (x ∷ es) fs h = Ascending-right es fs h.1

-- The entries below the last one do not sort after it.
pub front-NotAfter :
    (front : List Entry) (last : Entry)
    → Ascending (front ++ last ∷ [])
    → All (λ f. Before f.key last.key) front
front-NotAfter [] last h = tt
front-NotAfter (x ∷ front) last h =
    ((All-right (λ f. Before x.key f.key) front (last ∷ []) h.0).0, front-NotAfter front last h.1)

pub Separated-snoc :
    (c : Layout) (ps : List (List Entry)) (q : List Entry)
    → Separated c ps
    → All (λ p. PrefixBefore c p q) ps
    → IsPage c q
    → Separated c (ps ++ q ∷ [])
Separated-snoc c [] q h k page = (page, tt, tt)
Separated-snoc c (p ∷ ps) q h k page = (
  h.0,
  All-append (PrefixBefore c p) ps (q ∷ []) h.1 (k.0, tt),
  Separated-snoc c ps q h.2 k.1 page,
)

-- The pages of the file, and the one that is being filled.
pub record Paged (c : Layout) (file : List (List Entry)) (cur : List Entry) : Type 0 where
  pub pages : Separated c file
  pub before : All (λ p. PrefixBefore c p cur) file
  pub page : IsPage c cur

module _ (c : Layout) (file : List (List Entry)) (front : List Entry) (last e : Entry)
    (h : Paged c file (front ++ last ∷ [])) (o : Before last.key e.key) (se : Sized c e) where
  abbrev cur : List Entry
  cur = front ++ last ∷ []

  below : All (λ f. Before f.key e.key) cur
  below = Ascending-last front last e h.page.ascending o

  -- The pages of the file have lower prefixes than the new entry.
  file-e : All (λ p. PrefixBefore c p (e ∷ [])) file
  file-e =
      All-map file
        (λ p k.
          All-map p
            (λ x m. (
              Before-NotAfter (prefix_of c x) (prefix_of c last) (prefix_of c e)
                  (All-right (λ f. Before (prefix_of c x) (prefix_of c f)) front (last ∷ []) m).0
                  (Before-take c.prefix_len last.key e.key o),
              tt,
            ))
            k)
        h.before

  -- The pages before `p ++ q` come before each part.
  extend :
      (part : List Entry)
      → All (λ p. PrefixBefore c p part) file
      → All (λ p. PrefixBefore c p (part ++ e ∷ [])) file
  extend part k =
      All-map₂ file
        (λ p m n.
          All-map₂ p
            (λ x m' n'.
              All-append (λ f. Before (prefix_of c x) (prefix_of c f)) part (e ∷ []) m' n')
            m n)
        k file-e

  pub Paged-appended : length cur < per_page c → Paged c file (cur ++ e ∷ [])
  Paged-appended less = record {
    pages = h.pages;
    before = extend cur h.before;
    page = record {
      ascending = Ascending-snoc cur e h.page.ascending below;
      some_entry = omega (arith, length-append cur (e ∷ []));
      fits = omega (arith, length-append cur (e ∷ []));
      sized = All-append (Sized c) cur (e ∷ []) h.page.sized (se, tt);
    };
  }

  -- Some entries stay on the page, the others go to the next one with the new entry.
  pub Paged-turned :
      (stay_front : List Entry) (stay_last : Entry) (moved : List Entry)
      → cur ≡ (stay_front ++ stay_last ∷ []) ++ moved
      → All (λ m. prefix_of c m ≡ prefix_of c e) moved
      → prefix_of c stay_last ≢ prefix_of c e
      → Paged c (file ++ (stay_front ++ stay_last ∷ []) ∷ []) (moved ++ e ∷ [])
  Paged-turned stay_front stay_last moved parts shared differs =
      let stay = stay_front ++ stay_last ∷ [] in
      let asc : Ascending (stay ++ moved) = subst Ascending parts h.page.ascending in
      let low : All (λ f. Before f.key e.key) (stay ++ moved) =
        subst (All (λ f. Before f.key e.key)) parts below in
      let sized : All (Sized c) (stay ++ moved) = subst (All (Sized c)) parts h.page.sized in
      let before : All (λ p. PrefixBefore c p (stay ++ moved)) file =
        subst (λ es. All (λ p. PrefixBefore c p es) file) parts h.before in
      let left : All (λ p. PrefixBefore c p stay) file =
        All-map file
          (λ p k.
            All-map p (λ x m. All-left (λ f. Before (prefix_of c x) (prefix_of c f)) stay moved m)
              k)
          before in
      let right : All (λ p. PrefixBefore c p moved) file =
        All-map file
          (λ p k.
            All-map p (λ x m. All-right (λ f. Before (prefix_of c x) (prefix_of c f)) stay moved m)
              k)
          before in
      let size : length stay + length moved ≡ length cur =
        omega (arith, ap length parts, length-append stay moved) in
      let some_stay : 0 < length stay = omega (arith, length-append stay_front (stay_last ∷ [])) in
      let fits = h.page.fits in
      let page : IsPage c stay = record {
        ascending = Ascending-left stay moved asc;
        some_entry = some_stay;
        fits = omega arith;
        sized = All-left (Sized c) stay moved sized;
      } in
      let stay_low = All-left (λ f. Before f.key e.key) stay moved low in
      let last_low : Before (prefix_of c stay_last) (prefix_of c e) =
        NotAfter-ne _ _
          (Before-take c.prefix_len stay_last.key e.key
            (All-right (λ f. Before f.key e.key) stay_front (stay_last ∷ []) stay_low).0)
          differs in
      let front_low : All (λ x. Before (prefix_of c x) (prefix_of c e)) stay_front =
        All-map stay_front
          (λ x b.
            NotAfter-Before (prefix_of c x) (prefix_of c stay_last) (prefix_of c e)
              (Before-take c.prefix_len x.key stay_last.key b) last_low)
          (front-NotAfter stay_front stay_last (Ascending-left stay moved asc)) in
      let all_low : All (λ x. Before (prefix_of c x) (prefix_of c e)) stay =
        All-append (λ x. Before (prefix_of c x) (prefix_of c e)) stay_front (stay_last ∷ [])
          front_low (last_low, tt) in
      record {
        pages = Separated-snoc c file stay h.pages left page;
        before =
            All-append (λ p. PrefixBefore c p (moved ++ e ∷ [])) file (stay ∷ [])
              (extend moved right)
              (
                All-map stay
                    (λ x b.
                      All-append (λ f. Before (prefix_of c x) (prefix_of c f)) moved (e ∷ [])
                        (All-map moved (λ y q. rw q b) shared) (b, tt))
                    all_low,
                tt,
              );
        page = record {
          ascending =
              Ascending-snoc moved e (Ascending-right stay moved asc)
                (All-right (λ f. Before f.key e.key) stay moved low);
          some_entry = omega (arith, length-append moved (e ∷ []));
          fits = omega (arith, length-append moved (e ∷ []));
          sized =
              All-append (Sized c) moved (e ∷ []) (All-right (Sized c) stay moved sized) (se, tt);
        };
      }
