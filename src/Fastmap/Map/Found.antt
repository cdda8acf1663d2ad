-- ===== src/Fastmap/Map/Found.antt =====
-- Lookup in the files of well-formed pages.
use native.Mathlib.Nat.{mul-div_cancel, mul-div_cancel_left}
use sialite.Base.{
  ℕ, suc, ◌+◌, ◌-◌, ◌*◌, ◌/◌, ◌≤◌, ◌<◌, ◌≡◌, refl, sym, ap, ◌∙◌, true, false, none, some, List, [],
  ◌∷◌, ◌++◌, map, append_assoc, append-nil, All, All-append, All-map₂, All-left, All-right, Bytes,
  IsBytes, length, concat, slice, slice_mid, compare_refl, compare-lt→gt, Before, NotAfter,
  Before-take, length-append, length-take, HasLength, slots_All, slots_right, ◌==◌, ==-refl, le→ltb,
  ok, arith,
}
use sialite.Fastmap.Search.{search_at}
use sialite.Fastmap.Map.{Map, open_map, is_after, find_page, lookup_page, lookup}
use sialite.Fastmap.Map.Slots.{lookup_page-entry}
use sialite.Fastmap.Writer.Pages.{
  Entry, Layout, IsLayout, Sized, per_page, values_start, encode_page, encode-Filled, slots_fit,
}
use sialite.Fastmap.Writer.Shared.{prefix_of}
use sialite.Fastmap.Writer.State.{first_prefix, encode_pages, encode_prefixes}
use sialite.Fastmap.Writer.Store.{encode_pages-append, encode_prefixes-append}
use sialite.Fastmap.Paging.{Ascending, IsPage, PrefixBefore, Separated}

length-concat :
    (n : ℕ) (xs : List Bytes) → All (HasLength n) xs → length (concat xs) ≡ length xs * n
length-concat n [] h = omega arith
length-concat n (x ∷ xs) h = omega (arith, length-append x (concat xs), length-concat n xs h.1, h.0)

pub length-map {ℓ κ} :
    {A : Type ℓ} {B : Type κ} (f : A → B) (xs : List A) → length (map f xs) ≡ length xs
length-map f [] = refl
length-map f (x ∷ xs) = ap suc (length-map f xs)

pub map-All :
    (f : List Entry → Bytes) (P : List Entry → Type 0) (Q : Bytes → Type 0) (ps : List (List Entry))
    → ((p : List Entry) → P p → Q (f p))
    → All P ps
    → All Q (map f ps)
map-All f P Q [] g h = tt
map-All f P Q (p ∷ ps) g h = (g p h.0, map-All f P Q ps g h.1)

pub Separated-pages : (c : Layout) (ps : List (List Entry)) → Separated c ps → All (IsPage c) ps
Separated-pages c [] h = tt
Separated-pages c (p ∷ ps) h = (h.0, Separated-pages c ps h.2)

Separated-before :
    (c : Layout) (ps : List (List Entry)) (p : List Entry) (qs : List (List Entry))
    → Separated c (ps ++ (p ∷ qs))
    → All (λ q. PrefixBefore c q p) ps
Separated-before c [] p qs h = tt
Separated-before c (q ∷ ps) p qs h =
    ((All-right (PrefixBefore c q) ps (p ∷ qs) h.1).0, Separated-before c ps p qs h.2)

Separated-after :
    (c : Layout) (ps : List (List Entry)) (p : List Entry) (qs : List (List Entry))
    → Separated c (ps ++ (p ∷ qs))
    → All (PrefixBefore c p) qs
Separated-after c [] p qs h = h.1
Separated-after c (q ∷ ps) p qs h = Separated-after c ps p qs h.2

module _ (c : Layout) (l : IsLayout c) where
  page_sized : (p : List Entry) → IsPage c p → HasLength c.page_len (encode_page c p)
  page_sized p h = (encode-Filled c p h.sized h.fits).whole

  prefix_sized : (p : List Entry) → IsPage c p → HasLength c.prefix_len (first_prefix c p)
  prefix_sized [] h = absurd (let n = h.some_entry in omega arith)
  prefix_sized (e ∷ p) h =
      let short = l.short_prefix in omega (arith, length-take c.prefix_len e.key, h.sized.0.0)

  module _ (ps : List (List Entry)) (h : Separated c ps) where
    pub pages_sized : All (HasLength c.page_len) (map (encode_page c) ps)
    pages_sized =
        map-All (encode_page c) (IsPage c) (HasLength c.page_len) ps page_sized
          (Separated-pages c ps h)

    prefixes_sized : All (HasLength c.prefix_len) (map (first_prefix c) ps)
    prefixes_sized =
        map-All (first_prefix c) (IsPage c) (HasLength c.prefix_len) ps prefix_sized
          (Separated-pages c ps h)

    length-pages : length (encode_pages c ps) ≡ length ps * c.page_len
    length-pages =
        length-concat c.page_len (map (encode_page c) ps) pages_sized
        ∙ ap (λ n. n * c.page_len) (length-map (encode_page c) ps)

    length-prefixes : length (encode_prefixes c ps) ≡ length ps * c.prefix_len
    length-prefixes =
        length-concat c.prefix_len (map (first_prefix c) ps) prefixes_sized
        ∙ ap (λ n. n * c.prefix_len) (length-map (first_prefix c) ps)

-- The map that OpenMap makes of the files.
abbrev pub opened : Layout → List (List Entry) → Map
opened c ps = record {
  npages = length ps;
  page_len = c.page_len;
  key_len = c.key_len;
  value_len = c.value_len;
  prefix_len = c.prefix_len;
  per_page = per_page c;
  values_start = values_start c;
  pages = encode_pages c ps;
  prefixes = encode_prefixes c ps;
}

ne_zero : (n : ℕ) → 0 < n → (n == 0) ≡ false
ne_zero n h = ground arith

open_map_sizes :
    (page_len key_len value_len : ℕ) (b q : Bytes) (n prefix_len : ℕ)
    → 0 < page_len
    → 0 < n
    → 0 < key_len
    → length b ≡ n * page_len
    → length q ≡ n * prefix_len
    → open_map page_len key_len value_len b q
      ≡ ok (record {
        npages = n;
        page_len = page_len;
        key_len = key_len;
        value_len = value_len;
        prefix_len = prefix_len;
        per_page = page_len / (key_len + value_len);
        values_start = page_len / (key_len + value_len) * key_len;
        pages = b;
        prefixes = q;
      })
unfolding open_map
open_map_sizes page_len key_len value_len b q n prefix_len room some_page pos size size' = rw (
  size,
  size',
  mul-div_cancel n room,
  mul-div_cancel_left prefix_len some_page,
  ne_zero page_len room,
  ==-refl (n * page_len),
  ne_zero n some_page,
  ==-refl (n * prefix_len),
  ne_zero (key_len + value_len) (omega arith),
)

-- OpenMap accepts the files of well-formed pages.
pub open_map-pages :
    (c : Layout) (ps : List (List Entry))
    → IsLayout c
    → Separated c ps
    → 0 < length ps
    → open_map c.page_len c.key_len c.value_len (encode_pages c ps) (encode_prefixes c ps)
      ≡ ok (opened c ps)
open_map-pages c ps l h some_page =
    let pos = l.keyed in
    let fit = slots_fit c 1 l.roomy in
    open_map_sizes c.page_len c.key_len c.value_len _ _ (length ps) c.prefix_len (omega arith)
      some_page pos (length-pages c l ps h) (length-prefixes c l ps h)

pub lookup_hit :
    (m : Map) (key : Bytes) (k : ℕ)
    → length key ≡ m.key_len
    → m.prefix_len ≤ m.key_len
    → find_page m key ≡ suc k
    → lookup m key ≡ ok (lookup_page m (slice (k * m.page_len) m.page_len m.pages) key)
unfolding lookup
lookup_hit m key k e short found =
    let back : suc k - 1 ≡ k = omega arith in
    rw (
      found,
      e,
      ==-refl m.key_len,
      le→ltb m.key_len m.prefix_len short,
      ne_zero (suc k) (omega arith),
      back,
    )

pub lookup_nowhere :
    (m : Map) (key : Bytes)
    → length key ≡ m.key_len
    → m.prefix_len ≤ m.key_len
    → find_page m key ≡ 0
    → lookup m key ≡ ok none
unfolding lookup
lookup_nowhere m key e short found =
    rw (found, e, ==-refl m.key_len, le→ltb m.key_len m.prefix_len short)

is_after-false : (a b : Bytes) → NotAfter a b → is_after a b ≡ false
unfolding is_after
is_after-false a b h = ground arith

is_after-true : (a b : Bytes) → Before b a → is_after a b ≡ true
unfolding is_after
is_after-true a b h = let g = compare-lt→gt b a h in ground arith

first_low :
    (c : Layout) (front : List Entry) (e : Entry) (back q : List Entry)
    → IsPage c q
    → PrefixBefore c q (front ++ (e ∷ back))
    → NotAfter (first_prefix c q) (prefix_of c e)
first_low c front e back [] p k = absurd (let n = p.some_entry in omega arith)
first_low c front e back (x ∷ q) p k =
    let b = (All-right (λ f. Before (prefix_of c x) (prefix_of c f)) front (e ∷ back) k.0).0 in
    λ g. cc (b, g)

first_high :
    (c : Layout) (front : List Entry) (e : Entry) (back q : List Entry)
    → IsPage c q
    → PrefixBefore c (front ++ (e ∷ back)) q
    → Before (prefix_of c e) (first_prefix c q)
first_high c front e back [] p k = absurd (let n = p.some_entry in omega arith)
first_high c front e back (x ∷ q) p k =
    (All-right (λ x'. All (λ f. Before (prefix_of c x') (prefix_of c f)) (x ∷ q)) front (e ∷ back)
      k).0.0

first_own :
    (c : Layout) (front : List Entry) (e : Entry) (back : List Entry)
    → Ascending (front ++ (e ∷ back))
    → NotAfter (first_prefix c (front ++ (e ∷ back))) (prefix_of c e)
first_own c [] e back a = λ g. cc (compare_refl (prefix_of c e), g)
first_own c (x ∷ front) e back a =
    Before-take c.prefix_len x.key e.key
      (All-right (λ f. Before x.key f.key) front (e ∷ back) a.0).0

module _ (c : Layout) (l : IsLayout c) (before : List (List Entry)) (front : List Entry) (e : Entry)
    (back : List Entry) (after : List (List Entry))
    (h : Separated c (before ++ ((front ++ (e ∷ back)) ∷ after))) where
  abbrev page : List Entry
  page = front ++ (e ∷ back)

  abbrev all : List (List Entry)
  all = before ++ (page ∷ after)

  own_page : IsPage c page
  own_page = (All-right (IsPage c) before (page ∷ after) (Separated-pages c all h)).0

  pages_ok : All (IsPage c) all
  pages_ok = Separated-pages c all h

  -- The pages up to that of the entry, and the pages after it.
  low_pages :
      All (λ b. is_after b (prefix_of c e) ≡ false) (map (first_prefix c) (before ++ page ∷ []))
  low_pages =
      map-All (first_prefix c) (λ q. NotAfter (first_prefix c q) (prefix_of c e)) _
        (before ++ page ∷ []) (λ q n. is_after-false _ _ n)
        (All-append (λ q. NotAfter (first_prefix c q) (prefix_of c e)) before (page ∷ [])
          (All-map₂ before (λ q p k. first_low c front e back q p k)
            (All-left (IsPage c) before (page ∷ after) pages_ok)
            (Separated-before c before page after h))
          (first_own c front e back own_page.ascending, tt))

  high_pages : All (λ b. is_after b (prefix_of c e) ≡ true) (map (first_prefix c) after)
  high_pages =
      map-All (first_prefix c) (λ q. Before (prefix_of c e) (first_prefix c q)) _ after
        (λ q b. is_after-true (first_prefix c q) (prefix_of c e) b)
        (All-map₂ after (λ q p k. first_high c front e back q p k)
          (All-right (IsPage c) before (page ∷ after) pages_ok).1
          (Separated-after c before page after h))

  prefixes_split :
      encode_prefixes c all
      ≡ concat (map (first_prefix c) (before ++ page ∷ []))
        ++ (concat (map (first_prefix c) after) ++ [])
  prefixes_split =
      ap (encode_prefixes c) (sym (append_assoc before (page ∷ []) after))
      ∙ encode_prefixes-append c (before ++ page ∷ []) after
      ∙ ap (◌++◌ (encode_prefixes c (before ++ page ∷ [])))
          (sym (append-nil (encode_prefixes c after)))

  sizes :
      All (HasLength c.prefix_len) (map (first_prefix c) (before ++ page ∷ []))
      × All (HasLength c.prefix_len) (map (first_prefix c) after)
  sizes = (
    map-All (first_prefix c) (IsPage c) _ (before ++ page ∷ []) (prefix_sized c l) (
        All-append (IsPage c) before (page ∷ [])
          (All-left (IsPage c) before (page ∷ after) pages_ok) (own_page, tt)),
    map-All (first_prefix c) (IsPage c) _ after (prefix_sized c l)
        (All-right (IsPage c) before (page ∷ after) pages_ok).1,
  )

  find_page-entry : find_page (opened c all) e.key ≡ suc (length before)
  unfolding find_page
  find_page-entry =
      let n = length-append before (page ∷ after) in
      let n' = length-map (first_prefix c) (before ++ page ∷ []) in
      let n'' = length-append before (page ∷ []) in
      let m = length-map (first_prefix c) after in
      rw prefixes_split (
        search_at (length all) _ (suc (length before)) (omega arith)
          (λ k lt.
            slots_All (λ b. is_after b (prefix_of c e) ≡ false) c.prefix_len _ _ sizes.0 low_pages k
              (omega arith))
          (λ k le lt.
            slots_right (λ b. is_after b (prefix_of c e) ≡ true) c.prefix_len _ _ [] sizes.0 sizes.1
              high_pages k (omega arith) (omega arith)))

  page_at : slice (length before * c.page_len) c.page_len (encode_pages c all) ≡ encode_page c page
  page_at = rw (encode_pages-append c before (page ∷ after)) (
      slice_mid (length before * c.page_len) c.page_len (encode_pages c before) (encode_page c page)
        (encode_pages c after)
        (length-concat c.page_len (map (encode_page c) before) (
            map-All (encode_page c) (IsPage c) _ before (page_sized c l)
              (All-left (IsPage c) before (page ∷ after) pages_ok))
          ∙ ap (λ n. n * c.page_len) (length-map (encode_page c) before))
        (page_sized c l page own_page))

  -- Lookup of a key that is on a page gives its value.
  pub lookup-entry : IsBytes e.key → lookup (opened c all) e.key ≡ ok (some e.value)
  lookup-entry bytes =
      let sized = (All-right (Sized c) front (e ∷ back) own_page.sized).0 in
      lookup_hit (opened c all) e.key (length before) sized.0 l.short_prefix find_page-entry
      ∙ ap ok (
          rw page_at
            (lookup_page-entry c l front e back own_page bytes (opened c all) refl refl refl refl))
