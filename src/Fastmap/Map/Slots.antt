-- ===== src/Fastmap/Map/Slots.antt =====
-- The binary search on one page.
use sialite.Base.{
  ℕ, zero, suc, ◌+◌, ◌-◌, ◌*◌, ◌≤◌, ◌<◌, ◌≡◌, refl, sym, ap, ◌∙◌, ◌≢◌, Ordering, true, false, none,
  some, List, [], ◌∷◌, ◌++◌, map, append_assoc, append-nil, All, All-append, All-left, All-right,
  All-replicate, Bytes, IsBytes, length, replicate, concat, slice, bytes_eq_refl, bytes_eq_ne,
  bytes_compare, compare_refl, compare-lt→gt, Before, length-append, length-replicate, HasLength,
  slots_All, slots_right, concat-replicate, ◌==◌, mul_le, arith,
}
use mathlib.Core.List.{map-append}
use sialite.Fastmap.Search.{search_at, search-le}
use sialite.Fastmap.Map.{Map, is_from, find_slot, lookup_page}
use sialite.Fastmap.Writer.Pages.{
  Entry, Layout, IsLayout, Sized, per_page, values_start, encode_page, encode-Filled, keys, vals,
  key_part, val_part, length-keys,
}
use sialite.Fastmap.Paging.{Ascending, IsPage, Ascending-right}

-- The key slots of a page: the keys, and then FF up to the last slot.
abbrev pub slots : Layout → List Entry → List Bytes
slots c es = map (λ e. e.key) es ++ replicate (per_page c - length es) (replicate c.key_len 0xFF)

keys-concat : (es : List Entry) → keys es ≡ concat (map (λ e. e.key) es)
keys-concat [] = refl
keys-concat (e ∷ es) = ap (◌++◌ e.key) (keys-concat es)

concat-append' : (xs ys : List Bytes) → concat (xs ++ ys) ≡ concat xs ++ concat ys
concat-append' [] ys = refl
concat-append' (x ∷ xs) ys =
    rw (concat-append' xs ys) (sym (append_assoc x (concat xs) (concat ys)))

All-keys :
    (c : Layout) (es : List Entry)
    → All (Sized c) es
    → All (HasLength c.key_len) (map (λ e. e.key) es)
All-keys c [] s = tt
All-keys c (e ∷ es) s = (s.0.0, All-keys c es s.1)

length-keys_map : (es : List Entry) → length (map (λ e. e.key) es) ≡ length es
length-keys_map [] = refl
length-keys_map (e ∷ es) = ap suc (length-keys_map es)

-- The FF key does not sort before a key of its length.
ff-NotBefore :
    (n : ℕ) (key : Bytes)
    → IsBytes key
    → length key ≡ n
    → bytes_compare (replicate n 0xFF) key ≢ Ordering.lt
unfolding bytes_compare
ff-NotBefore zero [] b e = λ q. cc
ff-NotBefore zero (x ∷ key) b e = absurd (omega arith)
ff-NotBefore (suc n) [] b e = absurd (omega arith)
ff-NotBefore (suc n) (x ∷ key) b e = ground (arith, ff-NotBefore n key b.1)

pub find_slot-le : (m : Map) (page key : Bytes) → find_slot m page key ≤ m.per_page
unfolding find_slot
find_slot-le m page key = search-le m.per_page _

lookup_page_miss :
    (m : Map) (page key : Bytes)
    → ((k : ℕ) → k < m.per_page → key ≢ slice (k * m.key_len) m.key_len page)
    → lookup_page m page key ≡ none
unfolding lookup_page
lookup_page_miss m page key h =
    let at = find_slot m page key in
    ground (
      arith,
      find_slot-le m page key,
      h at,
      bytes_eq_ne key (slice (at * m.key_len) m.key_len page),
    )

lookup_page_hit :
    (m : Map) (page key : Bytes) (i : ℕ)
    → find_slot m page key ≡ i
    → i < m.per_page
    → slice (i * m.key_len) m.key_len page ≡ key
    → lookup_page m page key ≡ some (slice (m.values_start + i * m.value_len) m.value_len page)
unfolding lookup_page
lookup_page_hit m page key i e lt same =
    rw e (
      let inside : (i == m.per_page) ≡ false = ground arith in rw (inside, same, bytes_eq_refl key))

module _ (c : Layout) (l : IsLayout c) (es : List Entry) (page : IsPage c es) where
  -- The page is its slots, and then the values.
  page_slots :
      encode_page c es
      ≡ concat (slots c es)
        ++ (vals es ++ replicate (c.page_len - values_start c - length (vals es)) 0xFF)
  page_slots =
      let k = length-keys c es page.sized in
      let fits = page.fits in
      let room = mul_le (length es) (per_page c) c.key_len fits in
      let whole : per_page c ≡ (per_page c - length es) + length es = omega arith in
      let free : values_start c - length (keys es) ≡ (per_page c - length es) * c.key_len =
        omega (arith, ap (λ (t : ℕ). t * c.key_len) whole) in
      rw
        (
          concat-replicate (per_page c - length es) c.key_len (values_start c - length (keys es))
              0xFF free,
          keys-concat es,
          concat-append' (map (λ e. e.key) es)
              (replicate (per_page c - length es) (replicate c.key_len 0xFF)),
        )
        (simp append_assoc)

  slots_sized : All (HasLength c.key_len) (slots c es)
  slots_sized =
      All-append (HasLength c.key_len) (map (λ e. e.key) es) _ (All-keys c es page.sized) (
        All-replicate (HasLength c.key_len) (per_page c - length es) (replicate c.key_len 0xFF)
          (length-replicate {A = ℕ} c.key_len 0xFF))

  slots_count : length (slots c es) ≡ per_page c
  slots_count =
      let fits = page.fits in
      omega (
        arith,
        length-append (map (λ e. e.key) es)
            (replicate (per_page c - length es) (replicate c.key_len 0xFF)),
        length-keys_map es,
        length-replicate {A = Bytes} (per_page c - length es) (replicate c.key_len 0xFF),
      )

  -- A property of all the slots holds of the slices that the search looks at.
  slot_All :
      (P : Bytes → Type 0)
      → All P (slots c es)
      → (k : ℕ) → k < per_page c
      → P (slice (k * c.key_len) c.key_len (encode_page c es))
  slot_All P h k lt =
      rw page_slots
        (slots_All P c.key_len (slots c es) _ slots_sized h k (omega (arith, slots_count)))

  -- No slot has the key, so the page has no value for it.
  pub lookup_page-none :
      (m : Map) (key : Bytes)
      → m.per_page ≡ per_page c
      → m.key_len ≡ c.key_len
      → All (λ (k : Bytes). key ≢ k) (slots c es)
      → lookup_page m (encode_page c es) key ≡ none
  lookup_page-none m key pp kl absent =
      lookup_page_miss m (encode_page c es) key (rw (pp, kl) (slot_All (λ k. key ≢ k) absent))

below-is_from : (a key : Bytes) → Before a key → is_from a key ≡ false
unfolding is_from
below-is_from a key h = ground arith

from-is_from : (a key : Bytes) → bytes_compare a key ≢ Ordering.lt → is_from a key ≡ true
unfolding is_from
from-is_from a key h = ground arith

map-All :
    (P : Entry → Type 0) (Q : Bytes → Type 0) (es : List Entry)
    → ((e : Entry) → P e → Q e.key)
    → All P es
    → All Q (map (λ e. e.key) es)
map-All P Q [] f h = tt
map-All P Q (e ∷ es) f h = (f e h.0, map-All P Q es f h.1)

Ascending-Before :
    (before : List Entry) (e : Entry) (after : List Entry)
    → Ascending (before ++ (e ∷ after))
    → All (λ x. Before x.key e.key) before
Ascending-Before [] e after h = tt
Ascending-Before (x ∷ before) e after h = (
  (All-right (λ f. Before x.key f.key) before (e ∷ after) h.0).0,
  Ascending-Before before e after h.1,
)

module _ (c : Layout) (l : IsLayout c) (before : List Entry) (e : Entry) (after : List Entry)
    (page : IsPage c (before ++ (e ∷ after))) (bytes : IsBytes e.key) where
  abbrev all : List Entry
  all = before ++ (e ∷ after)

  -- The slots from that of the entry on.
  abbrev others : List Bytes
  others =
      map (λ e. e.key) (e ∷ after) ++ replicate (per_page c - length all) (replicate c.key_len 0xFF)

  slots_split : slots c all ≡ map (λ e. e.key) before ++ others
  slots_split = rw (map-append (λ (e : Entry). e.key) before (e ∷ after)) (
      append_assoc (map (λ e. e.key) before) (map (λ e. e.key) (e ∷ after))
        (replicate (per_page c - length all) (replicate c.key_len 0xFF)))

  split_sized : All (HasLength c.key_len) (map (λ e. e.key) before ++ others)
  split_sized = rw slots_split at (slots_sized c l all page)

  entry-Sized : Sized c e
  entry-Sized = (All-right (Sized c) before (e ∷ after) page.sized).0

  below_entry : All (λ k. is_from k e.key ≡ false) (map (λ e. e.key) before)
  below_entry =
      map-All (λ x. Before x.key e.key) _ before (λ x h. below-is_from x.key e.key h)
        (Ascending-Before before e after page.ascending)

  from_entry : All (λ k. is_from k e.key ≡ true) others
  from_entry =
      All-append _ (map (λ e. e.key) (e ∷ after)) _
        (
          from-is_from e.key e.key (λ q. cc (compare_refl e.key, q)),
          map-All (λ x. Before e.key x.key) _ after
              (λ x h. from-is_from x.key e.key (λ q. cc (compare-lt→gt e.key x.key h, q)))
              (Ascending-right before (e ∷ after) page.ascending).0,
        )
        (All-replicate _ (per_page c - length all) (replicate c.key_len 0xFF)
          (from-is_from _ e.key (ff-NotBefore c.key_len e.key bytes entry-Sized.0)))

  split_page :
      encode_page c all
      ≡ concat (map (λ e. e.key) before)
        ++ (concat others
            ++ (vals all ++ replicate (c.page_len - values_start c - length (vals all)) 0xFF))
  split_page =
      page_slots c l all page
      ∙ rw (slots_split, concat-append' (map (λ e. e.key) before) others)
          (append_assoc (concat (map (λ e. e.key) before)) (concat others)
            (vals all ++ replicate (c.page_len - values_start c - length (vals all)) 0xFF))

  split_count : length before + length others ≡ per_page c
  split_count = omega (
    arith,
    slots_count c l all page,
    ap length slots_split,
    length-append (map (λ e. e.key) before) others,
    length-keys_map before,
  )

  pub find_slot-entry :
      (m : Map)
      → m.per_page ≡ per_page c
      → m.key_len ≡ c.key_len
      → find_slot m (encode_page c all) e.key ≡ length before
  unfolding find_slot
  find_slot-entry m pp kl =
      let n = length-keys_map before in
      rw (pp, kl, split_page)
        (search_at (per_page c) _ (length before) (omega (arith, split_count))
          (λ k lt.
            slots_All (λ b. is_from b e.key ≡ false) c.key_len (map (λ e. e.key) before) _
              (All-left (HasLength c.key_len) _ others split_sized) below_entry k (omega arith))
          (λ k le lt.
            slots_right (λ b. is_from b e.key ≡ true) c.key_len (map (λ e. e.key) before) others _
              (All-left (HasLength c.key_len) _ others split_sized)
              (All-right (HasLength c.key_len) (map (λ e. e.key) before) others split_sized)
              from_entry k (omega arith) (omega (arith, split_count))))

  -- The page gives the entry's value.
  pub lookup_page-entry :
      (m : Map)
      → m.per_page ≡ per_page c
      → m.key_len ≡ c.key_len
      → m.value_len ≡ c.value_len
      → m.values_start ≡ values_start c
      → lookup_page m (encode_page c all) e.key ≡ some e.value
  lookup_page-entry m pp kl vl vs =
      let filled = encode-Filled c all page.sized page.fits in
      let s = All-left (Sized c) before (e ∷ after) page.sized in
      let one : 1 * c.key_len ≡ c.key_len = omega arith in
      let one' : 1 * c.value_len ≡ c.value_len = omega arith in
      let at = key_part c before (e ∷ []) after (encode_page c all) s (entry-Sized, tt) filled in
      let at' = val_part c before (e ∷ []) after (encode_page c all) s (entry-Sized, tt) filled in
      let n = length-keys_map before in
      let size = length-append before (e ∷ after) in
      let fits = page.fits in
      let slot : slice (length before * c.key_len) c.key_len (encode_page c all) ≡ e.key =
        ap (λ n. slice (length before * c.key_len) n (encode_page c all)) (sym one)
        ∙ at
        ∙ append-nil e.key in
      let slot' : slice (values_start c + length before * c.value_len) c.value_len
            (encode_page c all)
          ≡ e.value =
        ap (λ n. slice (values_start c + length before * c.value_len) n (encode_page c all))
          (sym one')
        ∙ at'
        ∙ append-nil e.value in
      lookup_page_hit m (encode_page c all) e.key (length before) (find_slot-entry m pp kl)
        (omega arith) (rw kl slot)
      ∙ ap some (rw (vs, vl) slot')
