-- ===== src/Fastmap/Map/Absent.antt =====
-- Lookup of a key that no page has.
use sialite.Base.{
  ℕ, zero, suc, ◌-◌, ◌*◌, ◌≤◌, ◌<◌, ◌≡◌, refl, ap, ◌∙◌, ◌≢◌, none, List, [], ◌∷◌, map, append-nil,
  All, All-append, All-left, All-right, All-map₂, All-replicate, Bytes, length, replicate, concat,
  slice, slots_All, ok, arith, sym,
}
use sialite.Fastmap.Search.{search-le}
use sialite.Fastmap.Map.{Map, find_page, lookup_page, lookup}
use sialite.Fastmap.Map.Slots.{slots, lookup_page-none}
use sialite.Fastmap.Map.Found.{
  opened, lookup_hit, lookup_nowhere, pages_sized, map-All, Separated-pages, length-map,
}
use sialite.Fastmap.Writer.Pages.{Entry, Layout, IsLayout, per_page, encode_page}
use sialite.Fastmap.Writer.State.{encode_pages}
use sialite.Fastmap.Paging.{IsPage, Separated}

All-concat {ℓ κ} :
    {A : Type ℓ} (P : A → Type κ) (xss : List (List A)) → All P (concat xss) → All (All P) xss
All-concat P [] h = tt
All-concat P (xs ∷ xss) h =
    (All-left P xs (concat xss) h, All-concat P xss (All-right P xs (concat xss) h))

slots_absent :
    (c : Layout) (key : Bytes) (p : List Entry)
    → key ≢ replicate c.key_len 0xFF
    → All (λ e. key ≢ e.key) p
    → All (λ (k : Bytes). key ≢ k) (slots c p)
slots_absent c key p plain absent =
    All-append (λ (k : Bytes). key ≢ k) (map (λ e. e.key) p) _ (heads p absent)
      (All-replicate (λ (k : Bytes). key ≢ k) (per_page c - length p) _ plain)
  where
    heads :
        (es : List Entry)
        → All (λ e. key ≢ e.key) es
        → All (λ (k : Bytes). key ≢ k) (map (λ e. e.key) es)
    heads [] h = tt
    heads (e ∷ es) h = (h.0, heads es h.1)

find_page-le : (m : Map) (key : Bytes) → find_page m key ≤ m.npages
unfolding find_page
find_page-le m key = search-le m.npages _

module _ (c : Layout) (l : IsLayout c) (ps : List (List Entry)) (h : Separated c ps) (key : Bytes)
    (sized : length key ≡ c.key_len) (plain : key ≢ replicate c.key_len 0xFF)
    (absent : All (λ e. key ≢ e.key) (concat ps)) where
  pages_none : All (λ b. lookup_page (opened c ps) b key ≡ none) (map (encode_page c) ps)
  pages_none =
      map-All (encode_page c) (λ p. IsPage c p × All (λ e. key ≢ e.key) p) _ ps
        (λ p (page, k).
          lookup_page-none c l p page (opened c ps) key refl refl (slots_absent c key p plain k))
        (All-map₂ ps (λ p page k. (page, k)) (Separated-pages c ps h)
          (All-concat (λ e. key ≢ e.key) ps absent))

  page_none :
      (k : ℕ)
      → k < length ps
      → lookup_page (opened c ps) (slice (k * c.page_len) c.page_len (encode_pages c ps)) key ≡ none
  page_none k lt =
      let whole = append-nil (encode_pages c ps) in
      let n = length-map (encode_page c) ps in
      subst_page whole (
        slots_All (λ b. lookup_page (opened c ps) b key ≡ none) c.page_len (map (encode_page c) ps)
          [] (pages_sized c l ps h) pages_none k (omega arith))
    where
      subst_page :
          {b : Bytes}
          → b ≡ encode_pages c ps
          → lookup_page (opened c ps) (slice (k * c.page_len) c.page_len b) key ≡ none
          → lookup_page (opened c ps) (slice (k * c.page_len) c.page_len (encode_pages c ps)) key
            ≡ none
      subst_page e p =
          ap (λ b. lookup_page (opened c ps) (slice (k * c.page_len) c.page_len b) key) (sym e) ∙ p

  found_cases :
      (n : ℕ) → find_page (opened c ps) key ≡ n → n ≤ length ps → lookup (opened c ps) key ≡ ok none
  found_cases zero e le = lookup_nowhere (opened c ps) key sized l.short_prefix e
  found_cases (suc k) e le =
      lookup_hit (opened c ps) key k sized l.short_prefix e ∙ ap ok (page_none k le)

  -- Lookup finds nothing for such a key, unless it is all FF.
  pub lookup-absent : lookup (opened c ps) key ≡ ok none
  lookup-absent = found_cases _ refl (find_page-le (opened c ps) key)
