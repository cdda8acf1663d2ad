-- ===== src/Fastmap/Writer/Store.antt =====
-- Storing a record: on the page that is being filled, or as a new page's last record.
use mathlib.Core.List.{map-append}
use sialite.Base.{
  concat-append, ℕ, ◌+◌, ◌*◌, ◌<◌, ◌≡◌, ◌≢◌, refl, ap, ◌∙◌, false, List, [], ◌∷◌, ◌++◌,
  append_assoc, append-nil, map, All, All-append, All-right, Bytes, length, take, replicate, concat,
  copy, copy_fits, drop_all, length-append, arith, take-append_le,
}
use sialite.Fastmap.Sink.{close_fails}
use sialite.Fastmap.Writer.{MapWriter, store}
use sialite.Fastmap.Writer.Pages.{
  Entry, Layout, IsLayout, Sized, per_page, values_start, Filled, encode_page, keys, vals,
  store-Filled,
}
use sialite.Fastmap.Writer.Runs.{prefixed, keyed}
use sialite.Fastmap.Writer.State.{first_prefix, encode_pages, encode_prefixes, Frame, Stored}

pub encode_pages-append :
    (c : Layout) (ps qs : List (List Entry))
    → encode_pages c (ps ++ qs) ≡ encode_pages c ps ++ encode_pages c qs
encode_pages-append c ps qs =
    ap concat (map-append (encode_page c) ps qs)
    ∙ concat-append (map (encode_page c) ps) (map (encode_page c) qs)

pub encode_prefixes-append :
    (c : Layout) (ps qs : List (List Entry))
    → encode_prefixes c (ps ++ qs) ≡ encode_prefixes c ps ++ encode_prefixes c qs
encode_prefixes-append c ps qs =
    ap concat (map-append (first_prefix c) ps qs)
    ∙ concat-append (map (first_prefix c) ps) (map (first_prefix c) qs)

-- A page begins with its first key.
pub page_prefix :
    (c : Layout) (es : List Entry) (e : Entry) (b : Bytes)
    → IsLayout c
    → All (Sized c) (es ++ e ∷ [])
    → Filled c (es ++ e ∷ []) b
    → take c.prefix_len b ≡ first_prefix c (es ++ e ∷ [])
page_prefix c [] e b l s f =
    let short = l.short_prefix in
    rw (f.split, append-nil e.key)
      (ap (take c.prefix_len) (simp append_assoc)
        ∙ take-append_le c.prefix_len e.key (f.gap ++ (e.value ++ f.gap')) (omega (arith, s.0.0)))
page_prefix c (x ∷ es) e b l s f =
    let short = l.short_prefix in
    rw f.split (
      ap (take c.prefix_len) (simp append_assoc)
      ∙ take-append_le c.prefix_len x.key
          (keys (es ++ e ∷ []) ++ (f.gap ++ (x.value ++ (vals (es ++ e ∷ []) ++ f.gap'))))
          (omega (arith, s.0.0)))

pub first_prefix-snoc :
    (c : Layout) (es : List Entry) (x e : Entry)
    → first_prefix c ((es ++ x ∷ []) ++ e ∷ []) ≡ first_prefix c (es ++ x ∷ [])
first_prefix-snoc c [] x e = refl
first_prefix-snoc c (y ∷ es) x e = refl

-- `copy` between keys of one length
pub copy_whole : (dst src : Bytes) → length src ≡ length dst → copy dst src ≡ src
copy_whole dst src e =
    copy_fits dst src (omega arith) ∙ rw (drop_all (length src) dst (omega arith)) (append-nil src)

-- The state just before a record is stored as the last one of a page that is new in the file.
pub record Ready (c : Layout) (file : List (List Entry)) (es : List Entry) (e : Entry)
    (w : MapWriter) : Type 0 where
  pub page_len : w.page_len ≡ c.page_len
  pub key_len : w.key_len ≡ c.key_len
  pub value_len : w.value_len ≡ c.value_len
  pub prefix_len : w.prefix_len ≡ c.prefix_len
  pub start : w.values_start ≡ values_start c
  pub marker : w.ffff ≡ replicate c.key_len 0xFF
  pub pages_plan : w.pages_out.plan ≡ []
  pub prefixes_plan : w.prefixes_out.plan ≡ []
  pub pages_closer : w.pages_out.closer ≢ close_fails
  pub prefixes_closer : w.prefixes_out.closer ≢ close_fails
  pub pages : w.pages_out.out ≡ encode_pages c file
  pub prefixes : w.prefixes_out.out ≡ encode_prefixes c file
  pub count : w.npages ≡ length file
  pub last_key : w.prev_key ≡ e.key
  pub key_pos : w.key_start ≡ length es * c.key_len
  pub value_pos : w.value_start ≡ values_start c + length es * c.value_len
  pub sized : All (Sized c) es
  pub sized_last : Sized c e
  pub fits : length es < per_page c
  pub filled : Filled c es w.page
  pub spare : length w.prev_page ≡ c.page_len

module _ (c : Layout) (file : List (List Entry)) (l : IsLayout c) where
  pub store-Ready :
      (es : List Entry) (e : Entry) (w : MapWriter)
      → Ready c file es e w
      → Stored c file es e (prefixed (store e.key e.value w))
  unfolding store
  store-Ready es e w r =
      let all = All-append (Sized c) es (e ∷ []) r.sized (r.sized_last, tt) in
      let size = length-append es (e ∷ []) in
      let f = store-Filled c es e w.page r.sized r.sized_last r.fits r.filled in
      let fits = r.fits in
      let at = r.key_pos in
      let at' = r.value_pos in
      let wide = ap (λ (t : ℕ). t * c.key_len) size in
      let wide' = ap (λ (t : ℕ). t * c.value_len) size in
      let count = r.count in
      record {
        frame = record {
          page_len = r.page_len;
          key_len = r.key_len;
          value_len = r.value_len;
          prefix_len = r.prefix_len;
          start = r.start;
          marker = r.marker;
          pages_plan = r.pages_plan;
          prefixes_plan = r.prefixes_plan;
          pages_closer = r.pages_closer;
          prefixes_closer = r.prefixes_closer;
          pages = r.pages;
          prefixes =
              rw (r.prefixes, r.prefix_len, r.key_pos, r.value_pos, page_prefix c es e _ l all f)
                (rw (
                  encode_prefixes-append c file ((es ++ e ∷ []) ∷ []),
                  append-nil (first_prefix c (es ++ e ∷ [])),
                ));
          count = omega arith;
          last_key = r.last_key;
          key_pos = omega (arith, r.key_len);
          value_pos = omega (arith, r.value_len);
          sized = all;
        };
        plain = refl;
        fits = omega arith;
        filled = rw (r.key_pos, r.value_pos) f;
        spare = r.spare;
      }

  pub store-Frame :
      (front : List Entry) (last e : Entry) (w : MapWriter)
      → Frame c file front last w
      → Sized c e
      → w.has_prev_page ≡ false
      → length (front ++ last ∷ []) < per_page c
      → Filled c (front ++ last ∷ []) w.page
      → length w.prev_page ≡ c.page_len
      → Stored c file (front ++ last ∷ []) e (store e.key e.value (keyed e.key w))
  unfolding store
  store-Frame front last e w r se plain fits filled spare =
      let es = front ++ last ∷ [] in
      let all = All-append (Sized c) es (e ∷ []) r.sized (se, tt) in
      let size = length-append es (e ∷ []) in
      let f = store-Filled c es e w.page r.sized se fits filled in
      let at = r.key_pos in
      let at' = r.value_pos in
      let wide = ap (λ (t : ℕ). t * c.key_len) size in
      let wide' = ap (λ (t : ℕ). t * c.value_len) size in
      let slast = All-right (Sized c) front (last ∷ []) r.sized in
      record {
        frame = record {
          page_len = r.page_len;
          key_len = r.key_len;
          value_len = r.value_len;
          prefix_len = r.prefix_len;
          start = r.start;
          marker = r.marker;
          pages_plan = r.pages_plan;
          prefixes_plan = r.prefixes_plan;
          pages_closer = r.pages_closer;
          prefixes_closer = r.prefixes_closer;
          pages = r.pages;
          prefixes =
              r.prefixes
              ∙ rw (
                encode_prefixes-append c file ((front ++ last ∷ []) ∷ []),
                encode_prefixes-append c file ((es ++ e ∷ []) ∷ []),
                first_prefix-snoc c front last e,
              );
          count = r.count;
          last_key =
              copy_whole w.prev_key e.key (omega (arith, se.0, slast.0.0, ap length r.last_key));
          key_pos = omega (arith, r.key_len);
          value_pos = omega (arith, r.value_len);
          sized = all;
        };
        plain = plain;
        fits = omega arith;
        filled = rw (r.key_pos, r.value_pos) f;
        spare = spare;
      }
