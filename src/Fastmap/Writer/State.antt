-- ===== src/Fastmap/Writer/State.antt =====
-- What the writer's state stands for: the pages written so far, and the entries of the last one.
use sialite.Base.{
  ℕ, suc, ◌+◌, ◌*◌, ◌≤◌, ◌<◌, ◌≡◌, refl, sym, ap, ◌∙◌, inl, inr, true, false, List, [], ◌∷◌, ◌++◌,
  map, All, Bytes, length, replicate, concat, ◌==◌, Bool-cases, ==→eq, ◌≢◌, mul_cancel, arith,
}
use sialite.Fastmap.Sink.{close_fails}
use sialite.Fastmap.Writer.{MapWriter, turn_page}
use sialite.Fastmap.Writer.Pages.{
  Entry, Layout, IsLayout, Sized, per_page, values_start, Filled, encode_page,
}
use sialite.Fastmap.Writer.Shared.{prefix_of}

-- What the prefix file has of a page.
abbrev pub first_prefix : Layout → List Entry → Bytes
first_prefix c [] = []
first_prefix c (e ∷ es) = prefix_of c e

abbrev pub encode_pages : Layout → List (List Entry) → Bytes
encode_pages c ps = concat (map (encode_page c) ps)

abbrev pub encode_prefixes : Layout → List (List Entry) → Bytes
encode_prefixes c ps = concat (map (first_prefix c) ps)

-- All but the two buffers. The last page holds `front` and then `last`.
pub record Frame (c : Layout) (file : List (List Entry)) (front : List Entry) (last : Entry)
    (w : MapWriter) : Type 0 where
  pub page_len : w.page_len ≡ c.page_len
  pub key_len : w.key_len ≡ c.key_len
  pub value_len : w.value_len ≡ c.value_len
  pub prefix_len : w.prefix_len ≡ c.prefix_len
  pub start : w.values_start ≡ values_start c
  pub marker : w.ffff ≡ replicate c.key_len 0xFF
  pub pages_plan : w.pages_out.plan ≡ []
  pub prefixes_plan : w.prefixes_out.plan ≡ []
  pub pages_closer : w.pages_out.closer ≢ close_fails
  pub prefixes_closer : w.prefixes_out.closer ≢ close_fails
  pub pages : w.pages_out.out ≡ encode_pages c file
  pub prefixes : w.prefixes_out.out ≡ encode_prefixes c (file ++ (front ++ last ∷ []) ∷ [])
  pub count : w.npages ≡ suc (length file)
  pub last_key : w.prev_key ≡ last.key
  pub key_pos : w.key_start ≡ length (front ++ last ∷ []) * c.key_len
  pub value_pos : w.value_start ≡ values_start c + length (front ++ last ∷ []) * c.value_len
  pub sized : All (Sized c) (front ++ last ∷ [])

-- A page with free slots stands in `page`; a full one waits in `prev_page`.
pub data Buffers (c : Layout) (es : List Entry) (w : MapWriter) : Type 0 where
  filling :
      w.has_prev_page ≡ false
      → length es < per_page c
      → Filled c es w.page
      → length w.prev_page ≡ c.page_len
      → Buffers c es w
  waiting :
      w.has_prev_page ≡ true
      → length es ≡ per_page c
      → Filled c es w.prev_page
      → length w.page ≡ c.page_len
      → Buffers c es w

pub record Holds (c : Layout) (file : List (List Entry)) (front : List Entry) (last : Entry)
    (w : MapWriter) : Type 0 where
  pub frame : Frame c file front last w
  pub buffers : Buffers c (front ++ last ∷ []) w

-- The state between `store` and `turn_page`.
pub record Stored (c : Layout) (file : List (List Entry)) (front : List Entry) (last : Entry)
    (w : MapWriter) : Type 0 where
  pub frame : Frame c file front last w
  pub plain : w.has_prev_page ≡ false
  pub fits : length (front ++ last ∷ []) ≤ per_page c
  pub filled : Filled c (front ++ last ∷ []) w.page
  pub spare : length w.prev_page ≡ c.page_len

flip : MapWriter → MapWriter
flip w = record w { page = w.prev_page; prev_page = w.page; has_prev_page = true }

flip-Frame :
    {c : Layout} {file : List (List Entry)} {front : List Entry} {last : Entry} {w : MapWriter}
    → Frame c file front last w
    → Frame c file front last (flip w)
unfolding flip
flip-Frame f = assumption

-- Turning the page keeps what the state stands for.
pub turn_page-Holds :
    (c : Layout) (file : List (List Entry)) (front : List Entry) (last : Entry) (w : MapWriter)
    → IsLayout c
    → Stored c file front last w
    → Holds c file front last (turn_page w)
unfolding turn_page flip
turn_page-Holds c file front last w l s =
    let pos = l.keyed in
    let at = s.frame.key_pos in
    let start = s.frame.start in
    elim (Bool-cases (w.key_start == w.values_start)) [
      | inl e ↦
          let same : length (front ++ last ∷ []) * c.key_len ≡ values_start c =
            omega (arith, ==→eq _ _ e) in
          let full : length (front ++ last ∷ []) ≡ per_page c = mul_cancel _ _ c.key_len pos same in
          rw e (record { frame = flip-Frame s.frame; buffers = waiting refl full s.filled s.spare })
      | inr e ↦
          let apart : w.key_start ≢ w.values_start = ground arith in
          let other : length (front ++ last ∷ []) ≢ per_page c =
            λ q. apart (at ∙ ap (λ (n : ℕ). n * c.key_len) q ∙ sym start) in
          let fits = s.fits in
          let less : length (front ++ last ∷ []) < per_page c = omega arith in
          rw e (record { frame = s.frame; buffers = filling s.plain less s.filled s.spare })
    ]
