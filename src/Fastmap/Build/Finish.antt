-- ===== src/Fastmap/Build/Finish.antt =====
-- Close pads the last page and writes it.
use sialite.Base.{
  ◌≤◌, ◌<◌, ◌≡◌, sym, ap, ◌∙◌, true, false, List, [], ◌∷◌, ◌++◌, append-nil, Bytes, length, fill_ff,
  length-append, mul_lt, done, ◌==◌, arith,
}
use sialite.Fastmap.Sink.{Sink, close, put_full-accepting, close-working}
use sialite.Fastmap.Writer.{MapWriter, write_last, close_map}
use sialite.Fastmap.Writer.Pages.{
  Entry, Layout, IsLayout, Filled, encode_page, fill-Filled, per_page,
}
use sialite.Fastmap.Writer.State.{Frame, Buffers, filling, waiting, encode_pages, encode_prefixes}
use sialite.Fastmap.Writer.Store.{encode_pages-append}

abbrev padded : MapWriter → Bytes
padded w = fill_ff w.value_start w.page_len (fill_ff w.key_start w.values_start w.page)

abbrev with_last : MapWriter → MapWriter
with_last w = record w {
  page = padded w;
  pages_out = record (w.pages_out) { out = w.pages_out.out ++ padded w };
  key_start = 0;
}

write_last_lem : (w : MapWriter) → w.pages_out.plan ≡ [] → write_last w ≡ done tt (with_last w)
unfolding write_last
write_last_lem w e = ground (arith, put_full-accepting (padded w) w.pages_out e)

abbrev turned_back : MapWriter → MapWriter
turned_back w = record w { page = w.prev_page }

module _ (w : MapWriter) (some_key : (w.key_start == 0) ≡ false) (plan : w.pages_out.plan ≡ [])
    (t s : Sink) (closed' : close w.prefixes_out ≡ done tt s) where
  close_filling :
      w.has_prev_page ≡ false
      → close (with_last w).pages_out ≡ done tt t
      → close_map w ≡ done tt (record (with_last w) { pages_out = t; prefixes_out = s })
  unfolding close_map
  close_filling flag closed = ground (arith, write_last_lem w)

  close_waiting :
      w.has_prev_page ≡ true
      → close (with_last (turned_back w)).pages_out ≡ done tt t
      → close_map w
        ≡ done tt (record (with_last (turned_back w)) { pages_out = t; prefixes_out = s })
  unfolding close_map
  close_waiting flag closed = ground (arith, write_last_lem (turned_back w))

-- The files that a closed writer leaves.
pub record Files (c : Layout) (pages : List (List Entry)) (w : MapWriter) : Type 0 where
  pub pages_file : w.pages_out.out ≡ encode_pages c pages
  pub prefixes_file : w.prefixes_out.out ≡ encode_prefixes c pages

module _ (c : Layout) (l : IsLayout c) (file : List (List Entry)) (front : List Entry)
    (last : Entry) (w : MapWriter) (f : Frame c file front last w) where
  abbrev cur : List Entry
  cur = front ++ last ∷ []

  some_key_start : (w.key_start == 0) ≡ false
  some_key_start =
      let pos = l.keyed in
      let at = f.key_pos in
      let some_entry : 0 < length cur = omega (arith, length-append front (last ∷ [])) in
      let more = mul_lt 0 (length cur) c.key_len pos some_entry in ground arith

  -- The bytes of the file with the last page.
  closing_file :
      (b : Bytes)
      → length cur ≤ per_page c
      → Filled c cur b
      → w.pages_out.out ++ fill_ff w.value_start w.page_len (fill_ff w.key_start w.values_start b)
        ≡ encode_pages c (file ++ cur ∷ [])
  closing_file b fits filled =
      rw
        (
          f.pages,
          f.key_pos,
          f.value_pos,
          f.page_len,
          f.start,
          fill-Filled c cur b f.sized fits filled,
        )
        (sym (
          encode_pages-append c file (cur ∷ [])
          ∙ ap (◌++◌ (encode_pages c file)) (append-nil (encode_page c cur))))

  -- Close of a writer over files that take what they are given and whose Close does not fail, and
  -- whose state stands for complete pages and a last one that is being filled or is full, succeeds, and the two files hold the encodings of all the pages, the last one included with
  -- its free slots padded with FF, and of their prefixes.
  pub close_map-Files :
      Buffers c cur w
      → (w' : MapWriter) × (close_map w ≡ done tt w') × Files c (file ++ cur ∷ []) w'
  close_map-Files (filling flag less filled spare) =
      let (t, closed, kept) = close-working (with_last w).pages_out f.pages_closer in
      let (s, closed', kept') = close-working w.prefixes_out f.prefixes_closer in
      (
        _,
        close_filling w some_key_start f.pages_plan t s closed' flag closed,
        record {
          pages_file = kept ∙ closing_file w.page (omega arith) filled;
          prefixes_file = kept' ∙ f.prefixes;
        },
      )
  close_map-Files (waiting flag full filled spare) =
      let (t, closed, kept) = close-working (with_last (turned_back w)).pages_out f.pages_closer in
      let (s, closed', kept') = close-working w.prefixes_out f.prefixes_closer in
      (
        _,
        close_waiting w some_key_start f.pages_plan t s closed' flag closed,
        record {
          pages_file = kept ∙ closing_file w.prev_page (omega arith) filled;
          prefixes_file = kept' ∙ f.prefixes;
        },
      )
