-- ===== src/Fastmap/Writer/Steps.antt =====
-- One call of Write, read as a step on the pages.
use native.Mathlib.Nat.{le-mul_of_pos_right}
use sialite.Base.{
  ℕ, ◌+◌, ◌-◌, ◌*◌, ◌<◌, ◌≡◌, refl, sym, ap, subst, ◌∙◌, ◌≢◌, inl, inr, Ordering, true, false, List,
  [], ◌∷◌, ◌++◌, append_assoc, append-nil, All, All-left, All-right, Bytes, length, take, replicate,
  copy, length-append, bytes_eq, bytes_eq_ne, bytes_compare, length-copy_at, fill_ff, done, fail,
  low_prefix_len, ◌==◌, ==-refl, mul_lt, arith,
}
use sialite.Fastmap.Writer.{MapWriter, count_shared, move_records, write_record}
use sialite.Fastmap.Writer.Pages.{
  Entry, Layout, IsLayout, Sized, per_page, values_start, Filled, encode_page, keys, vals,
  keys-append, vals-append, key_part, val_part, move-Filled, fill-Filled,
}
use sialite.Fastmap.Writer.Shared.{prefix_of, Cut, count_shared-Cut}
use sialite.Fastmap.Writer.Runs.{keyed, flushed, shared_by, next_run, flush_run, low_prefix_run}
use sialite.Fastmap.Writer.State.{
  first_prefix, encode_pages, Frame, Buffers, filling, waiting, Holds, turn_page-Holds,
}
use sialite.Fastmap.Writer.Store.{
  Ready, store-Ready, store-Frame, copy_whole, encode_pages-append, encode_prefixes-append,
}

-- A page that keeps only its first entries.
shrink-Filled :
    (c : Layout) (stay moved : List Entry) (b : Bytes)
    → Filled c (stay ++ moved) b
    → Filled c stay b
shrink-Filled c stay moved b f = record {
  gap = keys moved ++ f.gap;
  gap' = vals moved ++ f.gap';
  split = f.split ∙ rw (keys-append stay moved, vals-append stay moved) (simp append_assoc);
  start = omega (
    arith,
    f.start,
    ap length (keys-append stay moved),
    length-append (keys stay) (keys moved),
    length-append (keys moved) f.gap,
  );
  whole = f.whole;
}

first_prefix-append :
    (c : Layout) (stay moved : List Entry)
    → 0 < length stay
    → first_prefix c (stay ++ moved) ≡ first_prefix c stay
first_prefix-append c [] moved h = absurd (omega arith)
first_prefix-append c (x ∷ stay) moved h = refl

-- What a call of Write does to the last page `front`, `last`: it adds the record, or it leaves some
-- entries on the full page and begins the next one with the others, or all entries share the prefix.
pub data Stepped (c : Layout) (file : List (List Entry)) (front : List Entry) (last e : Entry)
    (w : MapWriter) : Type 0 where
  appended :
      (w' : MapWriter)
      → length (front ++ last ∷ []) < per_page c
      → write_record e.key e.value w ≡ done tt w'
      → Holds c file (front ++ last ∷ []) e w'
      → Stepped c file front last e w
  turned :
      (w' : MapWriter) (stay_front : List Entry) (stay_last : Entry) (moved : List Entry)
      → length (front ++ last ∷ []) ≡ per_page c
      → front ++ last ∷ [] ≡ (stay_front ++ stay_last ∷ []) ++ moved
      → All (λ m. prefix_of c m ≡ prefix_of c e) moved
      → prefix_of c stay_last ≢ prefix_of c e
      → write_record e.key e.value w ≡ done tt w'
      → Holds c (file ++ (stay_front ++ stay_last ∷ []) ∷ []) moved e w'
      → Stepped c file front last e w
  stuck :
      length (front ++ last ∷ []) ≡ per_page c
      → All (λ m. prefix_of c m ≡ prefix_of c e) (front ++ last ∷ [])
      → write_record e.key e.value w ≡ fail low_prefix_len (keyed e.key w)
      → Stepped c file front last e w

module _ (c : Layout) (l : IsLayout c) (file : List (List Entry)) (front : List Entry)
    (last e : Entry) (w : MapWriter) (f : Frame c file front last w) (se : Sized c e) where
  abbrev cur : List Entry
  cur = front ++ last ∷ []

  key_copied : copy w.prev_key e.key ≡ e.key
  key_copied =
      let s = All-right (Sized c) front (last ∷ []) f.sized in
      copy_whole w.prev_key e.key (omega (arith, se.0, s.0.0, ap length f.last_key))

  -- The writer moves the entries that the cut says.
  module _ (stay moved : List Entry) (parts : cur ≡ stay ++ moved) (full : length cur ≡ per_page c)
      (some_stay : 0 < length stay) (filled : Filled c cur w.prev_page)
      (spare : length w.page ≡ c.page_len) where
    flushed-Ready : Ready c (file ++ stay ∷ []) moved e (flushed (length moved) (keyed e.key w))
    unfolding move_records fill_ff
    flushed-Ready =
        let sized : All (Sized c) (stay ++ moved) = subst (All (Sized c)) parts f.sized in
        let s = All-left (Sized c) stay moved sized in
        let s' = All-right (Sized c) stay moved sized in
        let whole : Filled c (stay ++ moved) w.prev_page =
          subst (λ es. Filled c es w.prev_page) parts filled in
        let whole' : Filled c (stay ++ (moved ++ [])) w.prev_page = rw (append-nil moved) whole in
        let size : length stay + length moved ≡ length cur =
          omega (arith, ap length parts, length-append stay moved) in
        let wide = ap (λ (t : ℕ). t * c.key_len) size in
        let wide' = ap (λ (t : ℕ). t * c.value_len) size in
        let at = f.key_pos in
        let at' = f.value_pos in
        let cut : w.key_start - length moved * c.key_len ≡ length stay * c.key_len = omega arith in
        let cut' : w.value_start - length moved * c.value_len
            ≡ values_start c + length stay * c.value_len =
          omega arith in
        let back : w.key_start - length stay * c.key_len ≡ length moved * c.key_len = omega arith in
        let back' : w.value_start - (values_start c + length stay * c.value_len)
            ≡ length moved * c.value_len =
          omega arith in
        record {
          page_len = f.page_len;
          key_len = f.key_len;
          value_len = f.value_len;
          prefix_len = f.prefix_len;
          start = f.start;
          marker = f.marker;
          pages_plan = f.pages_plan;
          prefixes_plan = f.prefixes_plan;
          pages_closer = f.pages_closer;
          prefixes_closer = f.prefixes_closer;
          pages =
              rw
                (
                  f.pages,
                  f.start,
                  f.page_len,
                  f.key_len,
                  f.value_len,
                  cut,
                  cut',
                  fill-Filled c stay w.prev_page s (omega arith)
                      (shrink-Filled c stay moved w.prev_page whole),
                )
                (sym (
                  encode_pages-append c file (stay ∷ [])
                  ∙ ap (◌++◌ (encode_pages c file)) (append-nil (encode_page c stay))));
          prefixes =
              f.prefixes
              ∙ rw (
                encode_prefixes-append c file (cur ∷ []),
                encode_prefixes-append c file (stay ∷ []),
                parts,
                first_prefix-append c stay moved some_stay,
              );
          count = omega (arith, f.count, length-append file (stay ∷ []));
          last_key = key_copied;
          key_pos = rw f.key_len refl;
          value_pos = rw (f.start, f.value_len) refl;
          sized = s';
          sized_last = se;
          fits = omega arith;
          filled =
              rw
                (
                  f.start,
                  f.key_len,
                  f.value_len,
                  cut,
                  cut',
                  back,
                  back',
                  key_part c stay moved [] w.prev_page s s' whole',
                  val_part c stay moved [] w.prev_page s s' whole',
                )
                (move-Filled c moved w.page s' (omega arith) spare);
          spare = length-copy_at _ _ _ ∙ length-copy_at _ _ _ ∙ filled.whole;
        }

  module _ (o : bytes_compare last.key e.key ≡ Ordering.lt)
      (plain : e.key ≢ replicate c.key_len 0xFF) where
    not_marker : bytes_eq e.key w.ffff ≡ false
    not_marker = bytes_eq_ne e.key w.ffff (λ q. plain (q ∙ f.marker))

    started : (w.npages == 0) ≡ false
    started = let n = f.count in ground arith

    ordered : bytes_compare w.prev_key e.key ≡ Ordering.lt
    ordered = rw f.last_key o

    shared_by-eq :
        shared_by e.key w
        ≡ count_shared
            (length cur * c.key_len)
            w.prev_page
            c.key_len
            (take c.prefix_len e.key)
            (length cur * c.key_len)
    shared_by-eq = rw (f.key_pos, f.key_len, f.prefix_len)

    module _ (flag : w.has_prev_page ≡ true) (full : length cur ≡ per_page c)
        (k : Cut c (take c.prefix_len e.key) cur (shared_by e.key w)) where
      step_stuck : k.stay ≡ [] → Stepped c file front last e w
      step_stuck none_stays =
          let all : cur ≡ k.moved = k.parts ∙ ap (λ xs. xs ++ k.moved) none_stays in
          let same : length k.moved ≡ length cur = ap length (sym all) in
          stuck full (subst (All (λ m. prefix_of c m ≡ prefix_of c e)) (sym all) k.shared) (
            low_prefix_run e.key e.value w not_marker started ordered flag
              (rw (← k.count, f.key_len, f.key_pos, same) (==-refl _)))

      step_turned :
          (stay_front : List Entry) (stay_last : Entry)
          → k.stay ≡ stay_front ++ stay_last ∷ []
          → prefix_of c stay_last ≢ prefix_of c e
          → Filled c cur w.prev_page
          → length w.page ≡ c.page_len
          → Stepped c file front last e w
      step_turned stay_front stay_last q d filled spare =
          let stay = stay_front ++ stay_last ∷ [] in
          let parts : cur ≡ stay ++ k.moved = k.parts ∙ ap (λ xs. xs ++ k.moved) q in
          let some_stay : 0 < length stay =
            omega (arith, length-append stay_front (stay_last ∷ [])) in
          let less : length k.moved < length cur =
            omega (arith, ap length parts, length-append stay k.moved) in
          let less' = mul_lt (length k.moved) (length cur) c.key_len l.keyed less in
          let differ : (length k.moved * c.key_len == length cur * c.key_len) ≡ false =
            ground arith in
          let ready = flushed-Ready stay k.moved parts full some_stay filled spare in
          let ready' : Ready c (file ++ stay ∷ []) k.moved e
              (flushed (shared_by e.key w) (keyed e.key w)) =
            subst (λ n. Ready c (file ++ stay ∷ []) k.moved e (flushed n (keyed e.key w))) k.count
              ready in
          turned _ stay_front stay_last k.moved full parts k.shared d
            (flush_run e.key e.value w not_marker started ordered flag
              (rw (← k.count, f.key_len, f.key_pos) differ) f.pages_plan f.prefixes_plan)
            (turn_page-Holds c (file ++ stay ∷ []) k.moved e _ l
              (store-Ready c (file ++ stay ∷ []) l k.moved e _ ready'))

    step_waiting :
        w.has_prev_page ≡ true
        → length cur ≡ per_page c
        → Filled c cur w.prev_page
        → length w.page ≡ c.page_len
        → Stepped c file front last e w
    step_waiting flag full filled spare =
        let k : Cut c (take c.prefix_len e.key) cur (shared_by e.key w) = rw shared_by-eq (
          count_shared-Cut c l e.key se.0 (length cur * c.key_len) cur [] w.prev_page
            (le-mul_of_pos_right (length cur) l.keyed) f.sized (rw (append-nil cur) filled)) in
        elim k.differs [
          | inl none_stays ↦ step_stuck flag full k none_stays
          | inr (stay_front, stay_last, q, d) ↦
              step_turned flag full k stay_front stay_last q d filled spare
        ]

    -- A writer over files that take what they are given, whose state stands for complete pages and
    -- a page being filled, and a record of the right sizes whose key is above the last one and not all FF. On a page that is not full, Write adds
    -- the record to the page. On a full page it moves the longest end of the page that shares the
    -- record's prefix to the next page with the record, and the record before those keeps a
    -- different prefix; if the whole page shares it, Write fails with ErrLowPrefixLen.
    pub write_record-Stepped : Buffers c cur w → Stepped c file front last e w
    write_record-Stepped (filling flag less filled spare) =
        appended _ less (next_run e.key e.value w not_marker started ordered flag) (
          turn_page-Holds c file cur e _ l
            (store-Frame c file l front last e w f se flag less filled spare))
    write_record-Stepped (waiting flag full filled spare) = step_waiting flag full filled spare
