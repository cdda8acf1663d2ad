-- ===== src/Fastmap/Writer/Runs.antt =====
-- The three ways through Write when nothing fails, and the way to ErrLowPrefixLen.
use sialite.Base.{
  ℕ, ◌+◌, ◌-◌, ◌*◌, ◌≡◌, refl, Ordering, Bool, true, false, not, ◌||◌, [], ◌++◌, Bytes, take,
  bytes_eq, bytes_compare, ◌==◌, M, done, fail, low_prefix_len, arith, put_le,
}
use sialite.Fastmap.Sink.{put_full-accepting}
use sialite.Fastmap.Writer.{
  MapWriter, count_shared, move_records, flush_prev, store, write_prefix, turn_page, write_record,
}

-- The state after the prefix of a new page is written.
abbrev pub prefixed : MapWriter → MapWriter
prefixed w = record w {
  prefixes_out = record (w.prefixes_out) { out = w.prefixes_out.out ++ take w.prefix_len w.page };
  npages = w.npages + 1;
  has_prev_page = false;
}

abbrev pub keyed : Bytes → MapWriter → MapWriter
keyed key w = record w { prev_key = sialite.Base.copy w.prev_key key }

-- The state after the previous page, without its last `n` records, is written.
abbrev pub flushed : ℕ → MapWriter → MapWriter
flushed n w =
    let m = move_records n w in
    record m {
      pages_out = record (m.pages_out) { out = m.pages_out.out ++ m.prev_page };
      key_start = n * w.key_len;
      value_start = m.values_start + n * w.value_len;
    }

abbrev pub shared_by : Bytes → MapWriter → ℕ
shared_by key w = count_shared w.key_start w.prev_page w.key_len (take w.prefix_len key) w.key_start

write_prefix_lem :
    (w : MapWriter) → w.prefixes_out.plan ≡ [] → write_prefix w ≡ done tt (prefixed w)
unfolding write_prefix
write_prefix_lem w e =
    ground (arith, put_full-accepting (take w.prefix_len w.page) w.prefixes_out e)

flush_prev_lem :
    (key : Bytes) (w : MapWriter)
    → (shared_by key w * w.key_len == w.key_start) ≡ false
    → w.pages_out.plan ≡ []
    → flush_prev key w ≡ done tt (flushed (shared_by key w) w)
unfolding flush_prev
flush_prev_lem key w h e = ground (
  arith,
  h,
  put_full-accepting (move_records (shared_by key w) w).prev_page
      (move_records (shared_by key w) w).pages_out,
)

module _ (key value : Bytes) (w : MapWriter) (plain : bytes_eq key w.ffff ≡ false) where
  pub first_run :
      (w.npages == 0) ≡ true
      → w.has_prev_page ≡ false
      → w.prefixes_out.plan ≡ []
      → write_record key value w ≡ done tt (turn_page (prefixed (store key value (keyed key w))))
  unfolding write_record
  first_run n p e = ground (arith, write_prefix_lem (store key value (keyed key w)))

  pub next_run :
      (w.npages == 0) ≡ false
      → bytes_compare w.prev_key key ≡ Ordering.lt
      → w.has_prev_page ≡ false
      → write_record key value w ≡ done tt (turn_page (store key value (keyed key w)))
  unfolding write_record
  next_run n o p = ground arith

  module _ (n : (w.npages == 0) ≡ false) (o : bytes_compare w.prev_key key ≡ Ordering.lt)
      (p : w.has_prev_page ≡ true) where
    pub flush_run :
        (shared_by key (keyed key w) * w.key_len == w.key_start) ≡ false
        → w.pages_out.plan ≡ []
        → w.prefixes_out.plan ≡ []
        → write_record key value w
          ≡ done tt
              (turn_page (prefixed (store key value (flushed (shared_by key w) (keyed key w)))))
    unfolding write_record
    flush_run h e e' = ground (
      arith,
      flush_prev_lem key (keyed key w) h,
      write_prefix_lem (store key value (flushed (shared_by key w) (keyed key w))),
    )

    pub low_prefix_run :
        (shared_by key w * w.key_len == w.key_start) ≡ true
        → write_record key value w ≡ fail low_prefix_len (keyed key w)
    unfolding write_record
    low_prefix_run h = ground arith
