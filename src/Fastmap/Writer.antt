-- ===== src/Fastmap/Writer.antt =====
-- fastmap/fastmap.go, MapWriter: records that come in ascending order are cut into pages.
pub mod Pages
pub mod Shared
pub mod Runs
pub mod State
pub mod Store
pub mod Steps
pub mod Refused
use sialite.Base.{
  ℕ, zero, suc, ◌+◌, ◌-◌, ◌*◌, ◌/◌, ◌≤◌, ◌<◌, ◌≡◌, refl, compare, Ordering, Bool, true, false, not,
  ◌&&◌, ◌||◌, List, [], ◌∷◌, ◌++◌, Bytes, length, take, drop, replicate, slice, copy, copy_at,
  fill_ff, bytes_eq, bytes_compare, ◌==◌, ltb, leb, if◌then◌else◌, M, done, fail, crash, Error,
  wrong_size, ff_key, duplicates, not_ordered, low_prefix_len, get, modify, fail_if, when, on, pure,
  ◌>>=◌, ◌>>◌,
}
use sialite.Fastmap.Sink.{Sink, put_full, close}

-- The fields `data` and `prefixes` are here `pages_out` and `prefixes_out`.
pub record MapWriter : Type 0 where
  pub page_len : ℕ
  pub key_len : ℕ
  pub value_len : ℕ
  pub prefix_len : ℕ
  pub pages_out : Sink
  pub prefixes_out : Sink
  pub ffff : Bytes
  pub values_start : ℕ
  pub prev_key : Bytes
  pub page : Bytes
  pub prev_page : Bytes
  pub key_start : ℕ
  pub value_start : ℕ
  pub npages : ℕ
  pub has_prev_page : Bool

-- NewMapWriter; Go panics on a division by zero unless keyLen + valueLen is positive.
unfoldable pub new_map_writer : ℕ → ℕ → ℕ → ℕ → Sink → Sink → MapWriter
new_map_writer page_len key_len value_len prefix_len pages_out prefixes_out = record {
  page_len = page_len;
  key_len = key_len;
  value_len = value_len;
  prefix_len = prefix_len;
  pages_out = pages_out;
  prefixes_out = prefixes_out;
  ffff = replicate key_len 0xFF;
  values_start = page_len / (key_len + value_len) * key_len;
  prev_key = replicate key_len 0;
  page = replicate page_len 0;
  prev_page = replicate page_len 0;
  key_start = 0;
  value_start = page_len / (key_len + value_len) * key_len;
  npages = 0;
  has_prev_page = false;
}

abbrev on_pages : M Sink (Unit {0}) → M MapWriter (Unit {0})
on_pages = on (λ w. w.pages_out) (λ w s. record w { pages_out = s })

abbrev on_prefixes : M Sink (Unit {0}) → M MapWriter (Unit {0})
on_prefixes = on (λ w. w.prefixes_out) (λ w s. record w { prefixes_out = s })

order_error : Ordering → M MapWriter (Unit {0})
order_error Ordering.lt w = done tt w
order_error Ordering.eq w = fail duplicates w
order_error Ordering.gt w = fail not_ordered w

-- `if w.npages != 0 { … }`
check_order : Bytes → M MapWriter (Unit {0})
unfolding order_error
check_order key w = when (not (w.npages == 0)) (order_error (bytes_compare w.prev_key key)) w

-- How many keys at the end of the previous page share the prefix: the loop over `k` from
-- `keyStart - keyLen` down, where `end` is `k + keyLen`. A round takes `key_len` off `end`.
pub count_shared : ℕ → Bytes → ℕ → Bytes → ℕ → ℕ
count_shared zero page key_len prefix end = 0
count_shared (suc fuel) page key_len prefix end =
    let more = count_shared fuel page key_len prefix (end - key_len) in
    if leb key_len end && bytes_eq (slice (end - key_len) (length prefix) page) prefix
    then suc more
    else 0

-- Moves the last `remove` records of the previous page to this page, and pads what is left.
pub move_records : ℕ → MapWriter → MapWriter
move_records remove w =
    let key_cut = w.key_start - remove * w.key_len in
    let value_cut = w.value_start - remove * w.value_len in
    record w {
      page =
          copy_at w.values_start (copy w.page (slice key_cut (w.key_start - key_cut) w.prev_page))
            (slice value_cut (w.value_start - value_cut) w.prev_page);
      prev_page = fill_ff value_cut w.page_len (fill_ff key_cut w.values_start w.prev_page);
      key_start = key_cut;
      value_start = value_cut;
    }

-- The branch `if w.hasPrevPage { … }` of Write. `n1` and `n2` are the counts that copy returns.
pub flush_prev : Bytes → M MapWriter (Unit {0})
unfolding count_shared move_records
flush_prev key = do
  w ← get
  let remove = count_shared w.key_start w.prev_page w.key_len (take w.prefix_len key) w.key_start
  fail_if (remove * w.key_len == w.key_start) low_prefix_len
  modify (move_records remove)
  moved ← get
  on_pages (put_full moved.prev_page)
  modify (λ m. record m {
    key_start = remove * w.key_len;
    value_start = m.values_start + remove * w.value_len;
  })

-- Copies the record into its slots.
pub store : Bytes → Bytes → MapWriter → MapWriter
store key value w = record w {
  page = copy_at w.value_start (copy_at w.key_start w.page key) value;
  key_start = w.key_start + w.key_len;
  value_start = w.value_start + w.value_len;
}

-- The first record of a page gives its prefix.
pub write_prefix : M MapWriter (Unit {0})
write_prefix = do
  w ← get
  on_prefixes (put_full (take w.prefix_len w.page))
  modify (λ m. record m { npages = m.npages + 1; has_prev_page = false })

-- A full page waits as the previous one, until it is known how many records stay on it.
pub turn_page : MapWriter → MapWriter
turn_page w =
    if w.key_start == w.values_start
    then record w { page = w.prev_page; prev_page = w.page; has_prev_page = true }
    else w

-- Write, once the record is split.
pub write_record : Bytes → Bytes → M MapWriter (Unit {0})
unfolding check_order flush_prev store write_prefix turn_page
write_record key value = do
  w ← get
  fail_if (bytes_eq key w.ffff) ff_key
  check_order key
  modify (λ m. record m { prev_key = copy m.prev_key key })
  when w.has_prev_page (flush_prev key)
  modify (store key value)
  when (w.has_prev_page || w.npages == 0) write_prefix
  modify turn_page

-- MapWriter.Write
unfoldable pub write : Bytes → M MapWriter ℕ
unfolding write_record
write rec = do
  w ← get
  fail_if (not (length rec == w.key_len + w.value_len)) wrong_size
  write_record (take w.key_len rec) (drop w.key_len rec)
  pure (length rec)

unfoldable pub write_last : M MapWriter (Unit {0})
write_last = do
  modify (λ w. record w {
    page = fill_ff w.value_start w.page_len (fill_ff w.key_start w.values_start w.page);
  })
  w ← get
  on_pages (put_full w.page)
  modify (λ m. record m { key_start = 0 })

-- MapWriter.Close
unfoldable pub close_map : M MapWriter (Unit {0})
unfolding write_last
close_map = do
  modify (λ w. if w.has_prev_page then record w { page = w.prev_page } else w)
  w ← get
  when (not (w.key_start == 0)) write_last
  on_pages close
  on_prefixes close
