-- ===== src/Fastmap/MultiWriter.antt =====
-- fastmap/multimap.go, MultiMapWriter: the values of one key are gathered, then written at once.
use sialite.Base.{
  ℕ, ◌+◌, ◌-◌, ◌*◌, ◌/◌, ◌%◌, ◌^◌, Bool, not, [], ◌++◌, Bytes, length, take, drop, replicate, copy,
  bytes_eq, put_le, put_uvarint, ◌==◌, ltb, if◌then◌else◌, Result, ok, err, panic, M, done, fail,
  crash, wrong_size, low_offset_len, get, modify, fail_if, when, on, pure, ◌>>=◌, ◌>>◌,
}
use sialite.Fastmap.Sink.{Sink, put_full, close}
use sialite.Fastmap.Writer.{MapWriter, new_map_writer, write, close_map}
use sialite.Fastmap.Inline.{Inliner, Inlined, inline}

-- `prev_key` and `container` are the two parts of the source's `fmRecord`. The buffers for the
-- offset and the length are filled anew before each use.
pub record MultiMapWriter : Type 0 where
  pub fm : MapWriter
  pub values_out : Sink
  pub key_len : ℕ
  pub value_len : ℕ
  pub offset_len : ℕ
  pub prev_key : Bytes
  pub container : Bytes
  pub batch : Bytes
  pub offset : ℕ
  pub offset_end : ℕ
  pub inliner : Inliner

-- NewMultiMapWriter; an offset of more than 8 bytes is out of the buffer's range.
pub new_multi_writer : ℕ → ℕ → ℕ → ℕ → ℕ → ℕ → Sink → Sink → Sink → Inliner → Result MultiMapWriter
new_multi_writer page_len key_len value_len prefix_len offset_len container_len p q values inliner =
    if ltb 8 offset_len
    then panic
    else ok (record {
      fm = new_map_writer page_len key_len container_len prefix_len p q;
      values_out = values;
      key_len = key_len;
      value_len = value_len;
      offset_len = offset_len;
      prev_key = replicate key_len 0;
      container = replicate container_len 0;
      batch = [];
      offset = 0;
      offset_end = 2 ^ (8 * offset_len) % 2 ^ 64;
      inliner = inliner;
    })

abbrev on_map {ℓ} : {A : Type ℓ} → M MapWriter A → M MultiMapWriter A
on_map = on (λ u. u.fm) (λ u w. record u { fm = w })

abbrev on_values : M Sink (Unit {0}) → M MultiMapWriter (Unit {0})
on_values = on (λ u. u.values_out) (λ u s. record u { values_out = s })

after_inline : Result Inlined → M MultiMapWriter Bool
after_inline (ok r) u = done r.is_inlined (record u { container = r.container })
after_inline (err e) u = fail e u
after_inline panic u = crash

-- PutUint64 and the call of Inline
try_inline : M MultiMapWriter Bool
unfolding after_inline
try_inline u =
    after_inline (inline u.inliner u.container u.batch (take u.offset_len (put_le 8 u.offset))) u

-- `u.fm.Write(u.fmRecord)`
write_container : M MultiMapWriter ℕ
write_container = do u ← get; on_map (write (u.prev_key ++ u.container))

-- The no-inline case: the count, the values and the next offset.
unfoldable pub dump_values : M MultiMapWriter (Unit {0})
dump_values = do
  u ← get
  let head = put_uvarint (length u.batch / u.value_len)
  on_values (put_full head)
  on_values (put_full u.batch)
  modify (λ v. record v { offset = (v.offset + (length head + length u.batch)) % 2 ^ 64 })
  v ← get
  fail_if (ltb v.offset_end v.offset) low_offset_len

-- dump
pub dump : M MultiMapWriter (Unit {0})
unfolding try_inline write_container dump_values
dump = do
  is_inlined ← try_inline
  write_container
  when (not is_inlined) dump_values
  modify (λ u. record u { batch = [] })

set_key : Bytes → MultiMapWriter → MultiMapWriter
set_key key u = record u { prev_key = copy u.prev_key key }

add_value : Bytes → MultiMapWriter → MultiMapWriter
add_value value u = record u { batch = u.batch ++ value }

-- The part of Write below the check of the size.
pub gather : Bytes → Bytes → M MultiMapWriter (Unit {0})
unfolding dump set_key add_value
gather key value = do
  u ← get
  if length u.batch == 0
      then (do modify (set_key key); modify (add_value value))
      else if bytes_eq key u.prev_key
      then when (not (bytes_eq value (drop (length u.batch - u.value_len) u.batch)))
          (modify (add_value value))
      else (do dump; modify (set_key key); modify (add_value value))

-- MultiMapWriter.Write
unfoldable pub multi_write : Bytes → M MultiMapWriter ℕ
unfolding gather
multi_write b = do
  u ← get
  fail_if (not (length b == u.key_len + u.value_len)) wrong_size
  gather (take u.key_len b) (drop u.key_len b)
  pure (length b)

-- MultiMapWriter.Close
unfoldable pub close_multi : M MultiMapWriter (Unit {0})
unfolding dump
close_multi = do dump; on_map close_map; on_values close
