-- ===== src/Fastmap/Values.antt =====
-- fastmap/multimap.go: the lists of values that are not inlined, written and read.
use native.Mathlib.Nat.{mul-div_cancel}
use sialite.Base.{
  ℕ, ◌+◌, ◌-◌, ◌*◌, ◌/◌, ◌%◌, ◌^◌, ◌≤◌, ◌<◌, ◌≡◌, refl, sym, ap, ◌∙◌, false, some, [], ◌++◌,
  append_assoc, Bytes, length, drop, drop-append, slice, slice_mid, put_uvarint, uvarint,
  uvarint-put_uvarint, length-append, wire, get_le-copy-wire, ltb, le→ltb, ok, done, arith,
}
use sialite.Fastmap.Sink.{put_full-accepting}
use sialite.Fastmap.MultiWriter.{MultiMapWriter, dump_values}
use sialite.Fastmap.MultiMap.{MultiMap, cut_values, counted, read_values}

module _ (u : MultiMapWriter) (n : ℕ) (size : length u.batch ≡ n * u.value_len)
    (some_len : 0 < u.value_len) where
  abbrev head : Bytes
  head = put_uvarint n

  abbrev dumped : MultiMapWriter
  dumped = record u {
    values_out = record (u.values_out) { out = (u.values_out.out ++ head) ++ u.batch };
    offset = (u.offset + (length head + length u.batch)) % 2 ^ 64;
  }

  dump_run :
      u.values_out.plan ≡ []
      → u.offset + (length head + length u.batch) < 2 ^ 63
      → u.offset + (length head + length u.batch) ≤ u.offset_end
      → dump_values u ≡ done tt dumped
  unfolding dump_values
  dump_run plan below room =
      let q : length u.batch / u.value_len ≡ n =
        ap (λ k. k / u.value_len) size ∙ mul-div_cancel n some_len in
      let fits : ltb u.offset_end ((u.offset + (length head + length u.batch)) % 2 ^ 64) ≡ false =
        le→ltb _ _ (omega arith) in
      let first = put_full-accepting head u.values_out plan in
      let second =
        put_full-accepting u.batch (record (u.values_out) { out = u.values_out.out ++ head })
          plan in
      ground (arith, q, first, second, fits)

  read_back :
      (m : MultiMap) (w : ℕ) (after : Bytes)
      → w ≤ 8
      → u.offset < 256 ^ w
      → n < 2 ^ 64
      → u.offset ≡ length u.values_out.out
      → u.offset + (length head + length u.batch) < 2 ^ 63
      → m.value_len ≡ u.value_len
      → m.values ≡ dumped.values_out.out ++ after
      → read_values m (wire w u.offset) ≡ ok (some u.batch)
  unfolding read_values counted cut_values
  read_back m w after short fits few at below same file =
      let out = u.values_out.out in
      let parts : m.values ≡ out ++ (head ++ (u.batch ++ after)) =
        file
        ∙ append_assoc (out ++ head) u.batch after
        ∙ append_assoc out head (u.batch ++ after) in
      let parts' : m.values ≡ (out ++ head) ++ (u.batch ++ after) =
        file ∙ append_assoc (out ++ head) u.batch after in
      let whole : length m.values ≡ length out + (length head + (length u.batch + length after)) =
        omega (
          arith,
          ap length parts,
          length-append out (head ++ (u.batch ++ after)),
          length-append head (u.batch ++ after),
          length-append u.batch after,
        ) in
      let pos = get_le-copy-wire w u.offset short fits in
      let rest : drop u.offset m.values ≡ head ++ (u.batch ++ after) =
        ap (drop u.offset) parts ∙ drop-append u.offset out _ (sym at) in
      let number : uvarint (drop u.offset m.values) ≡ some (n, length head) =
        ap uvarint rest ∙ uvarint-put_uvarint n (u.batch ++ after) few in
      let end : (u.offset + length head + n * m.value_len) % 2 ^ 64
          ≡ u.offset + length head + length u.batch =
        rw same (omega (arith, size)) in
      let got : slice (u.offset + length head)
            (u.offset + length head + length u.batch - (u.offset + length head)) m.values
          ≡ u.batch =
        ap
          (slice (u.offset + length head)
            (u.offset + length head + length u.batch - (u.offset + length head)))
          parts'
        ∙ slice_mid _ _ (out ++ head) u.batch after (omega (arith, at, length-append out head))
            (omega arith) in
      ground (arith, pos, number, end, got, whole, at)

  -- A writer holds a batch of `n` whole values, its offset is the length of the file of values,
  -- that file takes what it is given, and its new length is below 2^63 and not above the bound for
  -- offsets. The no-inline case of dump succeeds and leaves the offset equal to the length of the
  -- file again; and the no-inline case of Lookup, in the file with whatever is written after it,
  -- reads from the offset's bytes exactly the batch.
  pub dump_values-read_values :
      (m : MultiMap) (w : ℕ) (after : Bytes)
      → u.values_out.plan ≡ []
      → u.offset ≡ length u.values_out.out
      → n < 2 ^ 64
      → u.offset + (length (put_uvarint n) + length u.batch) < 2 ^ 63
      → u.offset + (length (put_uvarint n) + length u.batch) ≤ u.offset_end
      → w ≤ 8
      → u.offset < 256 ^ w
      → m.value_len ≡ u.value_len
      → (v : MultiMapWriter) × (dump_values u ≡ done tt v)
        × (v.offset ≡ length v.values_out.out)
        × (read_values (record m { values = v.values_out.out ++ after }) (wire w u.offset)
            ≡ ok (some u.batch))
  dump_values-read_values m w after plan at few below room short fits same =
      let longer : (u.offset + (length head + length u.batch)) % 2 ^ 64
          ≡ length ((u.values_out.out ++ head) ++ u.batch) =
        omega (
          arith,
          at,
          length-append (u.values_out.out ++ head) u.batch,
          length-append u.values_out.out head,
        ) in
      (
        dumped,
        dump_run plan below room,
        longer,
        read_back (record m { values = dumped.values_out.out ++ after }) w after short fits few at
            below same refl,
      )
