-- ===== src/Fastmap/Tests.antt =====
-- Runs of the writer and the reader on concrete inputs, and instances of the theorems.
use sialite.Base.{
  put_uvarint, wire, ◌+◌, ◌^◌, ◌≤◌, ◌<◌, ◌++◌, replicate, true, ℕ, zero, suc, ◌≡◌, ◌≢◌, refl, List,
  [], ◌∷◌, Bytes, IsBytes, All, length, done, fail, low_prefix_len, ok, err, none, some, Result,
  Option, arith, ltb, bytes_eq, bytes_compare,
}
use sialite.Fastmap.MultiWriter.{MultiMapWriter, dump_values}
use sialite.Fastmap.MultiMap.{MultiMap, read_values}
use sialite.Fastmap.Values.{dump_values-read_values}
use sialite.Fastmap.Sink.{buffer, put_full, close}
use sialite.Fastmap.Writer.{MapWriter, new_map_writer, write, write_record, close_map}
use sialite.Fastmap.Writer.Pages.{Entry, Layout, IsLayout}
use sialite.Fastmap.Build.{build, new_writer, write_each}
use sialite.Fastmap.Build.First.{IsFresh, first-Holds}
use sialite.Fastmap.Build.Accepted.{write_each-Ascending}
use sialite.Fastmap.Build.Finish.{Files, close_map-Files}
use sialite.Fastmap.Writer.State.{Holds}
use sialite.Fastmap.Writer.Steps.{Stepped, write_record-Stepped}
use sialite.Fastmap.Inline.{Inlined, no_inliner, ffoo, inline, uninline}
use sialite.Fastmap.Inline.Values.{is_short, inline-uninline}
use sialite.Fastmap.Paging.{Ascending}
use sialite.Fastmap.Build.Loop.{IsPlain}
use sialite.Fastmap.RoundTrip.{Ending, build-Ending}

-- Pages of two records, with keys of two bytes and prefixes of one.
abbrev small : Layout
small = record { page_len = 7; key_len = 2; value_len = 1; prefix_len = 1 }

small-IsLayout : IsLayout small
small-IsLayout = record { keyed = omega arith; short_prefix = omega arith; roomy = omega arith }

abbrev entry : ℕ → ℕ → ℕ → Entry
entry a b v = record { key = a ∷ b ∷ []; value = v ∷ [] }

abbrev four : List Entry
four = entry 1 1 10 ∷ entry 2 1 20 ∷ entry 2 2 30 ∷ entry 3 9 40 ∷ []

buffer-IsFresh : IsFresh buffer
buffer-IsFresh = record { out = refl; plan = refl; closer = λ e. cc }

abbrev files : Bytes × Bytes
files = (
  1 ∷ 1 ∷ 255 ∷ 255 ∷ 10 ∷ 255 ∷ 255 ∷ 2 ∷ 1 ∷ 2 ∷ 2 ∷ 20 ∷ 30 ∷ 255 ∷ 3 ∷ 9 ∷ 255 ∷ 255 ∷ 40 ∷ 255
      ∷ 255 ∷ [],
  1 ∷ 2 ∷ 3 ∷ [],
)

abbrev outputs : sialite.Base.Outcome MapWriter (Unit {0}) → Option (Bytes × Bytes)
outputs (sialite.Base.done a w) = some (w.pages_out.out, w.prefixes_out.out)
outputs (sialite.Base.fail e w) = none
outputs sialite.Base.crash = none

build-four : outputs (build four (new_writer small buffer buffer)) ≡ some files
unfolding build write_each write new_map_writer close_map put_full close bytes_eq bytes_compare
    sialite.Base.copy_at sialite.Base.fill_ff
build-four = refl

four-IsBytes : All (λ (e : Entry). IsBytes e.key) four
four-IsBytes = (
  (omega arith, (omega arith, tt)),
  (
    (omega arith, (omega arith, tt)),
    ((omega arith, (omega arith, tt)), ((omega arith, (omega arith, tt)), tt)),
  ),
)

four-IsPlain : All (IsPlain small) four
four-IsPlain = ((λ e. cc), ((λ e. cc), ((λ e. cc), ((λ e. cc), tt))))

four-Ascending : Ascending four
unfolding bytes_compare
four-Ascending = ((refl, (refl, (refl, tt))), ((refl, (refl, tt)), ((refl, tt), (tt, tt))))

-- The state in which a call ends, or this one.
abbrev state_after : sialite.Base.Outcome MapWriter (Unit {0}) → MapWriter → MapWriter
state_after (sialite.Base.done a w) w' = w
state_after (sialite.Base.fail e w) w' = w
state_after sialite.Base.crash w' = w'

write_each-Ascending_example : Ascending four × All (IsPlain small) four
unfolding build write_each write new_map_writer close_map put_full close bytes_eq bytes_compare
    sialite.Base.copy_at sialite.Base.fill_ff
write_each-Ascending_example =
    write_each-Ascending small small-IsLayout
      (state_after (write_each four (new_writer small buffer buffer))
        (new_writer small buffer buffer))
      buffer buffer (entry 1 1 10) (entry 2 1 20 ∷ entry 2 2 30 ∷ entry 3 9 40 ∷ []) buffer-IsFresh
      buffer-IsFresh ((refl, refl), ((refl, refl), ((refl, refl), ((refl, refl), tt)))) refl

build-Ending_example : Ending small four (2 ∷ 2 ∷ []) (new_writer small buffer buffer)
build-Ending_example =
    build-Ending small small-IsLayout (2 ∷ 2 ∷ []) refl (λ e. cc) buffer buffer (entry 1 1 10)
      (entry 2 1 20 ∷ entry 2 2 30 ∷ entry 3 9 40 ∷ []) buffer-IsFresh buffer-IsFresh four-Ascending
      ((refl, refl), ((refl, refl), ((refl, refl), ((refl, refl), tt)))) four-IsPlain four-IsBytes

-- The writer after its first record.
first_step :
    (w : MapWriter) × (write_record (1 ∷ 1 ∷ []) (10 ∷ []) (new_writer small buffer buffer)
      ≡ done tt w)
    × Holds small [] [] (entry 1 1 10) w
first_step =
    first-Holds small small-IsLayout buffer buffer buffer-IsFresh buffer-IsFresh (entry 1 1 10)
      (refl, refl) (λ e. cc)

write_record-Stepped_example : Stepped small [] [] (entry 1 1 10) (entry 2 1 20) first_step.0
unfolding bytes_compare
write_record-Stepped_example =
    write_record-Stepped small small-IsLayout [] [] (entry 1 1 10) (entry 2 1 20) first_step.0
      first_step.2.frame (refl, refl) refl (λ e. cc) first_step.2.buffers

close_map-Files_example :
    (w : MapWriter) × (close_map first_step.0 ≡ done tt w)
    × Files small ((entry 1 1 10 ∷ []) ∷ []) w
close_map-Files_example =
    close_map-Files small small-IsLayout [] [] (entry 1 1 10) first_step.0 first_step.2.frame
      first_step.2.buffers

inline-uninline_example :
    (r : Inlined) × (inline (ffoo 2) (replicate 4 0) (1 ∷ 2 ∷ []) (7 ∷ 0 ∷ []) ≡ ok r)
    × (r.is_inlined ≡ true)
    × (uninline (ffoo 2) r.container ≡ (true, 1 ∷ 2 ∷ []))
unfolding is_short
inline-uninline_example =
    inline-uninline 2 (omega arith) (omega arith) (replicate 4 0) (7 ∷ 0 ∷ []) refl refl
      ((1 ∷ 2 ∷ []) ∷ []) ((refl, (λ e. cc), (λ e. cc)), tt)

-- A writer with three values of one byte, and a reader of such values.
abbrev batched : MultiMapWriter
batched = record {
  fm = new_writer small buffer buffer;
  values_out = record buffer { out = 9 ∷ 9 ∷ [] };
  key_len = 2;
  value_len = 1;
  offset_len = 2;
  prev_key = 1 ∷ 1 ∷ [];
  container = 0 ∷ 0 ∷ [];
  batch = 5 ∷ 6 ∷ 7 ∷ [];
  offset = 2;
  offset_end = 65536;
  inliner = no_inliner;
}

abbrev byte_reader : MultiMap
byte_reader = record {
  fm = record {
    npages = 1;
    page_len = 7;
    key_len = 2;
    value_len = 1;
    prefix_len = 1;
    per_page = 2;
    values_start = 4;
    pages = [];
    prefixes = [];
  };
  values = [];
  value_len = 1;
  uninliner = no_inliner;
}

three-head : length (put_uvarint 3) ≡ 1
unfolding put_uvarint
three-head = refl

dump_values-read_values_example :
    (v : MultiMapWriter) × (dump_values batched ≡ done tt v)
    × (v.offset ≡ length v.values_out.out)
    × (read_values (record byte_reader { values = v.values_out.out ++ (1 ∷ []) }) (wire 2 2)
        ≡ ok (some (5 ∷ 6 ∷ 7 ∷ [])))
dump_values-read_values_example =
    dump_values-read_values batched 3 refl (omega arith) byte_reader 2 (1 ∷ []) refl refl
      (omega arith) (omega (arith, three-head)) (omega (arith, three-head)) (omega arith)
      (omega arith) refl
