-- ===== src/Emsort.antt =====
-- emsort/emsort.go: an external merge sort of chunks of bytes.
pub mod Order
pub mod Merge
pub mod Final
pub mod Runs
pub mod Sorting
pub mod Less
mod Tests
use sialite.Base.{
  ℕ, zero, suc, ◌+◌, ◌/◌, ◌%◌, Bool, true, false, not, Option, none, some, Ordering, List, [], ◌∷◌,
  ◌++◌, Bytes, length, take, drop, replicate, concat, slice, bytes_compare, ◌==◌, ltb, leb,
  if◌then◌else◌, Result, ok, err, panic, M, done, fail, crash, Error, short_write, unaligned,
  empty_file, get, modify, fail_if, when, on, pure, ◌>>=◌, ◌>>◌,
}
use sialite.Fastmap.Sink.{Sink, put_full}

-- Inserts before the first element that does not sort before it.
unfoldable pub insert {ℓ} : {A : Type ℓ} → (A → A → Bool) → A → List A → List A
insert less x [] = x ∷ []
insert less x (y ∷ ys) = let rest = insert less x ys in if less y x then y ∷ rest else x ∷ y ∷ ys

-- sort.Sort, and heap.Init with the heap as a sorted list; elements that `less` does not tell
-- apart may come in another order in Go.
unfoldable pub sort_list {ℓ} : {A : Type ℓ} → (A → A → Bool) → List A → List A
unfolding insert
sort_list less [] = []
sort_list less (x ∷ xs) = insert less x (sort_list less xs)

-- BytesLess
unfoldable pub bytes_less : Bytes → Bytes → Bool
bytes_less a b = elim (bytes_compare a b) [ Ordering.lt ↦ true | _ ↦ false ]

-- The `n` chunks that `inmemory` sees in the slice.
unfoldable pub chunks : ℕ → ℕ → Bytes → List Bytes
chunks zero size b = []
chunks (suc n) size b = take size b ∷ chunks n size (drop size b)

-- A file of the merge, and the chunk that was read from it last.
pub record Reader : Type 0 where
  pub rest : Bytes
  pub val : Bytes

-- entry.Read; `none` is the end of the file, also in the middle of a chunk.
unfoldable pub read_chunk : ℕ → Reader → Option Reader
read_chunk size e =
    if leb size (length e.rest)
    then some (record { rest = drop size e.rest; val = take size e.rest })
    else none

-- entryHeap.Less
abbrev pub val_less : (Bytes → Bytes → Bool) → Reader → Reader → Bool
val_less less e e' = less e.val e'.val

-- The io.NewSectionReader of each run in the temporary file.
unfoldable pub sections : ℕ → List ℕ → Bytes → List Bytes
sections total [] file = []
sections total (size ∷ sizes) file = slice total size file ∷ sections (total + size) sizes file

add_reader : Option Reader → Result (List Reader) → Result (List Reader)
add_reader none r = err empty_file
add_reader (some e) (ok es) = ok (e ∷ es)
add_reader (some e) (err x) = err x
add_reader (some e) panic = panic

-- The first chunk of each file.
unfoldable pub start_readers : ℕ → List Bytes → Result (List Reader)
unfolding add_reader
start_readers size [] = ok []
start_readers size (file ∷ files) =
    add_reader (read_chunk size (record { rest = file; val = replicate size 0 }))
      (start_readers size files)

-- `sorted` over the state `S` of the writer that it wraps.
pub record Sorter (S : Type 0) : Type 0 where
  pub tmpfile : Sink
  pub out : S
  pub mem_limit : ℕ
  pub chunk_size : ℕ
  pub sizes : List ℕ
  pub vals : Bytes

-- New
unfoldable pub new_sorter : {S : Type 0} → S → ℕ → ℕ → Sink → Sorter S
new_sorter out chunk_size mem_limit tmpfile = record {
  tmpfile = tmpfile;
  out = out;
  mem_limit = mem_limit;
  chunk_size = chunk_size;
  sizes = [];
  vals = [];
}

crash_if : {S : Type 0} → Bool → M S (Unit {0})
crash_if true s = crash
crash_if false s = done tt s

module _ {S : Type 0} where
  abbrev on_tmpfile : M Sink (Unit {0}) → M (Sorter S) (Unit {0})
  on_tmpfile = on (λ s. s.tmpfile) (λ s t. record s { tmpfile = t })

  abbrev pub on_out : M S (Unit {0}) → M (Sorter S) (Unit {0})
  on_out = on (λ s. s.out) (λ s o. record s { out = o })

  sort_vals : (Bytes → Bytes → Bool) → Sorter S → Sorter S
  sort_vals less s = record s {
    vals = concat (sort_list less (chunks (length s.vals / s.chunk_size) s.chunk_size s.vals));
  }

  -- flush; a chunk size of 0 is a division by zero.
  pub flush : (Bytes → Bytes → Bool) → M (Sorter S) (Unit {0})
  unfolding crash_if sort_vals
  flush less = do
    s ← get
    crash_if (s.chunk_size == 0)
    fail_if (not (length s.vals % s.chunk_size == 0)) unaligned
    modify (sort_vals less)
    sorted ← get
    on_tmpfile (put_full sorted.vals)
    modify (λ t. record t { sizes = t.sizes ++ length t.vals ∷ []; vals = [] })

  -- sorted.Write
  unfoldable pub add : (Bytes → Bytes → Bool) → Bytes → M (Sorter S) ℕ
  unfolding flush
  add less b = do
    modify (λ s. record s { vals = s.vals ++ b })
    s ← get
    when (leb s.mem_limit (length s.vals)) (flush less)
    pure (length b)

-- The writer that is wrapped: its Write and its Close.
module _ {S : Type 0} (less : Bytes → Bytes → Bool) (write : Bytes → M S ℕ)
    (close : M S (Unit {0})) where
  unfoldable pub put_item : Bytes → M S (Unit {0})
  put_item b = do n ← write b; fail_if (not (n == length b)) short_write

  -- The loop of finalSort: heap.Pop, a write, and heap.Push or the end. Each round takes a chunk.
  unfoldable pub merge_loop : ℕ → ℕ → List Reader → M S (Unit {0})
  merge_loop zero size es = λ s. crash
  merge_loop (suc fuel) size [] = λ s. crash
  merge_loop (suc fuel) size (e ∷ es) = do
    put_item e.val
    elim (read_chunk size e) [
      | some e' ↦ merge_loop fuel size (insert (val_less less) e' es)
      | none ↦ if length es == 0 then pure tt else merge_loop fuel size es
    ]

  start_merge : ℕ → ℕ → Result (List Reader) → M S (Unit {0})
  unfolding merge_loop
  start_merge fuel size (ok es) s = merge_loop fuel size (sort_list (val_less less) es) s
  start_merge fuel size (err x) s = fail x s
  start_merge fuel size panic s = crash

  -- finalSort, with a round for each byte of the files, and one.
  unfoldable pub final_sort : ℕ → List Bytes → M S (Unit {0})
  unfolding start_merge
  final_sort size [] = pure tt
  final_sort size (file ∷ files) =
      start_merge (suc (length (concat (file ∷ files)))) size (start_readers size (file ∷ files))

  -- sorted.Close
  unfoldable pub close_sorter : M (Sorter S) (Unit {0})
  close_sorter = do
    s ← get
    when (ltb 0 (length s.vals)) (flush less)
    modify (λ t. record t { vals = [] })
    t ← get
    on_out (final_sort t.chunk_size (sections 0 t.sizes t.tmpfile.out))
    on_out close

  -- A client's calls of Write.
  unfoldable pub add_each : List Bytes → M (Sorter S) (Unit {0})
  add_each [] = pure tt
  add_each (x ∷ xs) = do add less x; add_each xs

  -- What it is to write a chunk: the writer takes all of it, or there is an error.
  unfoldable pub put_whole : Bytes → M S (Unit {0})
  put_whole b s = elim (write b s) [
    | done n t ↦ if n == length b then done tt t else fail short_write t
    | fail e t ↦ fail e t
    | crash ↦ crash
  ]

  unfoldable pub put_each : List Bytes → M S (Unit {0})
  put_each [] = pure tt
  put_each (x ∷ xs) = do put_whole x; put_each xs

  -- All the chunks, then Close.
  unfoldable pub sort_all : List Bytes → M (Sorter S) (Unit {0})
  sort_all xs = do add_each xs; close_sorter
