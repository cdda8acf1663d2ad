-- ===== src/Flatedict/Tests.antt =====
-- A counter of a few tiles.
use sialite.Base.{
  ℕ, ◌≡◌, refl, List, [], ◌∷◌, ◌++◌, Bytes, length, replicate, M, Outcome, done, fail, crash,
  Option, some, none, bytes_eq, bytes_compare, arith,
}
use sialite.Flatedict.{Counter}
use sialite.Flatedict.Tiles.{add_sample, tiles_of, add_sample-tiles}
use sialite.Flatedict.Runs.{runs}
use sialite.Flatedict.Counting.{emit, emit_all, seen, feed, feed-Counted}
use sialite.Fastmap.Sink.{buffer, put_full, close}
use sialite.Fastmap.Writer.{MapWriter, new_map_writer, write, close_map}

-- A sort that keeps the chunks.
abbrev keep : Bytes → M (List Bytes) ℕ
keep r rs = done (length r) (rs ++ (r ∷ []))

abbrev tiles : List Bytes
tiles = (1 ∷ 2 ∷ []) ∷ (1 ∷ 2 ∷ []) ∷ (3 ∷ 4 ∷ []) ∷ []

-- Pages of two tiles, and two files that accept.
abbrev fresh : Counter MapWriter (List (Bytes × ℕ))
fresh = record {
  map_writer = new_map_writer 6 2 1 2 buffer buffer;
  key = 0 ∷ 0 ∷ [];
  counter_full = replicate 8 0;
  count = 0;
  called = [];
}

-- A callback that keeps what it is given.
abbrev keep_keys : Bytes → ℕ → List (Bytes × ℕ) → List (Bytes × ℕ)
keep_keys k n l = l ++ ((k, n) ∷ [])

runs-eq : runs tiles ≡ (1 ∷ 2 ∷ [], 2) ∷ (3 ∷ 4 ∷ [], 1) ∷ []
unfolding runs sialite.Flatedict.Runs.merge sialite.Base.bytes_eq
runs-eq = refl

feed-Counted_example :
    seen write close_map 1 1 keep_keys (feed write close_map 1 1 keep_keys tiles fresh)
    ≡ emit_all write close_map 1 1 keep_keys (runs tiles) (fresh.map_writer, [])
feed-Counted_example =
    feed-Counted write close_map 1 1 keep_keys tiles 2 fresh refl refl (omega arith) (omega arith)
      (refl, (refl, (refl, tt))) (omega arith) (omega arith)

-- What the page, the prefixes and the callback have in the end.
abbrev kept :
    Outcome (MapWriter × List (Bytes × ℕ)) (Unit {0}) → Option (Bytes × Bytes × List (Bytes × ℕ))
kept (done a o) = some (o.0.pages_out.out, o.0.prefixes_out.out, o.1)
kept (fail e o) = none
kept crash = none

feed-eq :
    kept (emit_all write close_map 1 1 keep_keys (runs tiles) (fresh.map_writer, []))
    ≡ some (1 ∷ 2 ∷ 3 ∷ 4 ∷ 2 ∷ 1 ∷ [], 1 ∷ 2 ∷ [], (1 ∷ 2 ∷ [], 2) ∷ (3 ∷ 4 ∷ [], 1) ∷ [])
unfolding emit_all emit runs sialite.Flatedict.Runs.merge write new_map_writer close_map put_full
    close bytes_eq bytes_compare sialite.Base.copy_at sialite.Base.fill_ff sialite.Base.put_le
feed-eq = refl

abbrev sample : Bytes
sample = 1 ∷ 2 ∷ 3 ∷ 4 ∷ 5 ∷ []

-- Of the tiles 1 2, 2 3 and 3 4 of the first four bytes, the last is left out.
tiles-eq : tiles_of 2 (1 ∷ 2 ∷ 3 ∷ 4 ∷ []) ≡ (1 ∷ 2 ∷ []) ∷ (2 ∷ 3 ∷ []) ∷ []
unfolding tiles_of
tiles-eq = refl

add_sample-tiles_example :
    add_sample keep 2 4 sample [] ≡ done tt ((1 ∷ 2 ∷ []) ∷ (2 ∷ 3 ∷ []) ∷ [])
unfolding tiles_of
add_sample-tiles_example =
    add_sample-tiles keep 2 4 (λ r rs. rs ++ (r ∷ [])) (λ r rs. refl) sample []
