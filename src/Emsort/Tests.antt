-- ===== src/Emsort/Tests.antt =====
-- Sorts of concrete chunks.
use sialite.Base.{
  ◌≡◌, refl, ◌<◌, List, [], ◌∷◌, Bytes, Outcome, done, fail, crash, Option, some, none,
  bytes_compare, arith,
}
use sialite.Fastmap.Sink.{Sink, buffer, put, close}
use sialite.Emsort.{
  Sorter, new_sorter, bytes_less, add, add_each, close_sorter, sort_all, put_item, final_sort,
  start_readers, read_chunk, sections, sort_list, chunks,
}
use sialite.Emsort.Less.{bytes_less-IsOrder}
use sialite.Emsort.Sorting.{Sorts, sort_all-Sorts}

abbrev five : List Bytes
five = (3 ∷ 1 ∷ []) ∷ (1 ∷ 9 ∷ []) ∷ (2 ∷ 2 ∷ []) ∷ (1 ∷ 0 ∷ []) ∷ (3 ∷ 1 ∷ []) ∷ []

one_pos : 0 < 2
one_pos = omega arith

sort_all-Sorts_example :
    Sorts 2 one_pos bytes_less bytes_less-IsOrder put close five buffer
      (sort_all bytes_less put close five (new_sorter buffer 2 4 buffer))
sort_all-Sorts_example =
    sort_all-Sorts 2 one_pos bytes_less bytes_less-IsOrder put close buffer 4 buffer five refl refl
      (refl, (refl, (refl, (refl, (refl, tt)))))

abbrev sorted_out : Outcome (Sorter Sink) (Unit {0}) → Option Bytes
sorted_out (done a s) = some s.out.out
sorted_out (fail e s) = none
sorted_out crash = none

-- The chunks come out in order.
sort-five :
    sorted_out (sort_all bytes_less put close five (new_sorter buffer 2 4 buffer))
    ≡ some (1 ∷ 0 ∷ 1 ∷ 9 ∷ 2 ∷ 2 ∷ 3 ∷ 1 ∷ 3 ∷ 1 ∷ [])
unfolding sort_all add_each add new_sorter sialite.Fastmap.Sink.put_full sort_list chunks bytes_less
    bytes_compare close_sorter final_sort sections start_readers read_chunk put_item close
sort-five = refl
