-- ===== src/Fastmap/MultiMap.antt =====
-- fastmap/multimap.go, MultiMap: the reader.
use sialite.Base.{
  ℕ, ◌+◌, ◌-◌, ◌*◌, ◌%◌, ◌^◌, Bool, true, false, Option, none, some, Bytes, length, drop, replicate,
  slice, copy, get_le, uvarint, ltb, leb, if◌then◌else◌, Result, ok, err, panic, bad_varint,
  too_large_size,
}
use sialite.Fastmap.Map.{Map, open_map, lookup}
use sialite.Fastmap.Inline.{Inliner, uninline}

pub record MultiMap : Type 0 where
  pub fm : Map
  pub values : Bytes
  pub value_len : ℕ
  pub uninliner : Inliner

opened : Bytes → ℕ → Inliner → Result Map → Result MultiMap
opened values value_len u (ok fm) =
    ok (record { fm = fm; values = values; value_len = value_len; uninliner = u })
opened values value_len u (err e) = err e
opened values value_len u panic = panic

-- OpenMultiMap
unfoldable pub open_multi_map : ℕ → ℕ → ℕ → ℕ → Bytes → Bytes → Bytes → Inliner → Result MultiMap
unfolding opened
open_multi_map page_len key_len value_len container_len pages prefixes values u =
    opened values value_len u (open_map page_len key_len container_len pages prefixes)

-- `u.values[dataStart:dataEnd]`; `int` has 64 bits, and an end below 0 or the start panics.
unfoldable pub cut_values : Bytes → ℕ → ℕ → Result (Option Bytes)
cut_values values start end =
    if leb (2 ^ 63) end
    then panic
    else if ltb (length values) end
    then err too_large_size
    else if ltb end start
    then panic
    else ok (some (slice start (end - start) values))

unfoldable pub counted : MultiMap → ℕ → Option (ℕ × ℕ) → Result (Option Bytes)
unfolding cut_values
counted u len_pos none = err bad_varint
counted u len_pos (some (size, l)) =
    cut_values u.values (len_pos + l) ((len_pos + l + size * u.value_len) % 2 ^ 64)

-- The no-inline case: the values that the offset leads to.
unfoldable pub read_values : MultiMap → Bytes → Result (Option Bytes)
unfolding counted
read_values u offset =
    let len_pos = get_le (copy (replicate 8 0) offset) in
    if ltb (length u.values) len_pos
    then panic
    else counted u len_pos (uvarint (drop len_pos u.values))

from_container : MultiMap → Bool × Bytes → Result (Option Bytes)
unfolding read_values
from_container u (true, values) = ok (some values)
from_container u (false, offset) = read_values u offset

from_lookup : MultiMap → Result (Option Bytes) → Result (Option Bytes)
unfolding from_container
from_lookup u (ok (some container)) = from_container u (uninline u.uninliner container)
from_lookup u (ok none) = ok none
from_lookup u (err e) = err e
from_lookup u panic = panic

-- MultiMap.Lookup
unfoldable pub multi_lookup : MultiMap → Bytes → Result (Option Bytes)
unfolding from_lookup
multi_lookup u key = from_lookup u (lookup u.fm key)
