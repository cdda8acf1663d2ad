-- ===== src/Fastmap/Inline.antt =====
-- fastmap/multimap.go, the inliners: a short list of values is kept in the container itself.
pub mod Values
use sialite.Base.{
  ℕ, zero, suc, ◌*◌, Bool, true, false, ◌||◌, [], ◌∷◌, Bytes, length, take, drop, replicate, copy,
  copy_at, bytes_eq, ◌==◌, ltb, if◌then◌else◌, Result, ok, err, panic, bad_inline_value,
}

-- The interfaces Inliner and Uninliner, with their two implementations.
pub data Inliner : Type 0 where
  no_inliner : Inliner
  ffoo : ℕ → Inliner

-- NewFFOOInliner
pub new_ffoo_inliner : ℕ → Result Inliner
new_ffoo_inliner value_len =
    if ltb value_len 1 || ltb 4 value_len then panic else ok (ffoo value_len)

abbrev pub oooo : Bytes
oooo = replicate 8 0

abbrev pub ffff : Bytes
ffff = replicate 8 0xFF

-- The loop over the values: whether one is all FF or all zero. A value that sticks out of the
-- slice is a panic in Go; the writer appends whole values only. A round takes a value.
pub has_special : ℕ → ℕ → Bytes → Bool
has_special zero value_len values = false
has_special (suc fuel) value_len [] = false
has_special (suc fuel) value_len (b ∷ values) =
    let value = take value_len (b ∷ values) in
    let rest = has_special fuel value_len (drop value_len (b ∷ values)) in
    if bytes_eq value (take value_len ffff) || bytes_eq value (take value_len oooo)
    then true
    else rest

-- What Inline returns, with the container as it leaves it.
pub record Inlined : Type 0 where
  pub is_inlined : Bool
  pub container : Bytes

-- FFOOInliner.Inline
pub inline_ffoo : ℕ → Bytes → Bytes → Bytes → Result Inlined
unfolding has_special
inline_ffoo value_len container values offset =
    if has_special (length values) value_len values
    then err bad_inline_value
    else if length values == value_len
    then ok (record {
      is_inlined = true;
      container = copy_at value_len (copy container (take value_len ffff)) values;
    })
    else if length values == 2 * value_len
    then ok (record { is_inlined = true; container = copy container values })
    else ok (record {
      is_inlined = false;
      container = copy_at value_len (copy container (take value_len oooo)) offset;
    })

-- Inline of either implementation
unfoldable pub inline : Inliner → Bytes → Bytes → Bytes → Result Inlined
unfolding inline_ffoo
inline no_inliner container values offset =
    ok (record { is_inlined = false; container = copy container offset })
inline (ffoo value_len) container values offset = inline_ffoo value_len container values offset

-- Uninline of either implementation: the values if they are inlined, else the offset. A container
-- shorter than a value is a panic in Go; the readers pass containers of two values.
unfoldable pub uninline : Inliner → Bytes → Bool × Bytes
uninline no_inliner container = (false, container)
uninline (ffoo value_len) container =
    if bytes_eq (take value_len container) (take value_len oooo)
    then (false, drop value_len container)
    else if bytes_eq (take value_len container) (take value_len ffff)
    then (true, drop value_len container)
    else (true, container)
