-- ===== src/Flatedict.antt =====
-- flatedict/build.go: the counter between the sort and the map of a dictionary.
pub mod Runs
pub mod Tiles
pub mod Counting
mod Tests
use sialite.Base.{
  ℕ, zero, suc, ◌+◌, ◌-◌, ◌%◌, ◌^◌, Bool, true, false, not, List, [], ◌∷◌, ◌++◌, Bytes, length,
  take, drop, replicate, copy, put_le, bytes_eq, ◌==◌, ltb, if◌then◌else◌, M, done, fail, crash,
  Error, counter_overflow, get, modify, fail_if, on, pure, ◌>>=◌, ◌>>◌,
}

-- The counter; `record` is the key and the first bytes of `counter_full` behind it, and `tail` the
-- others. With it what the callback keeps.
pub record Counter (W : Type 0) (S : Type 0) : Type 0 where
  pub map_writer : W
  pub key : Bytes
  pub counter_full : Bytes
  pub count : ℕ
  pub called : S

-- Write and Close of the map's writer, and the callback.
module _ {W : Type 0} {S : Type 0} (write_map : Bytes → M W ℕ) (close_map : M W (Unit {0}))
    (counter_len min_count : ℕ) (callback : Bytes → ℕ → S → S) where
  abbrev on_map {ℓ} : {A : Type ℓ} → M W A → M (Counter W S) A
  on_map = on (λ c. c.map_writer) (λ c w. record c { map_writer = w })

  -- The part of dump below the test of the count.
  unfoldable pub dump_record : M (Counter W S) (Unit {0})
  dump_record = do
    modify (λ c. record c { counter_full = put_le 8 c.count })
    c ← get
    fail_if (not (bytes_eq (drop counter_len c.counter_full) (replicate (8 - counter_len) 0)))
        counter_overflow
    n ← on_map (write_map (c.key ++ take counter_len c.counter_full))
    modify (λ c. record c { called = callback c.key c.count c.called })

  -- dump
  unfoldable pub dump_count : M (Counter W S) (Unit {0})
  dump_count c = if ltb c.count min_count then done tt c else dump_record c

  -- `copy(c.key, b); c.count = 1`
  abbrev pub start_key : Bytes → Counter W S → Counter W S
  start_key b c = record c { key = copy c.key b; count = 1 }

  -- Write
  unfoldable pub count_write : Bytes → M (Counter W S) ℕ
  count_write b c =
      if c.count == 0
      then done (length b) (start_key b c)
      else if bytes_eq b c.key
      then done (length b) (record c { count = (c.count + 1) % 2 ^ 64 })
      else (do dump_count; modify (start_key b); pure (length b)) c

  -- Close
  unfoldable pub count_close : M (Counter W S) (Unit {0})
  count_close = do dump_count; on_map close_map

  -- The chunks that the sort writes, and then its Close.
  unfoldable pub count_all : List Bytes → M (Counter W S) (Unit {0})
  count_all [] = count_close
  count_all (b ∷ bs) = do count_write b; count_all bs
