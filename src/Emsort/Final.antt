-- ===== src/Emsort/Final.antt =====
-- finalSort writes the merge of the runs.
use mathlib.Core.Path.{fun_ext}
use sialite.Base.{
  true, not, ap₂, if◌then◌else◌, Outcome, done, fail, crash, short_write, fail_if, pure, ◌>>◌,
  concat-append, ℕ, zero, suc, ◌+◌, ◌≤◌, ◌<◌, ◌≡◌, refl, sym, ap, ◌∙◌, Bool, false, List, [], ◌∷◌,
  ◌++◌, map, append_assoc, All, All-append, Bytes, length, slice_mid, concat, replicate,
  length-append, ◌==◌, ok, M, arith,
}
use mathlib.Core.List.{Permᴰ}
use mathlib.Core.List.Permᴰ as Permᴰ
use sialite.Emsort.{
  insert, sort_list, val_less, sections, start_readers, put_item, merge_loop, start_merge,
  final_sort, put_each, put_whole,
}
use sialite.Emsort.Order.{
  Permᴰ-All, Permᴰ-length, insert-Permᴰ, sort_list-Permᴰ, sort_list-IsSorted, IsSorted, IsOrder,
}
use sialite.Emsort.Merge.{
  Run, items, bytes, flat, head_less, reader, IsSized, merged, merged-Permᴰ, merged-IsSorted,
  head_less-IsOrder, bind_ext, insert-flat, reader-insert, read_next, read_end,
}

module _ (size : ℕ) (pos : 0 < size) (less : Bytes → Bytes → Bool) {S : Type 0}
    (write : Bytes → M S ℕ) (close : M S (Unit {0})) where
  insert_some : (r : Run) (rs : List Run) → 0 < length (insert (head_less less) r rs)
  insert_some r rs = omega (arith, Permᴰ-length (insert-Permᴰ (head_less less) r rs))

  merged_nil : (fuel : ℕ) → merged less fuel [] ≡ []
  unfolding merged
  merged_nil zero = refl
  merged_nil (suc fuel) = refl

  not_zero : (n : ℕ) → (suc n == 0) ≡ false
  not_zero n = ground arith

  put_items : List Bytes → M S (Unit {0})
  put_items [] = pure tt
  put_items (x ∷ xs) = do put_item less write close x; put_items xs

  either :
      (q : Bool) (t : S)
      → ◌≡◌ {A = Outcome S (Unit {0})}
          (fail_if (not q) short_write t)
          (if q then done tt t else fail short_write t)
  either true t = refl
  either false t = refl

  item-whole : (b : Bytes) (s : S) → put_item less write close b s ≡ put_whole less write close b s
  unfolding put_item put_whole
  item-whole b s = go (write b s)
    where
      go :
          (o : Outcome S ℕ)
          → ◌≡◌ {A = Outcome S (Unit {0})}
              (elim o [
                | done n t ↦ fail_if (not (n == length b)) short_write t
                | fail e t ↦ fail e t
                | crash ↦ crash
              ])
              (elim o [
                | done n t ↦ (if n == length b then done tt t else fail short_write t)
                | fail e t ↦ fail e t
                | crash ↦ crash
              ])
      go (done n t) = either (n == length b) t
      go (fail e t) = refl
      go crash = refl

  items-each : (xs : List Bytes) → put_items xs ≡ put_each less write close xs
  unfolding put_items put_each
  items-each [] = refl
  items-each (x ∷ xs) = ap₂ ◌>>◌ (fun_ext (item-whole x)) (items-each xs)

  merge_loop-items :
      (fuel : ℕ) (rs : List Run)
      → 0 < length rs
      → length (flat rs) ≤ fuel
      → All (IsSized size pos less) rs
      → (s : S)
      → merge_loop less write close fuel size (map reader rs) s ≡ put_items (merged less fuel rs) s
  unfolding merge_loop put_items merged
  merge_loop-items zero [] more le h s = absurd (omega arith)
  merge_loop-items zero (r ∷ rs) more le h s = absurd (omega arith)
  merge_loop-items (suc fuel) [] more le h s = absurd (omega arith)
  merge_loop-items (suc fuel) ((x, []) ∷ []) more le h s =
      bind_ext (put_item less write close x) _ _
        (λ a s'. rw (read_end size pos less x, merged_nil fuel) refl) s
  merge_loop-items (suc fuel) ((x, []) ∷ r ∷ rs) more le h s =
      bind_ext (put_item less write close x) _ _
        (λ a s'.
          rw (read_end size pos less x, not_zero (length (map reader rs)))
            (merge_loop-items fuel (r ∷ rs) (omega arith) (omega arith) h.1 s'))
        s
  merge_loop-items (suc fuel) ((x, y ∷ ys) ∷ rs) more le h s =
      let rs' = insert (head_less less) (y, ys) rs in
      bind_ext (put_item less write close x) _ _
        (λ a s'.
          rw (read_next size pos less x x y ys h.0.1.0, reader-insert size pos less (y, ys) rs)
            (merge_loop-items fuel rs' (insert_some (y, ys) rs)
              (omega (arith, Permᴰ-length (insert-flat less (y, ys) rs)))
              (Permᴰ-All (IsSized size pos less)
                (Permᴰ.symm (insert-Permᴰ (head_less less) (y, ys) rs)) (h.0.1, h.1))
              s'))
        s

  merge_loop-merged :
      (fuel : ℕ) (rs : List Run)
      → 0 < length rs
      → length (flat rs) ≤ fuel
      → All (IsSized size pos less) rs
      → (s : S)
      → merge_loop less write close fuel size (map reader rs) s
        ≡ put_each less write close (merged less fuel rs) s
  merge_loop-merged fuel rs more le h s =
      merge_loop-items fuel rs more le h s ∙ ap (λ m. m s) (items-each (merged less fuel rs))

  reader-sort_list :
      (rs : List Run)
      → sort_list (val_less less) (map reader rs) ≡ map reader (sort_list (head_less less) rs)
  unfolding sort_list
  reader-sort_list [] = refl
  reader-sort_list (r ∷ rs) =
      ap (insert (val_less less) (reader r)) (reader-sort_list rs)
      ∙ reader-insert size pos less r (sort_list (head_less less) rs)

  start_readers-map :
      (rs : List Run)
      → All (IsSized size pos less) rs
      → start_readers size (map bytes rs) ≡ ok (map reader rs)
  unfolding start_readers
  start_readers-map [] h = refl
  start_readers-map (r ∷ rs) h =
      rw
        (
          read_next size pos less (replicate size 0) (replicate size 0) r.0 r.1 h.0.0,
          start_readers-map rs h.1,
        )
        refl

  pub sections-bytes :
      (before : Bytes) (rs : List Run)
      → sections (length before) (map (λ r. length (bytes r)) rs) (before ++ concat (map bytes rs))
        ≡ map bytes rs
  unfolding sections
  sections-bytes before [] = refl
  sections-bytes before (r ∷ rs) =
      let total : length before + length (bytes r) ≡ length (before ++ bytes r) =
        sym (length-append before (bytes r)) in
      rw
        (
          slice_mid (length before) (length (bytes r)) before (bytes r) (concat (map bytes rs)) refl
              refl,
          total,
          ← append_assoc before (bytes r) (concat (map bytes rs)),
        )
        (ap (◌∷◌ (bytes r)) (sections-bytes (before ++ bytes r) rs))

  bytes-flat : (rs : List Run) → concat (map bytes rs) ≡ concat (flat rs)
  bytes-flat [] = refl
  bytes-flat (r ∷ rs) =
      ap (◌++◌ (bytes r)) (bytes-flat rs) ∙ sym (concat-append (items r) (flat rs))

  length-concat_le :
      (xs : List Bytes) → All (λ x. length x ≡ size) xs → length xs ≤ length (concat xs)
  length-concat_le [] h = omega arith
  length-concat_le (x ∷ xs) h =
      omega (arith, length-append x (concat xs), length-concat_le xs h.1, h.0)

  pub flat_sized :
      (rs : List Run) → All (IsSized size pos less) rs → All (λ x. length x ≡ size) (flat rs)
  flat_sized [] h = tt
  flat_sized (r ∷ rs) h =
      All-append (λ x. length x ≡ size) (items r) (flat rs) h.0 (flat_sized rs h.1)

  -- The chunks that finalSort writes, in their order.
  abbrev pub output : List Run → List Bytes
  output rs = merged less (suc (length (concat (map bytes rs)))) (sort_list (head_less less) rs)

  sort_list-flat : (rs : List Run) → Permᴰ (flat (sort_list (head_less less) rs)) (flat rs)
  unfolding sort_list
  sort_list-flat [] = Permᴰ.nil
  sort_list-flat (r ∷ rs) =
      Permᴰ.trans (insert-flat less r (sort_list (head_less less) rs))
        (Permᴰ.append_left (items r) (sort_list-flat rs))

  fuel_enough :
      (rs : List Run)
      → All (IsSized size pos less) rs
      → length (flat (sort_list (head_less less) rs)) ≤ suc (length (concat (map bytes rs)))
  fuel_enough rs h = omega (
    arith,
    Permᴰ-length (sort_list-flat rs),
    length-concat_le (flat rs) (flat_sized rs h),
    ap length (bytes-flat rs),
  )

  pub final_sort-output :
      (rs : List Run)
      → All (IsSized size pos less) rs
      → (s : S)
      → final_sort less write close size (map bytes rs) s ≡ put_each less write close (output rs) s
  unfolding final_sort start_merge put_each merged sort_list
  final_sort-output [] h s = refl
  final_sort-output (r ∷ rs) h s =
      let sized =
        Permᴰ-All (IsSized size pos less) (Permᴰ.symm (sort_list-Permᴰ (head_less less) (r ∷ rs)))
          h in
      rw (start_readers-map (r ∷ rs) h, reader-sort_list (r ∷ rs))
        (merge_loop-merged _ (sort_list (head_less less) (r ∷ rs))
          (insert_some r (sort_list (head_less less) rs)) (fuel_enough (r ∷ rs) h) sized s)

  pub output-Permᴰ : (rs : List Run) → All (IsSized size pos less) rs → Permᴰ (output rs) (flat rs)
  output-Permᴰ rs h =
      Permᴰ.trans (merged-Permᴰ less _ (sort_list (head_less less) rs) (fuel_enough rs h))
        (sort_list-flat rs)

  pub output-IsSorted :
      IsOrder less
      → (rs : List Run) → All (IsSized size pos less) rs
      → All (λ r. IsSorted less (items r)) rs
      → IsSorted less (output rs)
  output-IsSorted o rs h k =
      merged-IsSorted less o _ (sort_list (head_less less) rs) (fuel_enough rs h)
        (sort_list-IsSorted (head_less less) (head_less-IsOrder less o) rs)
        (Permᴰ-All (λ r. IsSorted less (items r)) (Permᴰ.symm (sort_list-Permᴰ (head_less less) rs))
          k)
