-- ===== src/Emsort/Sorting.antt =====
-- A whole sort: a Write for each chunk, and Close.
use mathlib.Core.List.{Permᴰ, Perm}
use sialite.Base.{
  ℕ, ◌<◌, ◌≡◌, refl, sym, ap, subst, ◌∙◌, Bool, true, false, List, [], ◌∷◌, ◌++◌, map, append_assoc,
  append-nil, mul_lt, Bytes, length, concat, ltb, lt→ltb, M, Outcome, done, fail, crash, ◌>>◌,
  arith,
}
use sialite.Fastmap.Sink.{Sink}
use sialite.Emsort.{
  Sorter, new_sorter, final_sort, sections, close_sorter, sort_all, add_each, put_each, on_out,
}
use sialite.Emsort.Order.{IsSorted, IsOrder}
use sialite.Emsort.Merge.{bytes, flat}
use sialite.Emsort.Final.{output, final_sort-output, output-Permᴰ, output-IsSorted, sections-bytes}
use sialite.Emsort.Runs.{
  Keeps, AllSized, length-concat, add-Keeps, flushed, flush_run, flushed-Keeps,
}

on_out-bind :
    {S : Type 0} (m k : M S (Unit {0})) (t : Sorter S)
    → (on_out m >> on_out k) t ≡ on_out (m >> k) t
on_out-bind {S} m k t = go (m t.out)
  where
    go : (o : Outcome S (Unit {0})) → (on_out (λ _. o) >> on_out k) t ≡ on_out ((λ _. o) >> k) t
    go (done a s) = refl
    go (fail e s) = refl
    go crash = refl

module _ (size : ℕ) (pos : 0 < size) (less : Bytes → Bytes → Bool) (o : IsOrder less) {S : Type 0}
    (write : Bytes → M S ℕ) (close : M S (Unit {0})) where
  add_each-Keeps :
      (out : S) (ys xs : List Bytes) (s : Sorter S)
      → Keeps size pos less o out xs s
      → AllSized size ys
      → (s' : Sorter S) × (add_each less write close ys s ≡ done tt s')
        × Keeps size pos less o out (xs ++ ys) s'
  unfolding add_each
  add_each-Keeps out [] xs s h a =
      (s, refl, subst (λ xs. Keeps size pos less o out xs s) (sym (append-nil xs)) h)
  add_each-Keeps out (y ∷ ys) xs s h a =
      let (t, run, k) = add-Keeps size pos less o out xs s y h a.0 in
      let (t', run', k') = add_each-Keeps out ys (xs ++ y ∷ []) t k a.1 in
      (
        t',
        ground (arith, run, run'),
        subst (λ xs. Keeps size pos less o out xs t') (append_assoc xs (y ∷ []) ys) k',
      )

  -- What a sort comes to: the chunks in order, written one by one, and the Close of the writer.
  pub record Sorts (xs : List Bytes) (out : S) (r : Outcome (Sorter S) (Unit {0})) : Type 0 where
    pub ys : List Bytes
    pub end : Sorter S
    pub same : Perm ys xs
    pub sorted : IsSorted less ys
    pub writer : end.out ≡ out
    pub run : r ≡ on_out (do put_each less write close ys; close) end

  -- Close, when nothing is in memory.
  close_start :
      (s : Sorter S)
      → length s.vals ≡ 0
      → close_sorter less write close s
        ≡ (do
          on_out (final_sort less write close s.chunk_size (sections 0 s.sizes s.tmpfile.out))
          on_out close)
            (record s { vals = [] })
  unfolding close_sorter
  close_start s e =
      let none_left : ltb 0 (length s.vals) ≡ false = ground arith in rw none_left refl

  close_flushed :
      (out : S) (xs : List Bytes) (s : Sorter S) (k : Keeps size pos less o out xs s)
      → k.pending ≡ []
      → close_sorter less write close s
        ≡ on_out
            (do put_each less write close (output size pos less write close k.runs); close)
            (record s { vals = [] })
  close_flushed out xs s k e =
      let t : Sorter S = record s { vals = [] } in
      let files : sections 0 s.sizes s.tmpfile.out ≡ map bytes k.runs =
        rw (k.sizes, k.file) (sections-bytes size pos less write close [] k.runs) in
      let final : final_sort less write close s.chunk_size (sections 0 s.sizes s.tmpfile.out) s.out
          ≡ put_each less write close (output size pos less write close k.runs) s.out =
        rw (files, k.chunk_size)
          (final_sort-output size pos less write close k.runs k.runs_sized s.out) in
      close_start s (ap length (k.vals ∙ ap concat e))
      ∙ on_out-bind (final_sort less write close s.chunk_size (sections 0 s.sizes s.tmpfile.out))
          close t
      ∙ ap (λ (r : Outcome S (Unit {0})). on_out ((λ _. r) >> close) t) final

  -- Close flushes what is in memory.
  close_pending :
      (out : S) (xs : List Bytes) (s : Sorter S) (k : Keeps size pos less o out xs s)
      → 0 < length k.pending
      → close_sorter less write close s
        ≡ close_sorter less write close (flushed size pos less o out xs s k)
  unfolding close_sorter
  close_pending out xs s k more =
      let more' = mul_lt 0 (length k.pending) size pos more in
      let some_vals : ltb 0 (length s.vals) ≡ true =
        lt→ltb 0 (length s.vals)
          (omega (arith, more', ap length k.vals, length-concat size k.pending k.sized)) in
      ground (arith, some_vals, flush_run size pos less o out xs s k)

  ending :
      (out : S) (xs : List Bytes) (s : Sorter S) (k : Keeps size pos less o out xs s)
      → k.pending ≡ []
      → Sorts xs out (close_sorter less write close s)
  ending out xs s k e = record {
    ys = output size pos less write close k.runs;
    end = record s { vals = [] };
    same =
        ∣ Permᴰ.trans (output-Permᴰ size pos less write close k.runs k.runs_sized) (
          subst (λ zs. Permᴰ zs xs) (ap (◌++◌ (flat k.runs)) e ∙ append-nil (flat k.runs))
            k.perm) ∣₁;
    sorted = output-IsSorted size pos less write close o k.runs k.runs_sized k.sorted;
    writer = k.same_out;
    run = close_flushed out xs s k e;
  }

  close_sorter-Sorts :
      (out : S) (xs : List Bytes) (s : Sorter S)
      → Keeps size pos less o out xs s
      → Sorts xs out (close_sorter less write close s)
  close_sorter-Sorts out xs s k = go k.pending refl
    where
      go : (p : List Bytes) → k.pending ≡ p → Sorts xs out (close_sorter less write close s)
      go [] e = ending out xs s k e
      go (p ∷ ps) e =
          let more : 0 < length k.pending = omega (arith, ap length e) in
          let (k', e') = flushed-Keeps size pos less o out xs s k more in
          subst (Sorts xs out) (sym (close_pending out xs s k more))
            (ending out xs (flushed size pos less o out xs s k) k' e')

  -- Chunks of one length, in any order, are written to a fresh sorter with any memory limit and
  -- an empty temporary file that takes what it is given, and the sorter is closed. What happens
  -- is, to the last error, that the wrapped writer is given the chunks one by one in a sorted
  -- order, the same chunks with the same repetitions, and is closed.
  pub sort_all-Sorts :
      (out : S) (mem_limit : ℕ) (tmpfile : Sink) (xs : List Bytes)
      → tmpfile.out ≡ []
      → tmpfile.plan ≡ []
      → AllSized size xs
      → Sorts xs out (sort_all less write close xs (new_sorter out size mem_limit tmpfile))
  unfolding sort_all new_sorter
  sort_all-Sorts out mem_limit tmpfile xs e plan a =
      let start : Keeps size pos less o out [] (new_sorter out size mem_limit tmpfile) = record {
        runs = [];
        pending = [];
        plan = plan;
        file = e;
        sizes = refl;
        vals = refl;
        same_out = refl;
        chunk_size = refl;
        runs_sized = tt;
        sized = tt;
        sorted = tt;
        perm = Permᴰ.nil;
      } in
      let (s, run, k) = add_each-Keeps out xs [] (new_sorter out size mem_limit tmpfile) start a in
      subst (Sorts xs out) (ground (arith, run)) (close_sorter-Sorts out xs s k)
