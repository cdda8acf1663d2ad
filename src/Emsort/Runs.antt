-- ===== src/Emsort/Runs.antt =====
-- The runs that Write leaves in the temporary file.
use native.Mathlib.Nat.{mul-div_cancel, mod-add-div'}
use mathlib.Core.List.{Permᴰ, map-append}
use mathlib.Core.List.Permᴰ as Permᴰ
use sialite.Base.{
  ℕ, ◌*◌, ◌/◌, ◌%◌, ◌<◌, ◌≡◌, refl, sym, ap, subst, ◌∙◌, Bool, false, inl, inr, Bool-cases, List,
  [], ◌∷◌, ◌++◌, map, append_assoc, append-nil, All, All-append, Bytes, length, concat,
  concat-append, length-append, take-append, drop-append, ◌==◌, leb, done, arith,
}
use sialite.Fastmap.Sink.{put_full-accepting}
use sialite.Emsort.{sort_list, chunks, Sorter, crash_if, sort_vals, flush, add}
use sialite.Emsort.Order.{
  Permᴰ-All, Permᴰ-length, IsSorted, IsOrder, sort_list-Permᴰ, sort_list-IsSorted,
}
use sialite.Emsort.Merge.{Run, items, bytes, flat}

module _ (size : ℕ) where
  abbrev pub AllSized : List Bytes → Type 0
  AllSized = All (λ x. length x ≡ size)

  pub length-concat : (xs : List Bytes) → AllSized xs → length (concat xs) ≡ length xs * size
  length-concat [] h = omega arith
  length-concat (x ∷ xs) h = omega (arith, length-append x (concat xs), length-concat xs h.1, h.0)

  chunks-concat : (xs : List Bytes) → AllSized xs → chunks (length xs) size (concat xs) ≡ xs
  unfolding chunks
  chunks-concat [] h = refl
  chunks-concat (x ∷ xs) h =
      rw
        (
          take-append size x (concat xs) h.0,
          drop-append size x (concat xs) h.0,
          chunks-concat xs h.1,
        )
        refl

flat-append : (rs : List Run) (r : Run) → flat (rs ++ r ∷ []) ≡ flat rs ++ items r
flat-append [] r = append-nil (items r)
flat-append (r' ∷ rs) r =
    ap (◌++◌ (items r')) (flat-append rs r) ∙ sym (append_assoc (items r') (flat rs) (items r))

as_run : (xs : List Bytes) → 0 < length xs → (r : Run) × (items r ≡ xs)
as_run [] h = absurd (omega arith)
as_run (x ∷ xs) h = ((x, xs), refl)

module _ (size : ℕ) (pos : 0 < size) (less : Bytes → Bytes → Bool) (o : IsOrder less)
    {S : Type 0} where
  -- The chunks `xs` are in the runs and in memory.
  pub record Keeps (out : S) (xs : List Bytes) (s : Sorter S) : Type 0 where
    pub runs : List Run
    pub pending : List Bytes
    pub plan : s.tmpfile.plan ≡ []
    pub file : s.tmpfile.out ≡ concat (map bytes runs)
    pub sizes : s.sizes ≡ map (λ r. length (bytes r)) runs
    pub vals : s.vals ≡ concat pending
    pub same_out : s.out ≡ out
    pub chunk_size : s.chunk_size ≡ size
    pub runs_sized : All (λ r. AllSized size (items r)) runs
    pub sized : AllSized size pending
    pub sorted : All (λ r. IsSorted less (items r)) runs
    pub perm : Permᴰ (flat runs ++ pending) xs

  module _ (out : S) (xs : List Bytes) (s : Sorter S) (h : Keeps out xs s) where
    quotient : length s.vals / s.chunk_size ≡ length h.pending
    quotient =
        rw (h.vals, h.chunk_size, length-concat size h.pending h.sized)
          (mul-div_cancel (length h.pending) pos)

    aligned : length s.vals % s.chunk_size ≡ 0
    aligned =
        let whole = mod-add-div' (length s.vals) s.chunk_size in
        let e : length s.vals / s.chunk_size * s.chunk_size ≡ length h.pending * size =
          rw (quotient, h.chunk_size) refl in
        let e' = length-concat size h.pending h.sized in
        omega (arith, whole, e, e', ap length h.vals)

    abbrev pub sorted_vals : List Bytes
    sorted_vals = sort_list less h.pending

    seen : chunks (length s.vals / s.chunk_size) s.chunk_size s.vals ≡ h.pending
    seen = rw (quotient, h.vals, h.chunk_size) (chunks-concat size h.pending h.sized)

    sort_vals-eq : sort_vals less s ≡ record s { vals = concat sorted_vals }
    unfolding sort_vals
    sort_vals-eq = ap (λ c. record s { vals = concat (sort_list less c) }) seen

    abbrev pub flushed : Sorter S
    flushed = record s {
      tmpfile = record (s.tmpfile) { out = s.tmpfile.out ++ concat sorted_vals };
      sizes = s.sizes ++ length (concat sorted_vals) ∷ [];
      vals = [];
    }

    pub flush_run : flush less s ≡ done tt flushed
    unfolding flush crash_if
    flush_run =
        let some_size : (s.chunk_size == 0) ≡ false = let e = h.chunk_size in ground arith in
        ground (
          arith,
          some_size,
          sort_vals-eq,
          aligned,
          put_full-accepting (concat sorted_vals) s.tmpfile h.plan,
        )

    sorted_sized : AllSized size sorted_vals
    sorted_sized =
        Permᴰ-All (λ x. length x ≡ size) (Permᴰ.symm (sort_list-Permᴰ less h.pending)) h.sized

    pub flushed-Keeps : 0 < length h.pending → (k : Keeps out xs flushed) × (k.pending ≡ [])
    flushed-Keeps more =
        let (r, e) =
          as_run sorted_vals (omega (arith, Permᴰ-length (sort_list-Permᴰ less h.pending))) in
        (
          record {
            runs = h.runs ++ r ∷ [];
            pending = [];
            plan = h.plan;
            file =
                rw
                  (
                    h.file,
                    map-append bytes h.runs (r ∷ []),
                    concat-append (map bytes h.runs) (bytes r ∷ []),
                    append-nil (bytes r),
                  )
                  (ap (λ b. concat (map bytes h.runs) ++ concat b) (sym e));
            sizes =
                rw (h.sizes, map-append (λ r. length (bytes r)) h.runs (r ∷ []))
                  (ap (λ b. map (λ r. length (bytes r)) h.runs ++ length (concat b) ∷ []) (sym e));
            vals = refl;
            same_out = h.same_out;
            chunk_size = h.chunk_size;
            runs_sized =
                All-append (λ r. AllSized size (items r)) h.runs (r ∷ []) h.runs_sized
                  (subst (AllSized size) (sym e) sorted_sized, tt);
            sized = tt;
            sorted =
                All-append (λ r. IsSorted less (items r)) h.runs (r ∷ []) h.sorted
                  (subst (IsSorted less) (sym e) (sort_list-IsSorted less o h.pending), tt);
            perm =
                Permᴰ.trans
                  (subst (λ ys. Permᴰ ys (flat h.runs ++ h.pending))
                    (sym (
                      append-nil (flat (h.runs ++ r ∷ []))
                      ∙ flat-append h.runs r
                      ∙ ap (◌++◌ (flat h.runs)) e))
                    (Permᴰ.append_left (flat h.runs) (sort_list-Permᴰ less h.pending)))
                  h.perm;
          },
          refl,
        )

    abbrev with_chunk : Bytes → Sorter S
    with_chunk x = record s { vals = s.vals ++ x }

    with_chunk-Keeps :
        (x : Bytes)
        → length x ≡ size
        → (k : Keeps out (xs ++ x ∷ []) (with_chunk x)) × (0 < length k.pending)
    with_chunk-Keeps x e = (
      record {
        runs = h.runs;
        pending = h.pending ++ x ∷ [];
        plan = h.plan;
        file = h.file;
        sizes = h.sizes;
        vals = rw (h.vals, concat-append h.pending (x ∷ []), append-nil x) refl;
        same_out = h.same_out;
        chunk_size = h.chunk_size;
        runs_sized = h.runs_sized;
        sized = All-append (λ x. length x ≡ size) h.pending (x ∷ []) h.sized (e, tt);
        sorted = h.sorted;
        perm =
            subst (λ ys. Permᴰ ys (xs ++ x ∷ [])) (append_assoc (flat h.runs) h.pending (x ∷ []))
              (Permᴰ.append_right (x ∷ []) h.perm);
      },
      omega (arith, length-append h.pending (x ∷ [])),
    )

  -- A call of Write, which may flush.
  pub add-Keeps :
      (out : S) (xs : List Bytes) (s : Sorter S) (x : Bytes)
      → Keeps out xs s
      → length x ≡ size
      → (s' : Sorter S) × (add less x s ≡ done (length x) s') × Keeps out (xs ++ x ∷ []) s'
  unfolding add
  add-Keeps out xs s x h e =
      let t = with_chunk out xs s h x in
      let (k, more) = with_chunk-Keeps out xs s h x e in
      elim (Bool-cases (leb t.mem_limit (length t.vals))) [
        | inl full ↦ (
          flushed out (xs ++ x ∷ []) t k,
          ground (arith, full, flush_run out (xs ++ x ∷ []) t k),
          (flushed-Keeps out (xs ++ x ∷ []) t k more).0,
        )
        | inr less ↦ (t, ground (arith, less), k)
      ]
