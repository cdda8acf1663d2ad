-- ===== src/Cache/Builder/Addresses.antt =====
-- The sorter of package emsort as the builder's writer of addresses.
use mathlib.Core.List.{Permᴰ}
use sialite.Base.{
  ℕ, ◌<◌, ◌≡◌, refl, sym, ap, subst, ◌∙◌, List, [], ◌∷◌, ◌++◌, Bool, Bytes, length, Outcome, done,
  fail, crash,
}
use sialite.Fastmap.Sink.{Sink}
use sialite.Emsort.{Sorter, new_sorter, add}
use sialite.Emsort.Order.{IsOrder}
use sialite.Emsort.Runs.{Keeps, add-Keeps}
use sialite.Cache.Builder.Entries.{Accepts}

-- The sorter after a Write.
unfoldable pub next_sorter : {S : Type 0} → (Bytes → Bytes → Bool) → Bytes → Sorter S → Sorter S
next_sorter less r s = elim (add less r s) [ done n t ↦ t | fail e t ↦ t | crash ↦ s ]

module _ (size : ℕ) (pos : 0 < size) (less : Bytes → Bytes → Bool) (o : IsOrder less) {S : Type 0}
    (out : S) where
  -- A sorter over a temporary file that takes what it is given takes the records of its size.
  unfoldable pub sorter_accepts : Accepts {A = Sorter S} (add less) (next_sorter less)
  unfolding next_sorter
  sorter_accepts = record {
    size = size;
    good = λ s. (xs : List Bytes) × Keeps size pos less o out xs s;
    takes = λ r s e h.
        let (t, run, k) = add-Keeps size pos less o out h.0 s r h.1 e in
        run
        ∙ ap
            (λ (q : Outcome (Sorter S) ℕ).
              done (length r) (elim q [ done n t ↦ t | fail e t ↦ t | crash ↦ s ]))
            (sym run);
    stays = λ r s e h.
        let (t, run, k) = add-Keeps size pos less o out h.0 s r h.1 e in
        (
          h.0 ++ r ∷ [],
          subst (Keeps size pos less o out (h.0 ++ r ∷ []))
              (ap (λ (q : Outcome (Sorter S) ℕ). elim q [ done n t ↦ t | fail e t ↦ t | crash ↦ s ])
                (sym run))
              k,
        );
  }

  -- A new sorter is such a one.
  pub new_sorter-good :
      (mem_limit : ℕ) (tmpfile : Sink)
      → tmpfile.out ≡ []
      → tmpfile.plan ≡ []
      → sorter_accepts.good (new_sorter out size mem_limit tmpfile)
  unfolding sorter_accepts new_sorter
  new_sorter-good mem_limit tmpfile e plan = (
    [],
    record {
      runs = [];
      pending = [];
      plan = plan;
      file = e;
      sizes = refl;
      vals = refl;
      same_out = refl;
      chunk_size = refl;
      runs_sized = tt;
      sized = tt;
      sorted = tt;
      perm = Permᴰ.nil;
    },
  )
