-- ===== src/Emsort/Merge.antt =====
-- The merge, on runs of chunks: what it writes.
use mathlib.Core.List.{Permᴰ}
use mathlib.Core.List.Permᴰ as Permᴰ
use sialite.Base.{
  ℕ, zero, suc, ◌≤◌, ◌<◌, ◌≡◌, refl, ap, subst, Bool, false, inl, inr, Bool-cases, none, some, List,
  [], ◌∷◌, ◌++◌, map, append_assoc, All, All-append, All-map, Bytes, length, concat, length-append,
  take-append, drop-append, le→leb, M, Outcome, done, fail, crash, ◌>>=◌, arith,
}
use sialite.Emsort.{insert, Reader, read_chunk, val_less}
use sialite.Emsort.Order.{Permᴰ-All, Permᴰ-length, IsSorted, insert-Permᴰ, IsOrder, insert-IsSorted}

-- A run that is not empty: its first chunk, and the others.
abbrev pub Run : Type 0
Run = Bytes × List Bytes

abbrev pub items : Run → List Bytes
items r = r.0 ∷ r.1

-- The bytes of a run.
abbrev pub bytes : Run → Bytes
bytes r = concat (items r)

abbrev pub flat : List Run → List Bytes
flat [] = []
flat (r ∷ rs) = items r ++ flat rs

abbrev pub head_less : (Bytes → Bytes → Bool) → Run → Run → Bool
head_less less r r' = less r.0 r'.0

swap_front : (a b c : List Bytes) → Permᴰ (a ++ (b ++ c)) (b ++ (a ++ c))
swap_front a b c =
    subst (λ xs. Permᴰ xs (b ++ (a ++ c))) (append_assoc a b c)
      (subst (λ ys. Permᴰ ((a ++ b) ++ c) ys) (append_assoc b a c)
        (Permᴰ.append_right c (Permᴰ.append_comm a b)))

pub bind_ext {ℓ κ κ'} :
    {S : Type ℓ} {A : Type κ} {B : Type κ'} (m : M S A) (f g : A → M S B)
    → ((a : A) (s : S) → f a s ≡ g a s)
    → (s : S) → (m >>= f) s ≡ (m >>= g) s
bind_ext m f g h s = go (m s)
  where
    go :
        (o : Outcome _ _)
        → (elim o [ done a s' ↦ f a s' | fail e s' ↦ fail e s' | crash ↦ crash ])
          ≡ elim o [ done a s' ↦ g a s' | fail e s' ↦ fail e s' | crash ↦ crash ]
    go (done a s') = h a s'
    go (fail e s') = refl
    go crash = refl

module _ (less : Bytes → Bytes → Bool) where
  -- The merge of the runs.
  unfoldable pub merged : ℕ → List Run → List Bytes
  merged zero rs = []
  merged (suc fuel) [] = []
  merged (suc fuel) ((x, []) ∷ rs) = x ∷ merged fuel rs
  merged (suc fuel) ((x, y ∷ ys) ∷ rs) = x ∷ merged fuel (insert (head_less less) (y, ys) rs)

  pub insert-flat :
      (r : Run) (rs : List Run) → Permᴰ (flat (insert (head_less less) r rs)) (items r ++ flat rs)
  unfolding insert
  insert-flat r [] = Permᴰ.refl (items r ++ [])
  insert-flat r (r' ∷ rs) = elim (Bool-cases (less r'.0 r.0)) [
    | inl e ↦ rw e (
        Permᴰ.trans (Permᴰ.append_left (items r') (insert-flat r rs))
          (swap_front (items r') (items r) (flat rs)))
    | inr e ↦ rw e (Permᴰ.refl (items r ++ (items r' ++ flat rs)))
  ]

  pub merged-Permᴰ :
      (fuel : ℕ) (rs : List Run) → length (flat rs) ≤ fuel → Permᴰ (merged fuel rs) (flat rs)
  unfolding merged
  merged-Permᴰ zero [] h = Permᴰ.nil
  merged-Permᴰ zero (r ∷ rs) h = absurd (omega arith)
  merged-Permᴰ (suc fuel) [] h = Permᴰ.nil
  merged-Permᴰ (suc fuel) ((x, []) ∷ rs) h = Permᴰ.cons refl (merged-Permᴰ fuel rs (omega arith))
  merged-Permᴰ (suc fuel) ((x, y ∷ ys) ∷ rs) h =
      let p = insert-flat (y, ys) rs in
      Permᴰ.cons refl (
        Permᴰ.trans
          (merged-Permᴰ fuel (insert (head_less less) (y, ys) rs) (omega (arith, Permᴰ-length p)))
          p)

  module _ (o : IsOrder less) where
    pub head_less-IsOrder : IsOrder (head_less less)
    head_less-IsOrder = record {
      asym = λ r r'. o.asym r.0 r'.0;
      trans = λ r r' r''. o.trans r.0 r'.0 r''.0;
    }

    flat_above :
        (x : Bytes) (rs : List Run)
        → All (λ r. less r.0 x ≡ false) rs
        → All (λ r. IsSorted less (items r)) rs
        → All (λ z. less z x ≡ false) (flat rs)
    flat_above x [] h k = tt
    flat_above x (r ∷ rs) h k = (
      h.0,
      All-append (λ z. less z x ≡ false) r.1 (flat rs)
          (All-map r.1 (λ z. o.trans x r.0 z h.0) k.0.0) (flat_above x rs h.1 k.1),
    )

    pub merged-IsSorted :
        (fuel : ℕ) (rs : List Run)
        → length (flat rs) ≤ fuel
        → IsSorted (head_less less) rs
        → All (λ r. IsSorted less (items r)) rs
        → IsSorted less (merged fuel rs)
    unfolding merged
    merged-IsSorted zero rs le h k = tt
    merged-IsSorted (suc fuel) [] le h k = tt
    merged-IsSorted (suc fuel) ((x, []) ∷ rs) le h k = (
      Permᴰ-All (λ z. less z x ≡ false) (Permᴰ.symm (merged-Permᴰ fuel rs (omega arith)))
          (flat_above x rs h.0 k.1),
      merged-IsSorted fuel rs (omega arith) h.1 k.1,
    )
    merged-IsSorted (suc fuel) ((x, y ∷ ys) ∷ rs) le h k =
        let rs' = insert (head_less less) (y, ys) rs in
        let p = insert-Permᴰ (head_less less) (y, ys) rs in
        let back = Permᴰ.symm p in
        let le' : length (flat rs') ≤ fuel = omega (arith, Permᴰ-length (insert-flat (y, ys) rs)) in
        let sorted = Permᴰ-All (λ r. IsSorted less (items r)) back (k.0.1, k.1) in
        let above = Permᴰ-All (λ r. less r.0 x ≡ false) back (k.0.0.0, h.0) in
        (
          Permᴰ-All (λ z. less z x ≡ false) (Permᴰ.symm (merged-Permᴰ fuel rs' le'))
              (flat_above x rs' above sorted),
          merged-IsSorted fuel rs' le'
              (insert-IsSorted (head_less less) head_less-IsOrder (y, ys) rs h.1) sorted,
        )

-- A reader that has read the first chunk of a run.
abbrev pub reader : Run → Reader
reader r = record { rest = concat r.1; val = r.0 }

module _ (size : ℕ) (pos : 0 < size) (less : Bytes → Bytes → Bool) where
  pub reader-insert :
      (r : Run) (rs : List Run)
      → insert (val_less less) (reader r) (map reader rs)
        ≡ map reader (insert (head_less less) r rs)
  unfolding insert
  reader-insert r [] = refl
  reader-insert r (r' ∷ rs) = elim (Bool-cases (less r'.0 r.0)) [
    | inl e ↦ rw e (ap (◌∷◌ (reader r')) (reader-insert r rs))
    | inr e ↦ rw e refl
  ]

  abbrev pub IsSized : Run → Type 0
  IsSized r = All (λ x. length x ≡ size) (items r)

  pub read_next :
      (x v y : Bytes) (ys : List Bytes)
      → length y ≡ size
      → read_chunk size (record { rest = concat (y ∷ ys); val = v }) ≡ some (reader (y, ys))
  unfolding read_chunk
  read_next x v y ys e =
      rw
        (
          le→leb size (length (y ++ concat ys)) (omega (arith, length-append y (concat ys))),
          drop-append size y (concat ys) e,
          take-append size y (concat ys) e,
        )
        refl

  pub read_end : (v : Bytes) → read_chunk size (record { rest = []; val = v }) ≡ none
  unfolding read_chunk
  read_end v = ground arith
