-- ===== src/Flatedict/Tiles.antt =====
-- flatedict/build.go, Builder.Add: the tiles of a sample.
use sialite.Base.{
  ℕ, zero, suc, ◌+◌, ◌≤◌, ◌≡◌, refl, sym, ap, ◌∙◌, true, false, inl, inr, Bool-cases, List, [], ◌∷◌,
  Bytes, length, take, drop, slice, take_all, ◌⊎◌, ltb, le→ltb, lt→ltb, ltb→lt, if◌then◌else◌, M,
  Outcome, done, fail, crash, ◌>>◌, arith,
}

-- Write of the sort.
module _ {A : Type 0} (write : Bytes → M A ℕ) (tile_len fragment_len : ℕ) where
  -- The loop from index `i`, with fuel.
  unfoldable pub add_loop : ℕ → ℕ → Bytes → M A (Unit {0})
  add_loop zero i sample a = done tt a
  add_loop (suc n) i sample a =
      let rest = (do write (slice i tile_len sample); add_loop n (suc i) sample) in
      if ltb (i + tile_len) (length sample) then rest a else done tt a

  -- Add; the length of the sample is enough fuel.
  unfoldable pub add_sample : Bytes → M A (Unit {0})
  add_sample sample =
      let cut = if ltb fragment_len (length sample) then take fragment_len sample else sample in
      add_loop (length cut) 0 cut

-- The tiles that have a byte behind them.
unfoldable pub tiles_of : ℕ → Bytes → List Bytes
tiles_of k [] = []
tiles_of k (x ∷ xs) =
    let rest = tiles_of k xs in if ltb k (length (x ∷ xs)) then take k (x ∷ xs) ∷ rest else []

ltb→le : (a b : ℕ) → ltb a b ≡ false → b ≤ a
ltb→le a b h = ground arith

drop-step : (i : ℕ) (s : Bytes) (x : ℕ) (xs : Bytes) → drop i s ≡ x ∷ xs → drop (suc i) s ≡ xs
drop-step i [] x xs h = go i h
  where
    go : (i : ℕ) → ◌≡◌ {A = Bytes} (drop i []) (x ∷ xs) → ◌≡◌ {A = Bytes} [] xs
    go zero h = absurd (cc)
    go (suc i) h = absurd (cc)
drop-step zero (y ∷ s) x xs h = cc
drop-step (suc i) (y ∷ s) x xs h = drop-step i s x xs h

module _ {A : Type 0} (write : Bytes → M A ℕ) (tile_len fragment_len : ℕ) (next : Bytes → A → A)
    (accepts : (r : Bytes) (a : A) → write r a ≡ done (length r) (next r a)) where
  abbrev pub all_next : List Bytes → A → A
  all_next [] a = a
  all_next (b ∷ bs) a = all_next bs (next b a)

  stop_loop :
      (n i : ℕ) (sample : Bytes) (a : A)
      → ltb (i + tile_len) (length sample) ≡ false
      → add_loop write tile_len fragment_len n i sample a ≡ done tt a
  unfolding add_loop
  stop_loop zero i sample a h = refl
  stop_loop (suc n) i sample a h =
      ap
        (λ t.
          if t
          then (write (slice i tile_len sample)
                >> add_loop write tile_len fragment_len n (suc i) sample)
              a
          else done tt a)
        h

  next_loop :
      (n i : ℕ) (sample b : Bytes) (a : A)
      → ltb (i + tile_len) (length sample) ≡ true
      → slice i tile_len sample ≡ b
      → add_loop write tile_len fragment_len (suc n) i sample a
        ≡ add_loop write tile_len fragment_len n (suc i) sample (next b a)
  unfolding add_loop
  next_loop n i sample b a h e =
      ap
        (λ t.
          if t
          then (write (slice i tile_len sample)
                >> add_loop write tile_len fragment_len n (suc i) sample)
              a
          else done tt a)
        h
      ∙ ap
          (λ (o : Outcome A ℕ). elim o [
            | done k s ↦ add_loop write tile_len fragment_len n (suc i) sample s
            | fail e s ↦ fail e s
            | crash ↦ crash
          ])
          (accepts (slice i tile_len sample) a)
      ∙ ap (λ b. add_loop write tile_len fragment_len n (suc i) sample (next b a)) e

  loop-tiles :
      (n i : ℕ) (rest sample : Bytes) (a : A)
      → drop i sample ≡ rest
      → i + length rest ≡ length sample
      → length rest ≤ n
      → add_loop write tile_len fragment_len n i sample a
        ≡ done tt (all_next (tiles_of tile_len rest) a)
  unfolding tiles_of
  loop-tiles n i [] sample a e l h = stop_loop n i sample a (le→ltb _ _ (omega (arith, l)))
  loop-tiles zero i (x ∷ xs) sample a e l h = absurd (omega arith)
  loop-tiles (suc n) i (x ∷ xs) sample a e l h =
      elim (Bool-cases (ltb tile_len (suc (length xs)))) [
        | inl more ↦
            let ok : ltb (i + tile_len) (length sample) ≡ true =
              lt→ltb _ _ (omega (arith, l, ltb→lt _ _ more)) in
            let tiles : tiles_of tile_len (x ∷ xs) ≡ take tile_len (x ∷ xs) ∷ tiles_of tile_len xs =
              ap (λ t. if t then take tile_len (x ∷ xs) ∷ tiles_of tile_len xs else []) more in
            next_loop n i sample (take tile_len (x ∷ xs)) a ok (ap (take tile_len) e)
            ∙ loop-tiles n (suc i) xs sample (next (take tile_len (x ∷ xs)) a)
                (drop-step i sample x xs e) (omega (arith, l)) (omega (arith, h))
            ∙ ap (λ ts. done tt (all_next ts a)) (sym tiles)
        | inr over ↦
            let tiles : tiles_of tile_len (x ∷ xs) ≡ [] =
              ap (λ t. if t then take tile_len (x ∷ xs) ∷ tiles_of tile_len xs else []) over in
            stop_loop (suc n) i sample a (le→ltb _ _ (omega (arith, l, ltb→le _ _ over)))
            ∙ ap (λ ts. done tt (all_next ts a)) (sym tiles)
      ]

  -- A sort that takes every chunk. Add of a sample succeeds and gives it, in order, the tiles of
  -- the sample's first fragment_len bytes that have a byte behind them, so all but the last.
  pub add_sample-tiles :
      (sample : Bytes) (a : A)
      → add_sample write tile_len fragment_len sample a
        ≡ done tt (all_next (tiles_of tile_len (take fragment_len sample)) a)
  unfolding add_sample
  add_sample-tiles sample a =
      loop-tiles (length cut) 0 cut cut a refl (omega arith) (omega arith)
      ∙ ap (λ s. done tt (all_next (tiles_of tile_len s) a))
          (same (Bool-cases (ltb fragment_len (length sample))))
    where
      cut : Bytes
      cut = if ltb fragment_len (length sample) then take fragment_len sample else sample

      same :
          (ltb fragment_len (length sample) ≡ true) ⊎ (ltb fragment_len (length sample) ≡ false)
          → cut ≡ take fragment_len sample
      same (inl long) = ap (λ t. if t then take fragment_len sample else sample) long
      same (inr short) =
          ap (λ t. if t then take fragment_len sample else sample) short
          ∙ sym (take_all fragment_len sample (omega (arith, ltb→le _ _ short)))
