-- ===== src/Base/Cuts.antt =====
-- Copying into a slice, and cutting slices out of a concatenation.
use Prim.Native.Nat.{ℕ, zero, suc, ◌+◌, ◌≤◌}
use mathlib.Core.Path.{◌≡◌, refl, ap, ◌∙◌}
use mathlib.Core.List.{List, [], ◌∷◌, ◌++◌, append_assoc}
use native.Mathlib.Omega.{arith}
use sialite.Base.Lists.{length, take, drop, length-append, length-drop, drop-append, take-append}
use sialite.Base.Slices.{Bytes, copy, copy_at, slice}

-- The whole source fits.
pub copy_fits :
    (dst src : Bytes) → length src ≤ length dst → copy dst src ≡ src ++ drop (length src) dst
unfolding copy
copy_fits [] [] h = refl
copy_fits [] (b ∷ src) h = absurd (omega arith)
copy_fits (d ∷ dst) [] h = refl
copy_fits (d ∷ dst) (b ∷ src) h = ap (◌∷◌ b) (copy_fits dst src (omega arith))

pub copy_at_fits :
    (n : ℕ) (before dst src : Bytes)
    → length before ≡ n
    → length src ≤ length dst
    → copy_at n (before ++ dst) src ≡ before ++ (src ++ drop (length src) dst)
unfolding copy_at
copy_at_fits zero [] dst src e h = copy_fits dst src h
copy_at_fits zero (x ∷ before) dst src e h = absurd (omega arith)
copy_at_fits (suc n) [] dst src e h = absurd (omega arith)
copy_at_fits (suc n) (x ∷ before) dst src e h =
    ap (◌∷◌ x) (copy_at_fits n before dst src (omega arith) h)

pub length-copy : (dst src : Bytes) → length (copy dst src) ≡ length dst
unfolding copy
length-copy [] src = refl
length-copy (d ∷ dst) [] = refl
length-copy (d ∷ dst) (b ∷ src) = ap suc (length-copy dst src)

pub length-copy_at : (n : ℕ) (dst src : Bytes) → length (copy_at n dst src) ≡ length dst
unfolding copy_at
length-copy_at zero dst src = length-copy dst src
length-copy_at (suc n) [] src = refl
length-copy_at (suc n) (d ∷ dst) src = ap suc (length-copy_at n dst src)

module _ {ℓ} {A : Type ℓ} where
  pub drop-append_le :
      (n : ℕ) (xs ys : List A) → n ≤ length xs → drop n (xs ++ ys) ≡ drop n xs ++ ys
  drop-append_le zero xs ys h = refl
  drop-append_le (suc n) [] ys h = absurd (omega arith)
  drop-append_le (suc n) (x ∷ xs) ys h = drop-append_le n xs ys (omega arith)

  pub take-append_le : (n : ℕ) (xs ys : List A) → n ≤ length xs → take n (xs ++ ys) ≡ take n xs
  take-append_le zero xs ys h = refl
  take-append_le (suc n) [] ys h = absurd (omega arith)
  take-append_le (suc n) (x ∷ xs) ys h = ap (◌∷◌ x) (take-append_le n xs ys (omega arith))

  pub drop-drop : (m n k : ℕ) (xs : List A) → k ≡ m + n → drop k xs ≡ drop n (drop m xs)
  drop-drop zero n k xs e = ap (λ i. drop i xs) (omega (arith, e))
  drop-drop (suc m) n zero xs e = absurd (omega arith)
  drop-drop (suc m) zero (suc k) [] e = refl
  drop-drop (suc m) (suc n) (suc k) [] e = refl
  drop-drop (suc m) n (suc k) (x ∷ xs) e = drop-drop m n k xs (omega arith)

pub take-take : (m n : ℕ) (xs : Bytes) → m ≤ n → take m (take n xs) ≡ take m xs
take-take zero n xs h = refl
take-take (suc m) zero xs h = absurd (omega arith)
take-take (suc m) (suc n) [] h = refl
take-take (suc m) (suc n) (x ∷ xs) h = ap (◌∷◌ x) (take-take m n xs (omega arith))

-- The middle part of a concatenation.
pub slice_mid :
    (off len : ℕ) (a b c : Bytes)
    → length a ≡ off
    → length b ≡ len
    → slice off len (a ++ (b ++ c)) ≡ b
slice_mid off len a b c e f = rw (drop-append off a (b ++ c) e) (take-append len b c f)

-- Two copies into a buffer of two parts, each after what its part holds already.
pub store_twice :
    (n m : ℕ) (a g b g' x y : Bytes)
    → length a ≡ n
    → length a + length g + length b ≡ m
    → length x ≤ length g
    → length y ≤ length g'
    → copy_at m (copy_at n ((a ++ g) ++ (b ++ g')) x) y
      ≡ ((a ++ x) ++ drop (length x) g) ++ ((b ++ y) ++ drop (length y) g')
store_twice n m a g b g' x y e e' h h' =
    let left = drop (length x) g in
    let first : copy_at n ((a ++ g) ++ (b ++ g')) x ≡ (((a ++ x) ++ left) ++ b) ++ g' =
      rw append_assoc (
        copy_at_fits n a (g ++ (b ++ g')) x e (omega (arith, length-append g (b ++ g')))
        ∙ rw (drop-append_le (length x) g (b ++ g') h) (simp append_assoc)) in
    rw first (
      copy_at_fits m (((a ++ x) ++ left) ++ b) g' y
        (omega (
          arith,
          length-append ((a ++ x) ++ left) b,
          length-append (a ++ x) left,
          length-append a x,
          length-drop (length x) g,
        ))
        h'
      ∙ simp append_assoc)
