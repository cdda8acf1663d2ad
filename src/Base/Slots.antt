-- ===== src/Base/Slots.antt =====
-- Slots of one length, laid out one after the other.
use Prim.Native.Nat.{ℕ, zero, suc, ◌+◌, ◌*◌, ◌≤◌, ◌<◌}
use mathlib.Core.Path.{◌≡◌, refl, ap, ◌∙◌}
use mathlib.Core.List.{List, [], ◌∷◌, ◌++◌, append_assoc}
use native.Mathlib.Omega.{arith}
use sialite.Base.Lists.{length, take, drop, replicate, concat, All, take-append, drop-append}
use sialite.Base.Slices.{Bytes, slice}
use sialite.Base.Cuts.{drop-drop}

abbrev pub HasLength : ℕ → Bytes → Type 0
HasLength n x = length x ≡ n

slice_skip :
    (k n : ℕ) (x b : Bytes) → length x ≡ n → slice (suc k * n) n (x ++ b) ≡ slice (k * n) n b
slice_skip k n x b e = ap (take n) (
    drop-drop n (k * n) (suc k * n) (x ++ b) (omega arith)
    ∙ ap (drop (k * n)) (drop-append n x b e))

slice_first : (n : ℕ) (x b : Bytes) → length x ≡ n → slice (0 * n) n (x ++ b) ≡ x
slice_first n x b e = let start : 0 * n ≡ 0 = omega arith in rw start (take-append n x b e)

-- A property of all slots holds of each slice.
pub slots_All {κ} :
    (P : Bytes → Type κ) (n : ℕ) (xs : List Bytes) (rest : Bytes)
    → All (HasLength n) xs
    → All P xs
    → (k : ℕ) → k < length xs
    → P (slice (k * n) n (concat xs ++ rest))
slots_All P n [] rest h p k lt = absurd (omega arith)
slots_All P n (x ∷ xs) rest h p zero lt =
    rw (append_assoc x (concat xs) rest, slice_first n x (concat xs ++ rest) h.0) p.0
slots_All P n (x ∷ xs) rest h p (suc k) lt =
    rw (append_assoc x (concat xs) rest, slice_skip k n x (concat xs ++ rest) h.0)
      (slots_All P n xs rest h.1 p.1 k (omega arith))

-- Two properties, of the first slots and of the others.
pub slots_right {κ} :
    (P : Bytes → Type κ) (n : ℕ) (xs ys : List Bytes) (rest : Bytes)
    → All (HasLength n) xs
    → All (HasLength n) ys
    → All P ys
    → (k : ℕ) → length xs ≤ k
    → k < length xs + length ys
    → P (slice (k * n) n (concat xs ++ (concat ys ++ rest)))
slots_right P n [] ys rest h h' p k le lt = slots_All P n ys rest h' p k (omega arith)
slots_right P n (x ∷ xs) ys rest h h' p zero le lt = absurd (omega arith)
slots_right P n (x ∷ xs) ys rest h h' p (suc k) le lt =
    rw
      (
        append_assoc x (concat xs) (concat ys ++ rest),
        slice_skip k n x (concat xs ++ (concat ys ++ rest)) h.0,
      )
      (slots_right P n xs ys rest h.1 h' p k (omega arith) (omega arith))

pub All-replicate {ℓ κ} :
    {A : Type ℓ} (P : A → Type κ) (n : ℕ) (x : A) → P x → All P (replicate n x)
All-replicate P zero x p = tt
All-replicate P (suc n) x p = (p, All-replicate P n x p)

replicate-add {ℓ} :
    {A : Type ℓ} (m n k : ℕ) (x : A) → k ≡ m + n → replicate k x ≡ replicate m x ++ replicate n x
replicate-add zero n k x e = ap (λ i. replicate i x) (omega (arith, e))
replicate-add (suc m) n zero x e = absurd (omega arith)
replicate-add (suc m) n (suc k) x e = ap (◌∷◌ x) (replicate-add m n k x (omega arith))

-- A filler is a row of filled slots.
pub concat-replicate :
    (m n k b : ℕ) → k ≡ m * n → replicate k b ≡ concat (replicate m (replicate n b))
concat-replicate zero n k b e = let none_left : k ≡ 0 = omega arith in rw none_left
concat-replicate (suc m) n k b e =
    replicate-add n (m * n) k b (omega arith)
    ∙ ap (◌++◌ (replicate n b)) (concat-replicate m n (m * n) b refl)
