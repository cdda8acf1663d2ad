-- ===== src/Base/Wire.antt =====
-- Numbers in a few bytes, lowest first.
use Prim.Native.Nat.{ℕ, zero, suc, ◌-◌, ◌/◌, ◌^◌, ◌≤◌, ◌<◌}
use mathlib.Core.Path.{◌≡◌, refl, ap, ◌∙◌}
use mathlib.Core.List.{◌++◌}
use native.Mathlib.Omega.{arith}
use native.Mathlib.Nat.{pow-suc}
use sialite.Base.Lists.{length, take, drop, replicate, length-take}
use sialite.Base.Slices.{Bytes, copy, get_le, put_le}
use sialite.Base.Cuts.{copy_fits}

-- A number in `w` bytes: PutUint64, then a copy of the first ones.
abbrev pub wire : ℕ → ℕ → Bytes
wire w x = take w (put_le 8 x)

get_le-wire :
    (n w x : ℕ) (zeros : Bytes)
    → w ≤ n
    → x < 256 ^ w
    → get_le zeros ≡ 0
    → get_le (take w (put_le n x) ++ zeros) ≡ x
unfolding get_le put_le
get_le-wire n zero x zeros h lt z = omega (arith, lt, z)
get_le-wire zero (suc w) x zeros h lt z = absurd (omega arith)
get_le-wire (suc n) (suc w) x zeros h lt z =
    let p = pow-suc 256 w in
    let ih = get_le-wire n w (x / 256) zeros (omega arith) (omega arith) z in omega (arith, ih)

get_le-zeros : (n : ℕ) → get_le (replicate n 0) ≡ 0
unfolding get_le
get_le-zeros zero = refl
get_le-zeros (suc n) = let e = get_le-zeros n in omega arith

pub length-put_le : (n x : ℕ) → length (put_le n x) ≡ n
unfolding put_le
length-put_le zero x = refl
length-put_le (suc n) x = ap suc (length-put_le n (x / 256))

pub length-wire : (w x : ℕ) → w ≤ 8 → length (wire w x) ≡ w
length-wire w x h = omega (arith, length-take w (put_le 8 x), length-put_le 8 x)

pub get_le-copy-wire :
    (w x : ℕ) → w ≤ 8 → x < 256 ^ w → get_le (copy (replicate 8 0) (wire w x)) ≡ x
get_le-copy-wire w x h lt =
    ap get_le (
      copy_fits (replicate 8 0) (wire w x) (omega (arith, length-wire w x h))
      ∙ ap (◌++◌ (wire w x)) (left (length (wire w x)) 8))
    ∙ get_le-wire 8 w x (replicate (8 - length (wire w x)) 0) h lt
        (get_le-zeros (8 - length (wire w x)))
  where
    left : (m n : ℕ) → drop {A = ℕ} m (replicate n 0) ≡ replicate (n - m) 0
    left zero n = let e : n ≡ n - 0 = omega arith in ap (λ k. replicate k 0) e
    left (suc m) zero = let e : 0 ≡ 0 - suc m = omega arith in ap (λ k. replicate k 0) e
    left (suc m) (suc n) =
        let e : n - m ≡ suc n - suc m = omega arith in left m n ∙ ap (λ k. replicate k 0) e
