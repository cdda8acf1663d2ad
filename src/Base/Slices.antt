-- ===== src/Base/Slices.antt =====
-- Byte slices, as lists of numbers: `copy`, the order of package bytes, little-endian numbers.
use Prim.Native.Nat.{ℕ, zero, suc, ◌+◌, ◌-◌, ◌*◌, ◌/◌, ◌%◌, ◌<◌, compare, Ordering}
use mathlib.Core.Path.{◌≡◌, refl}
use mathlib.Core.Logic.{◌≢◌, ◌⊎◌, inl, inr}
use mathlib.Core.Bool.{Bool, true, false, ◌&&◌}
use mathlib.Core.List.{List, [], ◌∷◌}
use native.Mathlib.Omega.{arith}
use sialite.Base.Tests.{◌==◌, ==-refl}
use sialite.Base.Lists.{take, drop, replicate, All}

abbrev pub Bytes : Type 0
Bytes = List ℕ

abbrev pub IsBytes : Bytes → Type 0
IsBytes = All (λ b. b < 256)

-- `b[off : off+len]`
abbrev pub slice : ℕ → ℕ → Bytes → Bytes
slice off len b = take len (drop off b)

-- `copy(dst, src)` stops at the shorter one.
unfoldable pub copy : Bytes → Bytes → Bytes
copy [] src = []
copy (d ∷ dst) [] = d ∷ dst
copy (d ∷ dst) (b ∷ src) = b ∷ copy dst src

-- `copy(dst[off:], src)`
unfoldable pub copy_at : ℕ → Bytes → Bytes → Bytes
unfolding copy
copy_at zero dst src = copy dst src
copy_at (suc off) [] src = []
copy_at (suc off) (d ∷ dst) src = d ∷ copy_at off dst src

-- `for i := off; i < end; i++ { dst[i] = 0xFF }`
unfoldable pub fill_ff : ℕ → ℕ → Bytes → Bytes
unfolding copy_at
fill_ff off end dst = copy_at off dst (replicate (end - off) 0xFF)

-- bytes.Equal
unfoldable pub bytes_eq : Bytes → Bytes → Bool
bytes_eq [] [] = true
bytes_eq [] (y ∷ b) = false
bytes_eq (x ∷ a) [] = false
bytes_eq (x ∷ a) (y ∷ b) = x == y && bytes_eq a b

-- bytes.Compare
unfoldable pub bytes_compare : Bytes → Bytes → Ordering
bytes_compare [] [] = Ordering.eq
bytes_compare [] (y ∷ b) = Ordering.lt
bytes_compare (x ∷ a) [] = Ordering.gt
bytes_compare (x ∷ a) (y ∷ b) = elim (compare x y) [
  | Ordering.lt ↦ Ordering.lt
  | Ordering.eq ↦ bytes_compare a b
  | Ordering.gt ↦ Ordering.gt
]

-- The `n` low bytes of a number, lowest first: `PutUint64` for 8 of them.
unfoldable pub put_le : ℕ → ℕ → Bytes
put_le zero v = []
put_le (suc n) v = (v % 256) ∷ put_le n (v / 256)

-- `Uint64` of a buffer
unfoldable pub get_le : Bytes → ℕ
get_le [] = 0
get_le (b ∷ rest) = b + 256 * get_le rest

pub bytes_eq→eq : (a b : Bytes) → bytes_eq a b ≡ true → a ≡ b
unfolding bytes_eq
bytes_eq→eq [] [] h = refl
bytes_eq→eq [] (y ∷ b) h = ground arith
bytes_eq→eq (x ∷ a) [] h = ground arith
bytes_eq→eq (x ∷ a) (y ∷ b) h = ground (arith, bytes_eq→eq a b)

pub bytes_eq_refl : (a : Bytes) → bytes_eq a a ≡ true
unfolding bytes_eq
bytes_eq_refl [] = refl
bytes_eq_refl (x ∷ a) = rw (==-refl x, bytes_eq_refl a)

pub bytes_eq_ne : (a b : Bytes) → a ≢ b → bytes_eq a b ≡ false
bytes_eq_ne a b h = ground (arith, bytes_eq→eq a b)

pub compare-eq→eq : (a b : Bytes) → bytes_compare a b ≡ Ordering.eq → a ≡ b
unfolding bytes_compare
compare-eq→eq [] [] h = refl
compare-eq→eq [] (y ∷ b) h = ground arith
compare-eq→eq (x ∷ a) [] h = ground arith
compare-eq→eq (x ∷ a) (y ∷ b) h = ground (arith, compare-eq→eq a b)

pub compare_refl : (a : Bytes) → bytes_compare a a ≡ Ordering.eq
unfolding bytes_compare
compare_refl [] = refl
compare_refl (x ∷ a) = ground (arith, compare_refl a)

pub compare-lt_trans :
    (a b c : Bytes)
    → bytes_compare a b ≡ Ordering.lt
    → bytes_compare b c ≡ Ordering.lt
    → bytes_compare a c ≡ Ordering.lt
unfolding bytes_compare
compare-lt_trans [] b [] p q =
    elim b
        as (λ b.
          bytes_compare [] b ≡ Ordering.lt
          → bytes_compare b [] ≡ Ordering.lt
          → bytes_compare [] [] ≡ Ordering.lt) [ [] ↦ λ p q. p | y ∷ b ↦ λ p q. ground arith ]
      p q
compare-lt_trans [] b (z ∷ c) p q = refl
compare-lt_trans (x ∷ a) [] c p q = ground arith
compare-lt_trans (x ∷ a) (y ∷ b) [] p q = ground arith
compare-lt_trans (x ∷ a) (y ∷ b) (z ∷ c) p q = ground (arith, compare-lt_trans a b c)

pub compare-gt→lt :
    (a b : Bytes) → bytes_compare a b ≡ Ordering.gt → bytes_compare b a ≡ Ordering.lt
unfolding bytes_compare
compare-gt→lt [] [] h = ground arith
compare-gt→lt [] (y ∷ b) h = ground arith
compare-gt→lt (x ∷ a) [] h = refl
compare-gt→lt (x ∷ a) (y ∷ b) h = ground (arith, compare-gt→lt a b)

pub compare-lt→gt :
    (a b : Bytes) → bytes_compare a b ≡ Ordering.lt → bytes_compare b a ≡ Ordering.gt
unfolding bytes_compare
compare-lt→gt [] [] h = ground arith
compare-lt→gt [] (y ∷ b) h = refl
compare-lt→gt (x ∷ a) [] h = ground arith
compare-lt→gt (x ∷ a) (y ∷ b) h = ground (arith, compare-lt→gt a b)

-- Cutting both to a prefix keeps the order, not strictly.
pub compare-take :
    (n : ℕ) (a b : Bytes)
    → bytes_compare a b ≢ Ordering.gt
    → bytes_compare (take n a) (take n b) ≢ Ordering.gt
unfolding bytes_compare
compare-take zero a b h = λ e. cc
compare-take (suc n) [] [] h = h
compare-take (suc n) [] (y ∷ b) h = h
compare-take (suc n) (x ∷ a) [] h = h
compare-take (suc n) (x ∷ a) (y ∷ b) h = ground (arith, compare-take n a b)

-- `a` sorts before `b`.
abbrev pub Before : Bytes → Bytes → Type 0
Before a b = bytes_compare a b ≡ Ordering.lt

abbrev pub NotAfter : Bytes → Bytes → Type 0
NotAfter a b = bytes_compare a b ≢ Ordering.gt

pub Ordering-cases : (o : Ordering) → (o ≡ Ordering.lt) ⊎ (o ≡ Ordering.eq) ⊎ (o ≡ Ordering.gt)
Ordering-cases Ordering.lt = inl refl
Ordering-cases Ordering.eq = inr (inl refl)
Ordering-cases Ordering.gt = inr (inr refl)

pub Before-NotAfter : (a b c : Bytes) → Before a b → NotAfter b c → Before a c
Before-NotAfter a b c p q = elim (Ordering-cases (bytes_compare b c)) [
  | inl lt ↦ compare-lt_trans a b c p lt
  | inr (inl e) ↦ rw (← compare-eq→eq b c e) p
  | inr (inr gt) ↦ absurd (q gt)
]

pub NotAfter-Before : (a b c : Bytes) → NotAfter a b → Before b c → Before a c
NotAfter-Before a b c p q = elim (Ordering-cases (bytes_compare a b)) [
  | inl lt ↦ compare-lt_trans a b c lt q
  | inr (inl e) ↦ rw (compare-eq→eq a b e) q
  | inr (inr gt) ↦ absurd (p gt)
]

pub NotAfter-ne : (a b : Bytes) → NotAfter a b → a ≢ b → Before a b
NotAfter-ne a b p d = elim (Ordering-cases (bytes_compare a b)) [
  | inl lt ↦ lt
  | inr (inl e) ↦ absurd (d (compare-eq→eq a b e))
  | inr (inr gt) ↦ absurd (p gt)
]

pub Before-take : (n : ℕ) (a b : Bytes) → Before a b → NotAfter (take n a) (take n b)
Before-take n a b h = compare-take n a b (λ e. cc)
