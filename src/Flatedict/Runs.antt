-- ===== src/Flatedict/Runs.antt =====
-- The runs of equal neighbours in a list, and how often each comes.
use sialite.Base.{
  ℕ, ◌+◌, ◌≡◌, refl, sym, ap, ◌∙◌, Bool, true, false, inl, inr, Bool-cases, List, [], ◌∷◌, Bytes,
  bytes_eq, bytes_eq_refl, bytes_eq→eq, if◌then◌else◌, arith,
}

-- `n` times this key in front of some runs.
unfoldable pub merge : Bytes → ℕ → List (Bytes × ℕ) → List (Bytes × ℕ)
merge k n [] = (k, n) ∷ []
merge k n (r ∷ rs) = if bytes_eq k r.0 then (k, n + r.1) ∷ rs else (k, n) ∷ r ∷ rs

unfoldable pub runs : List Bytes → List (Bytes × ℕ)
runs [] = []
runs (x ∷ xs) = merge x 1 (runs xs)

pub merge-same :
    (k : Bytes) (n : ℕ) (rs : List (Bytes × ℕ)) → merge k n (merge k 1 rs) ≡ merge k (n + 1) rs
unfolding merge
merge-same k n [] = rw (bytes_eq_refl k) refl
merge-same k n (r ∷ rs) = elim (Bool-cases (bytes_eq k r.0)) [
  | inl same ↦
      let e : n + (1 + r.1) ≡ n + 1 + r.1 = omega arith in
      ap (λ t. merge k n (if t then (k, 1 + r.1) ∷ rs else (k, 1) ∷ r ∷ rs)) same
      ∙ ap (λ t. if t then (k, n + (1 + r.1)) ∷ rs else (k, n) ∷ (k, 1 + r.1) ∷ rs)
          (bytes_eq_refl k)
      ∙ ap (λ m. (k, m) ∷ rs) e
      ∙ sym (ap (λ t. if t then (k, n + 1 + r.1) ∷ rs else (k, n + 1) ∷ r ∷ rs) same)
  | inr other ↦
      ap (λ t. merge k n (if t then (k, 1 + r.1) ∷ rs else (k, 1) ∷ r ∷ rs)) other
      ∙ ap (λ t. if t then (k, n + 1) ∷ r ∷ rs else (k, n) ∷ (k, 1) ∷ r ∷ rs) (bytes_eq_refl k)
      ∙ sym (ap (λ t. if t then (k, n + 1 + r.1) ∷ rs else (k, n + 1) ∷ r ∷ rs) other)
]

other_way : (x k : Bytes) → bytes_eq x k ≡ false → bytes_eq k x ≡ false
other_way x k h = elim (Bool-cases (bytes_eq k x)) [
  | inl same ↦
      let e : bytes_eq x k ≡ true = ap (bytes_eq x) (bytes_eq→eq k x same) ∙ bytes_eq_refl x in
      absurd (let q = sym e ∙ h in cc)
  | inr other ↦ other
]

pub merge-other :
    (k : Bytes) (n : ℕ) (x : Bytes) (rs : List (Bytes × ℕ))
    → bytes_eq x k ≡ false
    → merge k n (merge x 1 rs) ≡ (k, n) ∷ merge x 1 rs
unfolding merge
merge-other k n x [] h = rw (other_way x k h) refl
merge-other k n x (r ∷ rs) h = go (bytes_eq x r.0)
  where
    go :
        (t : Bool)
        → merge k n (if t then (x, 1 + r.1) ∷ rs else (x, 1) ∷ r ∷ rs)
          ≡ (k, n) ∷ (if t then (x, 1 + r.1) ∷ rs else (x, 1) ∷ r ∷ rs)
    go true =
        ap (λ t. if t then (k, n + (1 + r.1)) ∷ rs else (k, n) ∷ (x, 1 + r.1) ∷ rs)
          (other_way x k h)
    go false =
        ap (λ t. if t then (k, n + 1) ∷ r ∷ rs else (k, n) ∷ (x, 1) ∷ r ∷ rs) (other_way x k h)
