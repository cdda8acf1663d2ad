-- ===== src/Fastmap/Search.antt =====
-- sort.Search, the binary search that Map.Lookup and Server.GetItem call.
use sialite.Base.{ℕ, zero, suc, ◌+◌, ◌-◌, ◌/◌, ◌≤◌, ◌<◌, ◌≡◌, Bool, true, false, ltb, arith}

-- `for i < j { h := (i+j)/2; if !f(h) { i = h+1 } else { j = h } }`
pub search_loop : ℕ → (ℕ → Bool) → ℕ → ℕ → ℕ
search_loop zero f i j = i
search_loop (suc fuel) f i j = elim (ltb i j) [
  | true ↦ elim (f ((i + j) / 2)) [
    | true ↦ search_loop fuel f i ((i + j) / 2)
    | false ↦ search_loop fuel f ((i + j) / 2 + 1) j
  ]
  | false ↦ i
]

-- Each round makes the interval shorter, so `n` rounds are enough.
unfoldable pub search : ℕ → (ℕ → Bool) → ℕ
unfolding search_loop
search n f = search_loop n f 0 n

search_loop_at :
    (fuel : ℕ) (f : ℕ → Bool) (i j n s : ℕ)
    → j - i ≤ fuel
    → i ≤ s
    → s ≤ j
    → j ≤ n
    → ((k : ℕ) → k < s → f k ≡ false)
    → ((k : ℕ) → s ≤ k → k < n → f k ≡ true)
    → search_loop fuel f i j ≡ s
unfolding search_loop
search_loop_at zero f i j n s d is sj jn below above = omega arith
search_loop_at (suc fuel) f i j n s d is sj jn below above =
    let h = (i + j) / 2 in
    ground
      (arith, below h, above h, search_loop_at fuel f i h n s, search_loop_at fuel f (h + 1) j n s)

-- If `f` is false below `s` and true from `s` on, the search finds `s`.
pub search_at :
    (n : ℕ) (f : ℕ → Bool) (s : ℕ)
    → s ≤ n
    → ((k : ℕ) → k < s → f k ≡ false)
    → ((k : ℕ) → s ≤ k → k < n → f k ≡ true)
    → search n f ≡ s
unfolding search
search_at n f s h below above =
    search_loop_at n f 0 n n s (omega arith) (omega arith) h (omega arith) below above

search_loop-le : (fuel : ℕ) (f : ℕ → Bool) (i j n : ℕ) → i ≤ j → j ≤ n → search_loop fuel f i j ≤ n
unfolding search_loop
search_loop-le zero f i j n h h' = omega arith
search_loop-le (suc fuel) f i j n h h' =
    let m = (i + j) / 2 in
    ground (arith, search_loop-le fuel f i m n, search_loop-le fuel f (m + 1) j n)

pub search-le : (n : ℕ) (f : ℕ → Bool) → search n f ≤ n
unfolding search
search-le n f = search_loop-le n f 0 n n (omega arith) (omega arith)
