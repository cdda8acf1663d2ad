-- ===== src/Cache/Server/History.antt =====
-- cache/serve.go, GetHistory: the items whose indices the address map has.
use Prim.Native.Nat.{min}
use sialite.Base.{
  ℕ, zero, suc, ◌+◌, ◌-◌, ◌*◌, ◌/◌, ◌≤◌, ◌<◌, ◌^◌, ◌≡◌, refl, sym, ap, subst, ◌∙◌, true, false,
  List, [], ◌∷◌, ◌++◌, All, Bytes, length, take, drop, take-append, drop-append, length-append, map,
  wire, length-wire, ◌==◌, ==-refl, ltb, some, Result, ok, arith,
}
use native.Mathlib.Nat.{mul-div_cancel}
use sialite.Cache.Located.{number-wire}
use sialite.Fastmap.MultiMap.{multi_lookup}
use sialite.Cache.Server.{
  Server, Item, number, get_item, max_history_size, history_items, history_of, get_history,
}

-- The indices of these items, as Builder.Add writes them.
unfoldable pub indices : ℕ → List ℕ → Bytes
indices w [] = []
indices w (i ∷ is) = wire w (i + 1) ++ indices w is

length-indices : (w : ℕ) (is : List ℕ) → w ≤ 8 → length (indices w is) ≡ length is * w
unfolding indices
length-indices w [] h = omega arith
length-indices w (i ∷ is) h = omega (
  arith,
  length-append (wire w (i + 1)) (indices w is),
  length-wire w (i + 1) h,
  length-indices w is h,
)

take-min : (m : ℕ) (is : List ℕ) → take (min (length is) m) is ≡ take m is
take-min zero is = let e : min (length is) 0 ≡ 0 = omega arith in ap (λ n. take n is) e
take-min (suc m) [] = let e : min 0 (suc m) ≡ 0 = omega arith in ap (λ n. take {A = ℕ} n []) e
take-min (suc m) (i ∷ is) =
    let e : min (suc (length is)) (suc m) ≡ suc (min (length is) m) = omega arith in
    ap (λ n. take n (i ∷ is)) e ∙ ap (◌∷◌ i) (take-min m is)

module _ (hash_size : ℕ) (prove : ℕ → List Bytes → Result (List Bytes)) (s : Server)
    (item : ℕ → Item) (short : s.offset_index_len ≤ 8) where
  abbrev IsServed : ℕ → Type 0
  IsServed i = get_item hash_size prove s i ≡ ok (item i)

  history_items-served :
      (n : ℕ) (is : List ℕ)
      → n ≤ length is
      → All (λ i. i + 1 < 256 ^ s.offset_index_len) is
      → All IsServed (take n is)
      → history_items hash_size prove n s (indices s.offset_index_len is)
        ≡ ok (map item (take n is))
  unfolding history_items indices
  history_items-served zero is h fit served = refl
  history_items-served (suc n) [] h fit served = absurd (omega arith)
  history_items-served (suc n) (i ∷ is) h fit served =
      let w = s.offset_index_len in
      let size = length-wire w (i + 1) short in
      let here : number (take w (wire w (i + 1) ++ indices w is)) ≡ i + 1 =
        ap number (take-append w (wire w (i + 1)) (indices w is) size)
        ∙ number-wire w (i + 1) short fit.0 in
      let behind : drop w (wire w (i + 1) ++ indices w is) ≡ indices w is =
        drop-append w (wire w (i + 1)) (indices w is) size in
      let some_index : (i + 1 == 0) ≡ false = ground arith in
      let back : i + 1 - 1 ≡ i = omega arith in
      rw
        (
          here,
          behind,
          some_index,
          back,
          served.0,
          history_items-served n is (omega arith) fit.1 served.1,
        )
        refl

  -- An address of the right size, indices in at most 8 bytes, and a prefix not longer than the
  -- address. Lookup of the address's prefix in the address map gives the indices of some items, as
  -- Builder.Add writes them, from one on, in numbers that fit their bytes; and GetItem serves the
  -- first MAX_HISTORY_SIZE of the items, or all if there are fewer.
  -- GetHistory returns just these items, in order, and no error.
  pub get_history-served :
      (address : Bytes) (is : List ℕ)
      → 0 < s.offset_index_len
      → length address ≡ hash_size
      → s.address_prefix_len ≤ hash_size
      → multi_lookup s.address_map (take s.address_prefix_len address)
        ≡ ok (some (indices s.offset_index_len is))
      → All (λ i. i + 1 < 256 ^ s.offset_index_len) is
      → All IsServed (take max_history_size is)
      → get_history hash_size prove s address ≡ ok (map item (take max_history_size is))
  unfolding get_history history_of
  get_history-served address is some_bytes size prefix found fit served =
      let w = s.offset_index_len in
      let count : length (indices w is) / w ≡ length is =
        ap (λ n. n / w) (length-indices w is short) ∙ mul-div_cancel (length is) some_bytes in
      let same = take-min max_history_size is in
      let sized : (length address == hash_size) ≡ true = rw size (==-refl hash_size) in
      let inside : ltb hash_size s.address_prefix_len ≡ false = ground arith in
      rw (sized, inside, found, count)
        (history_items-served (min (length is) max_history_size) is (omega arith) fit
            (subst (All IsServed) (sym same) served)
          ∙ ap (λ l. ok (map item l)) same)
