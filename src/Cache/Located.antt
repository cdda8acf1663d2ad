-- ===== src/Cache/Located.antt =====
-- cache/serve.go and cache/build.go: the server finds the block of an item in the locations that
-- the builder writes.
use sialite.Base.{
  wire, length-wire, get_le-copy-wire, ℕ, zero, suc, ◌+◌, ◌-◌, ◌*◌, ◌^◌, ◌≤◌, ◌<◌, ◌≡◌, refl, sym,
  ap, subst, ◌∙◌, true, false, List, [], ◌∷◌, ◌++◌, map, append_assoc, append-nil, All, All-right,
  Bytes, length, concat, concat-append, slice, slice_mid, get_le, length-append, ◌==◌, ==-refl, ltb,
  lt→ltb, le→ltb, if◌then◌else◌, arith,
}
use mathlib.Core.List.{map-append}
use sialite.Fastmap.Search.{search_at}
use sialite.Cache.Server.{
  Server, Location, number, get_payouts_start, get_block_location, find_block,
}

-- What Builder.Add writes for a block: the first miner payout, and the first transaction.
abbrev pub encode_location : ℕ → ℕ × ℕ → Bytes
encode_location w b = wire w b.0 ++ wire w b.1

abbrev pub encode_locations : ℕ → List (ℕ × ℕ) → Bytes
encode_locations w bs = concat (map (encode_location w) bs)

abbrev pub Fits : ℕ → ℕ × ℕ → Type 0
Fits w b = (b.0 < 256 ^ w) × (b.1 < 256 ^ w)

pub number-wire : (w x : ℕ) → w ≤ 8 → x < 256 ^ w → number (wire w x) ≡ x
unfolding number
number-wire w x h lt = get_le-copy-wire w x h lt

pub length-encode_locations :
    (w : ℕ) (bs : List (ℕ × ℕ)) → w ≤ 8 → length (encode_locations w bs) ≡ length bs * (2 * w)
length-encode_locations w [] h = omega arith
length-encode_locations w (b ∷ bs) h =
    let e = length-append (encode_location w b) (encode_locations w bs) in
    let e' = length-append (wire w b.0) (wire w b.1) in
    omega (arith, e, e', length-wire w b.0 h, length-wire w b.1 h, length-encode_locations w bs h)

module _ (s : Server) (blocks : List (ℕ × ℕ)) (short : s.offset_index_len ≤ 8)
    (file : s.files.block_locations ≡ encode_locations s.offset_index_len blocks)
    (count : s.nblocks ≡ length blocks) (fits : All (Fits s.offset_index_len) blocks) where
  abbrev w : ℕ
  w = s.offset_index_len

  module _ (before : List (ℕ × ℕ)) (b : ℕ × ℕ) (after : List (ℕ × ℕ))
      (parts : blocks ≡ before ++ (b ∷ after)) where
    here :
        s.files.block_locations
        ≡ encode_locations w before ++ ((wire w b.0 ++ wire w b.1) ++ encode_locations w after)
    here =
        file
        ∙ ap (encode_locations w) parts
        ∙ ap concat (map-append (encode_location w) before (b ∷ after))
        ∙ concat-append (map (encode_location w) before) (map (encode_location w) (b ∷ after))

    Fits-here : Fits w b
    Fits-here = (All-right (Fits w) before (b ∷ after) (subst (All (Fits w)) parts fits)).0

    first_here : slice (length before * (2 * w)) w s.files.block_locations ≡ wire w b.0
    first_here =
        ap (slice (length before * (2 * w)) w) (
          here
          ∙ ap (◌++◌ (encode_locations w before))
              (append_assoc (wire w b.0) (wire w b.1) (encode_locations w after)))
        ∙ slice_mid (length before * (2 * w)) w (encode_locations w before) (wire w b.0)
            (wire w b.1 ++ encode_locations w after) (length-encode_locations w before short)
            (length-wire w b.0 short)

    get_payouts_start-eq : get_payouts_start s (length before) ≡ b.0
    unfolding get_payouts_start
    get_payouts_start-eq = ap number first_here ∙ number-wire w b.0 short Fits-here.0

    second_here : slice (length before * (2 * w) + w) w s.files.block_locations ≡ wire w b.1
    second_here =
        let front = encode_locations w before ++ wire w b.0 in
        ap (slice (length before * (2 * w) + w) w) (
          here
          ∙ ap (◌++◌ (encode_locations w before))
              (append_assoc (wire w b.0) (wire w b.1) (encode_locations w after))
          ∙ sym (
              append_assoc (encode_locations w before) (wire w b.0)
                (wire w b.1 ++ encode_locations w after)))
        ∙ slice_mid (length before * (2 * w) + w) w front (wire w b.1) (encode_locations w after)
            (omega (
              arith,
              length-append (encode_locations w before) (wire w b.0),
              length-encode_locations w before short,
              length-wire w b.0 short,
            ))
            (length-wire w b.1 short)

  -- The block that stands at an index.
  module _ {κ} (P : ℕ × ℕ → Type κ) where
    at_index :
        (front bs after : List (ℕ × ℕ)) (j : ℕ)
        → blocks ≡ front ++ (bs ++ after)
        → j < length bs
        → All P bs
        → (b : ℕ × ℕ) × P b × (get_payouts_start s (length front + j) ≡ b.0)
    at_index front [] after j e lt h = absurd (omega arith)
    at_index front (b ∷ bs) after zero e lt h = (
      b,
      h.0,
      ap (get_payouts_start s) (omega arith) ∙ get_payouts_start-eq front b (bs ++ after) e,
    )
    at_index front (b ∷ bs) after (suc j) e lt h =
        let (b', p, q) =
          at_index (front ++ b ∷ []) bs after j
            (e ∙ sym (append_assoc front (b ∷ []) (bs ++ after))) (omega arith) h.1 in
        (b', p, ap (get_payouts_start s) (omega (arith, length-append front (b ∷ []))) ∙ q)

  location_eq :
      {p p' t t' n n' : ℕ}
      → p ≡ p'
      → t ≡ t'
      → n ≡ n'
      → ◌≡◌ {A = Location}
          (record { payouts_start = p; txs_start = t; next_start = n })
          (record { payouts_start = p'; txs_start = t'; next_start = n' })
  location_eq e f g = rw (e, f, g) refl

  -- Where the next block starts: at the end of the items after the last one.
  abbrev pub next_of : List (ℕ × ℕ) → ℕ
  next_of [] = s.nitems
  next_of (b ∷ bs) = b.0

  next_start-eq :
      (before : List (ℕ × ℕ)) (b : ℕ × ℕ) (after : List (ℕ × ℕ))
      → blocks ≡ before ++ (b ∷ after)
      → (if length before == s.nblocks - 1
          then s.nitems
          else number (slice (length before * (2 * w) + w + w) w s.files.block_locations))
        ≡ next_of after
  unfolding number get_payouts_start
  next_start-eq before b [] parts =
      let at : length before ≡ s.nblocks - 1 =
        omega (arith, count, ap length parts, length-append before (b ∷ [])) in
      let last : (length before == s.nblocks - 1) ≡ true =
        ap (λ n. length before == n) (sym at) ∙ ==-refl (length before) in
      rw last refl
  next_start-eq before b (b' ∷ after) parts =
      let size : s.nblocks ≡ length before + suc (suc (length after)) =
        count ∙ ap length parts ∙ length-append before (b ∷ b' ∷ after) in
      let not_last : (length before == s.nblocks - 1) ≡ false = ground arith in
      let n : length (before ++ b ∷ []) ≡ suc (length before) =
        omega (arith, length-append before (b ∷ [])) in
      let off : length before * (2 * w) + w + w ≡ length (before ++ b ∷ []) * (2 * w) =
        omega (arith, ap (λ (k : ℕ). k * (2 * w)) n) in
      let parts' : blocks ≡ (before ++ b ∷ []) ++ (b' ∷ after) =
        parts ∙ sym (append_assoc before (b ∷ []) (b' ∷ after)) in
      rw not_last (
        ap (λ k. number (slice k w s.files.block_locations)) off
        ∙ get_payouts_start-eq (before ++ b ∷ []) b' after parts')

  module _ (before : List (ℕ × ℕ)) (b : ℕ × ℕ) (after : List (ℕ × ℕ))
      (parts : blocks ≡ before ++ (b ∷ after)) where
    -- A server whose file of block locations holds the pairs of first miner payout and first
    -- transaction, as Builder.Add writes them, in numbers that fit their bytes. The search of
    -- GetItem finds, for an item that is not before its block or any earlier one and is before every
    -- later one, that block.
    pub find_block-eq :
        (item : ℕ)
        → All (λ b. b.0 ≤ item) (before ++ b ∷ [])
        → All (λ b. item < b.0) after
        → find_block s item ≡ suc (length before)
    unfolding find_block
    find_block-eq item lower upper =
        search_at s.nblocks (λ i. ltb item (get_payouts_start s i)) (suc (length before))
          (omega (arith, size)) below above
      where
        size : s.nblocks ≡ length before + suc (length after)
        size = count ∙ ap length parts ∙ length-append before (b ∷ after)

        size' : length (before ++ b ∷ []) ≡ suc (length before)
        size' = omega (arith, length-append before (b ∷ []))

        parts' : blocks ≡ (before ++ b ∷ []) ++ (after ++ [])
        parts' =
            parts
            ∙ sym (append_assoc before (b ∷ []) after)
            ∙ ap (◌++◌ (before ++ b ∷ [])) (sym (append-nil after))

        below : (j : ℕ) → j < suc (length before) → ltb item (get_payouts_start s j) ≡ false
        below j lt =
            let (b', p, q) =
              at_index (λ b. b.0 ≤ item) [] (before ++ b ∷ []) after j
                (parts ∙ sym (append_assoc before (b ∷ []) after)) (omega (arith, size')) lower in
            let e : 0 + j ≡ j = omega arith in
            le→ltb item (get_payouts_start s j) (omega (arith, p, ap (get_payouts_start s) e, q))

        above :
            (j : ℕ)
            → suc (length before) ≤ j
            → j < s.nblocks
            → ltb item (get_payouts_start s j) ≡ true
        above j le lt =
            let (b', p, q) =
              at_index (λ b. item < b.0) (before ++ b ∷ []) after [] (j - suc (length before))
                parts' (omega (arith, size)) upper in
            let e : length (before ++ b ∷ []) + (j - suc (length before)) ≡ j =
              omega (arith, size') in
            lt→ltb item (get_payouts_start s j) (omega (arith, p, ap (get_payouts_start s) e, q))

    -- In such a file getBlockLocation of a block gives the two numbers that Builder.Add wrote for
    -- it, and as the start of the next block the first number of that one, or the number of items
    -- for the last block.
    pub get_block_location-eq :
        get_block_location s (length before)
        ≡ record { payouts_start = b.0; txs_start = b.1; next_start = next_of after }
    unfolding get_block_location get_le get_payouts_start
    get_block_location-eq =
        location_eq (get_payouts_start-eq before b after parts)
          (ap number (second_here before b after parts)
            ∙ number-wire w b.1 short (Fits-here before b after parts).1)
          (next_start-eq before b after parts)
