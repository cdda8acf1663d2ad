-- ===== src/Cache/Held.antt =====
-- A server whose files hold the items of some blocks: where each item and each block stands.
use mathlib.Core.List.{map-append}
use sialite.Base.{
  ℕ, suc, ◌+◌, ◌-◌, ◌*◌, ◌^◌, ◌≤◌, ◌<◌, ◌≡◌, refl, sym, ap, ◌∙◌, true, false, List, [], ◌∷◌, ◌++◌,
  append_assoc, map, All, All-append, Bytes, length, concat, concat-append, length-append,
  take-append, drop-append, slice, slice_mid, wire, length-wire, get_le-copy-wire, ◌==◌, ==-refl,
  arith,
}
use sialite.Cache.Server.{
  Server, number, data_start, data_end, find_block, get_block_location, pieces,
}
use sialite.Cache.Builder.Items.{Entry}
use sialite.Cache.Builder.Files.{starts, starts-append}
use sialite.Cache.Located.{Fits, encode_locations, next_of, find_block-eq, get_block_location-eq}

-- A block: the items of its miner payouts and of its transactions.
abbrev pub Items : Type 0
Items = List Entry × List Entry

abbrev pub entries : Items → List Entry
entries b = b.0 ++ b.1

abbrev pub all_entries : List Items → List Entry
all_entries [] = []
all_entries (b ∷ bs) = entries b ++ all_entries bs

abbrev pub stored : List Entry → Bytes
stored es = concat (map (λ e. e.stored) es)

-- The first payout and the first transaction of each block, the items counted from `n` on.
abbrev pub locations : ℕ → List Items → List (ℕ × ℕ)
locations n [] = []
locations n (b ∷ bs) = (n, n + length b.0) ∷ locations (n + length (entries b)) bs

all_entries-append :
    (bs bs' : List Items) → all_entries (bs ++ bs') ≡ all_entries bs ++ all_entries bs'
all_entries-append [] bs' = refl
all_entries-append (b ∷ bs) bs' =
    ap (◌++◌ (entries b)) (all_entries-append bs bs')
    ∙ sym (append_assoc (entries b) (all_entries bs) (all_entries bs'))

locations-append :
    (n : ℕ) (bs bs' : List Items)
    → locations n (bs ++ bs') ≡ locations n bs ++ locations (n + length (all_entries bs)) bs'
locations-append n [] bs' = let e : n ≡ n + 0 = omega arith in ap (λ k. locations k bs') e
locations-append n (b ∷ bs) bs' =
    let e : n + length (entries b) + length (all_entries bs)
        ≡ n + length (entries b ++ all_entries bs) =
      omega (arith, length-append (entries b) (all_entries bs)) in
    ap (◌∷◌ (n, n + length b.0)) (
      locations-append (n + length (entries b)) bs bs'
      ∙ ap (λ k. locations (n + length (entries b)) bs ++ locations k bs') e)

pub length-locations : (n : ℕ) (bs : List Items) → length (locations n bs) ≡ length bs
length-locations n [] = refl
length-locations n (b ∷ bs) = ap suc (length-locations (n + length (entries b)) bs)

locations_low :
    (n k : ℕ) (bs : List Items)
    → n + length (all_entries bs) ≤ k
    → All (λ l. l.0 ≤ k) (locations n bs)
locations_low n k [] h = tt
locations_low n k (b ∷ bs) h =
    let e = length-append (entries b) (all_entries bs) in
    (omega arith, locations_low (n + length (entries b)) k bs (omega (arith, e)))

locations_high : (n k : ℕ) (bs : List Items) → k < n → All (λ l. k < l.0) (locations n bs)
locations_high n k [] h = tt
locations_high n k (b ∷ bs) h = (h, locations_high (n + length (entries b)) k bs (omega arith))

locations_fit :
    (w n : ℕ) (bs : List Items)
    → n + length (all_entries bs) < 256 ^ w
    → All (Fits w) (locations n bs)
locations_fit w n [] h = tt
locations_fit w n (b ∷ bs) h =
    let e = length-append (entries b) (all_entries bs) in
    let e' = length-append b.0 b.1 in
    (
      (omega arith, omega (arith, e, e')),
      locations_fit w (n + length (entries b)) bs (omega (arith, e)),
    )

-- One of some pieces of one length.
pub piece_at :
    (k : ℕ) (xs : List Bytes) (x : Bytes) (ys : List Bytes)
    → All (λ x. length x ≡ k) xs
    → length x ≡ k
    → slice (length xs * k) k (concat (xs ++ (x ∷ ys))) ≡ x
piece_at k xs x ys h e =
    ap (slice (length xs * k) k) (concat-append xs (x ∷ ys))
    ∙ slice_mid (length xs * k) k (concat xs) x (concat ys) (size xs h) e
  where
    size : (xs : List Bytes) → All (λ x. length x ≡ k) xs → length (concat xs) ≡ length xs * k
    size [] h = omega arith
    size (x ∷ xs) h = omega (arith, length-append x (concat xs), size xs h.1, h.0)

pub pieces-concat :
    (k : ℕ) (xs : List Bytes) → All (λ x. length x ≡ k) xs → pieces (length xs) k (concat xs) ≡ xs
unfolding pieces
pieces-concat k [] h = refl
pieces-concat k (x ∷ xs) h =
    rw (take-append k x (concat xs) h.0, drop-append k x (concat xs) h.0, pieces-concat k xs h.1)
      refl

-- The files of a server hold these blocks, in numbers that fit their bytes.
pub record Holds (sia_hash : Bytes → Bytes) (s : Server) (bs : List Items) : Type 0 where
  pub blockchain : s.files.blockchain ≡ stored (all_entries bs)
  pub offsets : s.files.offsets ≡ concat (map (wire s.offset_len) (starts 0 (all_entries bs)))
  pub block_locations :
      s.files.block_locations ≡ encode_locations s.offset_index_len (locations 0 bs)
  pub leaves_hashes :
      s.files.leaves_hashes ≡ concat (map (λ e. sia_hash (0 ∷ e.plain)) (all_entries bs))
  pub nblocks : s.nblocks ≡ length bs
  pub nitems : s.nitems ≡ length (all_entries bs)
  pub short : s.offset_len ≤ 8
  pub short_index : s.offset_index_len ≤ 8
  pub fit : length (stored (all_entries bs)) < 256 ^ s.offset_len
  pub fit_index : length (all_entries bs) < 256 ^ s.offset_index_len

pub stored-append : (xs ys : List Entry) → stored (xs ++ ys) ≡ stored xs ++ stored ys
stored-append xs ys =
    ap concat (map-append (λ e. e.stored) xs ys)
    ∙ concat-append (map (λ e. e.stored) xs) (map (λ e. e.stored) ys)

stored_snoc :
    (xs : List Entry) (e : Entry)
    → length (stored (xs ++ e ∷ [])) ≡ length (stored xs) + length e.stored
stored_snoc xs e = omega (
  arith,
  ap length (stored-append xs (e ∷ [])),
  length-append (stored xs) (stored (e ∷ [])),
  length-append e.stored [],
)

pub length-starts : (n w : ℕ) (es : List Entry) → length (map (wire w) (starts n es)) ≡ length es
unfolding starts
length-starts n w [] = refl
length-starts n w (e ∷ es) = ap suc (length-starts (n + length e.stored) w es)

starts_sized :
    (n w : ℕ) (es : List Entry) → w ≤ 8 → All (λ x. length x ≡ w) (map (wire w) (starts n es))
unfolding starts
starts_sized n w [] h = tt
starts_sized n w (e ∷ es) h = (length-wire w n h, starts_sized (n + length e.stored) w es h)

module _ (sia_hash : Bytes → Bytes) (s : Server) (bs : List Items) (h : Holds sia_hash s bs) where
  module _ (xs : List Entry) (e : Entry) (ys : List Entry)
      (parts : all_entries bs ≡ xs ++ (e ∷ ys)) where
    small : length (stored xs) < 256 ^ s.offset_len
    small = omega (
      arith,
      h.fit,
      ap (λ es. length (stored es)) parts,
      ap length (stored-append xs (e ∷ ys)),
      length-append (stored xs) (stored (e ∷ ys)),
    )

    abbrev later : List Bytes
    later = map (wire s.offset_len) (starts (length (stored xs) + length e.stored) ys)

    offsets_parts :
        concat (map (wire s.offset_len) (starts 0 (all_entries bs)))
        ≡ concat (
            map (wire s.offset_len) (starts 0 xs)
            ++ (wire s.offset_len (length (stored xs)) ∷ later))
    unfolding starts
    offsets_parts =
        let zero_add : 0 + length (stored xs) ≡ length (stored xs) = omega arith in
        ap (λ es. concat (map (wire s.offset_len) (starts 0 es))) parts
        ∙ ap (λ ns. concat (map (wire s.offset_len) ns))
            (starts-append 0 xs (e ∷ ys) ∙ ap (λ n. starts 0 xs ++ starts n (e ∷ ys)) zero_add)
        ∙ ap concat (map-append (wire s.offset_len) (starts 0 xs) _)

    pub data_start-at : data_start s (length xs) ≡ length (stored xs)
    unfolding data_start number
    data_start-at =
        let w = s.offset_len in
        let n = length-starts 0 w xs in
        ap (λ b. number (slice (length xs * w) w b)) (h.offsets ∙ offsets_parts)
        ∙ ap
            (λ k. number (
              slice (k * w) w
                (concat (map (wire w) (starts 0 xs) ++ (wire w (length (stored xs)) ∷ later)))))
            (sym n)
        ∙ ap number (
            piece_at w (map (wire w) (starts 0 xs)) (wire w (length (stored xs))) later
              (starts_sized 0 w xs h.short) (length-wire w (length (stored xs)) h.short))
        ∙ get_le-copy-wire w (length (stored xs)) h.short small

  pub data_end-at :
      (xs : List Entry) (e : Entry) (ys : List Entry)
      → all_entries bs ≡ xs ++ (e ∷ ys)
      → data_end s (length xs) ≡ length (stored xs) + length e.stored
  unfolding data_end data_start number
  data_end-at xs e [] parts =
      let last : (length xs == s.nitems - 1) ≡ true =
        ap (λ n. length xs == n)
          (omega (arith, h.nitems, ap length parts, length-append xs (e ∷ [])))
        ∙ ==-refl (length xs) in
      rw last (
        omega (
          arith,
          ap length h.blockchain,
          ap (λ es. length (stored es)) parts,
          ap length (stored-append xs (e ∷ [])),
          length-append (stored xs) (stored (e ∷ [])),
          length-append e.stored [],
        ))
  data_end-at xs e (y ∷ ys) parts =
      let w = s.offset_len in
      let total : s.nitems ≡ length xs + suc (suc (length ys)) =
        h.nitems ∙ ap length parts ∙ length-append xs (e ∷ y ∷ ys) in
      let not_last : (length xs == s.nitems - 1) ≡ false = ground arith in
      let n : length (xs ++ e ∷ []) ≡ suc (length xs) = omega (arith, length-append xs (e ∷ [])) in
      let off : length xs * w + w ≡ length (xs ++ e ∷ []) * w =
        omega (arith, ap (λ (k : ℕ). k * w) n) in
      rw not_last (
        ap (λ k. number (slice k w s.files.offsets)) off
        ∙ data_start-at (xs ++ e ∷ []) y ys (parts ∙ sym (append_assoc xs (e ∷ []) (y ∷ ys)))
        ∙ stored_snoc xs e)

  -- The blocks before one, the one, and those after it.
  module _ (before : List Items) (b : Items) (after : List Items)
      (whole : bs ≡ before ++ (b ∷ after)) where
    abbrev first : ℕ
    first = length (all_entries before)

    abbrev here : ℕ × ℕ
    here = (first, first + length b.0)

    abbrev rest : List (ℕ × ℕ)
    rest = locations (first + length (entries b)) after

    locations-parts : locations 0 bs ≡ locations 0 before ++ (here ∷ rest)
    locations-parts =
        let e : 0 + length (all_entries before) ≡ first = omega arith in
        ap (locations 0) whole
        ∙ locations-append 0 before (b ∷ after)
        ∙ ap (λ n. locations 0 before ++ locations n (b ∷ after)) e

    pub entries-parts : all_entries bs ≡ all_entries before ++ (entries b ++ all_entries after)
    entries-parts = ap all_entries whole ∙ all_entries-append before (b ∷ after)

    pub total : length (all_entries bs) ≡ first + (length (entries b) + length (all_entries after))
    total =
        ap length entries-parts
        ∙ length-append (all_entries before) (entries b ++ all_entries after)
        ∙ ap (λ n. first + n) (length-append (entries b) (all_entries after))

    locations_Fits : All (Fits s.offset_index_len) (locations 0 bs)
    locations_Fits = locations_fit s.offset_index_len 0 bs (omega (arith, h.fit_index))

    blocks_count : s.nblocks ≡ length (locations 0 bs)
    blocks_count = h.nblocks ∙ sym (length-locations 0 bs)

    pub find_block-at :
        (item : ℕ)
        → first ≤ item
        → item < first + length (entries b)
        → find_block s item ≡ suc (length before)
    find_block-at item low high =
        find_block-eq s (locations 0 bs) h.short_index h.block_locations blocks_count locations_Fits
          (locations 0 before) here rest locations-parts item
          (All-append (λ l. l.0 ≤ item) (locations 0 before) (here ∷ [])
            (locations_low 0 item before (omega (arith, low))) (low, tt))
          (locations_high (first + length (entries b)) item after high)
        ∙ ap suc (length-locations 0 before)

    next_start-at :
        next_of s (locations 0 bs) h.short_index h.block_locations blocks_count locations_Fits rest
        ≡ first + length (entries b)
    next_start-at = go after total
      where
        go :
            (cs : List Items)
            → length (all_entries bs) ≡ first + (length (entries b) + length (all_entries cs))
            → next_of s
                (locations 0 bs)
                h.short_index
                h.block_locations
                blocks_count
                locations_Fits
                (locations (first + length (entries b)) cs)
              ≡ first + length (entries b)
        go [] e = omega (arith, h.nitems, e)
        go (c ∷ cs) e = refl

    pub get_block_location-at : get_block_location s (length before) ≡ record {
      payouts_start = first;
      txs_start = first + length b.0;
      next_start = first + length (entries b);
    }
    get_block_location-at =
        ap (get_block_location s) (sym (length-locations 0 before))
        ∙ get_block_location-eq s (locations 0 bs) h.short_index h.block_locations blocks_count
            locations_Fits (locations 0 before) here rest locations-parts
        ∙ ap (λ n. record { payouts_start = first; txs_start = first + length b.0; next_start = n })
            next_start-at
