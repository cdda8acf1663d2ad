-- ===== src/Cache/Served.antt =====
-- GetItem of a server whose files hold the items of some blocks.
use mathlib.Core.List.{map-append}
use sialite.Base.{
  ℕ, suc, ◌+◌, ◌-◌, ◌*◌, ◌≤◌, ◌<◌, ◌≡◌, refl, sym, ap, ap₂, subst, ◌∙◌, List, [], ◌∷◌, ◌++◌,
  append_assoc, map, All, Bytes, length, concat, concat-append, length-append, slice, slice_mid,
  ltb, if◌then◌else◌, Bool, Result, ok, arith,
}
use sialite.Cache.Server.{
  Server, Item, Location, no_compression, snappy, data_start, data_end, get_item, pieces,
}
use sialite.Cache.Server.Items.{leaves, get_item-located}
use sialite.Cache.Builder.Items.{Entry}
use sialite.Cache.Held.{
  Items, entries, all_entries, stored, stored-append, Holds, data_start-at, data_end-at,
  entries-parts, total, find_block-at, get_block_location-at, pieces-concat,
}

module _ (sia_hash : Bytes → Bytes) (hash_size : ℕ)
    (sized : (b : Bytes) → length (sia_hash b) ≡ hash_size) where
  -- The leaves of the Merkle tree of some items.
  abbrev pub leaves_of : List Entry → List Bytes
  leaves_of es = map (λ e. sia_hash (0 ∷ e.plain)) es

  leaves_sized : (es : List Entry) → All (λ x. length x ≡ hash_size) (leaves_of es)
  leaves_sized [] = tt
  leaves_sized (e ∷ es) = (sized (0 ∷ e.plain), leaves_sized es)

  count : (es : List Entry) → length (leaves_of es) ≡ length es
  count [] = refl
  count (e ∷ es) = ap suc (count es)

  size : (es : List Entry) → length (concat (leaves_of es)) ≡ length es * hash_size
  size [] = omega arith
  size (e ∷ es) = omega (
    arith,
    length-append (sia_hash (0 ∷ e.plain)) (concat (leaves_of es)),
    sized (0 ∷ e.plain),
    size es,
  )

  leaves-append :
      (xs ys : List Entry)
      → concat (leaves_of (xs ++ ys)) ≡ concat (leaves_of xs) ++ concat (leaves_of ys)
  leaves-append xs ys =
      ap concat (map-append (λ e. sia_hash (0 ∷ e.plain)) xs ys)
      ∙ concat-append (leaves_of xs) (leaves_of ys)

  module _ (s : Server) (bs : List Items) (h : Holds sia_hash s bs) (before : List Items)
      (b : Items) (after : List Items) (whole : bs ≡ before ++ (b ∷ after)) where
    abbrev first : ℕ
    first = length (all_entries before)

    file_parts :
        s.files.leaves_hashes
        ≡ concat (leaves_of (all_entries before))
          ++ (concat (leaves_of (entries b)) ++ concat (leaves_of (all_entries after)))
    file_parts =
        h.leaves_hashes
        ∙ ap (λ es. concat (leaves_of es)) (entries-parts sia_hash s bs h before b after whole)
        ∙ leaves-append (all_entries before) (entries b ++ all_entries after)
        ∙ ap (◌++◌ (concat (leaves_of (all_entries before))))
            (leaves-append (entries b) (all_entries after))

    block_leaves :
        (n : ℕ)
        → n ≡ length (entries b)
        → pieces n hash_size (slice (first * hash_size) (n * hash_size) s.files.leaves_hashes)
          ≡ leaves_of (entries b)
    block_leaves n e =
        ap
          (λ n.
            pieces n hash_size (slice (first * hash_size) (n * hash_size) s.files.leaves_hashes))
          e
        ∙ ap (pieces (length (entries b)) hash_size) (
            ap (slice (first * hash_size) (length (entries b) * hash_size)) file_parts
            ∙ slice_mid (first * hash_size) (length (entries b) * hash_size)
                (concat (leaves_of (all_entries before))) (concat (leaves_of (entries b)))
                (concat (leaves_of (all_entries after))) (size (all_entries before))
                (size (entries b)))
        ∙ ap (λ n. pieces n hash_size (concat (leaves_of (entries b)))) (sym (count (entries b)))
        ∙ pieces-concat hash_size (leaves_of (entries b)) (leaves_sized (entries b))

    room : first * hash_size + length (entries b) * hash_size ≤ length s.files.leaves_hashes
    room = omega (
      arith,
      ap length file_parts,
      length-append (concat (leaves_of (all_entries before)))
          (concat (leaves_of (entries b)) ++ concat (leaves_of (all_entries after))),
      length-append (concat (leaves_of (entries b))) (concat (leaves_of (all_entries after))),
      size (all_entries before),
      size (entries b),
    )

    module _ (front : List Entry) (e : Entry) (back : List Entry)
        (place : entries b ≡ front ++ (e ∷ back)) where
      abbrev earlier : List Entry
      earlier = all_entries before ++ front

      earlier-length : length earlier ≡ first + length front
      earlier-length = length-append (all_entries before) front

      parts : all_entries bs ≡ earlier ++ (e ∷ (back ++ all_entries after))
      parts =
          entries-parts sia_hash s bs h before b after whole
          ∙ ap (λ es. all_entries before ++ (es ++ all_entries after)) place
          ∙ ap (◌++◌ (all_entries before)) (append_assoc front (e ∷ back) (all_entries after))
          ∙ sym (append_assoc (all_entries before) front (e ∷ (back ++ all_entries after)))

      inside : length front < length (entries b)
      inside = omega (arith, ap length place, length-append front (e ∷ back))

      chain_parts :
          s.files.blockchain ≡ stored earlier ++ (e.stored ++ stored (back ++ all_entries after))
      chain_parts =
          h.blockchain ∙ ap stored parts ∙ stored-append earlier (e ∷ (back ++ all_entries after))

      chain_size :
          length s.files.blockchain
          ≡ length (stored earlier)
            + (length e.stored + length (stored (back ++ all_entries after)))
      chain_size = omega (
        arith,
        ap length chain_parts,
        length-append (stored earlier) (e.stored ++ stored (back ++ all_entries after)),
        length-append e.stored (stored (back ++ all_entries after)),
      )

      item_eq :
          {d d' : Bytes} {i i' n n' : ℕ} {t t' : Bool} (k : ℕ) (p : Bytes)
          → d ≡ d'
          → t ≡ t'
          → i ≡ i'
          → n ≡ n'
          → ◌≡◌ {A = Item}
              (record {
                data_bytes = d;
                compression = if t then no_compression else snappy;
                block = k;
                index = i;
                num_leaves = n;
                merkle_proof = p;
              })
              (record {
                data_bytes = d';
                compression = if t' then no_compression else snappy;
                block = k;
                index = i';
                num_leaves = n';
                merkle_proof = p;
              })
      item_eq k p d t i n = rw (d, t, i, n) refl

      -- A server whose files hold the items of some blocks as Builder.Add writes them, an item of one of
      -- the blocks, and a Merkle tree that makes a proof from the item's place in its block and the
      -- leaves of that block, of hashes of the right size. GetItem of the item's number succeeds and
      -- returns the bytes stored for it, marked as compressed unless it is a miner payout, the
      -- number of its block, its place there, the number of leaves, and that proof.
      pub get_item-serves :
          (prove : ℕ → List Bytes → Result (List Bytes)) (hashes : List Bytes)
          → prove (length front) (leaves_of (entries b)) ≡ ok hashes
          → All (λ x. length x ≡ hash_size) hashes
          → get_item hash_size prove s (length (all_entries before ++ front))
            ≡ ok (record {
              data_bytes = e.stored;
              compression = if ltb (length front) (length b.0) then no_compression else snappy;
              block = length before;
              index = length front;
              num_leaves = length (entries b);
              merkle_proof = concat hashes;
            })
      get_item-serves prove hashes proof good =
          let item = length earlier in
          let n = length (entries b) in
          let l : Location = record {
            payouts_start = first;
            txs_start = first + length b.0;
            next_start = first + n;
          } in
          let start = data_start-at sia_hash s bs h earlier e (back ++ all_entries after) parts in
          let end = data_end-at sia_hash s bs h earlier e (back ++ all_entries after) parts in
          let width : data_end s item - data_start s item ≡ length e.stored =
            omega (arith, start, end) in
          let index : item - first ≡ length front = omega (arith, earlier-length) in
          let number : first + n - first ≡ n = omega arith in
          let all = total sia_hash s bs h before b after whole in
          let proof' : prove (item - first) (leaves hash_size prove s item (length before) l)
              ≡ ok hashes =
            ap₂ prove index (block_leaves (first + n - first) number) ∙ proof in
          let room' : first * hash_size + (first + n - first) * hash_size
              ≤ length s.files.leaves_hashes =
            subst (λ k. first * hash_size + k * hash_size ≤ length s.files.leaves_hashes)
              (sym number) room in
          let bytes : slice (data_start s item) (data_end s item - data_start s item)
                s.files.blockchain
              ≡ e.stored =
            ap₂ (λ (a k : ℕ). slice a k s.files.blockchain) start width
            ∙ ap (slice (length (stored earlier)) (length e.stored)) chain_parts
            ∙ slice_mid (length (stored earlier)) (length e.stored) (stored earlier) e.stored
                (stored (back ++ all_entries after)) refl refl in
          let kind : ltb item (first + length b.0) ≡ ltb (length front) (length b.0) =
            ap (λ k. ltb k (first + length b.0)) earlier-length
            ∙ ltb_add first (length front) (length b.0) in
          get_item-located hash_size prove s item (length before) l hashes
            (omega (arith, h.nitems, all, earlier-length, inside)) (omega (arith, start, end))
            (omega (arith, end, chain_size))
            (find_block-at sia_hash s bs h before b after whole item (omega (arith, earlier-length))
              (omega (arith, earlier-length, inside)))
            (get_block_location-at sia_hash s bs h before b after whole) (omega arith) room' proof'
            good
          ∙ ap ok (item_eq (length before) (concat hashes) bytes kind index number)
        where
          ltb_add : (a m n : ℕ) → ltb (a + m) (a + n) ≡ ltb m n
          ltb_add a m n = ground arith
