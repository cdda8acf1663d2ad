-- ===== src/Cache/Linked.antt =====
-- The builder and the server together: an item that Add stored is what GetItem returns.
use mathlib.Core.List.{map-append}
use native.Mathlib.Nat.{mul-div_cancel}
use sialite.Base.{
  ℕ, suc, ◌+◌, ◌*◌, ◌/◌, ◌^◌, ◌≤◌, ◌<◌, ◌≡◌, refl, sym, ap, ap₂, subst, ◌∙◌, List, [], ◌∷◌, ◌++◌,
  map, All, Bytes, length, concat, length-append, wire, length-wire, ltb, if◌then◌else◌, M, Outcome,
  done, Result, ok, arith,
}
use sialite.Cache.Server.{Parameters, Files, Server, no_compression, snappy, new_server, get_item}
use sialite.Cache.Server.Opened.{Takes, new_server-Takes}
use sialite.Cache.Located.{encode_locations, length-encode_locations}
use sialite.Cache.Builder.Entries.{Accepts}
use sialite.Cache.Builder.{Builder, Block, add_blocks}
use sialite.Cache.Builder.Items.{Entry}
use sialite.Cache.Builder.Blocks.{
  View, Sizes, view, sizes, IsWorking, Stepped, payouts, transactions,
}
use sialite.Cache.Builder.Files as Made
use sialite.Cache.Builder.Files.{
  starts, Grows, view_blocks, view_blocks-Grows, view_blocks-locations,
}
use sialite.Cache.Builder.Whole.{FitAll, Built, built, too_long, add_blocks-Built}
use sialite.Cache.Held.{
  Items, entries, all_entries, stored, length-starts, length-locations, locations, Holds,
}
use sialite.Cache.Served.{leaves_of, get_item-serves}

-- What the server's parameters and files are to be.
pub record Shares {A : Type 0} (t : Builder A) (p : Parameters) (f : Files) : Type 0 where
  pub blockchain : f.blockchain ≡ t.blockchain.out
  pub offsets : f.offsets ≡ t.offsets.out
  pub block_locations : f.block_locations ≡ t.block_locations.out
  pub leaves_hashes : f.leaves_hashes ≡ t.leaves_hashes.out
  pub offset_len : p.offset_len ≡ t.offset_len
  pub offset_index_len : p.offset_index_len ≡ t.offset_index_len

length-wires :
    (w : ℕ) (ns : List ℕ) → w ≤ 8 → length (concat (map (wire w) ns)) ≡ length (map (wire w) ns) * w
length-wires w [] h = omega arith
length-wires w (n ∷ ns) h = omega (
  arith,
  length-append (wire w n) (concat (map (wire w) ns)),
  length-wire w n h,
  length-wires w ns h,
)

quotient : (n w : ℕ) → 0 < w → n * w / w ≡ n
quotient n w h = mul-div_cancel n h

module _ {A : Type 0} (compress : Bytes → Bytes) (sia_hash : Bytes → Bytes) (write : Bytes → M A ℕ)
    (close_addresses : M A (Unit {0})) (next : Bytes → A → A) (accepts : Accepts write next) where
  -- A block as its items.
  abbrev pub items_of : Block → Items
  items_of b = (
    payouts compress sia_hash write close_addresses next accepts b,
    transactions compress sia_hash write close_addresses next accepts b,
  )

  same_entries :
      (bs : List Block)
      → Made.all_entries compress sia_hash write close_addresses next accepts bs
        ≡ all_entries (map items_of bs)
  same_entries [] = refl
  same_entries (b ∷ bs) = ap (◌++◌ (entries (items_of b))) (same_entries bs)

  same_locations :
      (n : ℕ) (bs : List Block)
      → Made.locations compress sia_hash write close_addresses next accepts n bs
        ≡ locations n (map items_of bs)
  unfolding Made.locations
  same_locations n [] = refl
  same_locations n (b ∷ bs) =
      ap (◌∷◌ (n, n + length (items_of b).0))
        (same_locations (n + length (entries (items_of b))) bs)

  -- Before the first block.
  pub record IsEmpty (s : Builder A) : Type 0 where
    pub working : IsWorking compress sia_hash write close_addresses next accepts s
    pub blockchain : s.blockchain.out ≡ []
    pub offsets : s.offsets.out ≡ []
    pub locations : s.block_locations.out ≡ []
    pub leaves : s.leaves_hashes.out ≡ []
    pub index : s.offset_index ≡ 0

  module _ (bs : List Block) (s t : Builder A) (empty : IsEmpty s)
      (all_fit : FitAll compress sia_hash write close_addresses next accepts bs s)
      (run : add_blocks compress sia_hash write close_addresses bs s ≡ done tt t) where
    abbrev Reached : Builder A → Type 0
    Reached = Stepped compress sia_hash write close_addresses next accepts s (
        view_blocks compress sia_hash write close_addresses next accepts
          (sizes compress sia_hash write close_addresses next accepts s) bs
          (view compress sia_hash write close_addresses next accepts s))

    reached : Reached t
    reached = go (
        add_blocks-Built compress sia_hash write close_addresses next accepts bs s empty.working
          all_fit)
      where
        same :
            (u : Builder A)
            → add_blocks compress sia_hash write close_addresses bs s ≡ done tt u
            → u ≡ t
        same u e =
            let both : ◌≡◌ {A = Outcome (Builder A) (Unit {0})} (done tt u) (done tt t) =
              sym e ∙ run in
            cc

        go : Built compress sia_hash write close_addresses next accepts bs s → Reached t
        go (built u e k) = subst Reached (same u e) k
        go (too_long u before b after e e' k over) = absurd (let both = sym e' ∙ run in cc)

    -- What the new server needs of the sizes.
    pub record Suits (p : Parameters) (f : Files) : Type 0 where
      pub shares : Shares t p f
      pub some_offset : 0 < t.offset_len
      pub some_index : 0 < t.offset_index_len
      pub fit : length (stored (all_entries (map items_of bs))) < 256 ^ t.offset_len
      pub fit_index : length (all_entries (map items_of bs)) < 256 ^ t.offset_index_len

    module _ (p : Parameters) (f : Files) (u : Suits p f) (srv : Server)
        (opened : new_server p f ≡ ok srv) where
      abbrev es : List Entry
      es = all_entries (map items_of bs)

      abbrev z : Sizes
      z = sizes compress sia_hash write close_addresses next accepts s

      abbrev v₀ : View A
      v₀ = view compress sia_hash write close_addresses next accepts s

      seen :
          view compress sia_hash write close_addresses next accepts t
          ≡ view_blocks compress sia_hash write close_addresses next accepts z bs v₀
      seen = reached.same_view

      takes : Takes p f srv
      takes = new_server-Takes p f srv opened

      grows :
          Grows compress sia_hash write close_addresses next accepts z
            (Made.all_entries compress sia_hash write close_addresses next accepts bs)
            v₀
            (view_blocks compress sia_hash write close_addresses next accepts z bs v₀)
      grows = view_blocks-Grows compress sia_hash write close_addresses next accepts z bs v₀

      offset_size : s.offset_len ≡ srv.offset_len
      offset_size =
          sym (takes.offset_len ∙ u.shares.offset_len ∙ ap (λ z. z.offset_len) reached.same_sizes)

      index_size : s.offset_index_len ≡ srv.offset_index_len
      index_size = sym (
          takes.offset_index_len
          ∙ u.shares.offset_index_len
          ∙ ap (λ z. z.offset_index_len) reached.same_sizes)

      chain_file : srv.files.blockchain ≡ stored es
      chain_file =
          ap (λ f. f.blockchain) takes.files
          ∙ u.shares.blockchain
          ∙ ap (λ v. v.blockchain) seen
          ∙ grows.blockchain
          ∙ ap₂ (λ a es. a ++ stored es) empty.blockchain (same_entries bs)

      offsets_file : srv.files.offsets ≡ concat (map (wire srv.offset_len) (starts 0 es))
      offsets_file =
          ap (λ f. f.offsets) takes.files
          ∙ u.shares.offsets
          ∙ ap (λ v. v.offsets) seen
          ∙ grows.offsets
          ∙ ap
              (λ o.
                o
                ++ concat (
                    map (wire s.offset_len) (
                      starts (length s.blockchain.out) (
                        Made.all_entries compress sia_hash write close_addresses next accepts bs))))
              empty.offsets
          ∙ ap₂ (λ n es. concat (map (wire s.offset_len) (starts n es)))
              (ap length empty.blockchain) (same_entries bs)
          ∙ ap (λ w. concat (map (wire w) (starts 0 es))) offset_size

      locations_file :
          srv.files.block_locations
          ≡ encode_locations srv.offset_index_len (locations 0 (map items_of bs))
      locations_file =
          ap (λ f. f.block_locations) takes.files
          ∙ u.shares.block_locations
          ∙ ap (λ v. v.locations) seen
          ∙ view_blocks-locations compress sia_hash write close_addresses next accepts z bs v₀
          ∙ ap₂
              (λ a n.
                a
                ++ encode_locations s.offset_index_len
                    (Made.locations compress sia_hash write close_addresses next accepts n bs))
              empty.locations empty.index
          ∙ ap (encode_locations s.offset_index_len) (same_locations 0 bs)
          ∙ ap (λ w. encode_locations w (locations 0 (map items_of bs))) index_size

      leaves_file : srv.files.leaves_hashes ≡ concat (map (λ e. sia_hash (0 ∷ e.plain)) es)
      leaves_file =
          ap (λ f. f.leaves_hashes) takes.files
          ∙ u.shares.leaves_hashes
          ∙ ap (λ v. v.leaves_hashes) seen
          ∙ grows.leaves
          ∙ ap₂ (λ a es. a ++ concat (map (λ e. sia_hash (0 ∷ e.plain)) es)) empty.leaves
              (same_entries bs)

      short : srv.offset_len ≤ 8
      short = subst (λ n. n ≤ 8) offset_size empty.working.ready.short

      short_index : srv.offset_index_len ≤ 8
      short_index = subst (λ n. n ≤ 8) index_size empty.working.ready.short_index

      blocks_count : srv.nblocks ≡ length (map items_of bs)
      blocks_count =
          let w = srv.offset_index_len in
          takes.nblocks
          ∙ ap₂ (λ n w. n / (2 * w))
              (ap (λ f. length f.block_locations) (sym takes.files)
                ∙ ap length locations_file
                ∙ length-encode_locations w (locations 0 (map items_of bs)) short_index)
              (sym takes.offset_index_len)
          ∙ quotient (length (locations 0 (map items_of bs))) (2 * w)
              (omega (arith, takes.offset_index_len, u.shares.offset_index_len, u.some_index))
          ∙ length-locations 0 (map items_of bs)

      items_count : srv.nitems ≡ length es
      items_count =
          let w = srv.offset_len in
          let ns = starts 0 es in
          takes.nitems
          ∙ ap₂ (λ (n w : ℕ). n / w)
              (ap (λ f. length f.offsets) (sym takes.files)
                ∙ ap length offsets_file
                ∙ length-wires w ns short)
              (sym takes.offset_len)
          ∙ quotient (length (map (wire w) ns)) w
              (omega (arith, takes.offset_len, u.shares.offset_len, u.some_offset))
          ∙ length-starts 0 w es

      pub files-Holds : Holds sia_hash srv (map items_of bs)
      files-Holds = record {
        blockchain = chain_file;
        offsets = offsets_file;
        block_locations = locations_file;
        leaves_hashes = leaves_file;
        nblocks = blocks_count;
        nitems = items_count;
        short = short;
        short_index = short_index;
        fit =
            subst (λ n. length (stored es) < 256 ^ n)
              (sym u.shares.offset_len ∙ sym takes.offset_len) u.fit;
        fit_index =
            subst (λ n. length es < 256 ^ n)
              (sym u.shares.offset_index_len ∙ sym takes.offset_index_len) u.fit_index;
      }

      -- Calls of Add that succeed on a builder with empty files, and a server that NewServer
      -- opened on those files with the same lengths of offsets, wide enough for the number of
      -- bytes and of items; the hash has one size, and the Merkle tree makes a proof, of hashes of
      -- that size, from the leaves of a block. The files of the builder, and its writer of
      -- addresses, take what they are given, as for one call of Add. GetItem of the number of any item
      -- of any of the blocks returns the bytes that Add stored for it (a payout as it is
      -- marshalled, a transaction compressed), the number of its block, its place in the block,
      -- the number of the block's items, and the proof.
      pub built-served :
          (hash_size : ℕ) (sized : (b : Bytes) → length (sia_hash b) ≡ hash_size)
          (before : List Block) (b : Block) (after : List Block)
          (whole : bs ≡ before ++ (b ∷ after)) (front : List Entry) (e : Entry) (back : List Entry)
          (place : entries (items_of b) ≡ front ++ (e ∷ back))
          (prove : ℕ → List Bytes → Result (List Bytes)) (hashes : List Bytes)
          → prove (length front) (leaves_of sia_hash hash_size sized (entries (items_of b)))
            ≡ ok hashes
          → All (λ x. length x ≡ hash_size) hashes
          → get_item hash_size prove srv (length (all_entries (map items_of before) ++ front))
            ≡ ok (record {
              data_bytes = e.stored;
              compression =
                  if ltb (length front) (length (items_of b).0) then no_compression else snappy;
              block = length before;
              index = length front;
              num_leaves = length (entries (items_of b));
              merkle_proof = concat hashes;
            })
      built-served hash_size sized before b after whole front e back place prove hashes proof good =
          get_item-serves sia_hash hash_size sized srv (map items_of bs) files-Holds
            (map items_of before) (items_of b) (map items_of after)
            (ap (map items_of) whole ∙ map-append items_of before (b ∷ after)) front e back place
            prove hashes proof good
          ∙ ap
              (λ n. ok (record {
                data_bytes = e.stored;
                compression =
                    if ltb (length front) (length (items_of b).0) then no_compression else snappy;
                block = n;
                index = length front;
                num_leaves = length (entries (items_of b));
                merkle_proof = concat hashes;
              }))
              (same_length before)
        where
          same_length : (bs : List Block) → length (map items_of bs) ≡ length bs
          same_length [] = refl
          same_length (b ∷ bs) = ap suc (same_length bs)
