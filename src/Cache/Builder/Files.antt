-- ===== src/Cache/Builder/Files.antt =====
-- The files of a whole run of the builder, as lists of numbers and items.
use mathlib.Core.List.{map-append}
use sialite.Base.{
  ℕ, ◌+◌, ◌≡◌, refl, sym, ap, ◌∙◌, List, [], ◌∷◌, ◌++◌, append_assoc, append-nil, Bytes, length,
  map, concat, concat-append, length-append, wire, M, arith,
}
use sialite.Cache.Located.{encode_location, encode_locations}
use sialite.Cache.Builder.Entries.{Accepts}
use sialite.Cache.Builder.{Block}
use sialite.Cache.Builder.Items.{Entry}
use sialite.Cache.Builder.Blocks.{
  View, Sizes, view_entry, view_entries, view_block, payouts, transactions,
}

-- Where each of the items starts, from `n` on.
unfoldable pub starts : ℕ → List Entry → List ℕ
starts n [] = []
starts n (e ∷ es) = n ∷ starts (n + length e.stored) es

pub starts-append :
    (n : ℕ) (es es' : List Entry)
    → starts n (es ++ es')
      ≡ starts n es ++ starts (n + length (concat (map (λ e. e.stored) es))) es'
unfolding starts
starts-append n [] es' = let e : n ≡ n + 0 = omega arith in ap (λ k. starts k es') e
starts-append n (e ∷ es) es' =
    let q : n + length e.stored + length (concat (map (λ e. e.stored) es))
        ≡ n + length (e.stored ++ concat (map (λ e. e.stored) es)) =
      omega (arith, length-append e.stored (concat (map (λ e. e.stored) es))) in
    ap (◌∷◌ n) (
      starts-append (n + length e.stored) es es'
      ∙ ap (λ k. starts (n + length e.stored) es ++ starts k es') q)

module _ {A : Type 0} (compress : Bytes → Bytes) (sia_hash : Bytes → Bytes) (write : Bytes → M A ℕ)
    (close_addresses : M A (Unit {0})) (next : Bytes → A → A) (accepts : Accepts write next) where
  abbrev pub entries : Block → List Entry
  entries b =
      payouts compress sia_hash write close_addresses next accepts b
      ++ transactions compress sia_hash write close_addresses next accepts b

  abbrev pub all_entries : List Block → List Entry
  all_entries bs = concat (map entries bs)

  -- The first payout and the first transaction of each block, the items counted from `n` on.
  unfoldable pub locations : ℕ → List Block → List (ℕ × ℕ)
  locations n [] = []
  locations n (b ∷ bs) =
      (n, n + length (payouts compress sia_hash write close_addresses next accepts b))
      ∷ locations (n + length (entries b)) bs

  unfoldable pub view_blocks : Sizes → List Block → View A → View A
  view_blocks z [] v = v
  view_blocks z (b ∷ bs) v =
      view_blocks z bs (view_block compress sia_hash write close_addresses next accepts z b v)

  abbrev entries_view : Sizes → List Entry → View A → View A
  entries_view = view_entries compress sia_hash write close_addresses next accepts

  -- What the items add to the files.
  pub record Grows (z : Sizes) (es : List Entry) (v u : View A) : Type 0 where
    pub blockchain : u.blockchain ≡ v.blockchain ++ concat (map (λ e. e.stored) es)
    pub offsets :
        u.offsets ≡ v.offsets ++ concat (map (wire z.offset_len) (starts (length v.blockchain) es))
    pub leaves : u.leaves_hashes ≡ v.leaves_hashes ++ concat (map (λ e. sia_hash (0 ∷ e.plain)) es)
    pub items : u.items ≡ v.items + length es

  view_entries-Grows :
      (z : Sizes) (es : List Entry) (v : View A) → Grows z es v (entries_view z es v)
  unfolding view_entries view_entry starts
  view_entries-Grows z [] v = record {
    blockchain = sym (append-nil v.blockchain);
    offsets = sym (append-nil v.offsets);
    leaves = sym (append-nil v.leaves_hashes);
    items = omega arith;
  }
  view_entries-Grows z (e ∷ es) v =
      let u = view_entry compress sia_hash write close_addresses next accepts z e v in
      let g = view_entries-Grows z es u in
      record {
        blockchain = g.blockchain ∙ append_assoc v.blockchain e.stored _;
        offsets =
            g.offsets
            ∙ append_assoc v.offsets (wire z.offset_len (length v.blockchain)) _
            ∙ ap
                (λ n.
                  v.offsets
                  ++ (wire z.offset_len (length v.blockchain)
                      ++ concat (map (wire z.offset_len) (starts n es))))
                (length-append v.blockchain e.stored);
        leaves = g.leaves ∙ append_assoc v.leaves_hashes (sia_hash (0 ∷ e.plain)) _;
        items = omega (arith, g.items);
      }

  entries_keep :
      (z : Sizes) (es : List Entry) (v : View A) → (entries_view z es v).locations ≡ v.locations
  unfolding view_entries view_entry
  entries_keep z [] v = refl
  entries_keep z (e ∷ es) v =
      entries_keep z es (view_entry compress sia_hash write close_addresses next accepts z e v)

  Grows-trans :
      (z : Sizes) (es es' : List Entry) (v u t : View A)
      → Grows z es v u
      → Grows z es' u t
      → Grows z (es ++ es') v t
  Grows-trans z es es' v u t g h = record {
    blockchain =
        h.blockchain
        ∙ ap (λ b. b ++ concat (map (λ e. e.stored) es')) g.blockchain
        ∙ append_assoc v.blockchain _ _
        ∙ ap (◌++◌ v.blockchain) (sym (concat_map (λ e. e.stored) es es'));
    offsets =
        h.offsets
        ∙ ap (λ o. o ++ concat (map (wire z.offset_len) (starts (length u.blockchain) es')))
            g.offsets
        ∙ append_assoc v.offsets _ _
        ∙ ap
            (λ n.
              v.offsets
              ++ (concat (map (wire z.offset_len) (starts (length v.blockchain) es))
                  ++ concat (map (wire z.offset_len) (starts n es'))))
            (ap length g.blockchain ∙ length-append v.blockchain (concat (map (λ e. e.stored) es)))
        ∙ ap (◌++◌ v.offsets) (
            sym (concat-append (map (wire z.offset_len) (starts (length v.blockchain) es)) _)
            ∙ ap concat (sym (map-append (wire z.offset_len) (starts (length v.blockchain) es) _)))
        ∙ ap (λ ns. v.offsets ++ concat (map (wire z.offset_len) ns))
            (sym (starts-append (length v.blockchain) es es'));
    leaves =
        h.leaves
        ∙ ap (λ b. b ++ concat (map (λ e. sia_hash (0 ∷ e.plain)) es')) g.leaves
        ∙ append_assoc v.leaves_hashes _ _
        ∙ ap (◌++◌ v.leaves_hashes) (sym (concat_map (λ e. sia_hash (0 ∷ e.plain)) es es'));
    items = omega (arith, g.items, h.items, length-append es es');
  }
    where
      concat_map :
          (f : Entry → Bytes) (xs ys : List Entry)
          → concat (map f (xs ++ ys)) ≡ concat (map f xs) ++ concat (map f ys)
      concat_map f xs ys = ap concat (map-append f xs ys) ∙ concat-append (map f xs) (map f ys)

  abbrev pub block_view : Sizes → Block → View A → View A
  block_view = view_block compress sia_hash write close_addresses next accepts

  pub view_block-Grows :
      (z : Sizes) (b : Block) (v : View A) → Grows z (entries b) v (block_view z b v)
  unfolding view_block
  view_block-Grows z b v =
      let v₀ : View A = record v { headers = v.headers ++ b.header } in
      let es = payouts compress sia_hash write close_addresses next accepts b in
      let es' = transactions compress sia_hash write close_addresses next accepts b in
      let g = view_entries-Grows z es v₀ in
      let v₁ = entries_view z es v₀ in
      let h = view_entries-Grows z es' v₁ in
      let k =
        Grows-trans z es es' v v₁ (entries_view z es' v₁)
          (record {
            blockchain = g.blockchain;
            offsets = g.offsets;
            leaves = g.leaves;
            items = g.items;
          })
          h in
      record { blockchain = k.blockchain; offsets = k.offsets; leaves = k.leaves; items = k.items }

  view_block-locations :
      (z : Sizes) (b : Block) (v : View A)
      → (block_view z b v).locations
        ≡ v.locations
          ++ encode_location z.offset_index_len (
            v.items,
            v.items + length (payouts compress sia_hash write close_addresses next accepts b),
          )
  unfolding view_block
  view_block-locations z b v =
      let v₀ : View A = record v { headers = v.headers ++ b.header } in
      let es = payouts compress sia_hash write close_addresses next accepts b in
      let es' = transactions compress sia_hash write close_addresses next accepts b in
      let g = view_entries-Grows z es v₀ in
      ap
        (λ l.
          l
          ++ (wire z.offset_index_len v.items
              ++ wire z.offset_index_len (entries_view z es v₀).items))
        (entries_keep z es' (entries_view z es v₀) ∙ entries_keep z es v₀)
      ∙ ap (λ n. v.locations ++ (wire z.offset_index_len v.items ++ wire z.offset_index_len n))
          g.items

  pub view_blocks-Grows :
      (z : Sizes) (bs : List Block) (v : View A) → Grows z (all_entries bs) v (view_blocks z bs v)
  unfolding view_blocks starts
  view_blocks-Grows z [] v = record {
    blockchain = sym (append-nil v.blockchain);
    offsets = sym (append-nil v.offsets);
    leaves = sym (append-nil v.leaves_hashes);
    items = omega arith;
  }
  view_blocks-Grows z (b ∷ bs) v =
      Grows-trans z (entries b) (all_entries bs) v (block_view z b v)
        (view_blocks z bs (block_view z b v)) (view_block-Grows z b v)
        (view_blocks-Grows z bs (block_view z b v))

  pub view_blocks-locations :
      (z : Sizes) (bs : List Block) (v : View A)
      → (view_blocks z bs v).locations
        ≡ v.locations ++ encode_locations z.offset_index_len (locations v.items bs)
  unfolding view_blocks locations
  view_blocks-locations z [] v = sym (append-nil v.locations)
  view_blocks-locations z (b ∷ bs) v =
      let here : ℕ × ℕ = (
        v.items,
        v.items + length (payouts compress sia_hash write close_addresses next accepts b),
      ) in
      view_blocks-locations z bs (block_view z b v)
      ∙ ap (λ l. l ++ encode_locations z.offset_index_len (locations (block_view z b v).items bs))
          (view_block-locations z b v)
      ∙ append_assoc v.locations (encode_location z.offset_index_len here) _
      ∙ ap
          (λ n.
            v.locations
            ++ (encode_location z.offset_index_len here
                ++ encode_locations z.offset_index_len (locations n bs)))
          (view_block-Grows z b v).items
