-- ===== src/Cache/Builder/Whole.antt =====
-- A whole run of the builder: Add for each block.
use mathlib.Core.List.{map-append}
use sialite.Base.{
  ℕ, ◌+◌, ◌^◌, ◌≤◌, ◌<◌, ◌≡◌, refl, sym, ap, subst, ◌∙◌, inl, inr, Bool-cases, List, [], ◌∷◌, ◌++◌,
  All, All-left, All-right, Bytes, length, map, concat, concat-append, length-append, ltb, ltb→lt,
  if◌then◌else◌, M, done, fail, too_large_offset, arith,
}
use sialite.Cache.Builder.Entries.{Accepts}
use sialite.Cache.Builder.{Builder, Block, add_block, add_blocks}
use sialite.Cache.Builder.Items.{Entry}
use sialite.Cache.Builder.Blocks.{
  view, sizes, IsWorking, Stepped, stored_size, payouts, transactions, Fits, add_block-Stepped,
}
use sialite.Cache.Builder.Files.{entries, all_entries, block_view, view_blocks, view_block-Grows}

module _ {A : Type 0} (compress : Bytes → Bytes) (sia_hash : Bytes → Bytes) (write : Bytes → M A ℕ)
    (close_addresses : M A (Unit {0})) (next : Bytes → A → A) (accepts : Accepts write next) where
  abbrev stored : List Entry → Bytes
  stored es = concat (map (λ e. e.stored) es)

  abbrev IsLong : ℕ → Entry → Type 0
  IsLong n e = All (λ uh. n ≤ length uh) e.hashes

  size-eq :
      (es : List Entry)
      → stored_size compress sia_hash write close_addresses next accepts es ≡ length (stored es)
  unfolding stored_size
  size-eq [] = refl
  size-eq (e ∷ es) = omega (arith, size-eq es, length-append e.stored (stored es))

  stored-append :
      (es es' : List Entry) → length (stored (es ++ es')) ≡ length (stored es) + length (stored es')
  stored-append es es' =
      ap (λ l. length (concat l)) (map-append (λ e. e.stored) es es')
      ∙ ap length (concat-append (map (λ e. e.stored) es) (map (λ e. e.stored) es'))
      ∙ length-append (stored es) (stored es')

  -- The numbers of items and bytes of all the blocks stay below 2^64, and no unlock hash is shorter
  -- than a prefix.
  pub record FitAll (bs : List Block) (s : Builder A) : Type 0 where
    pub items :
        s.offset_index
          + length (all_entries compress sia_hash write close_addresses next accepts bs)
        < 2 ^ 64
    pub bytes :
        length s.blockchain.out
          + length (stored (all_entries compress sia_hash write close_addresses next accepts bs))
        < 2 ^ 64
    pub long :
        All
          (λ e. All (λ uh. s.address_prefix_len ≤ length uh) e.hashes)
          (all_entries compress sia_hash write close_addresses next accepts bs)

  -- How the calls of Add end: all the blocks are in the files, or up to one that makes the
  -- blockchain longer than the bound for offsets.
  pub data Built (bs : List Block) (s : Builder A) : Type 0 where
    built :
        (t : Builder A)
        → add_blocks compress sia_hash write close_addresses bs s ≡ done tt t
        → Stepped compress sia_hash write close_addresses next accepts s
            (view_blocks compress sia_hash write close_addresses next accepts
              (sizes compress sia_hash write close_addresses next accepts s)
              bs
              (view compress sia_hash write close_addresses next accepts s))
            t
        → Built bs s
    too_long :
        (t : Builder A) (before : List Block) (b : Block) (after : List Block)
        → bs ≡ before ++ (b ∷ after)
        → add_blocks compress sia_hash write close_addresses bs s ≡ fail too_large_offset t
        → Stepped compress sia_hash write close_addresses next accepts s
            (view_blocks compress sia_hash write close_addresses next accepts
              (sizes compress sia_hash write close_addresses next accepts s)
              (before ++ b ∷ [])
              (view compress sia_hash write close_addresses next accepts s))
            t
        → t.offset_end < length t.blockchain.out
        → Built bs s

  first-Fits :
      (b : Block) (bs : List Block) (s : Builder A)
      → FitAll (b ∷ bs) s
      → Fits compress sia_hash write close_addresses next accepts b s
  first-Fits b bs s f =
      let ps = payouts compress sia_hash write close_addresses next accepts b in
      let ts = transactions compress sia_hash write close_addresses next accepts b in
      let rest = all_entries compress sia_hash write close_addresses next accepts bs in
      let long = All-left (IsLong s.address_prefix_len) (ps ++ ts) rest f.long in
      record {
        items = omega (arith, f.items, length-append (ps ++ ts) rest, length-append ps ts);
        bytes = omega (
          arith,
          f.bytes,
          stored-append (ps ++ ts) rest,
          stored-append ps ts,
          size-eq ps,
          size-eq ts,
        );
        long_payouts = All-left (IsLong s.address_prefix_len) ps ts long;
        long_transactions = All-right (IsLong s.address_prefix_len) ps ts long;
      }

  module _ (b : Block) (bs : List Block) (s t : Builder A) (f : FitAll (b ∷ bs) s)
      (h : Stepped compress sia_hash write close_addresses next accepts s
        (block_view compress sia_hash write close_addresses next accepts
          (sizes compress sia_hash write close_addresses next accepts s)
          b
          (view compress sia_hash write close_addresses next accepts s))
        t) where
    rest-FitAll : FitAll bs t
    rest-FitAll =
        let es = entries compress sia_hash write close_addresses next accepts b in
        let rest = all_entries compress sia_hash write close_addresses next accepts bs in
        let g =
          view_block-Grows compress sia_hash write close_addresses next accepts
            (sizes compress sia_hash write close_addresses next accepts s) b
            (view compress sia_hash write close_addresses next accepts s) in
        let index : t.offset_index ≡ s.offset_index + length es =
          ap (λ v. v.items) h.same_view ∙ g.items in
        let size : length t.blockchain.out ≡ length s.blockchain.out + length (stored es) =
          ap (λ v. length v.blockchain) h.same_view
          ∙ ap length g.blockchain
          ∙ length-append s.blockchain.out (stored es) in
        let prefix : t.address_prefix_len ≡ s.address_prefix_len =
          ap (λ z. z.address_prefix_len) h.same_sizes in
        record {
          items = omega (arith, f.items, index, length-append es rest);
          bytes = omega (arith, f.bytes, size, stored-append es rest);
          long =
              subst (λ n. All (IsLong n) rest) (sym prefix)
                (All-right (IsLong s.address_prefix_len) es rest f.long);
        }

    continue_run :
        add_block compress sia_hash write close_addresses b s ≡ done tt t
        → add_blocks compress sia_hash write close_addresses (b ∷ bs) s
          ≡ add_blocks compress sia_hash write close_addresses bs t
    unfolding add_blocks
    continue_run run = ground (arith, run)

    stop_run :
        add_block compress sia_hash write close_addresses b s ≡ fail too_large_offset t
        → add_blocks compress sia_hash write close_addresses (b ∷ bs) s ≡ fail too_large_offset t
    unfolding add_blocks
    stop_run run = ground (arith, run)

    rest_view :
        (cs : List Block) (u : Builder A)
        → Stepped compress sia_hash write close_addresses next accepts t
            (view_blocks compress sia_hash write close_addresses next accepts
              (sizes compress sia_hash write close_addresses next accepts t)
              cs
              (view compress sia_hash write close_addresses next accepts t))
            u
        → Stepped compress sia_hash write close_addresses next accepts s
            (view_blocks compress sia_hash write close_addresses next accepts
              (sizes compress sia_hash write close_addresses next accepts s)
              (b ∷ cs)
              (view compress sia_hash write close_addresses next accepts s))
            u
    unfolding view_blocks
    rest_view cs u k = record {
      working = k.working;
      same_view =
          k.same_view
          ∙ ap
              (λ z.
                view_blocks compress sia_hash write close_addresses next accepts z cs
                  (view compress sia_hash write close_addresses next accepts t))
              h.same_sizes
          ∙ ap
              (view_blocks compress sia_hash write close_addresses next accepts
                (sizes compress sia_hash write close_addresses next accepts s) cs)
              h.same_view;
      same_sizes = k.same_sizes ∙ h.same_sizes;
      same_end = k.same_end ∙ h.same_end;
    }

    cons-Built :
        add_block compress sia_hash write close_addresses b s ≡ done tt t
        → Built bs t
        → Built (b ∷ bs) s
    cons-Built run (built u run' k) = built u (continue_run run ∙ run') (rest_view bs u k)
    cons-Built run (too_long u before c after e run' k over) =
        too_long u (b ∷ before) c after (ap (◌∷◌ b) e) (continue_run run ∙ run')
          (rest_view (before ++ c ∷ []) u k) over

    stop-Built :
        add_block compress sia_hash write close_addresses b s ≡ fail too_large_offset t
        → t.offset_end < length t.blockchain.out
        → Built (b ∷ bs) s
    unfolding view_blocks
    stop-Built run over = too_long t [] b bs refl (stop_run run) h over

  -- A builder whose files take what they are given, whose writer of addresses takes records of
  -- the builder's size and goes on to do so, as the sorter of package emsort does, with offset_len
  -- and offset_index_len at most 8 and a buffer with room for eight bytes, for a record, and for
  -- the two numbers of a block; and blocks with which the numbers of items and bytes stay below
  -- 2^64 and that have no unlock hash shorter than a prefix. The calls of Add for these blocks
  -- end either with all of the blocks in the files, as `view_blocks` says, or with the error of a
  -- too large offset after a block that makes the blockchain longer than the bound, and then
  -- with the blocks up to that one in the files.
  pub add_blocks-Built :
      (bs : List Block) (s : Builder A)
      → IsWorking compress sia_hash write close_addresses next accepts s
      → FitAll bs s
      → Built bs s
  unfolding add_blocks view_blocks
  add_blocks-Built [] s w f =
      built s refl (record { working = w; same_view = refl; same_sizes = refl; same_end = refl })
  add_blocks-Built (b ∷ bs) s w f =
      let (t, h, run) =
        add_block-Stepped compress sia_hash write close_addresses next accepts b s w
          (first-Fits b bs s f) in
      let rest = add_blocks-Built bs t h.working (rest-FitAll b bs s t f h) in
      elim (Bool-cases (ltb t.offset_end (length t.blockchain.out))) [
        | inl over ↦
            stop-Built b bs s t f h
              (run ∙ ap (λ c. if c then fail too_large_offset t else done tt t) over)
              (ltb→lt t.offset_end (length t.blockchain.out) over)
        | inr fits ↦
            cons-Built b bs s t f h
              (run ∙ ap (λ c. if c then fail too_large_offset t else done tt t) fits) rest
      ]
