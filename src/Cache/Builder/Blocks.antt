-- ===== src/Cache/Builder/Blocks.antt =====
-- Add, block by block: the files that the builder leaves, without its shared buffer.
use sialite.Base.{
  ℕ, ◌+◌, ◌*◌, ◌^◌, ◌≤◌, ◌<◌, ◌≡◌, refl, sym, ap, subst, ◌∙◌, Bool, true, false, List, [], ◌∷◌,
  ◌++◌, append_assoc, All, Bytes, length, take, drop, map, copy, copy_at, copy_fits, copy_at_fits,
  length-copy, length-copy_at, length-append, take-append, wire, length-wire, length-drop, ltb,
  le→ltb, if◌then◌else◌, M, done, fail, too_large_offset, fail_if, arith,
}
use sialite.Fastmap.Sink.{put-accepting, put_full-accepting}
use sialite.Cache.Builder.{
  Builder, Block, add_payouts, add_transactions, write_location, add_block, crash_if,
}
use sialite.Cache.Builder.Items.{Entry, payout_entry, transaction_entry}
use sialite.Cache.Builder.Loops.{add_entry, add_entries, payouts-entries, transactions-entries}
use sialite.Cache.Builder.Entries.{Accepts, feed, IsReady, add_entry_run}

-- The contents of the files, and the number of items in them.
pub record View (A : Type 0) : Type 0 where
  pub blockchain : Bytes
  pub leaves_hashes : Bytes
  pub headers : Bytes
  pub offsets : Bytes
  pub locations : Bytes
  pub addresses : A
  pub items : ℕ

pub record Sizes : Type 0 where
  pub offset_len : ℕ
  pub offset_index_len : ℕ
  pub address_prefix_len : ℕ

module _ {A : Type 0} (compress : Bytes → Bytes) (sia_hash : Bytes → Bytes) (write : Bytes → M A ℕ)
    (close_addresses : M A (Unit {0})) (next : Bytes → A → A) (accepts : Accepts write next) where
  -- An item: its offset, the record of each of its addresses with its number from one, its leaf
  -- and its bytes.
  unfoldable pub view_entry : Sizes → Entry → View A → View A
  view_entry z e v = record v {
    offsets = v.offsets ++ wire z.offset_len (length v.blockchain);
    addresses =
        feed compress sia_hash write close_addresses next accepts
          (map (λ uh. take z.address_prefix_len uh ++ wire z.offset_index_len (v.items + 1))
            e.hashes)
          v.addresses;
    leaves_hashes = v.leaves_hashes ++ sia_hash (0 ∷ e.plain);
    blockchain = v.blockchain ++ e.stored;
    items = v.items + 1;
  }

  unfoldable pub view_entries : Sizes → List Entry → View A → View A
  view_entries z [] v = v
  view_entries z (e ∷ es) v = view_entries z es (view_entry z e v)

  -- A block: its header, its items, and the numbers of its first payout and first transaction.
  unfoldable pub view_block : Sizes → Block → View A → View A
  view_block z b v =
      let v₁ =
        view_entries z (map (payout_entry compress sia_hash write close_addresses) b.miner_payouts)
          (record v { headers = v.headers ++ b.header }) in
      let v₂ =
        view_entries z
          (map (transaction_entry compress sia_hash write close_addresses) b.transactions) v₁ in
      record v₂ {
        locations =
            v₂.locations ++ (wire z.offset_index_len v.items ++ wire z.offset_index_len v₁.items);
      }

  abbrev pub view : Builder A → View A
  view s = record {
    blockchain = s.blockchain.out;
    leaves_hashes = s.leaves_hashes.out;
    headers = s.headers_file.out;
    offsets = s.offsets.out;
    locations = s.block_locations.out;
    addresses = s.addresses;
    items = s.offset_index;
  }

  abbrev pub sizes : Builder A → Sizes
  sizes s = record {
    offset_len = s.offset_len;
    offset_index_len = s.offset_index_len;
    address_prefix_len = s.address_prefix_len;
  }

  -- The builder is ready for any block, as IsReady says, and the counted
  -- length is that of the file.
  pub record IsWorking (s : Builder A) : Type 0 where
    pub ready : IsReady compress sia_hash write close_addresses next accepts s
    pub counted : s.blockchain_len ≡ length s.blockchain.out

  -- What a step has made of the builder.
  pub record Stepped (s : Builder A) (v : View A) (t : Builder A) : Type 0 where
    pub working : IsWorking t
    pub same_view : view t ≡ v
    pub same_sizes : sizes t ≡ sizes s
    pub same_end : t.offset_end ≡ s.offset_end

  unfoldable pub stored_size : List Entry → ℕ
  stored_size [] = 0
  stored_size (e ∷ es) = length e.stored + stored_size es

  abbrev IsLong : ℕ → Entry → Type 0
  IsLong n e = All (λ uh. n ≤ length uh) e.hashes

  add_entry-Stepped :
      (s : Builder A) (e : Entry)
      → IsWorking s
      → s.offset_index + 1 < 2 ^ 64
      → length s.blockchain.out + length e.stored < 2 ^ 64
      → IsLong s.address_prefix_len e
      → (t : Builder A) × (add_entry compress sia_hash write close_addresses e s ≡ done tt t)
        × Stepped s (view_entry (sizes s) e (view s)) t
  unfolding view_entry
  add_entry-Stepped s e w small small' long =
      let r = w.ready in
      let (b, run, size, good) =
        add_entry_run compress sia_hash write close_addresses next accepts s e r small
          (omega (arith, w.counted)) long in
      (
        _,
        run,
        record {
          working = record {
            ready = record {
              blockchain = r.blockchain;
              leaves = r.leaves;
              headers = r.headers;
              offsets = r.offsets;
              locations = r.locations;
              eight = omega (arith, size, r.eight);
              roomy = omega (arith, size, r.roomy);
              double = omega (arith, size, r.double);
              sizes = r.sizes;
              short = r.short;
              short_index = r.short_index;
              record_size = r.record_size;
              takes_records = good;
            };
            counted = omega (arith, w.counted, length-append s.blockchain.out e.stored);
          };
          same_view = rw (← w.counted) refl;
          same_sizes = refl;
          same_end = refl;
        },
      )

  Stepped-trans :
      (s t u : Builder A) (f g : View A → View A)
      → Stepped s (f (view s)) t
      → Stepped t (g (view t)) u
      → Stepped s (g (f (view s))) u
  Stepped-trans s t u f g h k = record {
    working = k.working;
    same_view = k.same_view ∙ ap g h.same_view;
    same_sizes = k.same_sizes ∙ h.same_sizes;
    same_end = k.same_end ∙ h.same_end;
  }

  entry_items : (z : Sizes) (e : Entry) (v : View A) → (view_entry z e v).items ≡ v.items + 1
  unfolding view_entry
  entry_items z e v = refl

  entry_size :
      (z : Sizes) (e : Entry) (v : View A)
      → length (view_entry z e v).blockchain ≡ length v.blockchain + length e.stored
  unfolding view_entry
  entry_size z e v = length-append v.blockchain e.stored

  add_entries-Stepped :
      (es : List Entry) (s : Builder A)
      → IsWorking s
      → s.offset_index + length es < 2 ^ 64
      → length s.blockchain.out + stored_size es < 2 ^ 64
      → All (IsLong s.address_prefix_len) es
      → (t : Builder A) × (add_entries compress sia_hash write close_addresses es s ≡ done tt t)
        × Stepped s (view_entries (sizes s) es (view s)) t
        × (t.offset_index ≡ s.offset_index + length es)
        × (length t.blockchain.out ≡ length s.blockchain.out + stored_size es)
  unfolding add_entries view_entries stored_size
  add_entries-Stepped [] s w small small' long = (
    s,
    refl,
    record { working = w; same_view = refl; same_sizes = refl; same_end = refl },
    omega arith,
    omega arith,
  )
  add_entries-Stepped (e ∷ es) s w small small' long =
      let (t, run, h) = add_entry-Stepped s e w (omega arith) (omega arith) long.0 in
      let index : t.offset_index ≡ s.offset_index + 1 =
        ap (λ v. v.items) h.same_view ∙ entry_items (sizes s) e (view s) in
      let size : length t.blockchain.out ≡ length s.blockchain.out + length e.stored =
        ap (λ v. length v.blockchain) h.same_view ∙ entry_size (sizes s) e (view s) in
      let prefix : t.address_prefix_len ≡ s.address_prefix_len =
        ap (λ z. z.address_prefix_len) h.same_sizes in
      let (u, run', h', index', size') =
        add_entries-Stepped es t h.working (omega (arith, index)) (omega (arith, size))
          (subst (λ n. All (IsLong n) es) (sym prefix) long.1) in
      (
        u,
        ground (arith, run, run'),
        Stepped-trans s t u (view_entry (sizes s) e) (view_entries (sizes s) es) h
            (subst (λ z. Stepped t (view_entries z es (view t)) u) h.same_sizes h'),
        omega (arith, index, index'),
        omega (arith, size, size'),
      )

  write_location-Stepped :
      (s : Builder A) (first second : ℕ)
      → IsWorking s
      → (t : Builder A) × (write_location compress sia_hash write close_addresses first second s
          ≡ done tt t)
        × Stepped s
            (let v = view s in
              record v {
                locations =
                    v.locations
                    ++ (wire s.offset_index_len first ++ wire s.offset_index_len second);
              })
            t
  unfolding write_location
  write_location-Stepped s first second w =
      let r = w.ready in
      let n = s.offset_index_len in
      let a = wire n first in
      let b = wire n second in
      let sa = length-wire n first r.short_index in
      let sb = length-wire n second r.short_index in
      let b₁ = copy s.buf a in
      let e₁ : b₁ ≡ a ++ drop (length a) s.buf = copy_fits s.buf a (omega (arith, sa, r.double)) in
      let b₂ = copy_at n b₁ b in
      let e₂ : b₂ ≡ a ++ (b ++ drop (length b) (drop (length a) s.buf)) =
        ap (λ x. copy_at n x b) e₁
        ∙ copy_at_fits n a (drop (length a) s.buf) b sa
            (omega (arith, sa, sb, length-drop (length a) s.buf, r.double)) in
      let front : take (n * 2) b₂ ≡ a ++ b =
        ap (take (n * 2)) (e₂ ∙ sym (append_assoc a b _))
        ∙ take-append (n * 2) (a ++ b) _ (omega (arith, length-append a b, sa, sb)) in
      let kept : length b₂ ≡ length s.buf = length-copy_at n b₁ b ∙ length-copy s.buf a in
      (
        record s {
          buf = b₂;
          block_locations = record (s.block_locations) { out = s.block_locations.out ++ (a ++ b) };
        },
        ground (arith, front, put_full-accepting (a ++ b) s.block_locations r.locations),
        record {
          working = record {
            ready = record {
              blockchain = r.blockchain;
              leaves = r.leaves;
              headers = r.headers;
              offsets = r.offsets;
              locations = r.locations;
              eight = omega (arith, kept, r.eight);
              roomy = omega (arith, kept, r.roomy);
              double = omega (arith, kept, r.double);
              sizes = r.sizes;
              short = r.short;
              short_index = r.short_index;
              record_size = r.record_size;
              takes_records = r.takes_records;
            };
            counted = w.counted;
          };
          same_view = refl;
          same_sizes = refl;
          same_end = refl;
        },
      )

  abbrev pub payouts : Block → List Entry
  payouts b = map (payout_entry compress sia_hash write close_addresses) b.miner_payouts

  abbrev pub transactions : Block → List Entry
  transactions b = map (transaction_entry compress sia_hash write close_addresses) b.transactions

  -- The numbers of items and bytes stay below 2^64, and no unlock hash is shorter than a prefix.
  pub record Fits (b : Block) (s : Builder A) : Type 0 where
    pub items : s.offset_index + (length (payouts b) + length (transactions b)) < 2 ^ 64
    pub bytes :
        length s.blockchain.out + (stored_size (payouts b) + stored_size (transactions b)) < 2 ^ 64
    pub long_payouts : All (λ e. All (λ uh. s.address_prefix_len ≤ length uh) e.hashes) (payouts b)
    pub long_transactions :
        All (λ e. All (λ uh. s.address_prefix_len ≤ length uh) e.hashes) (transactions b)

  abbrev located : Sizes → ℕ → View A → View A → View A
  located z first v₁ v₂ = record v₂ {
    locations = v₂.locations ++ (wire z.offset_index_len first ++ wire z.offset_index_len v₁.items);
  }

  either :
      (t : Bool) (s : Builder A)
      → fail_if t too_large_offset s ≡ (if t then fail too_large_offset s else done tt s)
  either true s = refl
  either false s = refl

  module _ (b : Block) (s : Builder A) (w : IsWorking s) (f : Fits b s) where
    abbrev headed : Builder A
    headed = record s {
      headers_file = record (s.headers_file) { out = s.headers_file.out ++ b.header };
    }

    headed-IsWorking : IsWorking headed
    headed-IsWorking =
        let r = w.ready in
        record {
          ready = record {
            blockchain = r.blockchain;
            leaves = r.leaves;
            headers = r.headers;
            offsets = r.offsets;
            locations = r.locations;
            eight = r.eight;
            roomy = r.roomy;
            double = r.double;
            sizes = r.sizes;
            short = r.short;
            short_index = r.short_index;
            record_size = r.record_size;
            takes_records = r.takes_records;
          };
          counted = w.counted;
        }

    -- A builder whose files take what they are given, whose writer of addresses takes records
    -- of the builder's size and goes on to do so, as the sorter of package emsort does, with
    -- offset_len and offset_index_len at most 8 and a buffer with room for eight bytes, for a
    -- record, and for the two numbers of a block; the numbers of items and bytes stay below
    -- 2^64 and no unlock hash is shorter than a prefix. Add leaves in the files what
    -- `view_block` says, which knows no buffer: the header; for each payout and then each
    -- transaction its offset in offset_len bytes, for each of its addresses, in the order of
    -- `transaction_hashes`, a record of the prefix and the item's number from one in
    -- offset_index_len bytes, its leaf and its bytes; and the numbers of the block's first payout
    -- and first transaction in offset_index_len bytes each. It fails with the error of a too
    -- large offset just when the blockchain is now longer than the bound, and keeps everything
    -- that the next call relies on.
    pub add_block-Stepped :
        (t : Builder A) × Stepped s (view_block (sizes s) b (view s)) t
        × (add_block compress sia_hash write close_addresses b s ≡ (
            if ltb t.offset_end (length t.blockchain.out)
            then fail too_large_offset t
            else done tt t))
    unfolding add_block view_block crash_if
    add_block-Stepped =
        let r = w.ready in
        let s₀ = headed in
        let (s₁, run₁, h₁, index₁, size₁) =
          add_entries-Stepped (payouts b) s₀ headed-IsWorking (omega (arith, f.items))
            (omega (arith, f.bytes)) f.long_payouts in
        let prefix₁ : s₁.address_prefix_len ≡ s.address_prefix_len =
          ap (λ z. z.address_prefix_len) h₁.same_sizes in
        let (s₂, run₂, h₂, index₂, size₂) =
          add_entries-Stepped (transactions b) s₁ h₁.working (omega (arith, index₁, f.items))
            (omega (arith, size₁, f.bytes))
            (subst (λ n. All (IsLong n) (transactions b)) (sym prefix₁) f.long_transactions) in
        let (s₃, run₃, h₃) = write_location-Stepped s₂ s.offset_index s₁.offset_index h₂.working in
        let room : ltb (length s.buf) (s.offset_index_len * 2) ≡ false = le→ltb _ _ r.double in
        let put_header = put-accepting b.header s.headers_file r.headers in
        let seen = ap (λ n. ltb s₃.offset_end n) h₃.working.counted in
        let pay : add_payouts compress sia_hash write close_addresses b.miner_payouts s₀
            ≡ done tt s₁ =
          ap (λ m. m s₀) (payouts-entries compress sia_hash write close_addresses b.miner_payouts)
          ∙ run₁ in
        let tx : add_transactions compress sia_hash write close_addresses b.transactions s₁
            ≡ done tt s₂ =
          ap (λ m. m s₁)
            (transactions-entries compress sia_hash write close_addresses b.transactions)
          ∙ run₂ in
        let done₃ : add_block compress sia_hash write close_addresses b s
            ≡ fail_if (ltb s₃.offset_end s₃.blockchain_len) too_large_offset s₃ =
          ground (arith, put_header, room, pay, tx, run₃) in
        (
          s₃,
          record {
            working = h₃.working;
            same_view =
                h₃.same_view
                ∙ ap (λ z. located z s.offset_index (view s₁) (view s₂))
                    (h₂.same_sizes ∙ h₁.same_sizes)
                ∙ ap (located (sizes s) s.offset_index (view s₁)) h₂.same_view
                ∙ ap
                    (λ z.
                      located (sizes s) s.offset_index (view s₁)
                        (view_entries z (transactions b) (view s₁)))
                    h₁.same_sizes
                ∙ ap
                    (λ v.
                      located (sizes s) s.offset_index v
                        (view_entries (sizes s) (transactions b) v))
                    h₁.same_view;
            same_sizes = h₃.same_sizes ∙ h₂.same_sizes ∙ h₁.same_sizes;
            same_end = h₃.same_end ∙ h₂.same_end ∙ h₁.same_end;
          },
          done₃
              ∙ ap (λ t. fail_if t too_large_offset s₃) seen
              ∙ either (ltb s₃.offset_end (length s₃.blockchain.out)) s₃,
        )
