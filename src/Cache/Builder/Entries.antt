-- ===== src/Cache/Builder/Entries.antt =====
-- One item of a block: what Add writes for it to each of the files.
use sialite.Base.{
  ℕ, ◌+◌, ◌-◌, ◌*◌, ◌%◌, ◌^◌, ◌≤◌, ◌<◌, ◌≡◌, refl, sym, ap, ◌∙◌, List, [], ◌∷◌, ◌++◌, append_assoc,
  All, Bytes, length, take, drop, map, copy, copy_at, copy_fits, copy_at_fits, length-copy,
  length-copy_at, put_le, length-append, length-take, length-drop, take-append, take-append_le,
  take-append-drop, drop-append, wire, length-wire, length-put_le, M, done, arith,
}
use sialite.Fastmap.Sink.{put_full-accepting, put-accepting}
use sialite.Cache.Builder.{
  Builder, write_address, write_addresses, add_item, write_offset, set_location,
}
use sialite.Cache.Builder.Items.{Entry}
use sialite.Cache.Builder.Loops.{add_entry}

-- A writer of records of one size that takes them in some states, and moves on to such a state.
pub record Accepts {A : Type 0} (write : Bytes → M A ℕ) (next : Bytes → A → A) : Type 1 where
  pub size : ℕ
  pub good : A → Type 0
  pub takes :
      (r : Bytes) (a : A) → length r ≡ size → good a → write r a ≡ done (length r) (next r a)
  pub stays : (r : Bytes) (a : A) → length r ≡ size → good a → good (next r a)

-- A buffer that holds these bytes behind `n` others.
pub record Shape (n : ℕ) (w : Bytes) (b : Bytes) : Type 0 where
  pub front : Bytes
  pub back : Bytes
  pub parts : b ≡ front ++ (w ++ back)
  pub size : length front ≡ n

-- Another front of the same length.
copied : (n : ℕ) (w b p : Bytes) (h : Shape n w b) → length p ≡ n → copy b p ≡ p ++ (w ++ h.back)
copied n w b p h e =
    copy_fits b p (omega (arith, h.size, ap length h.parts, length-append h.front (w ++ h.back)))
    ∙ ap (λ k. p ++ drop k b) (e ∙ sym h.size)
    ∙ ap (◌++◌ p) (
        ap (drop (length h.front)) h.parts
        ∙ drop-append (length h.front) h.front (w ++ h.back) refl)

-- The front and these bytes.
taken :
    (m : ℕ) (front w back b : Bytes)
    → b ≡ front ++ (w ++ back)
    → m ≡ length front + length w
    → take m b ≡ front ++ w
taken m front w back b h e =
    ap (take m) (h ∙ sym (append_assoc front w back))
    ∙ take-append m (front ++ w) back (omega (arith, length-append front w))

module _ {A : Type 0} (compress : Bytes → Bytes) (sia_hash : Bytes → Bytes) (write : Bytes → M A ℕ)
    (close_addresses : M A (Unit {0})) (next : Bytes → A → A) (accepts : Accepts write next) where
  -- The writer of addresses after these records.
  abbrev pub feed : List Bytes → A → A
  feed [] a = a
  feed (r ∷ rs) a = feed rs (next r a)

  -- What NewBuilder sets up, and files that take what they are given.
  pub record IsReady (s : Builder A) : Type 0 where
    pub blockchain : s.blockchain.plan ≡ []
    pub leaves : s.leaves_hashes.plan ≡ []
    pub headers : s.headers_file.plan ≡ []
    pub offsets : s.offsets.plan ≡ []
    pub locations : s.block_locations.plan ≡ []
    pub eight : 8 ≤ length s.buf
    pub roomy : s.address_record_size ≤ length s.buf
    pub double : s.offset_index_len * 2 ≤ length s.buf
    pub sizes : s.address_record_size ≡ s.address_prefix_len + s.offset_index_len
    pub short : s.offset_len ≤ 8
    pub short_index : s.offset_index_len ≤ 8
    pub record_size : s.address_record_size ≡ accepts.size
    pub takes_records : accepts.good s.addresses

  -- The record of an address.
  abbrev pub address_record : Builder A → ℕ → Bytes → Bytes
  address_record s index uh = take s.address_prefix_len uh ++ wire s.offset_index_len (index + 1)

  write_address_run :
      (s : Builder A) (uh w : Bytes)
      → Shape s.address_prefix_len w s.buf
      → s.address_record_size ≡ s.address_prefix_len + length w
      → s.address_prefix_len ≤ length uh
      → s.address_record_size ≡ accepts.size
      → accepts.good s.addresses
      → let p = take s.address_prefix_len uh in
        (write_address compress sia_hash write close_addresses uh s
          ≡ done tt (record s { buf = copy s.buf p; addresses = next (p ++ w) s.addresses }))
        × Shape s.address_prefix_len w (copy s.buf p)
        × accepts.good (next (p ++ w) s.addresses)
  unfolding write_address
  write_address_run s uh w h e long sized good =
      let p = take s.address_prefix_len uh in
      let size : length p ≡ s.address_prefix_len =
        omega (arith, length-take s.address_prefix_len uh) in
      let parts = copied s.address_prefix_len w s.buf p h size in
      let rec : take s.address_record_size (copy s.buf p) ≡ p ++ w =
        taken s.address_record_size p w h.back (copy s.buf p) parts (omega (arith, size)) in
      let whole : length (p ++ w) ≡ s.address_record_size =
        omega (arith, length-append p w, size) in
      (
        ground (arith, rec, accepts.takes (p ++ w) s.addresses (whole ∙ sized) good, whole),
        record { front = p; back = h.back; parts = parts; size = size },
        accepts.stays (p ++ w) s.addresses (whole ∙ sized) good,
      )

  -- The fields that a step leaves alone, but for the buffer and the addresses.
  abbrev with_addresses : Builder A → Bytes → A → Builder A
  with_addresses s b a = record s { buf = b; addresses = a }

  write_addresses_run :
      (uhs : List Bytes) (s : Builder A) (w : Bytes)
      → Shape s.address_prefix_len w s.buf
      → s.address_record_size ≡ s.address_prefix_len + length w
      → All (λ uh. s.address_prefix_len ≤ length uh) uhs
      → s.address_record_size ≡ accepts.size
      → accepts.good s.addresses
      → (b : Bytes) × (write_addresses compress sia_hash write close_addresses uhs s
          ≡ done tt (
              with_addresses s b
                (feed (map (λ uh. take s.address_prefix_len uh ++ w) uhs) s.addresses)))
        × (length b ≡ length s.buf)
        × accepts.good (feed (map (λ uh. take s.address_prefix_len uh ++ w) uhs) s.addresses)
  unfolding write_addresses
  write_addresses_run [] s w h e long sized good = (s.buf, refl, refl, good)
  write_addresses_run (uh ∷ uhs) s w h e long sized good =
      let p = take s.address_prefix_len uh in
      let s' = with_addresses s (copy s.buf p) (next (p ++ w) s.addresses) in
      let (run, h', good') = write_address_run s uh w h e long.0 sized good in
      let (b, run', size, good'') = write_addresses_run uhs s' w h' e long.1 sized good' in
      (b, ground (arith, run, run'), size ∙ length-copy s.buf p, good'')

  write_offset_run :
      (s : Builder A)
      → IsReady s
      → write_offset compress sia_hash write close_addresses s
        ≡ done tt (record s {
          buf = copy s.buf (put_le 8 s.blockchain_len);
          offsets = record (s.offsets) {
            out = s.offsets.out ++ wire s.offset_len s.blockchain_len;
          };
        })
  unfolding write_offset
  write_offset_run s r =
      let full = put_le 8 s.blockchain_len in
      let fit = copy_fits s.buf full (omega (arith, length-put_le 8 s.blockchain_len, r.eight)) in
      let front : take s.offset_len (copy s.buf full) ≡ wire s.offset_len s.blockchain_len =
        ap (take s.offset_len) fit
        ∙ take-append_le s.offset_len full _
            (omega (arith, length-put_le 8 s.blockchain_len, r.short)) in
      ground
        (arith, front, put_full-accepting (wire s.offset_len s.blockchain_len) s.offsets r.offsets)

  -- The location in the buffer.
  set_location-Shape :
      (s : Builder A)
      → IsReady s
      → s.offset_index + 1 < 2 ^ 64
      → let s' = set_location compress sia_hash write close_addresses s in
        Shape s.address_prefix_len (wire s.offset_index_len (s.offset_index + 1)) s'.buf
        × (length s'.buf ≡ length s.buf)
        × (s' ≡ record s { buf = s'.buf })
  unfolding set_location
  set_location-Shape s r small =
      let n = s.address_prefix_len in
      let w =
        take (s.address_record_size - s.address_prefix_len)
          (put_le 8 ((s.offset_index + 1) % 2 ^ 64)) in
      let count : s.address_record_size - s.address_prefix_len ≡ s.offset_index_len =
        omega (arith, r.sizes) in
      let value : (s.offset_index + 1) % 2 ^ 64 ≡ s.offset_index + 1 = omega arith in
      let same : w ≡ wire s.offset_index_len (s.offset_index + 1) = rw (count, value) refl in
      let size : length (take n s.buf) ≡ n = omega (arith, length-take n s.buf, r.roomy, r.sizes) in
      let room : length w ≤ length (drop n s.buf) = omega (
        arith,
        ap length same,
        length-wire s.offset_index_len (s.offset_index + 1) r.short_index,
        length-drop n s.buf,
        r.roomy,
        r.sizes,
      ) in
      (
        record {
          front = take n s.buf;
          back = drop (length w) (drop n s.buf);
          parts =
              ap (λ b. copy_at n b w) (sym (take-append-drop n s.buf))
              ∙ copy_at_fits n (take n s.buf) (drop n s.buf) w size room
              ∙ ap (λ v. take n s.buf ++ (v ++ drop (length w) (drop n s.buf))) same;
          size = size;
        },
        length-copy_at n s.buf w,
        refl,
      )

  -- The builder after an entry, up to what is left in its buffer.
  abbrev pub after_entry : Builder A → Entry → Bytes → Builder A
  after_entry s e b = record s {
    blockchain = record (s.blockchain) { out = s.blockchain.out ++ e.stored };
    blockchain_len = s.blockchain_len + length e.stored;
    leaves_hashes = record (s.leaves_hashes) {
      out = s.leaves_hashes.out ++ sia_hash (0 ∷ e.plain);
    };
    offsets = record (s.offsets) { out = s.offsets.out ++ wire s.offset_len s.blockchain_len };
    offset_index = s.offset_index + 1;
    addresses = feed (map (address_record s s.offset_index) e.hashes) s.addresses;
    buf = b;
  }

  pub add_entry_run :
      (s : Builder A) (e : Entry)
      → IsReady s
      → s.offset_index + 1 < 2 ^ 64
      → s.blockchain_len + length e.stored < 2 ^ 64
      → All (λ uh. s.address_prefix_len ≤ length uh) e.hashes
      → (b : Bytes) × (add_entry compress sia_hash write close_addresses e s
          ≡ done tt (after_entry s e b))
        × (length b ≡ length s.buf)
        × accepts.good (after_entry s e b).addresses
  unfolding add_entry add_item
  add_entry_run s e r small small' long =
      let t : Builder A = record s {
        buf = copy s.buf (put_le 8 s.blockchain_len);
        offsets = record (s.offsets) { out = s.offsets.out ++ wire s.offset_len s.blockchain_len };
      } in
      let kept : length t.buf ≡ length s.buf = length-copy s.buf (put_le 8 s.blockchain_len) in
      let r' : IsReady t = record {
        blockchain = r.blockchain;
        leaves = r.leaves;
        headers = r.headers;
        offsets = r.offsets;
        locations = r.locations;
        eight = omega (arith, kept, r.eight);
        roomy = omega (arith, kept, r.roomy);
        double = omega (arith, kept, r.double);
        sizes = r.sizes;
        short = r.short;
        short_index = r.short_index;
        record_size = r.record_size;
        takes_records = r.takes_records;
      } in
      let (h, kept', same) = set_location-Shape t r' small in
      let u = set_location compress sia_hash write close_addresses t in
      let w = wire s.offset_index_len (s.offset_index + 1) in
      let wide = length-wire s.offset_index_len (s.offset_index + 1) r.short_index in
      let (b, run, size, good) =
        write_addresses_run e.hashes (record t { buf = u.buf }) w h (omega (arith, wide, r.sizes))
          long r.record_size r.takes_records in
      let index : (s.offset_index + 1) % 2 ^ 64 ≡ s.offset_index + 1 = omega arith in
      let total : (s.blockchain_len + length e.stored) % 2 ^ 64
          ≡ s.blockchain_len + length e.stored =
        omega arith in
      (
        b,
        ground (
          arith,
          write_offset_run s r,
          same,
          run,
          index,
          total,
          put-accepting (sia_hash (0 ∷ e.plain)) s.leaves_hashes r.leaves,
          put-accepting e.stored s.blockchain r.blockchain,
        ),
        omega (arith, size, kept, kept'),
        good,
      )
