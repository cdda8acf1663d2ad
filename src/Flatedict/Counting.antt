-- ===== src/Flatedict/Counting.antt =====
-- The counter writes the runs of what it is given.
use native.Mathlib.Nat.{pow-suc}
use sialite.Base.{
  ℕ, zero, suc, ◌+◌, ◌-◌, ◌/◌, ◌%◌, ◌^◌, ◌≤◌, ◌<◌, ◌≡◌, refl, sym, ap, ◌∙◌, true, false, inl, inr,
  Bool-cases, List, [], ◌∷◌, ◌++◌, append-nil, All, Bytes, length, drop, drop_all, replicate, copy,
  copy_fits, put_le, bytes_eq, bytes_eq→eq, bytes_eq_refl, wire, ◌==◌, ltb, M, Outcome, done, fail,
  crash, on, modify, when, ◌>>=◌, ◌>>◌, not, arith,
}
use sialite.Flatedict.{
  Counter, dump_record, dump_count, start_key, count_write, count_close, count_all,
}
use sialite.Flatedict.Runs.{merge, runs, merge-same, merge-other}

zeros-tail : (n : ℕ) → put_le n 0 ≡ replicate n 0
unfolding put_le
zeros-tail zero = refl
zeros-tail (suc n) = ap (◌∷◌ 0) (zeros-tail n)

-- The high bytes of a small number are zeros.
put_le-tail : (n w x : ℕ) → x < 256 ^ w → drop w (put_le n x) ≡ replicate (n - w) 0
unfolding put_le
put_le-tail n zero x h =
    let e : x ≡ 0 = omega (arith, h) in
    let e' : n ≡ n - 0 = omega arith in ap (put_le n) e ∙ zeros-tail n ∙ ap (λ k. replicate k 0) e'
put_le-tail zero (suc w) x h = let e : 0 ≡ 0 - suc w = omega arith in ap (λ k. replicate k 0) e
put_le-tail (suc n) (suc w) x h =
    let p = pow-suc 256 w in
    let e : n - w ≡ suc n - suc w = omega arith in
    put_le-tail n w (x / 256) (omega (arith, h)) ∙ ap (λ k. replicate k 0) e

copy_same : (a b : Bytes) → length b ≡ length a → copy a b ≡ b
copy_same a b h =
    copy_fits a b (omega (arith, h))
    ∙ ap (◌++◌ b) (drop_all (length b) a (omega (arith, h)))
    ∙ append-nil b

-- A call's outcome and what follows it.
abbrev bind : {T A B : Type 0} → Outcome T A → (A → M T B) → Outcome T B
bind o f = elim o [ done a t ↦ f a t | fail e t ↦ fail e t | crash ↦ crash ]

-- The outcome of a call on a part, for the whole.
abbrev whole : {W T A : Type 0} → (W → T) → Outcome W A → Outcome T A
whole put o = elim o [ done a w ↦ done a (put w) | fail e w ↦ fail e (put w) | crash ↦ crash ]

module _ {W : Type 0} {S : Type 0} (write_map : Bytes → M W ℕ) (close_map : M W (Unit {0}))
    (counter_len min_count : ℕ) (callback : Bytes → ℕ → S → S) where
  -- What a run leaves outside the counter: the map's writer, and what the callback keeps.
  abbrev pub Out : Type 0
  Out = W × S

  abbrev pub out_of : Counter W S → Out
  out_of c = (c.map_writer, c.called)

  -- The same end of a call, where of the counter only this is seen.
  abbrev pub seen {ℓ} : {A : Type ℓ} → Outcome (Counter W S) A → Outcome Out A
  seen o = elim o [ done a c ↦ done a (out_of c) | fail e c ↦ fail e (out_of c) | crash ↦ crash ]

  abbrev on_writer {ℓ} : {A : Type ℓ} → M W A → M Out A
  on_writer = on (λ o. o.0) (λ o w. (w, o.1))

  -- The record of a key and its count is written, and then the callback gets them.
  unfoldable pub emit : Bytes × ℕ → M Out (Unit {0})
  emit r = do
    n ← on_writer (write_map (r.0 ++ wire counter_len r.1))
    modify (λ o. (o.0, callback r.0 r.1 o.1))

  -- Each key that comes often enough, in order, and then the map is closed.
  unfoldable pub emit_all : List (Bytes × ℕ) → M Out (Unit {0})
  emit_all [] = on_writer close_map
  emit_all (r ∷ rs) = do when (not (ltb r.1 min_count)) (emit r); emit_all rs

  abbrev dump_call : M (Counter W S) (Unit {0})
  dump_call = dump_count write_map close_map counter_len min_count callback

  abbrev pub feed : List Bytes → M (Counter W S) (Unit {0})
  feed = count_all write_map close_map counter_len min_count callback

  abbrev start : Bytes → Counter W S → Counter W S
  start = start_key write_map close_map counter_len min_count callback

  -- What dump is, once the record is given to the map's writer.
  abbrev put_end : Counter W S → Outcome W ℕ → Outcome (Counter W S) (Unit {0})
  put_end c o = elim o [
    | done n w ↦ done tt (record c {
      map_writer = w;
      counter_full = put_le 8 c.count;
      called = callback c.key c.count c.called;
    })
    | fail e w ↦ fail e (record c { map_writer = w; counter_full = put_le 8 c.count })
    | crash ↦ crash
  ]

  abbrev put_call : Counter W S → Outcome W ℕ
  put_call c = write_map (c.key ++ wire counter_len c.count) c.map_writer

  dump_rare : (c : Counter W S) → ltb c.count min_count ≡ true → dump_call c ≡ done tt c
  unfolding dump_count
  dump_rare c rare = rw (dump_count, rare) refl

  dump_often :
      (c : Counter W S)
      → c.count < 256 ^ counter_len
      → ltb c.count min_count ≡ false
      → dump_call c ≡ put_end c (put_call c)
  unfolding dump_count dump_record
  dump_often c small often =
      let tail : bytes_eq (drop counter_len (put_le 8 c.count)) (replicate (8 - counter_len) 0)
          ≡ true =
        ap (λ l. bytes_eq l (replicate (8 - counter_len) 0))
          (put_le-tail 8 counter_len c.count small)
        ∙ bytes_eq_refl (replicate (8 - counter_len) 0) in
      rw (dump_count, dump_record, often, tail) (go (put_call c))
    where
      go :
          (o : Outcome W ℕ)
          → bind
              (whole (λ w. record c { map_writer = w; counter_full = put_le 8 c.count }) o)
              (λ n. modify (λ t. record t { called = callback t.key t.count t.called }))
            ≡ put_end c o
      go (done n w) = refl
      go (fail e w) = refl
      go crash = refl

  -- dump and what follows, as it is seen from outside.
  dump-seen :
      (k : M (Counter W S) (Unit {0})) (r : M Out (Unit {0})) (c : Counter W S)
      → c.count < 256 ^ counter_len
      → ((t : Counter W S) → t.key ≡ c.key → t.count ≡ c.count → seen (k t) ≡ r (out_of t))
      → seen ((dump_call >> k) c)
        ≡ (when (not (ltb c.count min_count)) (emit (c.key, c.count)) >> r) (out_of c)
  unfolding emit
  dump-seen k r c small then_same = elim (Bool-cases (ltb c.count min_count)) [
    | inl rare ↦
        ap (λ o. seen (after o)) (dump_rare c rare)
        ∙ then_same c refl refl
        ∙ sym (ap (λ t. (when (not t) (emit (c.key, c.count)) >> r) (out_of c)) rare)
    | inr often ↦
        ap (λ o. seen (after o)) (dump_often c small often)
        ∙ go (put_call c)
        ∙ sym (ap (λ t. (when (not t) (emit (c.key, c.count)) >> r) (out_of c)) often)
  ]
    where
      after : Outcome (Counter W S) (Unit {0}) → Outcome (Counter W S) (Unit {0})
      after o = bind o (λ n. k)

      go :
          (o : Outcome W ℕ)
          → seen (after (put_end c o))
            ≡ bind
                (bind
                  (whole (λ w. (w, c.called)) o)
                  (λ n. modify (λ o. (o.0, callback c.key c.count o.1))))
                (λ n. r)
      go (done n w) = then_same _ refl refl
      go (fail e w) = refl
      go crash = refl

  close-seen :
      (c : Counter W S)
      → seen (on (λ c. c.map_writer) (λ c w. record c { map_writer = w }) close_map c)
        ≡ emit_all [] (out_of c)
  unfolding emit_all
  close-seen c = go (close_map c.map_writer)
    where
      go :
          (o : Outcome W (Unit {0}))
          → seen (whole (λ w. record c { map_writer = w }) o) ≡ whole (λ w. (w, c.called)) o
      go (done n w) = refl
      go (fail e w) = refl
      go crash = refl

  abbrev put_one : Bytes → M (Counter W S) ℕ
  put_one = count_write write_map close_map counter_len min_count callback

  feed_bind : List Bytes → Outcome (Counter W S) ℕ → Outcome (Counter W S) (Unit {0})
  feed_bind bs o = bind o (λ n. feed bs)

  feed_step :
      (b : Bytes) (bs : List Bytes) (c t : Counter W S) (n : ℕ)
      → put_one b c ≡ done n t
      → feed (b ∷ bs) c ≡ feed bs t
  unfolding count_all feed_bind
  feed_step b bs c t n run = ap (feed_bind bs) run

  bump_write :
      (b : Bytes) (c : Counter W S)
      → (c.count == 0) ≡ false
      → bytes_eq b c.key ≡ true
      → c.count + 1 < 2 ^ 64
      → put_one b c ≡ done (length b) (record c { count = c.count + 1 })
  unfolding count_write
  bump_write b c some same small =
      let e : (c.count + 1) % 2 ^ 64 ≡ c.count + 1 = omega (arith, small) in
      rw (count_write, some, same, e) refl

  first_write :
      (b : Bytes) (c : Counter W S)
      → (c.count == 0) ≡ true
      → put_one b c ≡ done (length b) (start b c)
  unfolding count_write
  first_write b c none = rw (count_write, none) refl

  change_feed :
      (b : Bytes) (bs : List Bytes) (c : Counter W S)
      → (c.count == 0) ≡ false
      → bytes_eq b c.key ≡ false
      → feed (b ∷ bs) c ≡ (dump_call >> (λ t. feed bs (start b t))) c
  unfolding count_all count_write feed_bind
  change_feed b bs c some other = ap (feed_bind bs) e ∙ go (dump_call c)
    where
      changed : Outcome (Counter W S) (Unit {0}) → Outcome (Counter W S) ℕ
      changed o = bind o (λ n t. done (length b) (start b t))

      e : put_one b c ≡ changed (dump_call c)
      e = rw (count_write, some, other) refl

      go :
          (o : Outcome (Counter W S) (Unit {0}))
          → feed_bind bs (changed o) ≡ bind o (λ n t. feed bs (start b t))
      go (done a t) = refl
      go (fail e t) = refl
      go crash = refl

  close_feed :
      (c : Counter W S)
      → feed [] c
        ≡ (dump_call >> on (λ c. c.map_writer) (λ c w. record c { map_writer = w }) close_map) c
  unfolding count_all count_close
  close_feed c = refl

  nonzero : (c : Counter W S) → 0 < c.count → (c.count == 0) ≡ false
  nonzero c h = ground arith

  -- From a counter that holds a key.
  feed-Held :
      (bs : List Bytes) (tile_len : ℕ) (c : Counter W S)
      → All (λ b. length b ≡ tile_len) bs
      → length c.key ≡ tile_len
      → 0 < c.count
      → c.count + length bs < 256 ^ counter_len
      → c.count + length bs < 2 ^ 64
      → seen (feed bs c) ≡ emit_all (merge c.key c.count (runs bs)) (out_of c)
  unfolding runs merge emit_all
  feed-Held [] tile_len c sized key some small small' =
      ap seen (close_feed c)
      ∙ dump-seen _ (emit_all []) c (omega (arith, small)) (λ t k n. close-seen t)
  feed-Held (b ∷ bs) tile_len c sized key some small small' = elim (Bool-cases (bytes_eq b c.key)) [
    | inl same ↦
        let c' : Counter W S = record c { count = c.count + 1 } in
        let k : b ≡ c.key = bytes_eq→eq b c.key same in
        ap seen (
          feed_step b bs c c' (length b)
            (bump_write b c (nonzero c some) same (omega (arith, small'))))
        ∙ feed-Held bs tile_len c' sized.1 key (omega arith) (omega (arith, small))
            (omega (arith, small'))
        ∙ ap (λ rs. emit_all rs (out_of c))
            (sym (merge-same c.key c.count (runs bs))
              ∙ ap (λ x. merge c.key c.count (merge x 1 (runs bs))) (sym k))
    | inr other ↦
        ap seen (change_feed b bs c (nonzero c some) other)
        ∙ dump-seen (λ t. feed bs (start b t)) (emit_all (merge b 1 (runs bs))) c
            (omega (arith, small))
            (λ t k n.
              let kept : copy t.key b ≡ b =
                copy_same t.key b (sized.0 ∙ sym key ∙ ap length (sym k)) in
              feed-Held bs tile_len (start b t) sized.1 (ap length kept ∙ sized.0) (omega arith)
                (omega (arith, some, small)) (omega (arith, some, small'))
              ∙ ap (λ x. emit_all (merge x 1 (runs bs)) (out_of t)) kept)
        ∙ ap (λ rs. emit_all rs (out_of c)) (sym (merge-other c.key c.count b (runs bs) other))
  ]

  -- A new counter, chunks of one length, fewer than the counter's bytes and 64 bits can count, in
  -- counter_len of at most 8 bytes; a least count that is not zero, any writer of the map and
  -- any callback. Writing the chunks and closing does, on the map's writer and on what the
  -- callback keeps, just what follows, and ends the same way: for each run of equal chunks that is
  -- long enough, in order, one record is written to the map, the chunk and the length of the
  -- run in counter_len bytes, and then the callback is called with the two; then the map is closed.
  -- An error of the map's writer ends it there, before the callback, and is returned.
  pub feed-Counted :
      (bs : List Bytes) (tile_len : ℕ) (c : Counter W S)
      → c.count ≡ 0
      → length c.key ≡ tile_len
      → 0 < min_count
      → counter_len ≤ 8
      → All (λ b. length b ≡ tile_len) bs
      → length bs < 256 ^ counter_len
      → length bs < 2 ^ 64
      → seen (feed bs c) ≡ emit_all (runs bs) (out_of c)
  unfolding runs emit_all
  feed-Counted [] tile_len c fresh key least short sized small small' =
      let rare : ltb c.count min_count ≡ true = ground arith in
      ap seen (close_feed c)
      ∙ ap
          (λ o.
            seen
              (bind o (λ n. on (λ c. c.map_writer) (λ c w. record c { map_writer = w }) close_map)))
          (dump_rare c rare)
      ∙ close-seen c
  feed-Counted (b ∷ bs) tile_len c fresh key least short sized small small' =
      let none : (c.count == 0) ≡ true = ground arith in
      let kept : copy c.key b ≡ b = copy_same c.key b (sized.0 ∙ sym key) in
      ap seen (feed_step b bs c (start b c) (length b) (first_write b c none))
      ∙ feed-Held bs tile_len (start b c) sized.1 (ap length kept ∙ sized.0) (omega arith)
          (omega (arith, small)) (omega (arith, small'))
      ∙ ap (λ x. emit_all (merge x 1 (runs bs)) (out_of c)) kept
