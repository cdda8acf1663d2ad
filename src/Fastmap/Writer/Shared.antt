-- ===== src/Fastmap/Writer/Shared.antt =====
-- How many entries at the end of a full page share the prefix of the next key.
use sialite.Base.{
  ℕ, zero, suc, ◌-◌, ◌*◌, ◌≤◌, ◌≡◌, refl, sym, ap, subst, ◌∙◌, ◌≢◌, ◌⊎◌, inl, inr, true, false,
  List, [], ◌∷◌, ◌++◌, append_assoc, append-nil, All, Bytes, length, take, slice, bytes_eq,
  bytes_eq→eq, bytes_eq_refl, Bool-cases, length-append, length-take, take-take, leb, le→leb,
  All-append, All-left, All-right, is_empty, ends, last_case, arith,
}
use sialite.Fastmap.Writer.{count_shared}
use sialite.Fastmap.Writer.Pages.{Entry, Layout, IsLayout, Sized, Filled, key_part}

abbrev pub prefix_of : Layout → Entry → Bytes
prefix_of c e = take c.prefix_len e.key

-- The entries are cut where the shared prefix begins.
pub record Cut (c : Layout) (prefix : Bytes) (es : List Entry) (n : ℕ) : Type 0 where
  pub stay : List Entry
  pub moved : List Entry
  pub parts : es ≡ stay ++ moved
  pub count : length moved ≡ n
  pub shared : All (λ e. prefix_of c e ≡ prefix) moved
  pub differs :
      (stay ≡ [])
      ⊎ ((front : List Entry) × (last : Entry) × (stay ≡ front ++ last ∷ [])
          × (prefix_of c last ≢ prefix))

module _ (c : Layout) (l : IsLayout c) (key : Bytes) (sized : length key ≡ c.key_len) where
  abbrev prefix : Bytes
  prefix = take c.prefix_len key

  slot_prefix :
      (front : List Entry) (e : Entry) (rest : List Entry) (b : Bytes)
      → All (Sized c) (front ++ e ∷ [])
      → Filled c (front ++ (e ∷ rest)) b
      → slice (length front * c.key_len) (length prefix) b ≡ prefix_of c e
  slot_prefix front e rest b s f =
      let se = All-right (Sized c) front (e ∷ []) s in
      let part = key_part c front (e ∷ []) rest b (All-left (Sized c) front (e ∷ []) s) se f in
      let short = l.short_prefix in
      let plen : length prefix ≡ c.prefix_len = omega (arith, length-take c.prefix_len key) in
      rw plen (
        sym (take-take c.prefix_len c.key_len _ short)
        ∙ ap (take c.prefix_len) (
            ap (λ n. slice (length front * c.key_len) n b) (omega arith) ∙ part ∙ append-nil e.key))

  grow-Cut :
      (front : List Entry) (last : Entry) (n : ℕ)
      → prefix_of c last ≡ prefix
      → Cut c prefix front n
      → Cut c prefix (front ++ last ∷ []) (suc n)
  grow-Cut front last n e k = record {
    stay = k.stay;
    moved = k.moved ++ last ∷ [];
    parts = ap (λ xs. xs ++ last ∷ []) k.parts ∙ append_assoc k.stay k.moved (last ∷ []);
    count = omega (arith, length-append k.moved (last ∷ []), k.count);
    shared = All-append (λ e. prefix_of c e ≡ prefix) k.moved (last ∷ []) k.shared (e, tt);
    differs = k.differs;
  }

  none-Cut :
      (es : List Entry)
      → (es ≡ [])
        ⊎ ((front : List Entry) × (last : Entry) × (es ≡ front ++ last ∷ [])
            × (prefix_of c last ≢ prefix))
      → Cut c prefix es 0
  none-Cut es d = record {
    stay = es;
    moved = [];
    parts = sym (append-nil es);
    count = refl;
    shared = tt;
    differs = d;
  }

  empty_round :
      (fuel : ℕ) (b : Bytes)
      → Cut c prefix [] (count_shared (suc fuel) b c.key_len prefix (0 * c.key_len))
  unfolding count_shared
  empty_round fuel b =
      let pos = l.keyed in
      let stop : leb c.key_len (0 * c.key_len) ≡ false = ground arith in
      rw stop (none-Cut [] (inl refl))

  -- One round of the loop, at the last of the slots.
  round-Cut :
      (fuel : ℕ) (front : List Entry) (last : Entry) (rest : List Entry) (b : Bytes)
      → All (Sized c) (front ++ last ∷ [])
      → Filled c (front ++ (last ∷ rest)) b
      → Cut c prefix front (count_shared fuel b c.key_len prefix (length front * c.key_len))
      → Cut c prefix
          (front ++ last ∷ [])
          (count_shared (suc fuel) b c.key_len prefix (length (front ++ last ∷ []) * c.key_len))
  unfolding count_shared
  round-Cut fuel front last rest b s f k =
      let wide = ap (λ (t : ℕ). t * c.key_len) (length-append front (last ∷ [])) in
      let pos = l.keyed in
      let room : leb c.key_len (length (front ++ last ∷ []) * c.key_len) ≡ true =
        le→leb _ _ (omega arith) in
      let back : length (front ++ last ∷ []) * c.key_len - c.key_len ≡ length front * c.key_len =
        omega arith in
      rw (room, back, slot_prefix front last rest b s f)
        (elim (Bool-cases (bytes_eq (prefix_of c last) prefix)) [
          | inl same ↦ rw same (grow-Cut front last _ (bytes_eq→eq _ _ same) k)
          | inr other ↦
              rw other
                (none-Cut _ (inr (front, last, refl, λ e. cc (bytes_eq_refl prefix, other, e))))
        ])

  pub count_shared-Cut :
      (fuel : ℕ) (es rest : List Entry) (b : Bytes)
      → length es ≤ fuel
      → All (Sized c) es
      → Filled c (es ++ rest) b
      → Cut c prefix es (count_shared fuel b c.key_len prefix (length es * c.key_len))
  unfolding count_shared
  count_shared-Cut zero [] rest b h s f = none-Cut [] (inl refl)
  count_shared-Cut zero (e ∷ es) rest b h s f = absurd (omega arith)
  count_shared-Cut (suc fuel) es rest b h s f = elim (last_case es) [
    | is_empty e ↦ rw e (empty_round fuel b)
    | ends front last e ↦
        let s' : All (Sized c) (front ++ last ∷ []) = subst (All (Sized c)) e s in
        let f' : Filled c (front ++ (last ∷ rest)) b =
          subst (λ es. Filled c es b)
            (ap (λ xs. xs ++ rest) e ∙ append_assoc front (last ∷ []) rest) f in
        rw e (
          round-Cut fuel front last rest b s' f' (
            count_shared-Cut fuel front (last ∷ rest) b
              (omega (arith, ap length e, length-append front (last ∷ [])))
              (All-left (Sized c) front (last ∷ []) s') f'))
  ]
