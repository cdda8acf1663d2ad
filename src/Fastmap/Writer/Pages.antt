-- ===== src/Fastmap/Writer/Pages.antt =====
-- What a page holds: the slots of the keys, then those of the values, each part padded with FF.
use native.Mathlib.Nat.{mul-le-mul_right, div-mul-le_self}
use sialite.Base.{
  ℕ, suc, ◌+◌, ◌-◌, ◌*◌, ◌/◌, ◌≤◌, ◌<◌, ◌≡◌, refl, sym, ap, ◌∙◌, List, [], ◌∷◌, ◌++◌, append_assoc,
  append-nil, All, Bytes, length, take, drop, replicate, slice, copy, copy_at, fill_ff,
  length-append, length-replicate, length-drop, length-copy_at, length-copy, slice_mid, store_twice,
  drop_all, take-append-drop, length-take, arith,
}

pub record Entry : Type 0 where
  pub key : Bytes
  pub value : Bytes

-- The lengths that NewMapWriter is given.
pub record Layout : Type 0 where
  pub page_len : ℕ
  pub key_len : ℕ
  pub value_len : ℕ
  pub prefix_len : ℕ

abbrev pub per_page : Layout → ℕ
per_page c = c.page_len / (c.key_len + c.value_len)

abbrev pub values_start : Layout → ℕ
values_start c = per_page c * c.key_len

-- A page has a slot, and a prefix is a part of a key that is not empty.
pub record IsLayout (c : Layout) : Type 0 where
  pub keyed : 0 < c.key_len
  pub short_prefix : c.prefix_len ≤ c.key_len
  pub roomy : 0 < per_page c

abbrev pub Sized : Layout → Entry → Type 0
Sized c e = (length e.key ≡ c.key_len) × (length e.value ≡ c.value_len)

abbrev pub keys : List Entry → Bytes
keys [] = []
keys (e ∷ es) = e.key ++ keys es

abbrev pub vals : List Entry → Bytes
vals [] = []
vals (e ∷ es) = e.value ++ vals es

abbrev pub pad : ℕ → Bytes → Bytes
pad n b = b ++ replicate (n - length b) 0xFF

-- The bytes of a page that holds the entries.
abbrev pub encode_page : Layout → List Entry → Bytes
encode_page c es = pad (values_start c) (keys es) ++ pad (c.page_len - values_start c) (vals es)

pub keys-append : (es fs : List Entry) → keys (es ++ fs) ≡ keys es ++ keys fs
keys-append [] fs = refl
keys-append (e ∷ es) fs = rw (keys-append es fs) (sym (append_assoc e.key (keys es) (keys fs)))

pub vals-append : (es fs : List Entry) → vals (es ++ fs) ≡ vals es ++ vals fs
vals-append [] fs = refl
vals-append (e ∷ es) fs = rw (vals-append es fs) (sym (append_assoc e.value (vals es) (vals fs)))

module _ (c : Layout) where
  pub length-keys : (es : List Entry) → All (Sized c) es → length (keys es) ≡ length es * c.key_len
  length-keys [] s = omega arith
  length-keys (e ∷ es) s = omega (arith, length-append e.key (keys es), length-keys es s.1, s.0.0)

  pub length-vals :
      (es : List Entry) → All (Sized c) es → length (vals es) ≡ length es * c.value_len
  length-vals [] s = omega arith
  length-vals (e ∷ es) s = omega (arith, length-append e.value (vals es), length-vals es s.1, s.0.1)

  pub slots_fit :
      (n : ℕ)
      → n ≤ per_page c
      → (n * c.key_len ≤ values_start c) × (values_start c + n * c.value_len ≤ c.page_len)
  slots_fit n h =
      let more = mul-le-mul_right c.key_len h in
      let more' = mul-le-mul_right c.value_len h in
      let whole = div-mul-le_self c.page_len (c.key_len + c.value_len) in (more, omega arith)

-- The buffer `b` holds the entries in its first slots.
pub record Filled (c : Layout) (es : List Entry) (b : Bytes) : Type 0 where
  pub gap : Bytes
  pub gap' : Bytes
  pub split : b ≡ (keys es ++ gap) ++ (vals es ++ gap')
  pub start : length (keys es) + length gap ≡ values_start c
  pub whole : length b ≡ c.page_len

module _ (c : Layout) where
  pub empty-Filled : (b : Bytes) → IsLayout c → length b ≡ c.page_len → Filled c [] b
  empty-Filled b l h = record {
    gap = take (values_start c) b;
    gap' = drop (values_start c) b;
    split = sym (take-append-drop (values_start c) b);
    start =
        let fit = (slots_fit c (per_page c) (omega arith)).1 in
        omega (arith, length-take (values_start c) b);
    whole = h;
  }

  -- The free bytes behind the values.
  room :
      (es : List Entry) (b : Bytes) (f : Filled c es b)
      → values_start c + length (vals es) + length f.gap' ≡ c.page_len
  room es b f = omega (
    arith,
    f.start,
    f.whole,
    ap length f.split,
    length-append (keys es ++ f.gap) (vals es ++ f.gap'),
    length-append (keys es) f.gap,
    length-append (vals es) f.gap',
  )

  -- Copying a record into the next slots.
  pub store-Filled :
      (es : List Entry) (e : Entry) (b : Bytes)
      → All (Sized c) es
      → Sized c e
      → length es < per_page c
      → Filled c es b
      → Filled c (es ++ e ∷ []) (
          copy_at
            (values_start c + length es * c.value_len)
            (copy_at (length es * c.key_len) b e.key)
            e.value)
  store-Filled es e b s se h f =
      let fit = slots_fit c (suc (length es)) h in
      let k = length-keys c es s in
      let v = length-vals c es s in
      let size = room es b f in
      record {
        gap = drop (length e.key) f.gap;
        gap' = drop (length e.value) f.gap';
        split =
            rw
              (
                f.split,
                keys-append es (e ∷ []),
                vals-append es (e ∷ []),
                append-nil e.key,
                append-nil e.value,
              )
              (store_twice (length es * c.key_len) (values_start c + length es * c.value_len)
                (keys es) f.gap (vals es) f.gap' e.key e.value k (omega (arith, f.start))
                (omega (arith, f.start)) (omega arith));
        start = omega (
          arith,
          f.start,
          ap length (keys-append es (e ∷ [])),
          length-append (keys es) (e.key ++ []),
          ap length (append-nil e.key),
          length-drop (length e.key) f.gap,
        );
        whole = length-copy_at _ _ _ ∙ length-copy_at _ _ _ ∙ f.whole;
      }

  -- Padding the free slots.
  pub fill-Filled :
      (es : List Entry) (b : Bytes)
      → All (Sized c) es
      → length es ≤ per_page c
      → Filled c es b
      → fill_ff
          (values_start c + length es * c.value_len)
          c.page_len
          (fill_ff (length es * c.key_len) (values_start c) b)
        ≡ encode_page c es
  unfolding fill_ff
  fill-Filled es b s h f =
      let fit = slots_fit c (length es) h in
      let k = length-keys c es s in
      let v = length-vals c es s in
      let size = room es b f in
      let free : ℕ = values_start c - length (keys es) in
      let free' : ℕ = c.page_len - values_start c - length (vals es) in
      let r = length-replicate {A = ℕ} free 0xFF in
      let r' = length-replicate {A = ℕ} free' 0xFF in
      let blank : Bytes = replicate free 0xFF in
      let blank' : Bytes = replicate free' 0xFF in
      let rest : c.page_len - (values_start c + length (vals es)) ≡ free' = omega arith in
      let stored =
        store_twice (length (keys es)) (values_start c + length (vals es)) (keys es) f.gap (vals es)
          f.gap' blank blank' refl (omega (arith, f.start)) (omega (arith, f.start))
          (omega arith) in
      rw (f.split, ← k, ← v, rest)
        (stored
          ∙ rw (
            drop_all (length blank) f.gap (omega (arith, f.start)),
            drop_all (length blank') f.gap' (omega arith),
            append-nil (keys es ++ blank),
            append-nil (vals es ++ blank'),
          ))

  -- Some entries of the page, cut out of the key slots and of the value slots.
  pub key_part :
      (stay moved rest : List Entry) (b : Bytes)
      → All (Sized c) stay
      → All (Sized c) moved
      → Filled c (stay ++ (moved ++ rest)) b
      → slice (length stay * c.key_len) (length moved * c.key_len) b ≡ keys moved
  key_part stay moved rest b s s' f =
      rw (f.split, keys-append stay (moved ++ rest), keys-append moved rest)
        (ap (slice (length stay * c.key_len) (length moved * c.key_len)) (simp append_assoc)
          ∙ slice_mid (length stay * c.key_len) (length moved * c.key_len) (keys stay) (keys moved)
              (keys rest ++ (f.gap ++ (vals (stay ++ (moved ++ rest)) ++ f.gap')))
              (length-keys c stay s) (length-keys c moved s'))

  pub val_part :
      (stay moved rest : List Entry) (b : Bytes)
      → All (Sized c) stay
      → All (Sized c) moved
      → Filled c (stay ++ (moved ++ rest)) b
      → slice (values_start c + length stay * c.value_len) (length moved * c.value_len) b
        ≡ vals moved
  val_part stay moved rest b s s' f =
      let es = stay ++ (moved ++ rest) in
      rw (f.split, vals-append stay (moved ++ rest), vals-append moved rest)
        (ap (slice (values_start c + length stay * c.value_len) (length moved * c.value_len))
            (simp append_assoc)
          ∙ slice_mid (values_start c + length stay * c.value_len) (length moved * c.value_len)
              (keys es ++ (f.gap ++ vals stay)) (vals moved) (vals rest ++ f.gap')
              (omega (
                arith,
                f.start,
                length-append (keys es) (f.gap ++ vals stay),
                length-append f.gap (vals stay),
                length-vals c stay s,
              ))
              (length-vals c moved s'))

  -- The entries at the end of a full page, copied to the front of another buffer.
  pub move-Filled :
      (moved : List Entry) (page : Bytes)
      → All (Sized c) moved
      → length moved ≤ per_page c
      → length page ≡ c.page_len
      → Filled c moved (copy_at (values_start c) (copy page (keys moved)) (vals moved))
  unfolding copy_at
  move-Filled moved page s h w =
      let fit = slots_fit c (length moved) h in
      let all = slots_fit c (per_page c) (omega arith) in
      let k = length-keys c moved s in
      let v = length-vals c moved s in
      let left = length-take (values_start c) page in
      let right = length-drop (values_start c) page in
      record {
        gap = drop (length (keys moved)) (take (values_start c) page);
        gap' = drop (length (vals moved)) (drop (values_start c) page);
        split =
            ap (λ (p : Bytes). copy_at (values_start c) (copy_at 0 p (keys moved)) (vals moved))
              (sym (take-append-drop (values_start c) page))
            ∙ store_twice 0 (values_start c) [] (take (values_start c) page) []
                (drop (values_start c) page) (keys moved) (vals moved) refl (omega arith)
                (omega arith) (omega arith);
        start = omega (arith, length-drop (length (keys moved)) (take (values_start c) page));
        whole = length-copy_at (values_start c) _ _ ∙ length-copy page (keys moved) ∙ w;
      }

  pub encode-Filled :
      (es : List Entry) → All (Sized c) es → length es ≤ per_page c → Filled c es (encode_page c es)
  encode-Filled es s h =
      let fit = slots_fit c (length es) h in
      let k = length-keys c es s in
      let v = length-vals c es s in
      let free : ℕ = values_start c - length (keys es) in
      let free' : ℕ = c.page_len - values_start c - length (vals es) in
      let r = length-replicate {A = ℕ} free 0xFF in
      let r' = length-replicate {A = ℕ} free' 0xFF in
      record {
        gap = replicate free 0xFF;
        gap' = replicate free' 0xFF;
        split = refl;
        start = omega arith;
        whole = omega (
          arith,
          length-append (keys es ++ replicate free 0xFF) (vals es ++ replicate free' 0xFF),
          length-append (keys es) (replicate free 0xFF),
          length-append (vals es) (replicate free' 0xFF),
        );
      }
