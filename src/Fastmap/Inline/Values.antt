-- ===== src/Fastmap/Inline/Values.antt =====
-- fastmap/multimap.go, FFOOInliner: what is put into a container is read from it.
use sialite.Base.{
  ℕ, zero, suc, ◌+◌, ◌*◌, ◌≤◌, ◌≡◌, refl, ap, ◌∙◌, ◌≢◌, Bool, true, false, ◌||◌, List, [], ◌∷◌,
  ◌++◌, append-nil, All, Bytes, length, take, drop, replicate, concat, length-append, length-take,
  length-drop, take-append, drop-append, drop_all, copy, copy_at, copy_fits, copy_at_fits, bytes_eq,
  bytes_eq_ne, bytes_eq_refl, ◌==◌, ==-refl, if◌then◌else◌, ok, arith,
}
use sialite.Fastmap.Inline.{ffoo, Inlined, has_special, inline_ffoo, inline, uninline, oooo, ffff}

-- Whether there are one or two values.
unfoldable pub is_short : List Bytes → Bool
is_short (a ∷ []) = true
is_short (a ∷ b ∷ []) = true
is_short _ = false

-- A value of the right length that is neither all FF nor all zero.
abbrev pub IsRegular : ℕ → Bytes → Type 0
IsRegular v x = (length x ≡ v) × (x ≢ take v ffff) × (x ≢ take v oooo)

concat_one :
    (x : Bytes) (vs : List Bytes) (v : ℕ)
    → 1 ≤ v
    → length x ≡ v
    → (fuel : ℕ)
    → has_special (suc fuel) v (x ++ concat vs) ≡ (
        if bytes_eq x (take v ffff) || bytes_eq x (take v oooo)
        then true
        else has_special fuel v (concat vs))
unfolding has_special
concat_one [] vs v low e fuel = absurd (omega arith)
concat_one (b ∷ x) vs v low e fuel =
    rw (take-append v (b ∷ x) (concat vs) e, drop-append v (b ∷ x) (concat vs) e) refl

has_special-regular :
    (v : ℕ)
    → 1 ≤ v
    → (vs : List Bytes) → All (IsRegular v) vs
    → (fuel : ℕ) → length (concat vs) ≤ fuel
    → has_special fuel v (concat vs) ≡ false
unfolding has_special
has_special-regular v low [] h zero le = refl
has_special-regular v low [] h (suc fuel) le = refl
has_special-regular v low (x ∷ vs) h zero le =
    absurd (omega (arith, length-append x (concat vs), h.0.0))
has_special-regular v low (x ∷ vs) h (suc fuel) le =
    concat_one x vs v low h.0.0 fuel
    ∙ rw (bytes_eq_ne x _ h.0.1, bytes_eq_ne x _ h.0.2)
        (has_special-regular v low vs h.1 fuel (omega (arith, length-append x (concat vs), h.0.0)))

-- A marker and what follows it fill the container.
marked :
    (v : ℕ) (container marker x : Bytes)
    → length container ≡ v + v
    → length marker ≡ v
    → length x ≡ v
    → copy_at v (copy container marker) x ≡ marker ++ x
marked v container marker x c m e =
    ap (λ d. copy_at v d x) (copy_fits container marker (omega arith))
    ∙ copy_at_fits v marker (drop (length marker) container) x m
        (omega (arith, length-drop (length marker) container))
    ∙ ap (λ d. marker ++ (x ++ d))
        (drop_all (length x) (drop (length marker) container)
          (omega (arith, length-drop (length marker) container)))
    ∙ ap (◌++◌ marker) (append-nil x)

module _ (v : ℕ) (low : 1 ≤ v) (high : v ≤ 4) (container offset : Bytes)
    (cs : length container ≡ v + v) (os : length offset ≡ v) where
  marker_len : (b : ℕ) → length (take v (replicate 8 b)) ≡ v
  marker_len b = omega (arith, length-take v (replicate 8 b))

  ffff_oooo : take v ffff ≢ take v oooo
  ffff_oooo = differ v low
    where
      differ : (n : ℕ) → 1 ≤ n → take n ffff ≢ take n oooo
      differ zero h = absurd (omega arith)
      differ (suc n) h = λ e. cc

  -- How the container reads back.
  read_offset : (rest : Bytes) → uninline (ffoo v) (take v oooo ++ rest) ≡ (false, rest)
  unfolding uninline
  read_offset rest =
      rw
        (
          take-append v (take v oooo) rest (marker_len 0),
          drop-append v (take v oooo) rest (marker_len 0),
          bytes_eq_refl (take v oooo),
        )
        refl

  read_one : (x : Bytes) → uninline (ffoo v) (take v ffff ++ x) ≡ (true, x)
  unfolding uninline
  read_one x =
      rw
        (
          take-append v (take v ffff) x (marker_len 0xFF),
          drop-append v (take v ffff) x (marker_len 0xFF),
          bytes_eq_ne (take v ffff) (take v oooo) ffff_oooo,
          bytes_eq_refl (take v ffff),
        )
        refl

  read_two : (x y : Bytes) → IsRegular v x → uninline (ffoo v) (x ++ y) ≡ (true, x ++ y)
  unfolding uninline
  read_two x y h =
      rw
        (
          take-append v x y h.0,
          drop-append v x y h.0,
          bytes_eq_ne x (take v oooo) h.2,
          bytes_eq_ne x (take v ffff) h.1,
        )
        refl

  -- What Inline does with so many bytes.
  module _ (values : Bytes) (regular : has_special (length values) v values ≡ false) where
    inline_one :
        length values ≡ v
        → inline (ffoo v) container values offset
          ≡ ok (record { is_inlined = true; container = take v ffff ++ values })
    unfolding inline inline_ffoo
    inline_one e =
        let size : (length values == v) ≡ true = ap (λ n. n == v) e ∙ ==-refl v in
        rw (regular, size, marked v container (take v ffff) values cs (marker_len 0xFF) e) refl

    inline_two :
        length values ≡ 2 * v
        → inline (ffoo v) container values offset
          ≡ ok (record { is_inlined = true; container = values })
    unfolding inline inline_ffoo
    inline_two e =
        let size : (length values == v) ≡ false = ground arith in
        let size' : (length values == 2 * v) ≡ true = ap (λ n. n == 2 * v) e ∙ ==-refl (2 * v) in
        let whole : copy container values ≡ values =
          copy_fits container values (omega arith)
          ∙ ap (◌++◌ values) (drop_all (length values) container (omega arith))
          ∙ append-nil values in
        rw (regular, size, size', whole) refl

    inline_offset :
        length values ≢ v
        → length values ≢ 2 * v
        → inline (ffoo v) container values offset
          ≡ ok (record { is_inlined = false; container = take v oooo ++ offset })
    unfolding inline inline_ffoo
    inline_offset e f =
        let size : (length values == v) ≡ false = ground arith in
        let size' : (length values == 2 * v) ≡ false = ground arith in
        rw (regular, size, size', marked v container (take v oooo) offset cs (marker_len 0) os) refl

  regular :
      (vs : List Bytes)
      → All (IsRegular v) vs
      → has_special (length (concat vs)) v (concat vs) ≡ false
  regular vs h = has_special-regular v low vs h (length (concat vs)) (omega arith)

  -- Values that are neither all FF nor all zero are given to the inliner with an offset. It
  -- accepts them, reports one or two values as inlined and others not, and its Uninline reads from
  -- the container the values themselves if they were inlined, else the offset.
  pub inline-uninline :
      (vs : List Bytes)
      → All (IsRegular v) vs
      → (r : Inlined) × (inline (ffoo v) container (concat vs) offset ≡ ok r)
        × (r.is_inlined ≡ is_short vs)
        × (uninline (ffoo v) r.container
            ≡ (if is_short vs then (true, concat vs) else (false, offset)))
  unfolding is_short
  inline-uninline [] h = (
    _,
    inline_offset [] (regular [] h) (λ e. omega arith) (λ e. omega arith),
    refl,
    read_offset offset,
  )
  inline-uninline (x ∷ []) h = (
    _,
    inline_one (x ++ []) (regular (x ∷ []) h) (omega (arith, h.0.0, length-append x [])),
    refl,
    read_one (x ++ []),
  )
  inline-uninline (x ∷ y ∷ []) h = (
    _,
    inline_two (x ++ (y ++ [])) (regular (x ∷ y ∷ []) h)
        (omega (arith, h.0.0, h.1.0.0, length-append x (y ++ []), length-append y [])),
    refl,
    read_two x (y ++ []) h.0,
  )
  inline-uninline (x ∷ y ∷ z ∷ vs) h =
      let more : v + v + v ≤ length (concat (x ∷ y ∷ z ∷ vs)) = omega (
        arith,
        h.0.0,
        h.1.0.0,
        h.1.1.0.0,
        length-append x (y ++ (z ++ concat vs)),
        length-append y (z ++ concat vs),
        length-append z (concat vs),
      ) in
      (
        _,
        inline_offset (concat (x ∷ y ∷ z ∷ vs)) (regular (x ∷ y ∷ z ∷ vs) h) (λ e. omega arith)
            (λ e. omega arith),
        refl,
        read_offset offset,
      )
