-- ===== src/Base/Varint.antt =====
-- binary.PutUvarint and binary.Uvarint: groups of seven bits, the lowest first.
use Prim.Native.Nat.{ℕ, zero, suc, ◌+◌, ◌*◌, ◌/◌, ◌%◌, ◌^◌, ◌<◌}
use mathlib.Core.Path.{◌≡◌, refl, ap, ap₂, ◌∙◌}
use mathlib.Core.Bool.{◌&&◌}
use mathlib.Core.Logic.{inl, inr}
use mathlib.Core.Option.{Option, none, some}
use mathlib.Core.List.{[], ◌∷◌, ◌++◌}
use native.Mathlib.Nat.{pow-suc}
use native.Mathlib.Omega.{arith}
use sialite.Base.Tests.{◌==◌, ltb, if◌then◌else◌, Bool-cases}
use sialite.Base.Lists.{length}
use sialite.Base.Slices.{Bytes}

-- `for x >= 0x80 { buf[i] = byte(x) | 0x80; x >>= 7 }`; a 64-bit number has ten groups at most.
pub put_groups : ℕ → ℕ → Bytes
put_groups zero x = x ∷ []
put_groups (suc fuel) x =
    let more = put_groups fuel (x / 128) in if ltb x 128 then x ∷ [] else (x % 128 + 128) ∷ more

unfoldable pub put_uvarint : ℕ → Bytes
unfolding put_groups
put_uvarint x = put_groups 9 x

-- `i` counts the bytes read and `m` is `1 << s`; `x | b << s` is a sum, since `x < 1 << s`.
-- `none` stands for a count that is not positive.
pub get_groups : ℕ → ℕ → ℕ → Bytes → Option (ℕ × ℕ)
get_groups i x m [] = none
get_groups i x m (b ∷ rest) =
    let more = get_groups (i + 1) (x + b % 128 * m) (m * 128) rest in
    if i == 10
    then none
    else if ltb b 128
    then (if i == 9 && ltb 1 b then none else some (x + b * m, i + 1))
    else more

unfoldable pub uvarint : Bytes → Option (ℕ × ℕ)
unfolding get_groups
uvarint b = get_groups 0 0 1 b

scale : (x m v : ℕ) → x + (v % 128 + 128) % 128 * m + v / 128 * (m * 128) ≡ x + v * m
scale x m v =
    let low : (v % 128 + 128) % 128 ≡ v % 128 = omega arith in
    let whole : 128 * (v / 128) + v % 128 ≡ v = omega arith in
    rw low (omega (arith, ap (λ (t : ℕ). t * m) whole))

get_groups-put_groups :
    (fuel i x m v : ℕ) (rest : Bytes)
    → fuel + i ≡ 9
    → v < 2 * 128 ^ fuel
    → get_groups i x m (put_groups fuel v ++ rest)
      ≡ some (x + v * m, i + length (put_groups fuel v))
unfolding get_groups put_groups
get_groups-put_groups zero i x m v rest e h = ground arith
get_groups-put_groups (suc fuel) i x m v rest e h = elim (Bool-cases (ltb v 128)) [
  | inl small ↦ rw small (ground arith)
  | inr big ↦ rw big (
      ground (
        arith,
        scale x m v,
        pow-suc 128 fuel,
        get_groups-put_groups fuel (i + 1) (x + (v % 128 + 128) % 128 * m) (m * 128) (v / 128) rest,
      ))
]

-- A number below 2^64 is read back, with the count of its bytes.
pub uvarint-put_uvarint :
    (v : ℕ) (rest : Bytes)
    → v < 2 ^ 64
    → uvarint (put_uvarint v ++ rest) ≡ some (v, length (put_uvarint v))
unfolding uvarint put_uvarint
uvarint-put_uvarint v rest h =
    get_groups-put_groups 9 0 0 1 v rest refl (omega arith)
    ∙ ap₂ (λ (a b : ℕ). some (a, b)) (omega arith) (omega arith)
