-- ===== src/Base/Run.antt =====
-- How a Go call ends, and a state monad over it.
use mathlib.Core.Bool.{Bool, true, false}

-- The errors that the packages return.
pub data Error : Type 0 where
  wrong_size ff_key duplicates not_ordered low_prefix_len : Error
  short_write io_error eof unexpected_eof : Error
  bad_data_len bad_prefixes_len bad_key_len : Error
  bad_inline_value low_offset_len bad_varint too_large_size : Error
  unaligned empty_file : Error
  counter_overflow : Error
  bad_address_len too_large_index bad_locations_len bad_offsets_len too_large_offset : Error
  bad_parent cancelled : Error
  bad_hex bad_json too_high : Error

-- A call that only reads: a value, an error, or a run-time panic.
pub data Result {ℓ} (A : Type ℓ) : Type ℓ where
  ok : A → Result A
  err : Error → Result A
  panic : Result A

-- A call that changes a state: what it wrote stays written also when it fails.
pub data Outcome {ℓ κ} (S : Type ℓ) (A : Type κ) : Type (ℓ ⊔ κ) where
  done : A → S → Outcome S A
  fail : Error → S → Outcome S A
  crash : Outcome S A

abbrev pub M {ℓ κ} : Type ℓ → Type κ → Type (ℓ ⊔ κ)
M S A = S → Outcome S A

infixl 5 ◌>>=◌ ◌>>◌
abbrev pub ◌>>=◌ {ℓ κ κ'} : {S : Type ℓ} {A : Type κ} {B : Type κ'} → M S A → (A → M S B) → M S B
◌>>=◌ m f s = elim (m s) [ done a s' ↦ f a s' | fail e s' ↦ fail e s' | crash ↦ crash ]

abbrev pub ◌>>◌ {ℓ κ κ'} : {S : Type ℓ} {A : Type κ} {B : Type κ'} → M S A → M S B → M S B
m >> k = m >>= λ _. k

abbrev pub pure {ℓ κ} : {S : Type ℓ} {A : Type κ} → A → M S A
pure a s = done a s

abbrev pub get {ℓ} : {S : Type ℓ} → M S S
get s = done s s

abbrev pub modify {ℓ} : {S : Type ℓ} → (S → S) → M S (Unit {0})
modify f s = done tt (f s)

-- `if bad { return …, err }`
abbrev pub fail_if {ℓ} : {S : Type ℓ} → Bool → Error → M S (Unit {0})
fail_if true e s = fail e s
fail_if false e s = done tt s

-- `if test { … }` with no else branch
abbrev pub when {ℓ} : {S : Type ℓ} → Bool → M S (Unit {0}) → M S (Unit {0})
when true m s = m s
when false m s = done tt s

-- A call on a part of the state.
abbrev pub on {ℓ ℓ' κ} :
    {S : Type ℓ} {T : Type ℓ'} {A : Type κ} → (S → T) → (S → T → S) → M T A → M S A
on part put m s = elim (m (part s)) [
  | done a t ↦ done a (put s t)
  | fail e t ↦ fail e (put s t)
  | crash ↦ crash
]
