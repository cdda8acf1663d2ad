-- ===== src/Base/Every.antt =====
-- Lemmas on `All`, and on lists seen from their end.
use mathlib.Core.Path.{◌≡◌, refl, sym, ap}
use mathlib.Core.List.{List, [], ◌∷◌, ◌++◌, append_assoc}
use sialite.Base.Lists.{All, concat}

module _ {ℓ κ} {A : Type ℓ} (P : A → Type κ) where
  pub All-append : (xs ys : List A) → All P xs → All P ys → All P (xs ++ ys)
  All-append [] ys h k = k
  All-append (x ∷ xs) ys h k = (h.0, All-append xs ys h.1 k)

  pub All-left : (xs ys : List A) → All P (xs ++ ys) → All P xs
  All-left [] ys h = tt
  All-left (x ∷ xs) ys h = (h.0, All-left xs ys h.1)

  pub All-right : (xs ys : List A) → All P (xs ++ ys) → All P ys
  All-right [] ys h = h
  All-right (x ∷ xs) ys h = All-right xs ys h.1

module _ {ℓ κ κ'} {A : Type ℓ} {P : A → Type κ} {Q : A → Type κ'} where
  pub All-map : (xs : List A) → ((x : A) → P x → Q x) → All P xs → All Q xs
  All-map [] f h = tt
  All-map (x ∷ xs) f h = (f x h.0, All-map xs f h.1)

-- A list that is not empty, as what stands before its last entry, and that.
pub record Snoc {ℓ} {A : Type ℓ} (xs : List A) : Type ℓ where
  pub front : List A
  pub last : A
  pub whole : xs ≡ front ++ last ∷ []

pub Snoc-view {ℓ} : {A : Type ℓ} (x : A) (xs : List A) → Snoc (x ∷ xs)
Snoc-view x [] = record { front = []; last = x; whole = refl }
Snoc-view x (y ∷ xs) =
    let rest = Snoc-view y xs in
    record { front = x ∷ rest.front; last = rest.last; whole = ap (◌∷◌ x) rest.whole }

-- The cases of a list: empty, or with a last entry.
pub data LastCase {ℓ} {A : Type ℓ} (xs : List A) : Type ℓ where
  is_empty : xs ≡ [] → LastCase xs
  ends : (front : List A) (last : A) → xs ≡ front ++ last ∷ [] → LastCase xs

pub last_case {ℓ} : {A : Type ℓ} (xs : List A) → LastCase xs
last_case [] = is_empty refl
last_case (x ∷ xs) = let v = Snoc-view x xs in ends v.front v.last v.whole

module _ {ℓ κ κ' κ''} {A : Type ℓ} {P : A → Type κ} {Q : A → Type κ'} {R : A → Type κ''} where
  pub All-map₂ : (xs : List A) → ((x : A) → P x → Q x → R x) → All P xs → All Q xs → All R xs
  All-map₂ [] f h k = tt
  All-map₂ (x ∷ xs) f h k = (f x h.0 k.0, All-map₂ xs f h.1 k.1)

pub concat-append {ℓ} :
    {A : Type ℓ} (xs ys : List (List A)) → concat (xs ++ ys) ≡ concat xs ++ concat ys
concat-append [] ys = refl
concat-append (x ∷ xs) ys = rw (concat-append xs ys) (sym (append_assoc x (concat xs) (concat ys)))
