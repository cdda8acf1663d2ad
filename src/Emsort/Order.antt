-- ===== src/Emsort/Order.antt =====
-- Sorted lists, and the insertion into one.
use mathlib.Core.List.{Permᴰ}
use mathlib.Core.List.Permᴰ as Permᴰ
use sialite.Base.{
  length, suc, ◌≡◌, refl, subst, ap, ◌∙◌, Bool, true, false, inl, inr, Bool-cases, List, [], ◌∷◌,
  All, All-map,
}
use sialite.Emsort.{insert, sort_list}

module _ {ℓ} {A : Type ℓ} where
  pub Permᴰ-All {κ} : (P : A → Type κ) {xs ys : List A} → Permᴰ xs ys → All P xs → All P ys
  Permᴰ-All P Permᴰ.nil h = tt
  Permᴰ-All P (Permᴰ.cons e p) h = (subst P e h.0, Permᴰ-All P p h.1)
  Permᴰ-All P (Permᴰ.swap e f) h = (subst P f h.1.0, (subst P e h.0, h.1.1))
  Permᴰ-All P (Permᴰ.trans p q) h = Permᴰ-All P q (Permᴰ-All P p h)

  pub Permᴰ-length : {a b : List A} → Permᴰ a b → length a ≡ length b
  Permᴰ-length Permᴰ.nil = refl
  Permᴰ-length (Permᴰ.cons e p) = ap suc (Permᴰ-length p)
  Permᴰ-length (Permᴰ.swap e f) = refl
  Permᴰ-length (Permᴰ.trans p q) = Permᴰ-length p ∙ Permᴰ-length q

-- No element sorts before an earlier one.
abbrev pub IsSorted {ℓ} : {A : Type ℓ} → (A → A → Bool) → List A → Type 0
IsSorted less [] = Unit
IsSorted less (x ∷ xs) = All (λ y. less y x ≡ false) xs × IsSorted less xs

module _ {ℓ} {A : Type ℓ} (less : A → A → Bool) where
  pub insert-Permᴰ : (x : A) (ys : List A) → Permᴰ (insert less x ys) (x ∷ ys)
  unfolding insert
  insert-Permᴰ x [] = Permᴰ.refl (x ∷ [])
  insert-Permᴰ x (y ∷ ys) = elim (Bool-cases (less y x)) [
    | inl e ↦ rw e (Permᴰ.trans (Permᴰ.cons refl (insert-Permᴰ x ys)) (Permᴰ.swap refl refl))
    | inr e ↦ rw e (Permᴰ.refl (x ∷ y ∷ ys))
  ]

  pub sort_list-Permᴰ : (xs : List A) → Permᴰ (sort_list less xs) xs
  unfolding sort_list
  sort_list-Permᴰ [] = Permᴰ.nil
  sort_list-Permᴰ (x ∷ xs) =
      Permᴰ.trans (insert-Permᴰ x (sort_list less xs)) (Permᴰ.cons refl (sort_list-Permᴰ xs))

-- What the order of a sort satisfies.
pub record IsOrder {ℓ} {A : Type ℓ} (less : A → A → Bool) : Type ℓ where
  pub asym : (x y : A) → less x y ≡ true → less y x ≡ false
  pub trans : (x y z : A) → less y x ≡ false → less z y ≡ false → less z x ≡ false

module _ {ℓ} {A : Type ℓ} (less : A → A → Bool) (o : IsOrder less) where
  pub insert-IsSorted : (x : A) (ys : List A) → IsSorted less ys → IsSorted less (insert less x ys)
  unfolding insert
  insert-IsSorted x [] h = (tt, tt)
  insert-IsSorted x (y ∷ ys) h = elim (Bool-cases (less y x)) [
    | inl e ↦ rw e (
      Permᴰ-All (λ z. less z y ≡ false) (Permᴰ.symm (insert-Permᴰ less x ys)) (o.asym y x e, h.0),
      insert-IsSorted x ys h.1,
    )
    | inr e ↦ rw e ((e, All-map ys (λ z k. o.trans x y z e k) h.0), h)
  ]

  pub sort_list-IsSorted : (xs : List A) → IsSorted less (sort_list less xs)
  unfolding sort_list
  sort_list-IsSorted [] = tt
  sort_list-IsSorted (x ∷ xs) = insert-IsSorted x (sort_list less xs) (sort_list-IsSorted xs)
