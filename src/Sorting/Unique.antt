-- ===== src/Sorting/Unique.antt =====
-- Over a strict total order a list has one sorted permutation.
use mathlib.Core.List.Permᴰ
use mathlib.Core.List.{Permᴰ}
use mathlib.Core.List.Permᴰ.{nil, cons, swap, trans}
use opendatahub_ai_gateway_o.Base.{
  Bool, true, false, List, [], ◌∷◌, inl, inr, ◌≡◌, refl, sym, ◌∙◌, arith, Bool-cases,
}
use opendatahub_ai_gateway_o.Sorting.{insert, sort_slice, less_text}
use opendatahub_ai_gateway_o.Text.{Text}

pub record IsStrictOrder {ℓ} {A : Type ℓ} (less : A → A → Bool) : Type ℓ where
  pub irrefl : (a : A) → less a a ≡ false
  pub trans : (a b c : A) → less a b ≡ true → less b c ≡ true → less a c ≡ true
  pub connex : (a b : A) → less a b ≡ false → less b a ≡ false → a ≡ b

module _ {ℓ} {A : Type ℓ} (less : A → A → Bool) where
  -- Every element is not above the next one.
  abbrev pub IsSorted : List A → Type 0
  IsSorted [] = Unit
  IsSorted (x ∷ []) = Unit
  IsSorted (x ∷ y ∷ ys) = (less y x ≡ false) × IsSorted (y ∷ ys)

module _ {ℓ} {A : Type ℓ} (less : A → A → Bool) (order : IsStrictOrder less) where
  order_flip : (x y : A) → less x y ≡ true → less y x ≡ false
  order_flip x y h = ground (arith, order.irrefl x, order.trans x y x)

  insert_comm :
      (x y : A) (l : List A) → insert less x (insert less y l) ≡ insert less y (insert less x l)
  unfolding insert
  insert_comm x y [] = ground (arith, order.connex x y, order.irrefl x, order.trans x y x)
  insert_comm x y (z ∷ l) = ground (
    arith,
    insert_comm x y l,
    order.connex x y,
    order.irrefl x,
    order.trans x y x,
    order.connex x z,
    order.connex y z,
    order.trans x z y,
    order.trans y z x,
    order.trans z x y,
    order.trans z y x,
    order.irrefl z,
  )

  pub sort_slice-permᴰ : {xs ys : List A} → Permᴰ xs ys → sort_slice less xs ≡ sort_slice less ys
  unfolding sort_slice
  sort_slice-permᴰ nil = refl
  sort_slice-permᴰ (cons e p) = cc (e, sort_slice-permᴰ p)
  sort_slice-permᴰ (swap {a} {b} {a'} {b'} {l} e d) =
      rw (e, d) (insert_comm b' a' (sort_slice less l))
  sort_slice-permᴰ (trans p q) = sort_slice-permᴰ p ∙ sort_slice-permᴰ q

  insert_sorted_front : (x : A) (l : List A) → IsSorted less (x ∷ l) → insert less x l ≡ x ∷ l
  unfolding insert
  insert_sorted_front x [] h = refl
  insert_sorted_front x (y ∷ l) h = rw h.0

  IsSorted-tail : (x : A) (l : List A) → IsSorted less (x ∷ l) → IsSorted less l
  IsSorted-tail x [] h = tt
  IsSorted-tail x (y ∷ l) h = h.1

  sort_sorted : (l : List A) → IsSorted less l → sort_slice less l ≡ l
  unfolding sort_slice
  sort_sorted [] h = refl
  sort_sorted (x ∷ l) h = rw (sort_sorted l (IsSorted-tail x l h)) (insert_sorted_front x l h)

  insert-perm : (x : A) (l : List A) → Permᴰ (insert less x l) (x ∷ l)
  unfolding insert
  insert-perm x [] = Permᴰ.refl (x ∷ [])
  insert-perm x (y ∷ l) = elim (Bool-cases (less y x)) [
    | inl e ↦ rw e (trans (cons refl (insert-perm x l)) (swap refl refl))
    | inr e ↦ rw e (Permᴰ.refl (x ∷ y ∷ l))
  ]

  pub sort_slice-perm : (l : List A) → Permᴰ (sort_slice less l) l
  unfolding sort_slice
  sort_slice-perm [] = nil
  sort_slice-perm (x ∷ l) =
      trans (insert-perm x (sort_slice less l)) (cons refl (sort_slice-perm l))

  insert-IsSorted-above :
      (x y : A) (l : List A)
      → less y x ≡ true
      → IsSorted less (y ∷ l)
      → IsSorted less (insert less x l)
      → IsSorted less (y ∷ insert less x l)
  unfolding insert
  insert-IsSorted-above x y [] lt h k = (order_flip y x lt, tt)
  insert-IsSorted-above x y (z ∷ l) lt h k = elim (Bool-cases (less z x)) [
    | inl e ↦ rw e (h.0, rw e at k)
    | inr e ↦ rw e (order_flip y x lt, rw e at k)
  ]

  insert-IsSorted : (x : A) (l : List A) → IsSorted less l → IsSorted less (insert less x l)
  unfolding insert
  insert-IsSorted x [] h = tt
  insert-IsSorted x (y ∷ l) h = elim (Bool-cases (less y x)) [
    | inl e ↦ rw e (insert-IsSorted-above x y l e h (insert-IsSorted x l (IsSorted-tail y l h)))
    | inr e ↦ rw e (e, h)
  ]

  pub sort_slice-IsSorted : (l : List A) → IsSorted less (sort_slice less l)
  unfolding sort_slice
  sort_slice-IsSorted [] = tt
  sort_slice-IsSorted (x ∷ l) = insert-IsSorted x (sort_slice less l) (sort_slice-IsSorted l)

  -- Whatever sorts a list, its result is the one of `sort_slice`.
  pub sorted_unique : {xs ys : List A} → Permᴰ ys xs → IsSorted less ys → ys ≡ sort_slice less xs
  sorted_unique {xs} {ys} p h = sym (sort_sorted ys h) ∙ sort_slice-permᴰ p

less_text_irrefl : (s : Text) → less_text s s ≡ false
unfolding less_text
less_text_irrefl [] = refl
less_text_irrefl (c ∷ s) = ground (arith, less_text_irrefl s)

less_text_trans :
    (s t u : Text) → less_text s t ≡ true → less_text t u ≡ true → less_text s u ≡ true
unfolding less_text
less_text_trans [] (d ∷ t) (e ∷ u) h k = refl
less_text_trans (c ∷ s) (d ∷ t) (e ∷ u) h k = ground (arith, less_text_trans s t u)
less_text_trans _ _ _ h k = ground arith

less_text_connex : (s t : Text) → less_text s t ≡ false → less_text t s ≡ false → s ≡ t
unfolding less_text
less_text_connex [] [] h k = refl
less_text_connex (c ∷ s) (d ∷ t) h k = ground (arith, less_text_connex s t)
less_text_connex _ _ h k = ground arith

pub less_text-IsStrictOrder : IsStrictOrder less_text
less_text-IsStrictOrder = record {
  irrefl = less_text_irrefl;
  trans = less_text_trans;
  connex = less_text_connex;
}
