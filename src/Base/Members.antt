-- ===== src/Base/Members.antt =====
-- Membership in a list, through selection and change.
use Prim.Native.Nat.{ℕ, zero, suc}
use mathlib.Core.Path.{◌≡◌, refl, subst, sym}
use mathlib.Core.Logic.{◌⊎◌, inl, inr}
use mathlib.Core.Bool.{Bool, true}
use mathlib.Core.List.{List, [], ◌∷◌, map}
use native.Mathlib.Omega.{arith}
use account_management_servi.Base.Tests.{◌==◌, Bool-cases}
use account_management_servi.Base.Lists.{All}
use account_management_servi.Base.Select.{elem, where_true, take, insert_by, sort_by}

module _ {A : Type 0} where
  -- The entry stands in the list; by recursion, so that it computes to sums.
  abbrev pub In : A → List A → Type 0
  In a [] = ⊥
  In a (x ∷ xs) = (a ≡ x) ⊎ In a xs

  pub All-intro : (P : A → Type 0) (xs : List A) → ((x : A) → In x xs → P x) → All P xs
  All-intro P [] h = tt
  All-intro P (x ∷ xs) h = (h x (inl refl), All-intro P xs (λ y m. h y (inr m)))

  pub All-In : (P : A → Type 0) (x : A) (xs : List A) → All P xs → In x xs → P x
  All-In P x [] h m = absurd m
  All-In P x (y ∷ ys) h (inl e) = subst P (sym e) h.0
  All-In P x (y ∷ ys) h (inr m) = All-In P x ys h.1 m

  pub where_true-In :
      (p : A → Bool) (a : A) (xs : List A) → In a (where_true p xs) → In a xs × (p a ≡ true)
  unfolding where_true
  where_true-In p a [] m = absurd m
  where_true-In p a (x ∷ xs) m = ground (arith, where_true-In p a xs)

  insert_by-In :
      (before : A → A → Bool) (a x : A) (xs : List A)
      → In a (insert_by before x xs)
      → (a ≡ x) ⊎ In a xs
  unfolding insert_by
  insert_by-In before a x [] m = m
  insert_by-In before a x (y ∷ ys) m = ground (arith, insert_by-In before a x ys)

  pub sort_by-In :
      (before : A → A → Bool) (a : A) (xs : List A) → In a (sort_by before xs) → In a xs
  unfolding sort_by
  sort_by-In before a [] m = m
  sort_by-In before a (x ∷ xs) m = elim (insert_by-In before a x (sort_by before xs) m) [
    | inl e ↦ inl e
    | inr m' ↦ inr (sort_by-In before a xs m')
  ]

  pub take-In : (n : ℕ) (a : A) (xs : List A) → In a (take n xs) → In a xs
  take-In zero a xs m = absurd m
  take-In (suc n) a [] m = m
  take-In (suc n) a (x ∷ xs) (inl e) = inl e
  take-In (suc n) a (x ∷ xs) (inr m) = inr (take-In n a xs m)

  -- A number among the images is the image of an entry.
  pub elem-map :
      (f : A → ℕ) (n : ℕ) (xs : List A) → elem n (map f xs) ≡ true → (a : A) × (In a xs × (f a ≡ n))
  unfolding elem
  elem-map f n [] h = absurd (ground (arith, h))
  elem-map f n (x ∷ xs) h = elim (Bool-cases (f x == n)) [
    | inl q ↦ (x, (inl refl, ground (arith, q)))
    | inr q ↦ let (a, (m, e)) = elem-map f n xs (ground (arith, h, q)) in (a, (inr m, e))
  ]
