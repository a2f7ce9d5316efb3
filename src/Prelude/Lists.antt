-- ===== src/Prelude/Lists.antt =====
-- Lists measured and indexed by native numbers, under the library's names.
use Prim.Native.Nat.{ℕ, zero, suc, ◌+◌}
use mathlib.Core.Path.{◌≡◌, refl, ap, ◌∙◌}
use mathlib.Core.Logic.{inl, inr}
use mathlib.Core.Bool.{Bool, true, not, false, ◌&&◌, ◌||◌}
use mathlib.Core.List.{List, [], ◌∷◌, ◌++◌, map}
use native.Mathlib.Omega.{arith}
use simply_sats.Prelude.Tests.{if◌then◌else◌, Bool-cases}

module _ {ℓ} {A : Type ℓ} where
  abbrev pub length : List A → ℕ
  length [] = 0
  length (x ∷ xs) = suc (length xs)

  pub length-append : (xs ys : List A) → length (xs ++ ys) ≡ length xs + length ys
  length-append [] ys = omega arith
  length-append (x ∷ xs) ys = omega (arith, length-append xs ys)

  abbrev pub take : ℕ → List A → List A
  take zero xs = []
  take (suc n) [] = []
  take (suc n) (x ∷ xs) = x ∷ take n xs

  abbrev pub drop : ℕ → List A → List A
  drop zero xs = xs
  drop (suc n) [] = []
  drop (suc n) (x ∷ xs) = drop n xs

  -- `xs.reduce((sum, x) => sum + f(x), 0)`, which for numbers adds up in any order.
  abbrev pub sum_by : (A → ℕ) → List A → ℕ
  sum_by f [] = 0
  sum_by f (x ∷ xs) = f x + sum_by f xs

  pub sum_by-append : (f : A → ℕ) (xs ys : List A) → sum_by f (xs ++ ys) ≡ sum_by f xs + sum_by f ys
  sum_by-append f [] ys = omega arith
  sum_by-append f (x ∷ xs) ys = omega (arith, sum_by-append f xs ys)

  -- `xs.filter(p)`
  abbrev pub filter : (A → Bool) → List A → List A
  filter p [] = []
  filter p (x ∷ xs) = if p x then x ∷ filter p xs else filter p xs

  abbrev pub any : (A → Bool) → List A → Bool
  any p [] = false
  any p (x ∷ xs) = p x || any p xs

  abbrev pub All {κ} : (A → Type κ) → List A → Type κ
  All P [] = Unit
  All P (x ∷ xs) = P x × All P xs

module _ {ℓ} {A : Type ℓ} where
  -- A map that leaves alone what the filter then lets through.
  pub filter-map :
      (p q : A → Bool) (g : A → A)
      → ((a : A) → (p (g a) ≡ q a) × (q a ≡ true → g a ≡ a))
      → (xs : List A) → filter p (map g xs) ≡ filter q xs
  filter-map p q g keeps [] = refl
  filter-map p q g keeps (x ∷ xs) = elim (Bool-cases (q x)) [
    | inl e ↦ rw ((keeps x).0, e, (keeps x).1 e) (ap (◌∷◌ x) (filter-map p q g keeps xs))
    | inr e ↦ rw ((keeps x).0, e) (filter-map p q g keeps xs)
  ]

  -- Two maps that agree on what the filters let through.
  pub filter-map_agree :
      (p q : A → Bool) (g h : A → A)
      → ((a : A) → (p (g a) ≡ q (h a)) × (q (h a) ≡ true → g a ≡ h a))
      → (xs : List A) → filter p (map g xs) ≡ filter q (map h xs)
  filter-map_agree p q g h agree [] = refl
  filter-map_agree p q g h agree (x ∷ xs) = elim (Bool-cases (q (h x))) [
    | inl e ↦
        rw ((agree x).0, e, (agree x).1 e) (ap (◌∷◌ (h x)) (filter-map_agree p q g h agree xs))
    | inr e ↦ rw ((agree x).0, e) (filter-map_agree p q g h agree xs)
  ]

  pub filter-filter :
      (p q : A → Bool) (xs : List A) → filter q (filter p xs) ≡ filter (λ a. p a && q a) xs
  filter-filter p q [] = refl
  filter-filter p q (x ∷ xs) = ground (arith, filter-filter p q xs)

  pub sum_by-split :
      (f : A → ℕ) (p : A → Bool) (xs : List A)
      → sum_by f (filter p xs) + sum_by f (filter (λ a. not (p a)) xs) ≡ sum_by f xs
  sum_by-split f p [] = refl
  sum_by-split f p (x ∷ xs) = ground (arith, sum_by-split f p xs)

  pub All-filter : (p : A → Bool) (xs : List A) → All (λ a. p a ≡ true) (filter p xs)
  All-filter p [] = tt
  All-filter p (x ∷ xs) = ground (arith, All-filter p xs)

  pub map-eq_self {κ} :
      {P : A → Type κ} (g : A → A)
      → ((a : A) → P a → g a ≡ a)
      → (xs : List A) → All P xs
      → map g xs ≡ xs
  map-eq_self g h [] all = refl
  map-eq_self g h (x ∷ xs) all = rw (h x all.0) (ap (◌∷◌ x) (map-eq_self g h xs all.1))

  pub All-imp {κ ι} :
      (P : A → Type κ) (Q : A → Type ι) (xs : List A) → ((a : A) → P a → Q a) → All P xs → All Q xs
  All-imp P Q [] f h = tt
  All-imp P Q (x ∷ xs) f h = (f x h.0, All-imp P Q xs f h.1)

  pub map-eq_on {κ} :
      {B : Type κ} (f g : A → B) (xs : List A) → All (λ a. f a ≡ g a) xs → map f xs ≡ map g xs
  map-eq_on f g [] h = refl
  map-eq_on f g (x ∷ xs) h = ap (λ y. y ∷ map f xs) h.0 ∙ ap (◌∷◌ (g x)) (map-eq_on f g xs h.1)
