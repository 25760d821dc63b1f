-- ===== src/Prelude/Relate.antt =====
-- Lists of the same length related entry by entry, and sums over lists, under `modify` and `map`.
use Prim.Native.Nat.{ℕ, zero, suc, ◌+◌}
use mathlib.Core.Path.{◌≡◌, refl, subst}
use mathlib.Core.List.{List, [], ◌∷◌, map}
use mathlib.Core.Option.{Option, none, some}
use native.Mathlib.Omega.{arith}
use cgroup_monitor.Prelude.Lists.{get_elem?, modify, All}

module _ {ℓ} {A : Type ℓ} where
  abbrev pub Each : (A → A → Type 0) → List A → List A → Type 0
  Each R [] [] = Unit
  Each R [] (y ∷ ys) = ⊥
  Each R (x ∷ xs) [] = ⊥
  Each R (x ∷ xs) (y ∷ ys) = R x y × Each R xs ys

  abbrev pub sum_by : (A → ℕ) → List A → ℕ
  sum_by f [] = 0
  sum_by f (x ∷ xs) = f x + sum_by f xs

module _ {ℓ} {A : Type ℓ} (R : A → A → Type 0) where
  pub Each-refl : ((x : A) → R x x) → (xs : List A) → Each R xs xs
  Each-refl r [] = tt
  Each-refl r (x ∷ xs) = (r x, Each-refl r xs)

  pub Each-trans :
      ((x y z : A) → R x y → R y z → R x z)
      → (xs ys zs : List A) → Each R xs ys
      → Each R ys zs
      → Each R xs zs
  Each-trans t [] [] zs p q = q
  Each-trans t [] (y ∷ ys) zs p q = absurd p
  Each-trans t (x ∷ xs) [] zs p q = absurd p
  Each-trans t (x ∷ xs) (y ∷ ys) [] p q = q
  Each-trans t (x ∷ xs) (y ∷ ys) (z ∷ zs) (p, ps) (q, qs) =
      (t x y z p q, Each-trans t xs ys zs ps qs)

  pub Each-comp :
      (S T : A → A → Type 0)
      → ((x y z : A) → R x y → S y z → T x z)
      → (xs ys zs : List A) → Each R xs ys
      → Each S ys zs
      → Each T xs zs
  Each-comp S T t [] [] [] p q = tt
  Each-comp S T t [] [] (z ∷ zs) p q = absurd q
  Each-comp S T t [] (y ∷ ys) zs p q = absurd p
  Each-comp S T t (x ∷ xs) [] zs p q = absurd p
  Each-comp S T t (x ∷ xs) (y ∷ ys) [] p q = absurd q
  Each-comp S T t (x ∷ xs) (y ∷ ys) (z ∷ zs) (p, ps) (q, qs) =
      (t x y z p q, Each-comp S T t xs ys zs ps qs)

  -- `f` on the right entries; with the identity, a weaker relation.
  pub Each-map_right :
      (S : A → A → Type 0) (f : A → A)
      → ((x y : A) → R x y → S x (f y))
      → (xs ys : List A) → Each R xs ys
      → Each S xs (map f ys)
  Each-map_right S f h [] [] e = tt
  Each-map_right S f h [] (y ∷ ys) e = absurd e
  Each-map_right S f h (x ∷ xs) [] e = absurd e
  Each-map_right S f h (x ∷ xs) (y ∷ ys) (e, es) = (h x y e, Each-map_right S f h xs ys es)

  pub Each-weaken :
      (S : A → A → Type 0)
      → ((x y : A) → R x y → S x y)
      → (xs ys : List A) → Each R xs ys
      → Each S xs ys
  Each-weaken S h [] [] e = tt
  Each-weaken S h [] (y ∷ ys) e = absurd e
  Each-weaken S h (x ∷ xs) [] e = absurd e
  Each-weaken S h (x ∷ xs) (y ∷ ys) (e, es) = (h x y e, Each-weaken S h xs ys es)

  pub Each-right :
      (Q : A → Type 0) → ((x y : A) → R x y → Q y) → (xs ys : List A) → Each R xs ys → All Q ys
  Each-right Q h [] [] e = tt
  Each-right Q h [] (y ∷ ys) e = absurd e
  Each-right Q h (x ∷ xs) [] e = absurd e
  Each-right Q h (x ∷ xs) (y ∷ ys) (e, es) = (h x y e, Each-right Q h xs ys es)

  pub Each-modify :
      ((x : A) → R x x)
      → (xs : List A) (i : ℕ) (f : A → A) (x : A) → get_elem? xs i ≡ some x
      → R x (f x)
      → Each R xs (modify xs i f)
  Each-modify r [] i f a e h = cc
  Each-modify r (x ∷ xs) zero f a e h = (subst (λ y. R y (f y)) (cc) h, Each-refl r xs)
  Each-modify r (x ∷ xs) (suc i) f a e h = (r x, Each-modify r xs i f a e h)

  pub Each-map : (f : A → A) (xs : List A) → ((x : A) → R x (f x)) → Each R xs (map f xs)
  Each-map f [] h = tt
  Each-map f (x ∷ xs) h = (h x, Each-map f xs h)

  pub All-Each :
      (P Q : A → Type 0)
      → ((x y : A) → P x → R x y → Q y)
      → (xs ys : List A) → All P xs
      → Each R xs ys
      → All Q ys
  All-Each P Q h [] [] a e = tt
  All-Each P Q h [] (y ∷ ys) a e = absurd e
  All-Each P Q h (x ∷ xs) [] a e = absurd e
  All-Each P Q h (x ∷ xs) (y ∷ ys) (a, as') (e, es) = (h x y a e, All-Each P Q h xs ys as' es)

module _ {ℓ} {A : Type ℓ} where
  pub All-get_elem? :
      (P : A → Type 0) (xs : List A) (i : ℕ) (x : A) → All P xs → get_elem? xs i ≡ some x → P x
  All-get_elem? P [] i a p e = cc
  All-get_elem? P (x ∷ xs) zero a (p, ps) e = subst P (cc) p
  All-get_elem? P (x ∷ xs) (suc i) a (p, ps) e = All-get_elem? P xs i a ps e

  pub sum_by-modify :
      (f : A → ℕ) (g : A → A) (xs : List A) (i : ℕ) (x : A) (n : ℕ)
      → get_elem? xs i ≡ some x
      → f (g x) ≡ f x + n
      → sum_by f (modify xs i g) ≡ sum_by f xs + n
  sum_by-modify f g [] i a n e h = cc
  sum_by-modify f g (x ∷ xs) zero a n e h =
      let e' : f (g x) ≡ f x + n = subst (λ y. f (g y) ≡ f y + n) (cc) h in omega arith
  sum_by-modify f g (x ∷ xs) (suc i) a n e h = omega (arith, sum_by-modify f g xs i a n e h)

  pub sum_by-Each :
      (f : A → ℕ) (xs ys : List A) → Each (λ x y. f y ≡ f x) xs ys → sum_by f ys ≡ sum_by f xs
  sum_by-Each f [] [] e = refl
  sum_by-Each f [] (y ∷ ys) e = absurd e
  sum_by-Each f (x ∷ xs) [] e = absurd e
  sum_by-Each f (x ∷ xs) (y ∷ ys) (e, es) = omega (arith, sum_by-Each f xs ys es)

  pub modify-none : (xs : List A) (i : ℕ) (f : A → A) → get_elem? xs i ≡ none → modify xs i f ≡ xs
  modify-none [] i f e = refl
  modify-none (x ∷ xs) zero f e = cc
  modify-none (x ∷ xs) (suc i) f e = λ k. x ∷ modify-none xs i f e k

-- What holds of related entries holds of the entries at one position.
pub get_elem?-Each {ℓ} :
    {A : Type ℓ} (R : A → A → Type 0) (P : Option A → Option A → Type 0)
    → P none none
    → ((x y : A) → R x y → P (some x) (some y))
    → (xs ys : List A) (i : ℕ) → Each R xs ys
    → P (get_elem? xs i) (get_elem? ys i)
get_elem?-Each R P n h [] [] i e = n
get_elem?-Each R P n h [] (y ∷ ys) i e = absurd e
get_elem?-Each R P n h (x ∷ xs) [] i e = absurd e
get_elem?-Each R P n h (x ∷ xs) (y ∷ ys) zero (e, es) = h x y e
get_elem?-Each R P n h (x ∷ xs) (y ∷ ys) (suc i) (e, es) = get_elem?-Each R P n h xs ys i es
