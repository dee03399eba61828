-- ===== src/Prelude/Cuts.antt =====
-- Lists cut at either end, and mapped.
use Prim.Native.Nat.{ℕ, zero, suc, ◌+◌, ◌-◌, ◌≤◌}
use mathlib.Core.Path.{◌≡◌, refl, sym, ap, ◌∙◌}
use mathlib.Core.List.{List, [], ◌∷◌, ◌++◌, map}
use native.Mathlib.Omega.{arith}
use sirius_scope.Prelude.Lists.{length, take, drop, length-append, length-drop}

-- The last `n` of a list.
abbrev pub last_of {ℓ} : {A : Type ℓ} → ℕ → List A → List A
last_of n xs = drop (length xs - n) xs

module _ {ℓ} {A : Type ℓ} where
  pub take-all : (n : ℕ) (xs ys : List A) → length xs ≡ n → take n (xs ++ ys) ≡ xs
  take-all zero [] ys h = refl
  take-all zero (x ∷ xs) ys h = absurd (omega (arith, h))
  take-all (suc n) [] ys h = absurd (omega (arith, h))
  take-all (suc n) (x ∷ xs) ys h = ap (◌∷◌ x) (take-all n xs ys (omega (arith, h)))

  pub take-long : (n : ℕ) (xs : List A) → length xs ≤ n → take n xs ≡ xs
  take-long zero [] h = refl
  take-long zero (x ∷ xs) h = absurd (omega arith)
  take-long (suc n) [] h = refl
  take-long (suc n) (x ∷ xs) h = ap (◌∷◌ x) (take-long n xs (omega arith))

  pub take_idem : (n : ℕ) (xs ys : List A) → take n (take n xs ++ ys) ≡ take n (xs ++ ys)
  take_idem zero xs ys = refl
  take_idem (suc n) [] ys = refl
  take_idem (suc n) (x ∷ xs) ys = ap (◌∷◌ x) (take_idem n xs ys)

  pub drop-append : (k : ℕ) (xs ys : List A) → k ≤ length xs → drop k (xs ++ ys) ≡ drop k xs ++ ys
  drop-append zero xs ys h = refl
  drop-append (suc k) [] ys h = absurd (omega arith)
  drop-append (suc k) (x ∷ xs) ys h = drop-append k xs ys (omega arith)

  drop_nil : (n : ℕ) → drop {A = A} n [] ≡ []
  drop_nil zero = refl
  drop_nil (suc n) = refl

  drop-drop : (a b : ℕ) (xs : List A) → drop b (drop a xs) ≡ drop (a + b) xs
  drop-drop zero b xs = ap (λ n. drop n xs) (omega arith)
  drop-drop (suc a) b [] = drop_nil b ∙ sym (drop_nil (suc a + b))
  drop-drop (suc a) b (x ∷ xs) =
      let e : suc (a + b) ≡ suc a + b = omega arith in
      drop-drop a b xs ∙ ap (λ n. drop n (x ∷ xs)) e

  pub last_idem : (n : ℕ) (xs ys : List A) → last_of n (last_of n xs ++ ys) ≡ last_of n (xs ++ ys)
  last_idem n xs ys =
      let a = length xs - n in
      let joined = drop-append a xs ys (omega arith) in
      let b = length (last_of n xs ++ ys) - n in
      ap (drop b) (sym joined)
      ∙ drop-drop a b (xs ++ ys)
      ∙ ap (λ k. drop k (xs ++ ys))
          (omega (arith, length-append xs ys, length-append (last_of n xs) ys, length-drop a xs))

  pub length-zero : (xs : List A) → length xs ≤ 0 → xs ≡ []
  length-zero [] h = refl
  length-zero (x ∷ xs) h = absurd (omega arith)

module _ {ℓ κ} {A : Type ℓ} {B : Type κ} (f : A → B) where
  pub map-append : (xs ys : List A) → map f (xs ++ ys) ≡ map f xs ++ map f ys
  map-append [] ys = refl
  map-append (x ∷ xs) ys = ap (◌∷◌ (f x)) (map-append xs ys)

  pub map-drop : (n : ℕ) (xs : List A) → map f (drop n xs) ≡ drop n (map f xs)
  map-drop zero xs = refl
  map-drop (suc n) [] = refl
  map-drop (suc n) (x ∷ xs) = map-drop n xs

  pub length-map : (xs : List A) → length (map f xs) ≡ length xs
  length-map [] = refl
  length-map (x ∷ xs) = ap suc (length-map xs)
