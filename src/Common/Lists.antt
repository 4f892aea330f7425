-- ===== src/Common/Lists.antt =====
-- Lists measured by native numbers, and the predicates on lists of addresses.
use Prim.Native.Nat.{ℕ, suc, ◌+◌}
use mathlib.Core.Path.{◌≡◌, refl}
use mathlib.Core.Logic.{◌≢◌}
use mathlib.Core.List.{List, [], ◌∷◌, ◌++◌}
use native.Mathlib.Omega.{arith}

module _ {ℓ} {A : Type ℓ} where
  abbrev pub length : List A → ℕ
  length [] = 0
  length (x ∷ xs) = suc (length xs)

  pub length-append : (xs ys : List A) → length (xs ++ ys) ≡ length xs + length ys
  length-append [] ys = omega arith
  length-append (x ∷ xs) ys = omega (arith, length-append xs ys)

  abbrev pub All {κ} : (A → Type κ) → List A → Type κ
  All P [] = Unit
  All P (x ∷ xs) = P x × All P xs

  pub All-append {κ} : (P : A → Type κ) (xs ys : List A) → All P xs → All P ys → All P (xs ++ ys)
  All-append P [] ys hx hy = hy
  All-append P (x ∷ xs) ys hx hy = (hx.0, All-append P xs ys hx.1 hy)

  pub All-append_left {κ} : (P : A → Type κ) (xs ys : List A) → All P (xs ++ ys) → All P xs
  All-append_left P [] ys h = tt
  All-append_left P (x ∷ xs) ys h = (h.0, All-append_left P xs ys h.1)

  pub All-append_right {κ} : (P : A → Type κ) (xs ys : List A) → All P (xs ++ ys) → All P ys
  All-append_right P [] ys h = h
  All-append_right P (x ∷ xs) ys h = All-append_right P xs ys h.1

  pub All-map {κ μ} :
      (P : A → Type κ) (Q : A → Type μ) (xs : List A) → ((x : A) → P x → Q x) → All P xs → All Q xs
  All-map P Q [] f h = tt
  All-map P Q (x ∷ xs) f h = (f x h.0, All-map P Q xs f h.1)

-- The address `a` is not in the list.
infix 40 ◌∉◌
abbrev pub ◌∉◌ : ℕ → List ℕ → Type 0
a ∉ xs = All (λ x. x ≢ a) xs

-- No address stands twice.
abbrev pub IsDistinct : List ℕ → Type 0
IsDistinct [] = Unit
IsDistinct (x ∷ xs) = (x ∉ xs) × IsDistinct xs

abbrev pub Disjoint : List ℕ → List ℕ → Type 0
Disjoint xs ys = All (λ x. x ∉ ys) xs

-- The first and the last address of a list, or the one given if it is empty.
abbrev pub head_or : List ℕ → ℕ → ℕ
head_or [] a = a
head_or (x ∷ xs) a = x

abbrev pub last_or : ℕ → List ℕ → ℕ
last_or a [] = a
last_or a (x ∷ xs) = last_or x xs

pub head_or-append : (xs ys : List ℕ) (a : ℕ) → head_or (xs ++ ys) a ≡ head_or xs (head_or ys a)
head_or-append [] ys a = refl
head_or-append (x ∷ xs) ys a = refl

pub last_or-append : (a : ℕ) (xs ys : List ℕ) → last_or a (xs ++ ys) ≡ last_or (last_or a xs) ys
last_or-append a [] ys = refl
last_or-append a (x ∷ xs) ys = last_or-append x xs ys

-- The links `next` lead from `p` through the addresses `xs` to NULL.
abbrev pub IsList : (ℕ → ℕ) → ℕ → List ℕ → Type 0
IsList next p [] = p ≡ 0
IsList next p (x ∷ xs) = (p ≡ x) × (x ≢ 0) × IsList next (next x) xs
