-- ===== src/Common/Members.antt =====
-- Membership in a list of addresses, as a type that keeps the place.
use Prim.Native.Nat.{ℕ}
use mathlib.Core.Path.{◌≡◌, refl, sym, ap}
use mathlib.Core.Logic.{◌⊎◌, inl, inr}
use mathlib.Core.List.{List, [], ◌∷◌, ◌++◌}
use rtgc.Common.Lists.{All, ◌∉◌, Disjoint}

infix 40 ◌∈◌
abbrev pub ◌∈◌ : ℕ → List ℕ → Type 0
a ∈ [] = ⊥
a ∈ (x ∷ xs) = (a ≡ x) ⊎ (a ∈ xs)

pub All-mem {ℓ} : (P : ℕ → Type ℓ) (a : ℕ) (xs : List ℕ) → a ∈ xs → All P xs → P a
All-mem P a [] m h = absurd m
All-mem P a (x ∷ xs) (inl e) h = rw e h.0
All-mem P a (x ∷ xs) (inr m) h = All-mem P a xs m h.1

pub All-of_mem {ℓ} : (P : ℕ → Type ℓ) (xs : List ℕ) → ((a : ℕ) → a ∈ xs → P a) → All P xs
All-of_mem P [] f = tt
All-of_mem P (x ∷ xs) f = (f x (inl refl), All-of_mem P xs (λ a m. f a (inr m)))

pub mem-append : (a : ℕ) (xs ys : List ℕ) → a ∈ (xs ++ ys) → (a ∈ xs) ⊎ (a ∈ ys)
mem-append a [] ys m = inr m
mem-append a (x ∷ xs) ys (inl e) = inl (inl e)
mem-append a (x ∷ xs) ys (inr m) = elim (mem-append a xs ys m) [
  | inl k ↦ inl (inr k)
  | inr k ↦ inr k
]

pub mem-append_left : (a : ℕ) (xs ys : List ℕ) → a ∈ xs → a ∈ (xs ++ ys)
mem-append_left a [] ys m = absurd m
mem-append_left a (x ∷ xs) ys (inl e) = inl e
mem-append_left a (x ∷ xs) ys (inr m) = inr (mem-append_left a xs ys m)

pub mem-append_right : (a : ℕ) (xs ys : List ℕ) → a ∈ ys → a ∈ (xs ++ ys)
mem-append_right a [] ys m = m
mem-append_right a (x ∷ xs) ys m = inr (mem-append_right a xs ys m)

pub not_mem : (a : ℕ) (xs : List ℕ) → a ∉ xs → a ∈ xs → ⊥
not_mem a [] o m = m
not_mem a (x ∷ xs) o (inl e) = o.0 (sym e)
not_mem a (x ∷ xs) o (inr m) = not_mem a xs o.1 m

pub not_mem_of : (a : ℕ) (xs : List ℕ) → (a ∈ xs → ⊥) → a ∉ xs
not_mem_of a [] f = tt
not_mem_of a (x ∷ xs) f = (λ e. f (inl (sym e)), not_mem_of a xs (λ m. f (inr m)))

-- The places before and behind a member.
pub mem-split : (a : ℕ) (xs : List ℕ) → a ∈ xs → (us : List ℕ) × (vs : List ℕ) × (xs ≡ us ++ a ∷ vs)
mem-split a [] m = absurd m
mem-split a (x ∷ xs) (inl e) = ([], xs, ap (λ t. t ∷ xs) (sym e))
mem-split a (x ∷ xs) (inr m) = let (us, vs, e) = mem-split a xs m in (x ∷ us, vs, ap (λ t. x ∷ t) e)

-- The two lists have the same members.
abbrev pub SameMembers : List ℕ → List ℕ → Type 0
SameMembers xs ys = ((a : ℕ) → a ∈ xs → a ∈ ys) × ((a : ℕ) → a ∈ ys → a ∈ xs)

pub SameMembers-trans :
    (xs ys zs : List ℕ) → SameMembers xs ys → SameMembers ys zs → SameMembers xs zs
SameMembers-trans xs ys zs f g = (λ a m. g.0 a (f.0 a m), λ a m. f.1 a (g.1 a m))

pub Disjoint-mem : (xs ys : List ℕ) (a : ℕ) → Disjoint xs ys → a ∈ xs → a ∈ ys → ⊥
Disjoint-mem xs ys a d m k = not_mem a ys (All-mem (λ x. x ∉ ys) a xs m d) k

pub Disjoint-of : (xs ys : List ℕ) → ((a : ℕ) → a ∈ xs → a ∈ ys → ⊥) → Disjoint xs ys
Disjoint-of xs ys f = All-of_mem (λ x. x ∉ ys) xs (λ a m. not_mem_of a ys (f a m))
