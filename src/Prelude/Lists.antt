-- ===== src/Prelude/Lists.antt =====
-- Lists and options as the program's comprehensions use them.
use Prim.Native.Nat.{ℕ, suc, ◌+◌}
use mathlib.Core.Path.{◌≡◌, refl, ap, subst}
use mathlib.Core.Bool.{Bool, true, false, ◌&&◌, ◌||◌, not}
use mathlib.Core.Option.{Option, none, some}
use mathlib.Core.List.{List, [], ◌∷◌, ◌++◌, map}
use native.Mathlib.Omega.{arith}
use shopee_hachathonteam.Prelude.Tests.{if◌then◌else◌, ◌==◌, leb, Bool-cases}
use mathlib.Core.Logic.{◌⊎◌, inl, inr}

module _ {ℓ} {A : Type ℓ} where
  abbrev pub length : List A → ℕ
  length [] = 0
  length (x ∷ xs) = suc (length xs)

  -- `any(p(x) for x in xs)`
  abbrev pub any_of : (A → Bool) → List A → Bool
  any_of p [] = false
  any_of p (x ∷ xs) = p x || any_of p xs

  -- `all(p(x) for x in xs)`
  abbrev pub all_of : (A → Bool) → List A → Bool
  all_of p [] = true
  all_of p (x ∷ xs) = p x && all_of p xs

  -- `[x for x in xs if p(x)]`
  abbrev pub keep_if : (A → Bool) → List A → List A
  keep_if p [] = []
  keep_if p (x ∷ xs) = let rest = keep_if p xs in if p x then x ∷ rest else rest

  -- `next((x for x in xs if p(x)), None)`
  abbrev pub first_of? : (A → Bool) → List A → Option A
  first_of? p [] = none
  first_of? p (x ∷ xs) = if p x then some x else first_of? p xs

  -- `o is None`
  abbrev pub is_none : Option A → Bool
  is_none none = true
  is_none (some a) = false

  -- A predicate on every element.
  abbrev pub All {κ} : (A → Type κ) → List A → Type κ
  All P [] = Unit
  All P (x ∷ xs) = P x × All P xs

  -- A predicate on some element.
  abbrev pub Any : (A → Type 0) → List A → Type 0
  Any P [] = ⊥
  Any P (x ∷ xs) = P x ⊎ Any P xs

  pub length-append : (xs ys : List A) → length (xs ++ ys) ≡ length xs + length ys
  length-append [] ys = omega arith
  length-append (x ∷ xs) ys = omega (arith, length-append xs ys)

pub All-map {ℓ κ ν} :
    {A : Type ℓ} (P : A → Type κ) (Q : A → Type ν)
    → ((a : A) → P a → Q a)
    → (xs : List A) → All P xs
    → All Q xs
All-map P Q f [] h = tt
All-map P Q f (x ∷ xs) h = (f x h.0, All-map P Q f xs h.1)

-- `a in xs`
abbrev pub mem : ℕ → List ℕ → Bool
mem a xs = any_of (λ x. a == x) xs

-- `set(xs).issubset(ys)`
abbrev pub subset : List ℕ → List ℕ → Bool
subset xs ys = all_of (λ x. mem x ys) xs

-- `len(set(xs)) == len(xs)`
abbrev pub distinct : List ℕ → Bool
distinct [] = true
distinct (x ∷ xs) = not (mem x xs) && distinct xs

-- `xs == ys`
abbrev pub same_list : List ℕ → List ℕ → Bool
same_list [] [] = true
same_list (x ∷ xs) (y ∷ ys) = (x == y) && same_list xs ys
same_list xs ys = false

-- `a == b` on values that may be missing.
abbrev pub same_option : Option ℕ → Option ℕ → Bool
same_option none none = true
same_option (some a) (some b) = a == b
same_option a b = false

insert_sorted : ℕ → List ℕ → List ℕ
insert_sorted a [] = a ∷ []
insert_sorted a (x ∷ xs) = if leb a x then a ∷ x ∷ xs else x ∷ insert_sorted a xs

-- `sorted(xs)`
unfoldable pub sorted : List ℕ → List ℕ
unfolding insert_sorted
sorted [] = []
sorted (x ∷ xs) = insert_sorted x (sorted xs)

module _ {ℓ} (P : ℕ → Type ℓ) where
  All-insert_sorted : (a : ℕ) (xs : List ℕ) → All P (insert_sorted a xs) → P a × All P xs
  unfolding insert_sorted
  All-insert_sorted a [] h = h
  All-insert_sorted a (x ∷ xs) h = elim (Bool-cases (leb a x)) [
    | inl first ↦ rw first at h
    | inr later ↦
        let k : P x × All P (insert_sorted a xs) = rw later at h in
        let (pa, rest) = All-insert_sorted a xs k.1 in (pa, (k.0, rest))
  ]

  -- What holds of every element in sorted order holds of every element.
  pub All-sorted : (xs : List ℕ) → All P (sorted xs) → All P xs
  unfolding sorted
  All-sorted [] h = tt
  All-sorted (x ∷ xs) h =
      let (px, rest) = All-insert_sorted x (sorted xs) h in (px, All-sorted xs rest)

-- What holds of every element holds of a member.
pub All-mem {ℓ} : (P : ℕ → Type ℓ) (a : ℕ) (xs : List ℕ) → mem a xs ≡ true → All P xs → P a
All-mem P a [] m h = absurd (ground arith)
All-mem P a (x ∷ xs) m h = elim (Bool-cases (a == x)) [
  | inl hit ↦ let same : x ≡ a = ground arith in subst P same h.0
  | inr miss ↦ All-mem P a xs (ground arith) h.1
]

pub map-append {ℓ κ} :
    {A : Type ℓ} {B : Type κ} (f : A → B) (xs ys : List A) → map f (xs ++ ys) ≡ map f xs ++ map f ys
map-append f [] ys = refl
map-append f (x ∷ xs) ys = ap (λ r. f x ∷ r) (map-append f xs ys)

pub List-cases {ℓ} :
    {A : Type ℓ} (xs : List A) → (xs ≡ []) ⊎ ((y : A) × (ys : List A) × (xs ≡ y ∷ ys))
List-cases [] = inl refl
List-cases (y ∷ ys) = inr (y, ys, refl)

pub same_list→eq : (xs ys : List ℕ) → same_list xs ys ≡ true → xs ≡ ys
same_list→eq [] [] h = refl
same_list→eq (x ∷ xs) (y ∷ ys) h = ground (arith, same_list→eq xs ys)
same_list→eq [] (y ∷ ys) h = absurd (ground arith)
same_list→eq (x ∷ xs) [] h = absurd (ground arith)

pub Any-append {ℓ} :
    {A : Type ℓ} (P : A → Type 0) (xs ys : List A) → Any P (xs ++ ys) → Any P xs ⊎ Any P ys
Any-append P [] ys a = inr a
Any-append P (x ∷ xs) ys (inl p) = inl (inl p)
Any-append P (x ∷ xs) ys (inr q) = elim (Any-append P xs ys q) [
  | inl left ↦ inl (inr left)
  | inr right ↦ inr right
]

pub Any-map {ℓ} :
    {A : Type ℓ} (P Q : A → Type 0) → ((a : A) → P a → Q a) → (xs : List A) → Any P xs → Any Q xs
Any-map P Q f [] a = a
Any-map P Q f (x ∷ xs) (inl p) = inl (f x p)
Any-map P Q f (x ∷ xs) (inr q) = inr (Any-map P Q f xs q)

-- What holds of every element holds of one of them.
pub All-Any :
    {A : Type 0} (P : A → Type 0) (a : A) (xs : List A) → Any (λ x. x ≡ a) xs → All P xs → P a
All-Any P a [] m h = elim m [ ]
All-Any P a (x ∷ xs) (inl same) h = subst P same h.0
All-Any P a (x ∷ xs) (inr later) h = All-Any P a xs later h.1
