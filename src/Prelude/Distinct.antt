-- ===== src/Prelude/Distinct.antt =====
-- Lists without repetitions as finite sets: removal, size, and the element that two majorities share.
use raftfs.Prelude.Tests.{Bool-cases, ◌==◌, if◌then◌else◌}
use raftfs.Prelude.Lists.{length, contains, IsDistinct}
use Prim.Native.Nat.{ℕ, ◌+◌, ◌≤◌, ◌<◌}
use mathlib.Core.Path.{◌≡◌, refl}
use mathlib.Core.Logic.{◌⊎◌, inl, inr, ◌≢◌}
use mathlib.Core.Bool.{true, false}
use mathlib.Core.List.{List, [], ◌∷◌}
use native.Mathlib.Omega.{arith}

-- Every element of the first list is in the second.
abbrev pub IsWithin : List ℕ → List ℕ → Type 0
IsWithin xs ys = (v : ℕ) → contains v xs ≡ true → contains v ys ≡ true

-- The list without the first element that equals `a`.
abbrev pub remove : ℕ → List ℕ → List ℕ
remove a [] = []
remove a (x ∷ xs) = if a == x then xs else x ∷ remove a xs

pub length-remove :
    (a : ℕ) (xs : List ℕ) → contains a xs ≡ true → length (remove a xs) + 1 ≡ length xs
length-remove a [] h = cc
length-remove a (x ∷ xs) h = ground (arith, length-remove a xs)

contains-remove :
    (a v : ℕ) (xs : List ℕ) → v ≢ a → contains v xs ≡ true → contains v (remove a xs) ≡ true
contains-remove a v [] n h = cc
contains-remove a v (x ∷ xs) n h = ground (arith, contains-remove a v xs n)

remove-absent : (a v : ℕ) (xs : List ℕ) → contains v xs ≡ false → contains v (remove a xs) ≡ false
remove-absent a v [] h = refl
remove-absent a v (x ∷ xs) h = ground (arith, remove-absent a v xs)

pub contains-remove_same : (a : ℕ) (xs : List ℕ) → IsDistinct xs → contains a (remove a xs) ≡ false
contains-remove_same a [] h = refl
contains-remove_same a (x ∷ xs) h = ground (arith, contains-remove_same a xs)

pub remove-within : (a v : ℕ) (xs : List ℕ) → contains v (remove a xs) ≡ true → contains v xs ≡ true
remove-within a v [] h = cc
remove-within a v (x ∷ xs) h = ground (arith, remove-within a v xs)

pub remove-IsDistinct : (a : ℕ) (xs : List ℕ) → IsDistinct xs → IsDistinct (remove a xs)
remove-IsDistinct a [] h = tt
remove-IsDistinct a (x ∷ xs) h = elim (Bool-cases (a == x)) [
  | inl same ↦ rw same h.1
  | inr other ↦ rw other (remove-absent a x xs h.0, remove-IsDistinct a xs h.1)
]

pub length-within : (xs ys : List ℕ) → IsDistinct xs → IsWithin xs ys → length xs ≤ length ys
length-within [] ys d w = omega arith
length-within (x ∷ xs) ys d w =
    let there : contains x ys ≡ true = w x (ground arith) in
    let rest : IsWithin xs (remove x ys) =
      λ v h. contains-remove x v ys (λ e. ground arith) (w v (ground arith)) in
    omega (arith, length-within xs (remove x ys) d.1 rest, length-remove x ys there)

-- The first list with an element of the second in it, or no such element.
common :
    (xs ys : List ℕ)
    → ((v : ℕ) × (contains v xs ≡ true) × (contains v ys ≡ true))
      ⊎ ((v : ℕ) → contains v xs ≡ true → contains v ys ≡ false)
common [] ys = inr (λ v h. cc)
common (x ∷ xs) ys = elim (Bool-cases (contains x ys)) [
  | inl shared ↦ inl (x, ground arith, shared)
  | inr other ↦ elim (common xs ys) [
    | inl (v, in_xs, in_ys) ↦ inl (v, ground arith, in_ys)
    | inr none_of ↦ inr (λ v h. ground (arith, none_of v))
  ]
]

-- Without a common element the second list fits beside the first.
beside :
    (xs ys zs : List ℕ)
    → IsDistinct xs
    → IsDistinct ys
    → IsWithin xs zs
    → IsWithin ys zs
    → ((v : ℕ) → contains v xs ≡ true → contains v ys ≡ false)
    → length xs + length ys ≤ length zs
beside [] ys zs dx dy wx wy apart = omega (arith, length-within ys zs dy wy)
beside (x ∷ xs) ys zs dx dy wx wy apart =
    let there : contains x zs ≡ true = wx x (ground arith) in
    let not_there : contains x ys ≡ false = apart x (ground arith) in
    let rest =
      beside xs ys (remove x zs) dx.1 dy
        (λ v h. contains-remove x v zs (λ e. ground arith) (wx v (ground arith)))
        (λ v h. contains-remove x v zs (λ e. ground arith) (wy v h))
        (λ v h. apart v (ground arith)) in
    omega (arith, rest, length-remove x zs there)

-- Two lists without repetitions that together are longer than the list which has both within it share
-- an element.
pub quorums_meet :
    (xs ys zs : List ℕ)
    → IsDistinct xs
    → IsDistinct ys
    → IsWithin xs zs
    → IsWithin ys zs
    → length zs < length xs + length ys
    → (v : ℕ) × (contains v xs ≡ true) × (contains v ys ≡ true)
quorums_meet xs ys zs dx dy wx wy more = elim (common xs ys) [
  | inl shared ↦ shared
  | inr apart ↦ absurd (omega (arith, beside xs ys zs dx dy wx wy apart))
]
