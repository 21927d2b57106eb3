-- ===== src/LoadTest/Sorting.antt =====
-- The order of the measurements does not matter to a bucket.
use mathlib.Core.Path.{ap}
use mathlib.Core.List.{Perm}
use mathlib.Core.List.Perm
use trace_runtime.Prelude.{
  ℕ, suc, ◌≤◌, ◌≡◌, refl, ◌∙◌, false, List, [], ◌∷◌, length, arith, leb, leb→le, All, Bool-cases,
  inl, inr,
}
use trace_runtime.LoadTest.Buckets.{insert, sort}

insert_comm : (x y : ℕ) (l : List ℕ) → insert x (insert y l) ≡ insert y (insert x l)
unfolding insert
insert_comm x y [] = ground arith
insert_comm x y (z ∷ zs) = ground (arith, insert_comm x y zs)

pub sort-perm : {l r : List ℕ} → Perm l r → sort l ≡ sort r
unfolding sort
sort-perm p = Perm.foldr-eq (hlevel) insert insert_comm p []

abbrev pub Above : ℕ → List ℕ → Type 0
Above x = All (λ y. x ≤ y)

abbrev pub Ascending : List ℕ → Type 0
Ascending [] = Unit
Ascending (x ∷ xs) = Above x xs × Ascending xs

Above-insert : (x y : ℕ) (l : List ℕ) → x ≤ y → Above x l → Above x (insert y l)
unfolding insert
Above-insert x y [] h a = (h, tt)
Above-insert x y (z ∷ zs) h a = elim (Bool-cases (leb y z)) [
  | inl e ↦ rw e (h, a)
  | inr e ↦ rw e (a.0, Above-insert x y zs h a.1)
]

Above-le : (x y : ℕ) (l : List ℕ) → x ≤ y → Above y l → Above x l
Above-le x y [] h a = tt
Above-le x y (z ∷ zs) h a = (omega (arith, a.0), Above-le x y zs h a.1)

not-leb : (x z : ℕ) → leb x z ≡ false → z ≤ x
not-leb x z e = ground arith

insert-Ascending : (x : ℕ) (l : List ℕ) → Ascending l → Ascending (insert x l)
unfolding insert
insert-Ascending x [] a = (tt, tt)
insert-Ascending x (z ∷ zs) a = elim (Bool-cases (leb x z)) [
  | inl e ↦ rw e ((leb→le x z e, Above-le x z zs (leb→le x z e) a.0), a)
  | inr e ↦ rw e (Above-insert z x zs (not-leb x z e) a.0, insert-Ascending x zs a.1)
]

pub sort-Ascending : (l : List ℕ) → Ascending (sort l)
unfolding sort
sort-Ascending [] = tt
sort-Ascending (x ∷ xs) = insert-Ascending x (sort xs) (sort-Ascending xs)

length-insert : (x : ℕ) (l : List ℕ) → length (insert x l) ≡ suc (length l)
unfolding insert
length-insert x [] = refl
length-insert x (y ∷ ys) = ground (arith, length-insert x ys)

pub length-sort : (l : List ℕ) → length (sort l) ≡ length l
unfolding sort
length-sort [] = refl
length-sort (x ∷ xs) = length-insert x (sort xs) ∙ ap suc (length-sort xs)
