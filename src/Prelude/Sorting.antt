-- ===== src/Prelude/Sorting.antt =====
-- Stable insertion sort by a numeric key, which is what an `ORDER BY` of one column returns.
use Prim.Native.Nat.{ℕ, ◌≤◌}
use mathlib.Core.Path.{◌≡◌, refl, sym, ap, subst, ◌∙◌}
use mathlib.Core.List.{List, [], ◌∷◌, map, Perm, Memᴰ}
use mathlib.Core.List.Perm
use native.Mathlib.Omega.{arith}
use mathlib.Core.Logic.{inl, inr}
use ginbar.Prelude.Tests.{leb, if◌then◌else◌, Bool-cases}
use ginbar.Prelude.Lists.{All}

module _ {ℓ} {A : Type ℓ} (key : A → ℕ) where
  insert_by : A → List A → List A
  insert_by x [] = x ∷ []
  insert_by x (y ∷ ys) = if leb (key x) (key y) then x ∷ y ∷ ys else y ∷ insert_by x ys

  unfoldable pub sort_by : List A → List A
  unfolding insert_by
  sort_by [] = []
  sort_by (x ∷ xs) = insert_by x (sort_by xs)

  -- Every entry is followed by entries with keys at least its own.
  abbrev pub IsSorted : List A → Type 0
  IsSorted [] = Unit
  IsSorted (x ∷ xs) = All (λ y. key x ≤ key y) xs × IsSorted xs

  All-le :
      (m : ℕ) (y : A) (xs : List A)
      → m ≤ key y
      → All (λ z. key y ≤ key z) xs
      → All (λ z. m ≤ key z) xs
  All-le m y [] h a = tt
  All-le m y (x ∷ xs) h a = (omega arith, All-le m y xs h a.1)

  All-insert_by {κ} :
      (P : A → Type κ) (x : A) (ys : List A) → P x → All P ys → All P (insert_by x ys)
  unfolding insert_by
  All-insert_by P x [] h a = (h, tt)
  All-insert_by P x (y ∷ ys) h a = elim (Bool-cases (leb (key x) (key y))) [
    | inl e ↦ rw e (h, a)
    | inr e ↦ rw e (a.0, All-insert_by P x ys h a.1)
  ]

  insert_by-IsSorted : (x : A) (ys : List A) → IsSorted ys → IsSorted (insert_by x ys)
  unfolding insert_by
  insert_by-IsSorted x [] s = (tt, tt)
  insert_by-IsSorted x (y ∷ ys) s = elim (Bool-cases (leb (key x) (key y))) [
    | inl e ↦ rw e ((ground arith, All-le (key x) y ys (ground arith) s.0), s)
    | inr e ↦
        rw e
          (All-insert_by (λ z. key y ≤ key z) x ys (ground arith) s.0, insert_by-IsSorted x ys s.1)
  ]

  pub sort_by-IsSorted : (xs : List A) → IsSorted (sort_by xs)
  unfolding sort_by
  sort_by-IsSorted [] = tt
  sort_by-IsSorted (x ∷ xs) = insert_by-IsSorted x (sort_by xs) (sort_by-IsSorted xs)

  pub All-sort_by {κ} : (P : A → Type κ) (xs : List A) → All P xs → All P (sort_by xs)
  unfolding sort_by
  All-sort_by P [] a = tt
  All-sort_by P (x ∷ xs) a = All-insert_by P x (sort_by xs) a.0 (All-sort_by P xs a.1)

  insert_by-perm : (x : A) (ys : List A) → Perm (insert_by x ys) (x ∷ ys)
  unfolding insert_by
  insert_by-perm x [] = Perm.refl (x ∷ [])
  insert_by-perm x (y ∷ ys) = elim (Bool-cases (leb (key x) (key y))) [
    | inl e ↦ rw e (Perm.refl (x ∷ y ∷ ys))
    | inr e ↦ rw e (Perm.trans (Perm.cons y (insert_by-perm x ys)) (Perm.swap x y ys))
  ]

  pub sort_by-perm : (xs : List A) → Perm (sort_by xs) xs
  unfolding sort_by
  sort_by-perm [] = Perm.refl []
  sort_by-perm (x ∷ xs) = Perm.trans (insert_by-perm x (sort_by xs)) (Perm.cons x (sort_by-perm xs))

  mem-insert_by : (x : A) (ys : List A) → Memᴰ x (insert_by x ys)
  unfolding insert_by
  mem-insert_by x [] = Memᴰ.head refl
  mem-insert_by x (y ∷ ys) = elim (Bool-cases (leb (key x) (key y))) [
    | inl e ↦ rw e (Memᴰ.head refl)
    | inr e ↦ rw e (Memᴰ.tail (mem-insert_by x ys))
  ]

  mem-insert_by_old : (z x : A) (ys : List A) → Memᴰ z ys → Memᴰ z (insert_by x ys)
  unfolding insert_by
  mem-insert_by_old z x [] m = elim m [ ]
  mem-insert_by_old z x (y ∷ ys) (Memᴰ.head p) = elim (Bool-cases (leb (key x) (key y))) [
    | inl e ↦ rw e (Memᴰ.tail (Memᴰ.head p))
    | inr e ↦ rw e (Memᴰ.head p)
  ]
  mem-insert_by_old z x (y ∷ ys) (Memᴰ.tail m) = elim (Bool-cases (leb (key x) (key y))) [
    | inl e ↦ rw e (Memᴰ.tail (Memᴰ.tail m))
    | inr e ↦ rw e (Memᴰ.tail (mem-insert_by_old z x ys m))
  ]

  pub mem-sort_by : (z : A) (xs : List A) → Memᴰ z xs → Memᴰ z (sort_by xs)
  unfolding sort_by
  mem-sort_by z [] m = elim m [ ]
  mem-sort_by z (x ∷ xs) (Memᴰ.head p) =
      subst (λ w. Memᴰ w (insert_by x (sort_by xs))) (sym p) (mem-insert_by x (sort_by xs))
  mem-sort_by z (x ∷ xs) (Memᴰ.tail m) = mem-insert_by_old z x (sort_by xs) (mem-sort_by z xs m)

  -- Sorting commutes with a change that keeps the keys.
  insert_by-map :
      (g : A → A)
      → ((a : A) → key (g a) ≡ key a)
      → (x : A) (ys : List A) → insert_by (g x) (map g ys) ≡ map g (insert_by x ys)
  unfolding insert_by
  insert_by-map g same x [] = refl
  insert_by-map g same x (y ∷ ys) = ground (arith, same x, same y, insert_by-map g same x ys)

  pub sort_by-map :
      (g : A → A)
      → ((a : A) → key (g a) ≡ key a)
      → (xs : List A) → sort_by (map g xs) ≡ map g (sort_by xs)
  unfolding sort_by
  sort_by-map g same [] = refl
  sort_by-map g same (x ∷ xs) =
      ap (insert_by (g x)) (sort_by-map g same xs) ∙ insert_by-map g same x (sort_by xs)
