-- ===== src/Prelude/Sorting.antt =====
-- Go's package sort as a parameter: `sort.Slice` with a comparison of numbers or of texts, which is not stable,
-- and `sort.Strings`. `IsSorting` is what its documentation promises; `insertion` keeps it.
use Prim.Native.Nat.{ℕ, suc, ◌≤◌, Ordering}
use Prim.Native.String.{String, compare}
use mathlib.Core.Path.{◌≡◌, refl, sym, ap, ◌∙◌}
use mathlib.Core.Logic.{inl, inr, ∥∥₁_elim}
use mathlib.Core.Bool.{Bool, true, false}
use mathlib.Core.List.{List, [], ◌∷◌, Perm, Permᴰ}
use mathlib.Core.List.Perm
use native.Mathlib.Omega.{arith}
use nightjar.Prelude.Tests.{if◌then◌else◌, leb, Bool-cases}
use nightjar.Prelude.Lists.{All, length, keep}

pub record Sorting : Type 1 where
  pub slice : (A : Type 0) → (A → ℕ) → List A → List A
  pub slice_text : (A : Type 0) → (A → String) → List A → List A
  pub strings : List String → List String

module _ {A : Type 0} (key : A → ℕ) where
  -- No element stands behind one with a greater key.
  abbrev pub IsOrdered : List A → Type 0
  IsOrdered [] = Unit {0}
  IsOrdered (x ∷ l) = All (λ y. key x ≤ key y) l × IsOrdered l

pub record IsSorting (s : Sorting) : Type 1 where
  pub slice_perm : (A : Type 0) (key : A → ℕ) (l : List A) → Perm (s.slice A key l) l
  pub slice_ordered : (A : Type 0) (key : A → ℕ) (l : List A) → IsOrdered key (s.slice A key l)
  pub slice_text_perm : (A : Type 0) (key : A → String) (l : List A) → Perm (s.slice_text A key l) l
  pub strings_perm : (l : List String) → Perm (s.strings l) l

-- Insertion sort, by a test that the first may stand before the second.
module _ {A : Type 0} (before : A → A → Bool) where
  unfoldable pub insert_by : A → List A → List A
  insert_by x [] = x ∷ []
  insert_by x (y ∷ l) = let rest = insert_by x l in if before x y then x ∷ y ∷ l else y ∷ rest

  unfoldable pub sort_by : List A → List A
  sort_by [] = []
  sort_by (x ∷ l) = insert_by x (sort_by l)

  insert_by-perm : (x : A) (l : List A) → Perm (insert_by x l) (x ∷ l)
  unfolding insert_by
  insert_by-perm x [] = Perm.rfl
  insert_by-perm x (y ∷ l) = elim (Bool-cases (before x y)) [
    | inl e ↦ rw (e) Perm.rfl
    | inr e ↦ rw (e) (Perm.trans (Perm.cons y (insert_by-perm x l)) (Perm.swap x y l))
  ]

  sort_by-perm : (l : List A) → Perm (sort_by l) l
  unfolding sort_by
  sort_by-perm [] = Perm.rfl
  sort_by-perm (x ∷ l) = Perm.trans (insert_by-perm x (sort_by l)) (Perm.cons x (sort_by-perm l))

abbrev by_key : {A : Type 0} → (A → ℕ) → A → A → Bool
by_key key x y = leb (key x) (key y)

abbrev by_text : String → String → Bool
by_text s t = elim (compare s t) [ Ordering.gt ↦ false | _ ↦ true ]

module _ {A : Type 0} (key : A → ℕ) where
  insert_by-below :
      (n : ℕ) (x : A) (l : List A)
      → n ≤ key x
      → All (λ y. n ≤ key y) l
      → All (λ y. n ≤ key y) (insert_by (by_key key) x l)
  unfolding insert_by
  insert_by-below n x [] h k = (h, tt)
  insert_by-below n x (y ∷ l) h k = ground (arith, insert_by-below n x l h k.1)

  above : (n m : ℕ) (l : List A) → n ≤ m → All (λ y. m ≤ key y) l → All (λ y. n ≤ key y) l
  above n m [] h k = tt
  above n m (y ∷ l) h k = (omega arith, above n m l h k.1)

  insert_by-IsOrdered :
      (x : A) (l : List A) → IsOrdered key l → IsOrdered key (insert_by (by_key key) x l)
  unfolding insert_by
  insert_by-IsOrdered x [] h = (tt, tt)
  insert_by-IsOrdered x (y ∷ l) h =
      ground (arith, above (key x) (key y) l, insert_by-below (key y) x l, insert_by-IsOrdered x l)

  sort_by-IsOrdered : (l : List A) → IsOrdered key (sort_by (by_key key) l)
  unfolding sort_by
  sort_by-IsOrdered [] = tt
  sort_by-IsOrdered (x ∷ l) = insert_by-IsOrdered x (sort_by (by_key key) l) (sort_by-IsOrdered l)

abbrev pub insertion : Sorting
insertion = record {
  slice = λ A key l. sort_by (by_key key) l;
  slice_text = λ A key l. sort_by (λ x y. by_text (key x) (key y)) l;
  strings = λ l. sort_by by_text l;
}

pub insertion-IsSorting : IsSorting insertion
insertion-IsSorting = record {
  slice_perm = λ A key l. sort_by-perm (by_key key) l;
  slice_ordered = λ A key l. sort_by-IsOrdered key l;
  slice_text_perm = λ A key l. sort_by-perm (λ x y. by_text (key x) (key y)) l;
  strings_perm = λ l. sort_by-perm by_text l;
}

-- As many elements of a rearranged list pass a test.
module _ {A : Type 0} (p : A → Bool) where
  length-keep-permᴰ : {l m : List A} → Permᴰ l m → length (keep p l) ≡ length (keep p m)
  unfolding keep
  length-keep-permᴰ Permᴰ.nil = refl
  length-keep-permᴰ (Permᴰ.cons e d) = ground (arith, length-keep-permᴰ d, ap p e)
  length-keep-permᴰ (Permᴰ.swap e f) = ground (arith, ap p e, ap p f)
  length-keep-permᴰ (Permᴰ.trans d e) = length-keep-permᴰ d ∙ length-keep-permᴰ e

  pub length-keep-perm : {l m : List A} → Perm l m → length (keep p l) ≡ length (keep p m)
  length-keep-perm d = ∥∥₁_elim d (hlevel) length-keep-permᴰ

length-keep_all : {A : Type 0} (l : List A) → length (keep (λ _. true) l) ≡ length l
unfolding keep
length-keep_all [] = refl
length-keep_all (x ∷ l) = ap suc (length-keep_all l)

pub length-perm : {A : Type 0} {l m : List A} → Perm l m → length l ≡ length m
length-perm {A} {l} {m} d =
    sym (length-keep_all l) ∙ length-keep-perm (λ _. true) d ∙ length-keep_all m
