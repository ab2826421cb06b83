-- ===== src/Pmap/Check/Parts.antt =====
-- The counts of check_page_free_list (kern/pmap.c) on a list and on its two reordered parts.
use vukernelprogramming.Prelude.{
  ℕ, ◌+◌, ◌≡◌, refl, ◌&&◌, List, [], ◌∷◌, ◌++◌, arith, length, Bool-cases, inl, inr, ◌∙◌,
  length-append,
}
use vukernelprogramming.Pmap.Pages.{is_high}
use vukernelprogramming.Pmap.Pages.Partition.{low_of, high_of}
use vukernelprogramming.Pmap.Check.FreeList.{all_free, base_pages, ext_pages}

pub all_free-append :
    (n : ℕ) (xs ys : List ℕ) → all_free n (xs ++ ys) ≡ (all_free n xs && all_free n ys)
all_free-append n [] ys = refl
all_free-append n (x ∷ xs) ys = rw (all_free-append n xs ys) (ground arith)

pub base_pages-append : (xs ys : List ℕ) → base_pages (xs ++ ys) ≡ base_pages xs + base_pages ys
base_pages-append [] ys = omega arith
base_pages-append (x ∷ xs) ys = omega (arith, base_pages-append xs ys)

pub ext_pages-append : (xs ys : List ℕ) → ext_pages (xs ++ ys) ≡ ext_pages xs + ext_pages ys
ext_pages-append [] ys = omega arith
ext_pages-append (x ∷ xs) ys = omega (arith, ext_pages-append xs ys)

-- what does not depend on the order of the pages is the same in both parts
module _ (n l : ℕ) where
  pub all_free-parts :
      (xs : List ℕ) → (all_free n (low_of l xs) && all_free n (high_of l xs)) ≡ all_free n xs
  all_free-parts [] = refl
  all_free-parts (x ∷ xs) = elim (Bool-cases (is_high l x)) [
    | inl up ↦ rw up (ground (arith, all_free-parts xs))
    | inr down ↦ rw down (ground (arith, all_free-parts xs))
  ]

  pub base_pages-parts :
      (xs : List ℕ) → base_pages (low_of l xs) + base_pages (high_of l xs) ≡ base_pages xs
  base_pages-parts [] = refl
  base_pages-parts (x ∷ xs) = ground (arith, base_pages-parts xs)

  pub ext_pages-parts :
      (xs : List ℕ) → ext_pages (low_of l xs) + ext_pages (high_of l xs) ≡ ext_pages xs
  ext_pages-parts [] = refl
  ext_pages-parts (x ∷ xs) = ground (arith, ext_pages-parts xs)

  pub length-parts : (xs : List ℕ) → length (low_of l xs ++ high_of l xs) ≡ length xs
  length-parts xs = length-append (low_of l xs) (high_of l xs) ∙ sum xs
    where
      sum : (xs : List ℕ) → length (low_of l xs) + length (high_of l xs) ≡ length xs
      sum [] = refl
      sum (x ∷ xs) = ground (arith, sum xs)
