-- ===== src/Pagination/Pages.antt =====
-- The pages of a list make up the list.
use abyte_tex.Base.{
  ℕ, zero, suc, ◌+◌, ◌-◌, ◌*◌, ◌≤◌, ◌<◌, ◌≡◌, refl, sym, ap, ◌∙◌, max, List, [], ◌∷◌, ◌++◌, length,
  arith,
}
use abyte_tex.Pagination.{ceil_div, build_pagination_meta, drop_rows, take_rows, page_of}
use native.Mathlib.Nat

pred : (n : ℕ) → suc n - 1 ≡ n
pred n = omega arith

zero_mul : (m : ℕ) → zero * m ≡ zero
zero_mul m = omega arith

module _ {A : Type 0} where
  -- The first n pages, one after another.
  unfoldable pub pages : ℕ → ℕ → List A → List A
  pages zero page_size rows = []
  pages (suc n) page_size rows =
      pages n page_size rows ++ page_of (record { page = suc n; page_size = page_size }) rows

  take_rows-add :
      (m n k : ℕ) (rows : List A)
      → k ≡ m + n
      → take_rows k rows ≡ take_rows m rows ++ take_rows n (drop_rows m rows)
  unfolding take_rows drop_rows
  take_rows-add zero n k rows e = ap (λ x. take_rows x rows) (omega arith)
  take_rows-add (suc m) zero zero [] e = refl
  take_rows-add (suc m) (suc n) zero [] e = refl
  take_rows-add (suc m) zero (suc k) [] e = refl
  take_rows-add (suc m) (suc n) (suc k) [] e = refl
  take_rows-add (suc m) n zero (r ∷ rows) e = absurd (omega arith)
  take_rows-add (suc m) n (suc k) (r ∷ rows) e =
      ap (λ l. r ∷ l) (take_rows-add m n k rows (omega arith))

  take_rows-all : (n : ℕ) (rows : List A) → length rows ≤ n → take_rows n rows ≡ rows
  unfolding take_rows
  take_rows-all zero [] h = refl
  take_rows-all zero (r ∷ rows) h = absurd (omega arith)
  take_rows-all (suc n) [] h = refl
  take_rows-all (suc n) (r ∷ rows) h = ap (λ l. r ∷ l) (take_rows-all n rows (omega arith))

  pages_lem :
      (n page_size : ℕ) (rows : List A) → pages n page_size rows ≡ take_rows (n * page_size) rows
  unfolding pages take_rows
  pages_lem zero page_size rows = ap (λ n. take_rows n rows) (sym (zero_mul page_size))
  pages_lem (suc n) page_size rows =
      ap (λ l. l ++ page_of (record { page = suc n; page_size = page_size }) rows)
        (pages_lem n page_size rows)
      ∙ ap (λ k. take_rows (n * page_size) rows ++ take_rows page_size (drop_rows k rows))
          (ap (λ k. k * page_size) (pred n))
      ∙ sym (
          take_rows-add (n * page_size) page_size (suc n * page_size) rows
            (Nat.suc-mul n page_size))

at_least_one : (q page_size total : ℕ) → total ≤ q * page_size → total ≤ max 1 q * page_size
at_least_one zero page_size total h = omega arith
at_least_one (suc q) page_size total h = rw (max_suc q) h
  where
    max_suc : (n : ℕ) → max 1 (suc n) ≡ suc n
    max_suc n = omega arith

below : (total page_size x : ℕ) → total + page_size - 1 < x + page_size → 1 ≤ page_size → total ≤ x
below total page_size x h p = omega arith

enough :
    (total page_size : ℕ) → 1 ≤ page_size → total ≤ max 1 (ceil_div total page_size) * page_size
enough total page_size h = at_least_one (ceil_div total page_size) page_size total (
    below total page_size (ceil_div total page_size * page_size) (Nat.lt-div-mul-add (omega arith))
      h)

-- The pages from the first to the last that the metadata names are the whole list, in its order and
-- without repetition, for any page size of at least 1.
pub pages-total_pages :
    {A : Type 0} (rows : List A) (page page_size : ℕ)
    → 1 ≤ page_size
    → pages (build_pagination_meta (length rows) page page_size).total_pages page_size rows ≡ rows
unfolding build_pagination_meta
pages-total_pages rows page page_size h =
    pages_lem (max 1 (ceil_div (length rows) page_size)) page_size rows
    ∙ take_rows-all (max 1 (ceil_div (length rows) page_size) * page_size) rows
        (enough (length rows) page_size h)
