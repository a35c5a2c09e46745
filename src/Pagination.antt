-- ===== src/Pagination.antt =====
-- The pages of a list (apps/api/src/common/dto/pagination.dto.ts) and how the list queries cut
-- them (`skip` and `take`). The validation of the query makes the page at least 1 and its size at
-- least 1 and at most 200.
pub mod Pages
use abyte_tex.Base.{ℕ, ◌+◌, ◌-◌, ◌*◌, ◌/◌, max, List, [], ◌∷◌, zero, suc}

pub record PaginationQueryDto : Type 0 where
  pub page : ℕ
  pub page_size : ℕ

abbrev pub skip : PaginationQueryDto → ℕ
skip query = (query.page - 1) * query.page_size

abbrev pub take : PaginationQueryDto → ℕ
take query = query.page_size

pub record PaginationMeta : Type 0 where
  pub page : ℕ
  pub page_size : ℕ
  pub total : ℕ
  pub total_pages : ℕ

-- `Math.ceil(total / pageSize)`
abbrev pub ceil_div : ℕ → ℕ → ℕ
ceil_div total page_size = (total + page_size - 1) / page_size

unfoldable pub build_pagination_meta : ℕ → ℕ → ℕ → PaginationMeta
build_pagination_meta total page page_size = record {
  page = page;
  page_size = page_size;
  total = total;
  total_pages = max 1 (ceil_div total page_size);
}

-- What a query that skips and takes leaves of the rows.
module _ {A : Type 0} where
  unfoldable pub drop_rows : ℕ → List A → List A
  drop_rows zero rows = rows
  drop_rows (suc n) [] = []
  drop_rows (suc n) (r ∷ rows) = drop_rows n rows

  unfoldable pub take_rows : ℕ → List A → List A
  take_rows zero rows = []
  take_rows (suc n) [] = []
  take_rows (suc n) (r ∷ rows) = r ∷ take_rows n rows

  abbrev pub page_of : PaginationQueryDto → List A → List A
  page_of query rows = take_rows (take query) (drop_rows (skip query) rows)
