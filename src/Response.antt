-- ===== src/Response.antt =====
-- internal/dto/response/api.go: a list with its place among the pages. The total of type int64 is
-- converted to int, which is the same on 64-bit machines.
pub mod Pages
use arcana_cloud_go.Base.{
  ℕ, suc, ◌+◌, ◌/◌, ◌%◌, Bool, Option, none, some, List, ltb, ◌==◌, if◌then◌else◌,
}

pub record PageInfo : Type 0 where
  pub page : ℕ
  pub size : ℕ
  pub total_items : ℕ
  pub total_pages : ℕ
  pub has_next : Bool
  pub has_prev : Bool

pub record PagedResponse {ℓ} (T : Type ℓ) : Type ℓ where
  pub items : List T
  pub page_info : PageInfo

unfoldable pub total_pages_of : ℕ → ℕ → ℕ
total_pages_of size total =
    let pages = total / size in if ltb 0 (total % size) then pages + 1 else pages

unfoldable pub page_info_of : ℕ → ℕ → ℕ → PageInfo
unfolding total_pages_of
page_info_of page size total = record {
  page = page;
  size = size;
  total_items = total;
  total_pages = total_pages_of size total;
  has_next = ltb page (total_pages_of size total);
  has_prev = ltb 1 page;
}

-- `NewPagedResponse`; `none` is the panic of a division by a size of 0.
unfoldable pub new_paged_response {ℓ} : {T : Type ℓ} → List T → ℕ → ℕ → ℕ → Option (PagedResponse T)
unfolding page_info_of
new_paged_response items page size total =
    if size == 0
    then none
    else some (record { items = items; page_info = page_info_of page size total })
