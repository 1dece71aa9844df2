-- ===== src/Web/Paging.antt =====
-- libs/web-common/src/req/page/PageRequest.ts, req/slice/SliceRequest.ts, res/page/Page.ts and
-- res/slice/Slice.ts. A falsy number (0) stands for the default; the validator of the decorators
-- admits positive integers only.
pub mod Coverage
use nestjs_playground.Prelude.{
  ℕ, suc, ◌+◌, ◌-◌, ◌*◌, ◌/◌, Bool, ltb, ceil_div, ◌==◌, if◌then◌else◌, List, length, take,
}

pub record PageRequest : Type 0 where
  pub page_number : ℕ
  pub page_size : ℕ

abbrev default_page_number : ℕ
default_page_number = 1

abbrev default_page_size : ℕ
default_page_size = 10

unfoldable pub page_limit : PageRequest → ℕ
page_limit r = if r.page_size == 0 then default_page_size else r.page_size

unfoldable pub offset : PageRequest → ℕ
unfolding page_limit
offset r =
    let page_number = if r.page_number == 0 then default_page_number else r.page_number in
    (page_number - 1) * page_limit r

pub record Page {ℓ} (A : Type ℓ) : Type ℓ where
  pub page_number : ℕ
  pub total_count : ℕ
  pub page_size : ℕ
  pub total_page : ℕ
  pub items : List A

-- `Math.ceil(totalCount / pageSize)` of a positive page size.
unfoldable pub new_page {ℓ} : {A : Type ℓ} → ℕ → ℕ → ℕ → List A → Page A
new_page page_number total_count page_size items = record {
  page_number = page_number;
  total_count = total_count;
  page_size = page_size;
  total_page = ceil_div total_count page_size;
  items = items;
}

pub record SliceRequest : Type 0 where
  pub slice_size : ℕ

abbrev default_slice_size : ℕ
default_slice_size = 10

unfoldable pub slice_limit : SliceRequest → ℕ
slice_limit r = if r.slice_size == 0 then default_slice_size else r.slice_size + 1

pub record Slice {ℓ} (A : Type ℓ) : Type ℓ where
  pub slice_size : ℕ
  pub has_more_items : Bool
  pub items : List A

unfoldable pub new_slice {ℓ} : {A : Type ℓ} → ℕ → List A → Slice A
new_slice slice_size items = record {
  slice_size = slice_size;
  has_more_items = ltb slice_size (length items);
  items = take slice_size items;
}
