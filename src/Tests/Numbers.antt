-- ===== src/Tests/Numbers.antt =====
-- Back-offs, levels, pages and slices of concrete numbers.
use nestjs_playground.Prelude.{◌+◌, ◌/◌, ◌≤◌, ◌<◌, ◌≡◌, ◌↔◌, arith}
use nestjs_playground.Web.Paging.{PageRequest, page_limit, offset}
use nestjs_playground.Web.Paging.Coverage.{offset_window}

abbrev third_page : PageRequest
third_page = record { page_number = 3; page_size = 20 }

offset_window_example :
    ((offset third_page ≤ 41) × (41 < offset third_page + page_limit third_page))
    ↔ (third_page.page_number ≡ 41 / third_page.page_size + 1)
offset_window_example = offset_window third_page 41 (omega arith) (omega arith)
