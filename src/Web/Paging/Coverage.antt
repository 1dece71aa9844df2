-- ===== src/Web/Paging/Coverage.antt =====
-- The rows that pages and slices show.
use nestjs_playground.Prelude.{
  ℕ, zero, suc, ◌+◌, ◌-◌, ◌*◌, ◌/◌, ◌≤◌, ◌<◌, ◌≡◌, refl, ap, ◌↔◌, true, List, [], ◌∷◌, length, take,
  length-take, arith, ceil_div-le_iff, block_iff,
}
use nestjs_playground.Web.Paging.{
  PageRequest, page_limit, offset, new_page, SliceRequest, slice_limit, new_slice,
}

page_limit_pos : (r : PageRequest) → 0 < r.page_size → page_limit r ≡ r.page_size
unfolding page_limit
page_limit_pos r h = ground arith

offset_pos :
    (r : PageRequest)
    → 0 < r.page_number
    → 0 < r.page_size
    → offset r ≡ (r.page_number - 1) * r.page_size
unfolding offset
offset_pos r hn hs = rw (page_limit_pos r hs) (ground arith)

-- With a positive page number and size, row `i` is in the page's window exactly when the page number
-- is `i / size + 1`: the windows of the pages divide the rows, each row in one.
pub offset_window :
    (r : PageRequest) (i : ℕ)
    → 0 < r.page_number
    → 0 < r.page_size
    → ((offset r ≤ i) × (i < offset r + page_limit r)) ↔ (r.page_number ≡ i / r.page_size + 1)
offset_window r i hn hs =
    let (inside, back) = block_iff (r.page_number - 1) r.page_size i hs in
    rw (offset_pos r hn hs, page_limit_pos r hs)
      (λ h. omega (arith, inside h), λ h. back (omega arith))

-- The number of pages is the least that holds all rows: they fit into `total_page` pages, and into
-- no fewer.
pub total_page_least :
    {A : Type 0} (n total size : ℕ) (items : List A) (k : ℕ)
    → 0 < size
    → ((new_page n total size items).total_page ≤ k) ↔ (total ≤ k * size)
unfolding new_page
total_page_least n total size items k h = ceil_div-le_iff total size k h

take-take_lt {ℓ} : {A : Type ℓ} (m n : ℕ) (xs : List A) → m ≤ n → take m (take n xs) ≡ take m xs
take-take_lt zero n xs h = refl
take-take_lt (suc m) zero xs h = elim h [ ]
take-take_lt (suc m) (suc n) [] h = refl
take-take_lt (suc m) (suc n) (x ∷ xs) h = ap (◌∷◌ x) (take-take_lt m n xs (omega arith))

slice_limit_pos : (r : SliceRequest) → 0 < r.slice_size → slice_limit r ≡ r.slice_size + 1
unfolding slice_limit
slice_limit_pos r h = ground arith

-- A slice made from the rows that its own request fetches holds the first rows up to the slice size,
-- and says that there are more exactly when there are.
pub slice_of_request :
    {A : Type 0} (r : SliceRequest) (rows : List A)
    → 0 < r.slice_size
    → let s = new_slice r.slice_size (take (slice_limit r) rows) in
      (s.items ≡ take r.slice_size rows)
      × ((s.has_more_items ≡ true) ↔ (r.slice_size < length rows))
unfolding new_slice
slice_of_request r rows h = (
  rw (slice_limit_pos r h) (take-take_lt r.slice_size (r.slice_size + 1) rows (omega arith)),
  rw (slice_limit_pos r h) (ground (arith, length-take (r.slice_size + 1) rows)),
)
