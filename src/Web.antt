-- ===== src/Web.antt =====
-- libs/web-common: requests for pages and slices of a result, and the responses.
pub mod Paging
