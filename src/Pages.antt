-- ===== src/Pages.antt =====
-- Results a page at a time: `_clamp`, `_footer`, `_paginate`, `_render` and the paging of
-- `_list_page` (src/nare/tools.py).
pub mod Page
pub mod Fits
pub mod Listing
pub mod Walk
