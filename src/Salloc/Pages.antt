-- ===== src/Salloc/Pages.antt =====
-- How many pages `sheap_alloc` maps for a large size.
