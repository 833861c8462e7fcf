-- ===== src/Bindings/Aligned.antt =====
-- `posix_memalign` and `free`.
