-- ===== src/Tests/Caches.antt =====
-- A store of three pages of one byte with its first page in memory.
use oram.Base.{zero, suc, refl, [], ◌∷◌, false, update, arith}
use oram.Store.{Served}
use oram.Store.Mem.Laws.{mem_pages}
use oram.Store.Operations.{operations}
use oram.Store.Cached.{FrontCachedPageStore, write_page}
use oram.Store.Cached.Valid.{IsCached, IsClean, cached_view}
use oram.Store.Cached.Laws.{write_page-Served}

abbrev cache : FrontCachedPageStore (operations mem_pages)
cache = record {
  inner = record { size = 1; pages = 7 ∷ 5 ∷ 6 ∷ [] };
  cached_pages = 1;
  page_size = 1;
  cached = 7 ∷ [];
  dirty = false ∷ [];
}

cache-IsClean : IsClean mem_pages cache
cache-IsClean zero below off = refl
cache-IsClean (suc j) below off = absurd (omega (arith, below))

cache-IsCached : IsCached mem_pages cache
cache-IsCached = record {
  valid = record { size_pos = omega arith; whole = refl };
  size_is = refl;
  whole = refl;
  flags = refl;
  clean = cache-IsClean;
}

write_page-Served_example :
    Served
      (cached_view mem_pages)
      cache
      (write_page (operations mem_pages) 0 (9 ∷ []) cache)
      tt
      (update ((cached_view mem_pages).page cache) 0 (9 ∷ []))
write_page-Served_example =
    write_page-Served mem_pages 0 (9 ∷ []) cache cache-IsCached (omega arith) refl
