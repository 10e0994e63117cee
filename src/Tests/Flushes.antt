-- ===== src/Tests/Flushes.antt =====
-- A store of three pages of one byte, whose first page is in memory and differs there.
use oram.Base.{zero, suc, refl, [], ◌∷◌, true, arith}
use oram.Outcome.Stateful.{pure}
use oram.Store.{Served-now}
use oram.Store.Mem.{mem_view}
use oram.Store.Mem.Laws.{mem_pages}
use oram.Store.Operations.{operations}
use oram.Store.Cached.{FrontCachedPageStore, flush}
use oram.Store.Cached.Valid.{IsCached, IsClean}
use oram.Store.Cached.Written.{FlushDone, flush_lem}

abbrev dirty_cache : FrontCachedPageStore (operations mem_pages)
dirty_cache = record {
  inner = record { size = 1; pages = 4 ∷ 5 ∷ 6 ∷ [] };
  cached_pages = 1;
  page_size = 1;
  cached = 7 ∷ [];
  dirty = true ∷ [];
}

dirty_cache-IsClean : IsClean mem_pages dirty_cache
dirty_cache-IsClean zero below off = absurd (ground (arith, off))
dirty_cache-IsClean (suc j) below off = absurd (omega (arith, below))

dirty_cache-IsCached : IsCached mem_pages dirty_cache
dirty_cache-IsCached = record {
  valid = record { size_pos = omega arith; whole = refl };
  size_is = refl;
  whole = refl;
  flags = refl;
  clean = dirty_cache-IsClean;
}

flush_lem_example :
    FlushDone mem_pages dirty_cache (flush (operations mem_pages) (pure tt) dirty_cache)
flush_lem_example =
    flush_lem mem_pages (pure tt) (λ t v. Served-now mem_view t tt v) dirty_cache
      dirty_cache-IsCached (omega arith)
