-- ===== src/Store/Mem.antt =====
-- src/store.rs, `MemPageStore`: the pages one after the other in one buffer.
pub mod Slices
pub mod Laws
use oram.Base.{
  ℕ, zero, suc, ◌+◌, ◌*◌, ◌/◌, ◌≤◌, ◌<◌, ◌≡◌, Bool, ◌||◌, not, List, length, replicate, take, drop,
  leb, ◌==◌, if◌then◌else◌,
}
use oram.Base.Bytes.{slice, splice}
use oram.Outcome.{Result, ok, err, invalid_input, ◌>>=◌, ◌>>◌, reject_if}
use oram.Outcome.Stateful.{M, continue, lift}
use oram.Store.{Page, View}

pub record MemPageStore : Type 0 where
  pub size : ℕ
  pub pages : List ℕ

pub new : ℕ → ℕ → Result MemPageStore
new count size = do
  reject_if (count == 0 || size == 0) invalid_input
  ok (record { size = size; pages = replicate (count * size) 0 })

abbrev pub page_count : MemPageStore → ℕ
page_count s = length s.pages / s.size

-- The shared check of a page request, by what a store says of itself.
unfoldable pub check_page : ℕ → ℕ → ℕ → ℕ → Result (Unit {0})
check_page count size page_idx len = do
  reject_if (leb count page_idx) invalid_input
  reject_if (not (len == size)) invalid_input
  ok tt

unfoldable pub read_page : ℕ → Page → M MemPageStore Page
unfolding check_page
read_page page_idx out s = (
  check_page (page_count s) s.size page_idx (length out) >>= λ _.
      ok (slice (page_idx * s.size) s.size s.pages),
  s,
)

unfoldable pub write_page : ℕ → Page → M MemPageStore (Unit {0})
unfolding check_page
write_page page_idx input s =
    continue (λ _ s'. (ok tt, record s' { pages = splice (page_idx * s'.size) input s'.pages }))
      (check_page (page_count s) s.size page_idx (length input), s)

-- A buffer of whole pages.
pub record IsWhole (s : MemPageStore) : Type 0 where
  pub size_pos : 0 < s.size
  pub whole : page_count s * s.size ≡ length s.pages

abbrev pub mem_view : View MemPageStore
mem_view = record {
  page_size = λ s. s.size;
  page_count = page_count;
  page = λ s i. slice (i * s.size) s.size s.pages;
  IsValid = IsWhole;
}
