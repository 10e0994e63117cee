-- ===== src/Store/Mem/Laws.antt =====
-- src/store.rs, `MemPageStore`: it keeps the promises of a page store.
use native.Mathlib.Nat.{mul-div_cancel, mul-le-mul_right}
use oram.Base.{
  ℕ, suc, ◌*◌, ◌/◌, ◌≤◌, ◌<◌, ◌≡◌, refl, ap, fun_ext, length, length-replicate, update, arith,
}
use oram.Base.Bytes.{splice}
use oram.Outcome.{ok}
use oram.Store.{Page, Served, PageStore, PathPageStore}
use oram.Store.Mem.{
  MemPageStore, new, page_count, check_page, read_page, write_page, IsWhole, mem_view,
}
use oram.Store.Mem.Slices.{length-splice, slice-splice}
use oram.Store.Default.{with_defaults}
use oram.Store.Blanket.{path_store}

pub check_page_ok :
    (count size i len : ℕ) → i < count → len ≡ size → check_page count size i len ≡ ok tt
unfolding check_page
check_page_ok count size i len h e = ground arith

pub check_page_passed :
    (count size i len : ℕ) {done : Unit {0}}
    → check_page count size i len ≡ ok done
    → (i < count) × (len ≡ size)
unfolding check_page
check_page_passed count size i len h = ground arith

page_in_range :
    (s : MemPageStore) (i : ℕ) → IsWhole s → i < page_count s → suc i * s.size ≤ length s.pages
page_in_range s i v h = omega (arith, mul-le-mul_right s.size h, v.whole)

pub read-Served :
    (i : ℕ) (out : Page) (s : MemPageStore)
    → IsWhole s
    → i < page_count s
    → length out ≡ s.size
    → Served mem_view s (read_page i out s) (mem_view.page s i) (mem_view.page s)
unfolding read_page
read-Served i out s v h e = record {
  after = s;
  result_is = rw (check_page_ok (page_count s) s.size i (length out) h e);
  valid = v;
  pages_are = refl;
  size_kept = refl;
  count_kept = refl;
}

-- In a store in memory of whole pages, writing a page of the page size to an index in range
-- succeeds and changes that page alone.
pub write-Served :
    (i : ℕ) (input : Page) (s : MemPageStore)
    → IsWhole s
    → i < page_count s
    → length input ≡ s.size
    → Served mem_view s (write_page i input s) tt (update (mem_view.page s) i input)
unfolding write_page
write-Served i input s v h e = record {
  after = record s { pages = splice (i * s.size) input s.pages };
  result_is = rw (check_page_ok (page_count s) s.size i (length input) h e);
  valid = record { size_pos = v.size_pos; whole = rw same v.whole };
  pages_are = fun_ext λ j. slice-splice s.size input e i j s.pages (page_in_range s i v h);
  size_kept = refl;
  count_kept = ap (λ k. k / s.size) same;
}
  where
    same : length (splice (i * s.size) input s.pages) ≡ length s.pages
    same = length-splice (i * s.size) input s.pages (omega (arith, page_in_range s i v h, e))

-- The store in memory is a page store: it reads and writes what it says.
abbrev pub mem_pages : PageStore
mem_pages = record {
  State = MemPageStore;
  view = mem_view;
  read_page = read_page;
  write_page = write_page;
  read_page_served = read-Served;
  write_page_served = write-Served;
}

abbrev pub mem_store : PathPageStore
mem_store = path_store (with_defaults mem_pages)

-- A new store has the pages asked for.
pub new-IsWhole :
    (count size : ℕ) {s : MemPageStore}
    → new count size ≡ ok s
    → IsWhole s × (page_count s ≡ count) × (s.size ≡ size)
unfolding new
new-IsWhole count size h =
    ground
      (arith, length-replicate (count * size) zero_byte, λ (q : 0 < size). mul-div_cancel count q)
  where
    zero_byte : ℕ
    zero_byte = 0
