-- ===== src/Store/Operations.antt =====
-- src/store.rs, `trait PageStore`: the operations alone. Of a store behind them nothing is known:
-- it may answer a read with any bytes.
use oram.Base.{ℕ}
use oram.Outcome.Stateful.{M}
use oram.Store.{Page, PageStore}

pub record PageOperations : Type 1 where
  pub State : Type 0
  pub page_size : State → ℕ
  pub page_count : State → ℕ
  pub read_page : ℕ → Page → M State Page
  pub write_page : ℕ → Page → M State (Unit {0})

-- The operations of a store that keeps its promises.
abbrev pub operations : PageStore → PageOperations
operations P = record {
  State = P.State;
  page_size = P.view.page_size;
  page_count = P.view.page_count;
  read_page = P.read_page;
  write_page = P.write_page;
}
