-- ===== src/Cuckoo/Circuit.antt =====
-- src/cuckoo.rs: the reader that finds the bins of a table in the blocks of a controller.
use oram.Base.{ℕ, ◌*◌, not, ◌==◌}
use oram.Outcome.{Result, ok, invalid_input, ◌>>◌, reject_if}
use oram.Store.{PathPageStore}
use oram.Controller.{Rng, CircuitOram}
use oram.Cuckoo.{CuckooLevel, CuckooTableInfo, word, bin_size, total_bins}
use oram.Cuckoo.Reader.{div_ceil}

pub record CircuitCuckooBinReader (R : Rng) (MS PS : PathPageStore) : Type 0 where
  pub level : CuckooLevel
  pub total_bins : ℕ
  pub bins_per_block : ℕ
  pub bin_size : ℕ
  pub oram : CircuitOram R MS PS

pub new :
    (R : Rng) (MS PS : PathPageStore)
    → CuckooTableInfo
    → ℕ
    → CircuitOram R MS PS
    → Result (CircuitCuckooBinReader R MS PS)
new R MS PS table bins_per_block oram = do
  reject_if (bins_per_block == 0) invalid_input
  reject_if (not (oram.params.logical_blocks == div_ceil (total_bins table) bins_per_block))
      invalid_input
  reject_if (not (oram.params.block_size == word (bin_size table * bins_per_block))) invalid_input
  ok (record {
    level = table.level;
    total_bins = total_bins table;
    bins_per_block = bins_per_block;
    bin_size = bin_size table;
    oram = oram;
  })
