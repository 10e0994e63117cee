-- ===== src/Cuckoo/Bins.antt =====
-- src/cuckoo.rs, `CircuitCuckooBinReader::read_bin`: one access to the controller for one bin.
use oram.Base.{ℕ, List}
use oram.Outcome.Stateful.{M, pure, lift, get, ◌>>=◌}
use oram.Ct.{Subtle}
use oram.Store.{PathPageStore}
use oram.Controller.{Rng, CircuitOram, read}
use oram.Controller.Batch.{drain_evictions}
use oram.Cuckoo.Reader.{locate_packed_cuckoo_bin, cut}
use oram.Cuckoo.Circuit.{CircuitCuckooBinReader}

pub record CircuitCuckooBinRead : Type 0 where
  pub bin_id : ℕ
  pub logical_block : ℕ
  pub byte_offset : ℕ
  pub payload : List ℕ
  pub drained_evictions : ℕ

module _ (S : Subtle) (R : Rng) (MS PS : PathPageStore) where
  abbrev pub on_oram :
      {A : Type 0} → M (CircuitOram R MS PS) A → M (CircuitCuckooBinReader R MS PS) A
  on_oram m r = let (a, o) = m r.oram in (a, record r { oram = o })

  pub read_bin : ℕ → ℕ → M (CircuitCuckooBinReader R MS PS) CircuitCuckooBinRead
  read_bin bin_id drain_per_access = get >>= λ r.
      lift (locate_packed_cuckoo_bin r.total_bins r.bins_per_block r.bin_size bin_id)
      >>= λ location. on_oram (read S R MS PS location.logical_block) >>= λ block.
          lift (cut block location.byte_offset location.byte_len) >>= λ payload.
          on_oram (drain_evictions S R MS PS drain_per_access) >>= λ drained. pure (record {
            bin_id = bin_id;
            logical_block = location.logical_block;
            byte_offset = location.byte_offset;
            payload = payload;
            drained_evictions = drained;
          })
