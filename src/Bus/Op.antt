-- ===== src/Bus/Op.antt =====
-- src/bus/bus_op.hpp: bus operations, and who produces them.
use saturnis.Base.{ℕ, Bool, true, false, ◌&&◌, ◌||◌}
use saturnis.Base.Integer.{ℤ, is_negative}

pub data BusKind : Type 0 where
  ifetch read write mmio_read mmio_write barrier : BusKind

pub data BusProducer : Type 0 where
  auto cpu dma : BusProducer

pub record BusOp : Type 0 where
  pub cpu_id : ℤ
  pub req_time : ℕ
  pub sequence : ℕ
  pub kind : BusKind
  pub phys_addr : ℕ
  pub size : ℕ
  pub data_word : ℕ
  pub fill_cache_line : Bool
  pub cache_line_size : ℕ
  pub producer : BusProducer
  pub producer_token : ℕ

abbrev pub is_auto : BusProducer → Bool
is_auto auto = true
is_auto cpu = false
is_auto dma = false

abbrev pub is_dma : BusProducer → Bool
is_dma dma = true
is_dma auto = false
is_dma cpu = false

-- The test that `owner_name` and its kin, and `producer_slot`, share.
abbrev pub from_dma : BusOp → Bool
from_dma op = is_dma op.producer || (is_auto op.producer && is_negative op.cpu_id)
