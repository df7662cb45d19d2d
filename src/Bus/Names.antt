-- ===== src/Bus/Names.antt =====
-- src/bus/bus_op.hpp: the labels that a trace line gives an operation, with a constructor for each text.
use saturnis.Base.{if◌then◌else◌}
use saturnis.Bus.Op.{BusKind, ifetch, read, write, mmio_read, mmio_write, barrier, BusOp, from_dma}

-- "IFETCH", "READ", "WRITE", "MMIO_READ", "MMIO_WRITE" and "BARRIER".
pub data KindName : Type 0 where
  ifetch_name read_name write_name mmio_read_name mmio_write_name barrier_name : KindName

unfoldable pub kind_name : BusKind → KindName
kind_name ifetch = ifetch_name
kind_name read = read_name
kind_name write = write_name
kind_name mmio_read = mmio_read_name
kind_name mmio_write = mmio_write_name
kind_name barrier = barrier_name

-- "DMA" and "CPU".
pub data OwnerName : Type 0 where
  dma_owner cpu_owner : OwnerName

unfoldable pub owner_name : BusOp → OwnerName
owner_name op = if from_dma op then dma_owner else cpu_owner

unfoldable pub provenance_tag : BusOp → OwnerName
provenance_tag op = if from_dma op then dma_owner else cpu_owner

-- "DMA", "IFETCH", "READ", "WRITE", "MMIO" and "BARRIER".
pub data SourceName : Type 0 where
  dma_source ifetch_source read_source write_source mmio_source barrier_source : SourceName

abbrev pub source_of_kind : BusKind → SourceName
source_of_kind ifetch = ifetch_source
source_of_kind read = read_source
source_of_kind write = write_source
source_of_kind mmio_read = mmio_source
source_of_kind mmio_write = mmio_source
source_of_kind barrier = barrier_source

unfoldable pub source_name : BusOp → SourceName
source_name op = if from_dma op then dma_source else source_of_kind op.kind
