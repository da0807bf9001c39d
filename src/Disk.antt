-- ===== src/Disk.antt =====
-- The partitions of core/drivers/partitions/partitions.c. Reading and writing a sector of a drive are
-- `ata_read_sector` and `ata_write_sector`, whose effect is a parameter; what is modelled is which sector
-- they are asked for. The fields of the two partition tables are read from sector 0 in the same way as the
-- packed structures of partitions.h do; the GPT branch, which reads further sectors, is not modelled.
pub mod Bounds
mod Tests
use kernix_os.Base.{
  ℕ, zero, suc, ◌+◌, ◌-◌, ◌*◌, ◌/◌, ◌%◌, ◌^◌, Bool, true, false, not, ◌&&◌, Option, none, some,
  List, [], ◌∷◌, get_elem?, get_or, set, length, ltb, leb, ◌==◌, if◌then◌else◌, u64,
}

-- `partition_t`
pub record Partition : Type 0 where
  pub ata_base : ℕ
  pub ata_drive : ℕ
  pub start_lba : ℕ
  pub size : ℕ
  pub part_type : ℕ

-- `partitions` up to `partition_count`
abbrev pub Partitions : Type 0
Partitions = List Partition

-- Little-endian numbers in a sector
pub read_u16 : List ℕ → ℕ → ℕ
read_u16 sector at = get_or sector at 0 + get_or sector (at + 1) 0 * 256

pub read_u32 : List ℕ → ℕ → ℕ
unfolding read_u16
read_u32 sector at = read_u16 sector at + read_u16 sector (at + 2) * 65536

-- The partitions from the entry at `at` of the boot record on, of which there are `left` more
pub mbr_entries : (base drive : ℕ) → List ℕ → (left at : ℕ) → Partitions
unfolding read_u32
mbr_entries base drive sector zero at = []
mbr_entries base drive sector (suc left) at =
    let rest = mbr_entries base drive sector left (at + 16) in
    let p : Partition = record {
      ata_base = base;
      ata_drive = drive;
      start_lba = read_u32 sector (at + 8);
      size = read_u32 sector (at + 12);
      part_type = get_or sector (at + 4) 0;
    } in
    if get_or sector (at + 4) 0 == 0 then rest else p ∷ rest

-- `partitions_init` on sector 0, `none` if it cannot be read. `gpt` is what the branch for a sector without
-- the signature of a boot record finds. Four entries never fill the 16 places of `partitions`.
pub partitions_init_mbr :
    (base drive : ℕ) → (gpt : List ℕ → Partitions) → Option (List ℕ) → Partitions
unfolding mbr_entries read_u16
partitions_init_mbr base drive gpt none = []
partitions_init_mbr base drive gpt (some sector) =
    if read_u16 sector 510 == 0xAA55 then mbr_entries base drive sector 4 446 else gpt sector

pub partitions_get_count : Partitions → ℕ
partitions_get_count ps = length ps

-- An `int` index that is negative is 2 ^ 31 or more, and not below the count.
pub partitions_get : ℕ → Partitions → Option Partition
partitions_get index ps = get_elem? ps index

-- What the drive is asked for: its port, its number and the sector
pub record Request : Type 0 where
  pub base : ℕ
  pub drive : ℕ
  pub lba : ℕ

pub request_in : ℕ → Option Partition → Option Request
request_in lba none = none
request_in lba (some p) =
    if leb p.size lba
    then none
    else some (record { base = p.ata_base; drive = p.ata_drive; lba = u64 (p.start_lba + lba) })

-- The request of `partitions_read_sector` and of `partitions_write_sector`; `none` is -1.
pub partitions_request : (index lba : ℕ) → Partitions → Option Request
unfolding partitions_get request_in
partitions_request index lba ps = request_in lba (partitions_get index ps)
