-- ===== src/Disk/Bounds.antt =====
-- No request leaves its partition.
use kernix_os.Base.{
  ℕ, ◌+◌, ◌≤◌, ◌<◌, ◌^◌, ◌≡◌, refl, inl, inr, Option, none, some, leb, arith, Bool-cases,
}
use kernix_os.Disk.{Partition, Partitions, partitions_get, Request, request_in, partitions_request}

-- The request is for the drive of the partition and for a sector of it, or it is refused because there is
-- no such partition or it is too short.
abbrev pub Within : (lba : ℕ) → Option Partition → Option Request → Type 0
Within lba none r = r ≡ none
Within lba (some p) none = p.size ≤ lba
Within lba (some p) (some r) =
    (r.base ≡ p.ata_base)
    × (r.drive ≡ p.ata_drive)
    × (r.lba ≡ p.start_lba + lba)
    × (r.lba < p.start_lba + p.size)

-- No partition reaches past the end of the sector numbers.
abbrev pub Fits : Option Partition → Type 0
Fits none = Unit
Fits (some p) = p.start_lba + p.size < 2 ^ 64

request_in-Within : (lba : ℕ) (o : Option Partition) → Fits o → Within lba o (request_in lba o)
unfolding request_in
request_in-Within lba none f = refl
request_in-Within lba (some p) f = elim (Bool-cases (leb p.size lba)) [
  | inl past ↦ rw past (ground arith)
  | inr inside ↦ rw inside (refl, refl, ground arith, ground arith)
]

-- Where the partition of the index, if there is one, ends below sector 2 ^ 64, a request for a sector in it
-- goes to the partition's drive and to a sector of the partition; it is refused exactly if there is no such
-- partition or the sector is not below its size.
pub partitions_request-Within :
    (index lba : ℕ) (ps : Partitions)
    → Fits (partitions_get index ps)
    → Within lba (partitions_get index ps) (partitions_request index lba ps)
unfolding partitions_request
partitions_request-Within index lba ps f = request_in-Within lba (partitions_get index ps) f
