-- ===== src/Disk/Tests.antt =====
-- A disk with one partition of 100 sectors.
use kernix_os.Base.{[], ◌∷◌}
use kernix_os.Disk.{Partitions}

abbrev one_partition : Partitions
one_partition =
    record { ata_base = 496; ata_drive = 0; start_lba = 2048; size = 100; part_type = 131 } ∷ []
