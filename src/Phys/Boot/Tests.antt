-- ===== src/Phys/Boot/Tests.antt =====
-- A start on a memory map with one usable entry of 2 MiB.
use kernix_os.Base.{◌<◌, refl, List, [], ◌∷◌, arith}
use kernix_os.Base.Panic.{Returns}
use kernix_os.Phys.Mark.{no_frame}
use kernix_os.Phys.Boot.{
  usable, MemmapEntry, first_entry, base_or_null, physmem_addr_get_tracking, highest_addr, raise,
  physmem_init,
}
use kernix_os.Phys.Boot.Covered.{Booted, tables_at, physmem_init-Booted}

abbrev small_map : List MemmapEntry
small_map = record { base = 0x1000000; length = 0x200000; kind = usable } ∷ []

tables_found : 0 < tables_at small_map
unfolding physmem_addr_get_tracking first_entry base_or_null highest_addr raise
tables_found = omega arith

physmem_init-Booted_example :
    Returns (physmem_init (λ i. no_frame) small_map) (Booted small_map (tables_at small_map))
physmem_init-Booted_example =
    physmem_init-Booted (λ i. no_frame) small_map (omega arith, tt) ((λ e. refl), tt) tables_found
