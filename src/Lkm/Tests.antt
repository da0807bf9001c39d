-- ===== src/Lkm/Tests.antt =====
-- A table whose only module has gone, with an `exit` function left behind in its place.
use kernix_os.Base.{[], ◌∷◌, replicate}
use kernix_os.Lkm.{LkmModule, Lkms, blank_module, Image}

abbrev gone : LkmModule
gone = record { name = 97 ∷ []; init = 100; exit = 200; module_core = 0; size = 8 }

abbrev lkms : Lkms
lkms = record { loaded_lkms = gone ∷ replicate 255 blank_module; lkm_count = 1; calls = [] }

abbrev lkms_empty : Lkms
lkms_empty = record { loaded_lkms = gone ∷ replicate 255 blank_module; lkm_count = 0; calls = [] }

abbrev image : Image
image = record { module_base = 5000; module_size = 64; entry_point = 5100 }
