-- ===== src/Graphics/Tests.antt =====
-- A session attached by the beginning of the name of its workspace, and taken off again.
use kernix_os.Base.{[], ◌∷◌, ◌≡◌, refl}
use kernix_os.Graphics.{
  Gbox, Gsession, Gworkspace, Graphics, gworkspace_get_name, gworkspace_posx_get,
}
use kernix_os.Graphics.Session.{gsession_attach, gsession_detach}

abbrev pixels : Gbox
pixels = record { x = 1; y = 0; width = 2; height = 1 }

abbrev shell : Gsession
shell = record { gworkspace = 0; name = 115 ∷ []; box = pixels }

abbrev main : Gworkspace
main = record {
  gm = 7;
  name = 109 ∷ 97 ∷ [];
  pos_x = 0;
  pos_y = 0;
  gap_x = 10;
  sessions = 0 ∷ 0 ∷ [];
  sessions_len = 0;
  sessions_total = 2;
  session_active = 0;
}

abbrev screen : Graphics
screen = record {
  address = 7;
  width = 4;
  height = 2;
  framebuffer = λ i. 9;
  workspaces = 5 ∷ [];
  workspaces_len = 1;
  workspaces_total = 1;
  workspace_active = 0;
  workspace_at = λ p. main;
  session_at = λ p. shell;
}

attached_by_prefix : (gsession_attach 3 (109 ∷ []) screen).0 ≡ 0
unfolding gsession_attach
attached_by_prefix = refl

attached_width : gworkspace_posx_get 5 (gsession_attach 3 (109 ∷ []) screen).1 ≡ 12
unfolding gsession_attach gworkspace_posx_get
attached_width = refl

found_by_name : gworkspace_get_name (109 ∷ 97 ∷ []) screen ≡ 5
unfolding gworkspace_get_name
found_by_name = refl

detached_cleared :
    let g = (gsession_detach 5 3 (gsession_attach 3 (109 ∷ []) screen).1).1 in
    (g.framebuffer 1 ≡ 0) × (g.framebuffer 3 ≡ 9) × ((g.workspace_at 5).sessions_len ≡ 0)
unfolding gsession_attach gsession_detach
detached_cleared = (refl, refl, refl)
