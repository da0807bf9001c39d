-- ===== src/Graphics.antt =====
-- Workspaces and sessions: core/kernel/mem/graphics_manager/workspace.c, and attaching, detaching and
-- clearing in session.c. Workspaces and sessions are addresses, 0 is NULL; arguments are not NULL unless a
-- test for it is written. What the allocator returns is an argument. Drawing of text is not modelled.
pub mod Session
mod Tests
use kernix_os.Base.{
  ℕ, zero, suc, ◌+◌, ◌-◌, ◌*◌, ◌%◌, ◌^◌, Bool, true, false, ◌||◌, List, [], ◌∷◌, get_or, set, take,
  ltb, ◌==◌, if◌then◌else◌, u64,
}

-- `gbox_t`
pub record Gbox : Type 0 where
  pub x : ℕ
  pub y : ℕ
  pub width : ℕ
  pub height : ℕ

-- `gsession_t`, without the key buffer
pub record Gsession : Type 0 where
  pub gworkspace : ℕ
  pub name : List ℕ
  pub box : Gbox

-- `gworkspace_t`; `sessions` is the array that the pointer names, `gm` the graphics manager.
pub record Gworkspace : Type 0 where
  pub gm : ℕ
  pub name : List ℕ
  pub pos_x : ℕ
  pub pos_y : ℕ
  pub gap_x : ℕ
  pub sessions : List ℕ
  pub sessions_len : ℕ
  pub sessions_total : ℕ
  pub session_active : ℕ

-- The fields of `graphics_manager_t` for the workspaces, with its address and what stands at addresses
pub record Graphics : Type 0 where
  pub address : ℕ
  pub width : ℕ
  pub height : ℕ
  pub framebuffer : ℕ → ℕ
  pub workspaces : List ℕ
  pub workspaces_len : ℕ
  pub workspaces_total : ℕ
  pub workspace_active : ℕ
  pub workspace_at : ℕ → Gworkspace
  pub session_at : ℕ → Gsession

pub write_workspace : ℕ → Gworkspace → Graphics → Graphics
write_workspace p ws g = record g { workspace_at = λ q. if q == p then ws else g.workspace_at q }

pub write_session : ℕ → Gsession → Graphics → Graphics
write_session p s g = record g { session_at = λ q. if q == p then s else g.session_at q }

-- The inner loop that compares names: it ends at the end of the first.
pub name_matches : (wanted name : List ℕ) → Bool
name_matches [] name = true
name_matches (c ∷ cs) [] = false
name_matches (c ∷ cs) (d ∷ ds) = let rest = name_matches cs ds in if c == d then rest else false

-- What follows the two allocations, which gave `p` and the array `sessions`; `sessions_len` stays what
-- stood in the memory.
pub fill_workspace : (p pos : ℕ) → (name sessions : List ℕ) → Graphics → Graphics
unfolding write_workspace
fill_workspace p pos name sessions g =
    let ws : Gworkspace = record (g.workspace_at p) {
      gm = g.address;
      name = take 63 name;
      pos_x = 0;
      pos_y = pos;
      gap_x = 10;
      sessions = sessions;
      sessions_total = 16;
      session_active = 0;
    } in
    record (write_workspace p ws g) {
      workspaces = set g.workspaces g.workspaces_len p;
      workspace_active = g.workspaces_len;
      workspaces_len = u64 (g.workspaces_len + 1);
    }

-- `p` is 0 or a workspace, and `array` NULL (`[]`) or places for 16 sessions. A failure of the second
-- allocation is taken without the fields written to the block, which nothing names.
pub gworkspace_init : (p : ℕ) → (array name : List ℕ) → (pos : ℕ) → Graphics → ℕ × Graphics
unfolding fill_workspace
gworkspace_init p [] name pos g = (1, g)
gworkspace_init p (a ∷ array) name pos g =
    if ltb g.workspaces_total g.workspaces_len || (p == 0)
    then (1, g)
    else (0, fill_workspace p pos name (a ∷ array) g)

-- The workspaces from `i` on, of which there are `left` more
pub by_name_from : (left i : ℕ) → List ℕ → Graphics → ℕ
unfolding name_matches
by_name_from zero i wanted g = 0
by_name_from (suc left) i wanted g =
    let rest = by_name_from left (i + 1) wanted g in
    let p = get_or g.workspaces i 0 in
    if name_matches wanted (g.workspace_at p).name then p else rest

pub gworkspace_get_name : List ℕ → Graphics → ℕ
unfolding by_name_from
gworkspace_get_name wanted g = by_name_from g.workspaces_total 0 wanted g

pub by_pos_from : (left i pos : ℕ) → Graphics → ℕ
by_pos_from zero i pos g = 0
by_pos_from (suc left) i pos g =
    let rest = by_pos_from left (i + 1) pos g in
    let p = get_or g.workspaces i 0 in if (g.workspace_at p).pos_y == pos then p else rest

pub gworkspace_get_pos : ℕ → Graphics → ℕ
unfolding by_pos_from
gworkspace_get_pos pos g = by_pos_from g.workspaces_total 0 pos g

pub widths_from : (left i ret : ℕ) → Gworkspace → Graphics → ℕ
widths_from zero i ret ws g = ret
widths_from (suc left) i ret ws g =
    widths_from left (i + 1)
      (u64 (ret + (g.session_at (get_or ws.sessions i 0)).box.width + ws.gap_x)) ws g

-- What is written to `*out`
pub gworkspace_posx_get : ℕ → Graphics → ℕ
unfolding widths_from
gworkspace_posx_get p g =
    let ws = g.workspace_at p in
    if ws.sessions_len == 0 then 0 else widths_from ws.sessions_len 0 0 ws g
