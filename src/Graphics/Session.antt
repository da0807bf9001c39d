-- ===== src/Graphics/Session.antt =====
-- Attaching, detaching and clearing sessions: core/kernel/mem/graphics_manager/session.c.
use kernix_os.Base.{
  ℕ, zero, suc, ◌+◌, ◌-◌, ◌*◌, ◌^◌, ◌||◌, ◌&&◌, List, get_or, set, ltb, ◌==◌, if◌then◌else◌, u64,
}
use kernix_os.Graphics.{Gworkspace, Graphics, write_workspace, write_session, name_matches}

-- The workspace at `p` takes the session. A write past the array of sessions, which the test lets through
-- for the place behind its end, is not followed.
pub attach_at : (p session : ℕ) → Graphics → ℕ × Graphics
unfolding write_workspace write_session
attach_at p session g =
    let ws = g.workspace_at p in
    let taken : Gworkspace = record ws {
      sessions = set ws.sessions ws.sessions_len session;
      session_active = ws.sessions_len;
      sessions_len = u64 (ws.sessions_len + 1);
    } in
    if ltb ws.sessions_total ws.sessions_len then (1, g) else (
      0,
      write_session session (record (g.session_at session) { gworkspace = p })
          (write_workspace p taken g),
    )

pub attach_from : (left i session : ℕ) → List ℕ → Graphics → ℕ × Graphics
unfolding attach_at name_matches
attach_from zero i session wanted g = (1, g)
attach_from (suc left) i session wanted g =
    let rest = attach_from left (i + 1) session wanted g in
    let p = get_or g.workspaces i 0 in
    if name_matches wanted (g.workspace_at p).name then attach_at p session g else rest

unfoldable pub gsession_attach : (session : ℕ) → List ℕ → Graphics → ℕ × Graphics
unfolding attach_from
gsession_attach session wanted g = attach_from g.workspaces_total 0 session wanted g

-- The pixels of a line of the screen from column `sx` on, and the lines from `sy` on
pub clear_line : (left sx sy color : ℕ) → Graphics → Graphics
clear_line zero sx sy color g = g
clear_line (suc left) sx sy color g =
    let cleared : Graphics = record g {
      framebuffer = λ i. if i == sy * g.width + sx then color else g.framebuffer i;
    } in
    clear_line left (sx + 1) sy color (if ltb sx g.width && ltb sy g.height then cleared else g)

pub clear_lines : (left sx sy width color : ℕ) → Graphics → Graphics
unfolding clear_line
clear_lines zero sx sy width color g = g
clear_lines (suc left) sx sy width color g =
    clear_lines left sx (sy + 1) width color (clear_line width sx sy color g)

-- Boxes on the screen have sizes below 2 ^ 32, which the loops count in `u32`.
pub gsession_clear : (session color : ℕ) → Graphics → Graphics
unfolding clear_lines
gsession_clear session color g =
    let s = g.session_at session in
    if (session == 0) || (s.gworkspace == 0) || ((g.workspace_at s.gworkspace).gm == 0)
    then g
    else clear_lines s.box.height s.box.x s.box.y s.box.width color g

-- The place `i` is emptied, and the session that was given is cleared.
pub detach_at : (p i session : ℕ) → Graphics → Graphics
unfolding write_workspace gsession_clear
detach_at p i session g =
    let ws = g.workspace_at p in
    let left : Gworkspace = record ws {
      sessions = set ws.sessions i 0;
      sessions_len = u64 (ws.sessions_len + (2 ^ 64 - 1));
    } in
    gsession_clear session 0 (write_workspace p left g)

pub detach_from : (left i p session : ℕ) → Graphics → ℕ × Graphics
unfolding name_matches detach_at
detach_from zero i p session g = (1, g)
detach_from (suc left) i p session g =
    let rest = detach_from left (i + 1) p session g in
    let s = get_or (g.workspace_at p).sessions i 0 in
    if name_matches (g.session_at session).name (g.session_at s).name
    then (0, detach_at p i session g)
    else rest

unfoldable pub gsession_detach : (p session : ℕ) → Graphics → ℕ × Graphics
unfolding detach_from
gsession_detach p session g =
    if (p == 0) || (session == 0)
    then (1, g)
    else detach_from (g.workspace_at p).sessions_total 0 p session g
