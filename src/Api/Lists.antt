-- ===== src/Api/Lists.antt =====
-- internal/api/api.go and tunnels.go: the lists of projects, devices, transfers, tunnels and audit rows.
-- Rows of one second come in any order from SQLite; here they keep that of the table. A scan that fails
-- is not modelled. The limits of a page come from a library.
pub mod Members
pub mod Visible
pub mod Pages
use meshbridge.Base.{
  ℕ, ◌+◌, Bool, true, false, ◌&&◌, ◌||◌, not, Option, none, some, List, [], ◌∷◌, leb, if◌then◌else◌,
  any, keep, map, take, drop,
}
use meshbridge.Base.Dict.{Dict, lookup}
use meshbridge.Base.Text.{Text, codes, text_eq, eq_text}
use meshbridge.Api.{Server, DeviceRow, AgentRow, Project, Membership, Job, AuditRow, AuthUser}
use meshbridge.Api.Action.{Action, gets, refuse_if, ◌>>=◌, ◌>>◌}
use meshbridge.Tunnel.{Tunnel}

module _ {A : Type 0} where
  -- ORDER BY created_at DESC.
  unfoldable pub put_row : (A → ℕ) → A → List A → List A
  put_row at x [] = x ∷ []
  put_row at x (y ∷ ys) =
      let rest = put_row at x ys in if leb (at y) (at x) then x ∷ y ∷ ys else y ∷ rest

  unfoldable pub newest_first : (A → ℕ) → List A → List A
  unfolding put_row
  newest_first at [] = []
  newest_first at (x ∷ xs) = put_row at x (newest_first at xs)

  -- WHERE …, ORDER BY created_at DESC LIMIT ? OFFSET ?
  unfoldable pub page : (A → Bool) → (A → ℕ) → ℕ → ℕ → List A → List A
  unfolding newest_first
  page may at limit offset xs = take limit (drop offset (newest_first at (keep may xs)))

unfoldable pub is_admin : AuthUser → Bool
unfolding text_eq
is_admin me = text_eq me.role (codes "admin")

-- IN (SELECT project_id FROM project_memberships WHERE user_id=?)
unfoldable pub belongs : AuthUser → Text → Server → Bool
unfolding text_eq
belongs me project s =
    any (λ (m : Membership). text_eq m.project_id project && text_eq m.user_id me.id) s.memberships

-- IN (SELECT id FROM devices WHERE owner_user_id=?)
unfoldable pub owns : AuthUser → Text → Server → Bool
unfolding text_eq
owns me device s =
    any (λ (e : Text × DeviceRow). text_eq e.0 device && text_eq e.1.owner_user_id me.id) s.devices

unfoldable pub sees_project : AuthUser → Server → Text × Project → Bool
unfolding is_admin belongs
sees_project me s e = is_admin me || belongs me e.0 s

unfoldable pub sees_device : AuthUser → Text × DeviceRow → Bool
unfolding is_admin text_eq
sees_device me e = is_admin me || text_eq e.1.owner_user_id me.id

unfoldable pub sees_job : AuthUser → Server → Text × Job → Bool
unfolding is_admin belongs owns
sees_job me s e =
    is_admin me
    || belongs me e.1.project_id s
    || owns me e.1.src_device_id s
    || owns me e.1.dst_device_id s

-- JOIN devices, and for a user the own ones.
unfoldable pub sees_tunnel : AuthUser → Server → Text × Tunnel → Bool
unfolding is_admin owns text_eq
sees_tunnel me s e =
    any (λ (d : Text × DeviceRow). text_eq d.0 e.1.device_id) s.devices
    && (is_admin me || owns me e.1.device_id s)

unfoldable pub list_projects : Bool → AuthUser → ℕ → ℕ → Action Server (List (Text × Project))
unfolding page sees_project
list_projects up me limit offset = do
  refuse_if (not up) 500 (codes "db")
  gets (λ s. page (sees_project me s) (λ e. e.1.created_at) limit offset s.projects)

-- A device with what its agent last told.
pub record DeviceView : Type 0 where
  pub id : Text
  pub hostname : Text
  pub tailscale_ip : Text
  pub online : Bool
  pub last_seen : ℕ

-- LEFT JOIN agents, and `last_seen>=unixepoch()-120`.
unfoldable pub device_view : ℕ → Option AgentRow → Text × DeviceRow → DeviceView
device_view now none (id, d) = record {
  id = id;
  hostname = d.hostname;
  tailscale_ip = d.tailscale_ip;
  online = false;
  last_seen = 0;
}
device_view now (some a) (id, d) = record {
  id = id;
  hostname = d.hostname;
  tailscale_ip = d.tailscale_ip;
  online = leb now (a.last_seen + 120);
  last_seen = a.last_seen;
}

unfoldable pub list_devices : Bool → AuthUser → ℕ → ℕ → ℕ → Action Server (List DeviceView)
unfolding page sees_device device_view
list_devices up me now limit offset = do
  refuse_if (not up) 500 (codes "db")
  gets (λ s.
      map (λ (e : Text × DeviceRow). device_view now (lookup e.0 s.agents) e)
        (page (sees_device me) (λ e. e.1.created_at) limit offset s.devices))

unfoldable pub list_transfers : Bool → AuthUser → ℕ → ℕ → Action Server (List (Text × Job))
unfolding page sees_job
list_transfers up me limit offset = do
  refuse_if (not up) 500 (codes "db")
  gets (λ s. page (sees_job me s) (λ e. e.1.created_at) limit offset s.jobs)

unfoldable pub list_tunnels : Bool → AuthUser → Action Server (List (Text × Tunnel))
unfolding page sees_tunnel
list_tunnels up me = do
  refuse_if (not up) 500 (codes "db")
  gets (λ s. page (sees_tunnel me s) (λ e. e.1.created_at) 200 0 s.tunnels)

unfoldable pub handle_audit : Bool → Text → AuthUser → ℕ → ℕ → Action Server (List AuditRow)
unfolding text_eq is_admin
handle_audit up method me limit offset = do
  refuse_if (not (text_eq method (codes "GET"))) 405 (codes "method")
  refuse_if (not (is_admin me)) 403 (codes "forbidden")
  refuse_if (not up) 500 (codes "db")
  gets (λ s. take limit (drop offset s.audited))
