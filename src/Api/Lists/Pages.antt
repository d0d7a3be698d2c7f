-- ===== src/Api/Lists/Pages.antt =====
-- internal/api/api.go and tunnels.go: what the lists answer.
use meshbridge.Base.{
  ℕ, ◌≤◌, ◌≡◌, refl, sym, ap, subst, ◌∙◌, Bool, true, List, [], keep, take, drop, length, ◌∷◌, ◌+◌,
  arith, length-keep-le, length-drop, zero, suc, ◌-◌, length-take-le, take_all, true_of_not,
}
use meshbridge.Base.Dict.{lookup}
use meshbridge.Base.Text.{Text, eq_text}
use meshbridge.Api.{Server, DeviceRow, AuthUser}
use meshbridge.Api.Action.{Ends, refuse_step, gets_end}
use meshbridge.Api.Lists.{
  newest_first, put_row, page, is_admin, sees_project, sees_device, sees_job, sees_tunnel,
  list_projects, DeviceView, device_view, list_devices, list_transfers, list_tunnels, handle_audit,
}
use meshbridge.Api.Lists.Members.{
  Among, Among-keep, keep-Among, Among-take, Among-drop, Among-newest_first, newest_first-Among,
  Descending, newest_first-Descending, drop-Descending, take-Descending, Among-map,
}
use meshbridge.Api.Lists.Visible.{
  IsAdmin, admin_lem, MaySeeProject, MaySeeDevice, MaySeeJob, MaySeeTunnel, sees_project_sound,
  sees_project_complete, sees_device_sound, sees_device_complete, sees_job_sound, sees_job_complete,
  sees_tunnel_sound, sees_tunnel_complete,
}

module _ {A : Type 0} where
  length-put_row : (at : A → ℕ) (x : A) (xs : List A) → length (put_row at x xs) ≡ length xs + 1
  unfolding put_row
  length-put_row at x [] = refl
  length-put_row at x (y ∷ ys) = ground (arith, length-put_row at x ys)

  length-newest_first : (at : A → ℕ) (xs : List A) → length (newest_first at xs) ≡ length xs
  unfolding newest_first
  length-newest_first at [] = refl
  length-newest_first at (x ∷ xs) =
      omega (arith, length-put_row at x (newest_first at xs), length-newest_first at xs)

  length-take-all : (n : ℕ) (xs : List A) → length (take n xs) ≤ length xs
  length-take-all zero xs = omega arith
  length-take-all (suc n) [] = omega arith
  length-take-all (suc n) (x ∷ xs) = omega (arith, length-take-all n xs)

  behind :
      (at : A → ℕ) (limit offset : ℕ) (rows kept : List A)
      → length kept ≤ length rows
      → length (take limit (drop offset (newest_first at kept))) ≤ length rows - offset
  behind at limit offset rows kept few = omega (
    arith,
    length-take-all limit (drop offset (newest_first at kept)),
    length-drop offset (newest_first at kept),
    length-newest_first at kept,
  )

  -- The list holds rows of the table that `May` allows, the latest first, no more than the limit and than
  -- the rows behind the offset; a first page with room for the whole table holds all that are allowed.
  abbrev pub Shows : (A → Type 0) → (A → ℕ) → ℕ → ℕ → List A → List A → Type 0
  Shows May at limit offset rows list =
      ((e : A) → Among e list → Among e rows × May e)
      × Descending at list
      × (length list ≤ limit)
      × (length list ≤ length rows - offset)
      × (length rows ≤ limit → offset ≡ 0 → (e : A) → Among e rows → May e → Among e list)

  page-Shows :
      (May : A → Type 0) (may : A → Bool) (at : A → ℕ) (limit offset : ℕ) (rows : List A)
      → ((e : A) → may e ≡ true → May e)
      → ((e : A) → May e → may e ≡ true)
      → Shows May at limit offset rows (page may at limit offset rows)
  unfolding page
  page-Shows May may at limit offset rows sound complete =
      let kept = keep may rows in
      let sorted = newest_first at kept in
      (
        (λ e m.
            let in_kept =
              Among-newest_first at e kept
                (Among-drop offset e sorted (Among-take limit e (drop offset sorted) m)) in
            let (row, seen) = Among-keep may e rows in_kept in (row, sound e seen)),
        take-Descending at limit (drop offset sorted)
            (drop-Descending at offset sorted (newest_first-Descending at kept)),
        length-take-le limit (drop offset sorted),
        behind at limit offset rows kept (length-keep-le may rows),
        λ room first e row allowed.
            let fits : length sorted ≤ limit =
              omega (arith, length-newest_first at kept, length-keep-le may rows) in
            let whole : take limit (drop offset sorted) ≡ sorted =
              ap (λ o. take limit (drop o sorted)) first ∙ take_all limit sorted fits in
            subst (Among e) (sym whole)
              (newest_first-Among at e kept (keep-Among may e rows row (complete e allowed))),
      )

-- A device of the list is the view of a row that may be seen, with what its agent has told.
abbrev pub Views : AuthUser → ℕ → Server → List DeviceView → Type 0
Views me now s list =
    (v : DeviceView)
    → Among v list
    → (e : Text × DeviceRow) × Among e s.devices
      × MaySeeDevice me e
      × (v ≡ device_view now (lookup e.0 s.agents) e)

-- The lists of projects, transfers and tunnels show only rows of the table that the user may see: an
-- administrator all, anybody else the projects of a membership, the transfers of such a project or from
-- or to a device of one's own, and the tunnels of one's own devices. The latest stand first, no more than
-- the limit and than the rows of the table behind the offset, and a first page with room for the table
-- shows all of them. The list of devices shows an administrator's or one's own devices only, and the
-- audit trail goes to administrators only. Listing changes nothing.
pub lists-Shows :
    (up : Bool) (method : Text) (me : AuthUser) (now limit offset : ℕ) (s : Server)
    → Ends
        (λ list s'.
          (s' ≡ s) × Shows (MaySeeProject me s) (λ e. e.1.created_at) limit offset s.projects list)
        (λ s'. s' ≡ s)
        (list_projects up me limit offset)
        s
      × Ends
          (λ list s'.
            (s' ≡ s) × Shows (MaySeeJob me s) (λ e. e.1.created_at) limit offset s.jobs list)
          (λ s'. s' ≡ s)
          (list_transfers up me limit offset)
          s
      × Ends
          (λ list s'.
            (s' ≡ s) × Shows (MaySeeTunnel me s) (λ e. e.1.created_at) 200 0 s.tunnels list)
          (λ s'. s' ≡ s)
          (list_tunnels up me)
          s
      × Ends
          (λ list s'. (s' ≡ s) × Views me now s list)
          (λ s'. s' ≡ s)
          (list_devices up me now limit offset)
          s
      × Ends
          (λ list s'. (s' ≡ s) × IsAdmin me × (length list ≤ limit))
          (λ s'. s' ≡ s)
          (handle_audit up method me limit offset)
          s
unfolding list_projects list_transfers list_tunnels list_devices handle_audit
lists-Shows up method me now limit offset s = (
  refuse_step refl (λ _. gets_end (
    refl,
    page-Shows (MaySeeProject me s) (sees_project me s) (λ e. e.1.created_at) limit offset
        s.projects (sees_project_sound me s) (sees_project_complete me s),
  )),
  refuse_step refl (λ _. gets_end (
    refl,
    page-Shows (MaySeeJob me s) (sees_job me s) (λ e. e.1.created_at) limit offset s.jobs
        (sees_job_sound me s) (sees_job_complete me s),
  )),
  refuse_step refl (λ _. gets_end (
    refl,
    page-Shows (MaySeeTunnel me s) (sees_tunnel me s) (λ e. e.1.created_at) 200 0 s.tunnels
        (sees_tunnel_sound me s) (sees_tunnel_complete me s),
  )),
  refuse_step refl (λ _. gets_end (
    refl,
    λ v m.
        let rows = page (sees_device me) (λ e. e.1.created_at) limit offset s.devices in
        let (e, place, is) =
          Among-map (λ (e : Text × DeviceRow). device_view now (lookup e.0 s.agents) e) v rows m in
        let shown =
          page-Shows (MaySeeDevice me) (sees_device me) (λ e. e.1.created_at) limit offset s.devices
            (sees_device_sound me s) (sees_device_complete me s) in
        let (row, allowed) = shown.0 e place in (e, row, allowed, is),
  )),
  refuse_step refl (λ _. refuse_step refl (λ shut. refuse_step refl (λ _. gets_end (
    refl,
    admin_lem me (true_of_not (is_admin me) shut),
    length-take-le limit (drop offset s.audited),
  )))),
)
