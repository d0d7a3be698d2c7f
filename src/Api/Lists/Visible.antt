-- ===== src/Api/Lists/Visible.antt =====
-- internal/api/api.go and tunnels.go: who sees which rows, described by the tables.
use meshbridge.Base.{◌≡◌, refl, Bool, true, false, ◌&&◌, ◌||◌, ◌⊎◌, inl, inr, arith, any}
use meshbridge.Base.Text.{Text, codes, text_eq, text_eq_iff, eq_text}
use meshbridge.Api.{Server, DeviceRow, Project, Membership, Job, AuthUser}
use meshbridge.Api.Lists.{is_admin, belongs, owns, sees_project, sees_device, sees_job, sees_tunnel}
use meshbridge.Api.Lists.Members.{Among, any_found, any_member}
use meshbridge.Tunnel.{Tunnel}

abbrev pub IsAdmin : AuthUser → Type 0
IsAdmin me = me.role ≡ codes "admin"

-- A membership of the user in this project.
abbrev pub IsMember : AuthUser → Server → Text → Type 0
IsMember me s project =
    (m : Membership) × Among m s.memberships × (m.project_id ≡ project) × (m.user_id ≡ me.id)

-- A device of this name that the user owns.
abbrev pub IsOwner : AuthUser → Server → Text → Type 0
IsOwner me s device =
    (e : Text × DeviceRow) × Among e s.devices × (e.0 ≡ device) × (e.1.owner_user_id ≡ me.id)

abbrev pub MaySeeProject : AuthUser → Server → Text × Project → Type 0
MaySeeProject me s e = IsAdmin me ⊎ IsMember me s e.0

abbrev pub MaySeeDevice : AuthUser → Text × DeviceRow → Type 0
MaySeeDevice me e = IsAdmin me ⊎ (e.1.owner_user_id ≡ me.id)

-- A member of the job's project, or the owner of either machine.
abbrev pub MaySeeJob : AuthUser → Server → Text × Job → Type 0
MaySeeJob me s e =
    IsAdmin me
    ⊎ (IsMember me s e.1.project_id
        ⊎ (IsOwner me s e.1.src_device_id ⊎ IsOwner me s e.1.dst_device_id))

-- The device is there, and it is the user's.
abbrev pub MaySeeTunnel : AuthUser → Server → Text × Tunnel → Type 0
MaySeeTunnel me s e =
    ((d : Text × DeviceRow) × Among d s.devices × (d.0 ≡ e.1.device_id))
    × (IsAdmin me ⊎ IsOwner me s e.1.device_id)

or_parts : (a b : Bool) → (a || b) ≡ true → (a ≡ true) ⊎ (b ≡ true)
or_parts true b h = inl refl
or_parts false b h = inr h

and_parts : (a b : Bool) → (a && b) ≡ true → (a ≡ true) × (b ≡ true)
and_parts true b h = (refl, h)
and_parts false b h = absurd (cc)

or_left : (a b : Bool) → a ≡ true → (a || b) ≡ true
or_left a b h = ground arith

or_right : (a b : Bool) → b ≡ true → (a || b) ≡ true
or_right a b h = ground arith

module _ (me : AuthUser) where
  pub admin_lem : is_admin me ≡ true → IsAdmin me
  unfolding is_admin
  admin_lem h = (text_eq_iff me.role (codes "admin")).0 h

  lem_admin : IsAdmin me → is_admin me ≡ true
  unfolding is_admin
  lem_admin h = (text_eq_iff me.role (codes "admin")).1 h

  module _ (s : Server) where
    belongs_lem : (project : Text) → belongs me project s ≡ true → IsMember me s project
    unfolding belongs
    belongs_lem project h =
        let (m, place, both) =
          any_found (λ (m : Membership). text_eq m.project_id project && text_eq m.user_id me.id)
            s.memberships h in
        let (a, b) = and_parts (text_eq m.project_id project) (text_eq m.user_id me.id) both in
        (m, place, (text_eq_iff m.project_id project).0 a, (text_eq_iff m.user_id me.id).0 b)

    member_lem : (project : Text) → IsMember me s project → belongs me project s ≡ true
    unfolding belongs
    member_lem project (m, place, a, b) =
        let one = (text_eq_iff m.project_id project).1 a in
        let two = (text_eq_iff m.user_id me.id).1 b in
        any_member (λ (m : Membership). text_eq m.project_id project && text_eq m.user_id me.id) m
          s.memberships place (ground arith)

    owns_lem : (device : Text) → owns me device s ≡ true → IsOwner me s device
    unfolding owns
    owns_lem device h =
        let (e, place, both) =
          any_found
            (λ (e : Text × DeviceRow). text_eq e.0 device && text_eq e.1.owner_user_id me.id)
            s.devices h in
        let (a, b) = and_parts (text_eq e.0 device) (text_eq e.1.owner_user_id me.id) both in
        (e, place, (text_eq_iff e.0 device).0 a, (text_eq_iff e.1.owner_user_id me.id).0 b)

    owner_lem : (device : Text) → IsOwner me s device → owns me device s ≡ true
    unfolding owns
    owner_lem device (e, place, a, b) =
        let one = (text_eq_iff e.0 device).1 a in
        let two = (text_eq_iff e.1.owner_user_id me.id).1 b in
        any_member (λ (e : Text × DeviceRow). text_eq e.0 device && text_eq e.1.owner_user_id me.id)
          e s.devices place (ground arith)

    pub sees_project_sound :
        (e : Text × Project) → sees_project me s e ≡ true → MaySeeProject me s e
    unfolding sees_project
    sees_project_sound e h = elim (or_parts (is_admin me) (belongs me e.0 s) h) [
      | inl a ↦ inl (admin_lem a)
      | inr b ↦ inr (belongs_lem e.0 b)
    ]

    pub sees_project_complete :
        (e : Text × Project) → MaySeeProject me s e → sees_project me s e ≡ true
    unfolding sees_project
    sees_project_complete e (inl a) = or_left (is_admin me) (belongs me e.0 s) (lem_admin a)
    sees_project_complete e (inr b) = or_right (is_admin me) (belongs me e.0 s) (member_lem e.0 b)

    pub sees_device_sound : (e : Text × DeviceRow) → sees_device me e ≡ true → MaySeeDevice me e
    unfolding sees_device
    sees_device_sound e h = elim (or_parts (is_admin me) (text_eq e.1.owner_user_id me.id) h) [
      | inl a ↦ inl (admin_lem a)
      | inr b ↦ inr ((text_eq_iff e.1.owner_user_id me.id).0 b)
    ]

    pub sees_device_complete : (e : Text × DeviceRow) → MaySeeDevice me e → sees_device me e ≡ true
    unfolding sees_device
    sees_device_complete e (inl a) =
        or_left (is_admin me) (text_eq e.1.owner_user_id me.id) (lem_admin a)
    sees_device_complete e (inr b) =
        or_right (is_admin me) (text_eq e.1.owner_user_id me.id)
          ((text_eq_iff e.1.owner_user_id me.id).1 b)

    pub sees_job_sound : (e : Text × Job) → sees_job me s e ≡ true → MaySeeJob me s e
    unfolding sees_job
    sees_job_sound e h =
        let a = is_admin me in
        let b = belongs me e.1.project_id s in
        let c = owns me e.1.src_device_id s in
        let d = owns me e.1.dst_device_id s in
        elim (or_parts (a || b || c) d h) [
          | inr own ↦ inr (inr (inr (owns_lem e.1.dst_device_id own)))
          | inl rest ↦ elim (or_parts (a || b) c rest) [
            | inr own ↦ inr (inr (inl (owns_lem e.1.src_device_id own)))
            | inl most ↦ elim (or_parts a b most) [
              | inl admin ↦ inl (admin_lem admin)
              | inr member ↦ inr (inl (belongs_lem e.1.project_id member))
            ]
          ]
        ]

    pub sees_job_complete : (e : Text × Job) → MaySeeJob me s e → sees_job me s e ≡ true
    unfolding sees_job
    sees_job_complete e (inl a) = ground (arith, lem_admin a)
    sees_job_complete e (inr (inl m)) = ground (arith, member_lem e.1.project_id m)
    sees_job_complete e (inr (inr (inl o))) = ground (arith, owner_lem e.1.src_device_id o)
    sees_job_complete e (inr (inr (inr o))) = ground (arith, owner_lem e.1.dst_device_id o)

    pub sees_tunnel_sound : (e : Text × Tunnel) → sees_tunnel me s e ≡ true → MaySeeTunnel me s e
    unfolding sees_tunnel
    sees_tunnel_sound e h =
        let there = λ (d : Text × DeviceRow). text_eq d.0 e.1.device_id in
        let (known, mine) =
          and_parts (any there s.devices) (is_admin me || owns me e.1.device_id s) h in
        let (d, place, named) = any_found there s.devices known in
        (
          (d, place, (text_eq_iff d.0 e.1.device_id).0 named),
          elim (or_parts (is_admin me) (owns me e.1.device_id s) mine) [
            | inl a ↦ inl (admin_lem a)
            | inr o ↦ inr (owns_lem e.1.device_id o)
          ],
        )

    tunnel_owner :
        (e : Text × Tunnel)
        → IsAdmin me ⊎ IsOwner me s e.1.device_id
        → (is_admin me || owns me e.1.device_id s) ≡ true
    tunnel_owner e (inl a) = or_left (is_admin me) (owns me e.1.device_id s) (lem_admin a)
    tunnel_owner e (inr o) =
        or_right (is_admin me) (owns me e.1.device_id s) (owner_lem e.1.device_id o)

    pub sees_tunnel_complete : (e : Text × Tunnel) → MaySeeTunnel me s e → sees_tunnel me s e ≡ true
    unfolding sees_tunnel
    sees_tunnel_complete e ((d, place, named), mine) =
        let known =
          any_member (λ (d : Text × DeviceRow). text_eq d.0 e.1.device_id) d s.devices place
            ((text_eq_iff d.0 e.1.device_id).1 named) in
        let own = tunnel_owner e mine in ground arith
