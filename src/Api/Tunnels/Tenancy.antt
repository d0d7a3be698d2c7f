-- ===== src/Api/Tunnels/Tenancy.antt =====
-- internal/api/tunnels.go: what one user's calls do to the tunnels of another.
use meshbridge.Base.{
  ℕ, ◌≡◌, ◌≢◌, ◌⊎◌, refl, Bool, true, false, not, Option, none, some, arith, sym, subst, ap,
  Option-cases, Bool-cases, inl, inr, ◌∙◌, some_injective,
}
use meshbridge.Base.Dict.{lookup, lookup-insert, lookup-delete}
use meshbridge.Base.Text.{Text, codes, text_eq, text_eq_iff, eq_text}
use meshbridge.Api.{Server, AuthUser, DeviceRow, log, new_row}
use meshbridge.Api.Action.{
  Ends, then_step, gets_step, refuse_step, or_refuse_step, write_step, exec_step, modify_step,
  try_step, pure_end, refuse_end, gets_end,
}
use meshbridge.Api.Devices.{device_owner}
use meshbridge.Api.Devices.Revoked.{may_manage, device_owner_lem}
use meshbridge.Api.Tunnels.{
  allowed, may_manage_device, load_tunnel, update_tunnel, insert_tunnel, delete_tunnel, on_gateway,
  Drain, Drawn, NewTunnel, Patch, patched, new_key, forget_disabled,
}
use meshbridge.Api.Tunnels.Handlers.{
  Call, create, patch, remove, rotate_key, serve_call, handle_rotate_key, handle_tunnel_delete,
  delete_row, handle_tunnel_patch, handle_tunnels_create,
}
use meshbridge.Tunnel.{Tunnel}
use meshbridge.Tunnel.Agent.{Ip}
use meshbridge.Tunnel.Gateway.{reset_proxy}

-- A tunnel on a device of somebody else, seen by a user who is not an administrator.
abbrev pub Foreign : AuthUser → Server → Text → Tunnel → Type 0
Foreign me s id t =
    (me.role ≢ codes "admin")
    × (lookup id s.tunnels ≡ some t)
    × ((d : DeviceRow) × (lookup t.device_id s.devices ≡ some d) × (d.owner_user_id ≢ me.id))

allowed_lem :
    (me : AuthUser) (o : Option Text)
    → allowed me o ≡ true
    → (owner : Text) × (o ≡ some owner) × ((me.role ≡ codes "admin") ⊎ (owner ≡ me.id))
unfolding allowed
allowed_lem me none h = absurd (cc)
allowed_lem me (some owner) h = (owner, refl, may_manage me owner (ground arith))

-- Who passes mayManageDevice.
pub may_manage_device_lem :
    (up : Bool) (me : AuthUser) (device : Text) (s : Server)
    → may_manage_device up me device s ≡ true
    → (me.role ≡ codes "admin")
      ⊎ ((d : DeviceRow) × (lookup device s.devices ≡ some d) × (d.owner_user_id ≡ me.id))
unfolding may_manage_device
may_manage_device_lem up me device s h = elim (Bool-cases (text_eq me.role (codes "admin"))) [
  | inl admin ↦ inl ((text_eq_iff me.role (codes "admin")).0 admin)
  | inr user ↦
      let (owner, found, right) = allowed_lem me (device_owner up device s) (ground arith) in
      let (d, here, own) = device_owner_lem up device owner s found in
      elim right [ inl admin ↦ inl admin | inr mine ↦ inr (d, here, own ∙ mine) ]
]

barred_user :
    (up : Bool) (me : AuthUser) (s : Server) (id : Text) (t : Tunnel)
    → Foreign me s id t
    → may_manage_device up me t.device_id s ≡ true
    → ⊥
barred_user up me s id t (user, here, (d, there, other)) h =
    elim (may_manage_device_lem up me t.device_id s h) [
      | inl admin ↦ user admin
      | inr (e, found, own) ↦
          other (ap (λ (x : DeviceRow). x.owner_user_id) (some_injective (sym there ∙ found)) ∙ own)
    ]

-- A row that a user may manage is not the foreign one.
another_row :
    (up up' : Bool) (me : AuthUser) (s : Server) (id j : Text) (t u : Tunnel)
    → Foreign me s id t
    → load_tunnel up j s ≡ some u
    → not (may_manage_device up' me u.device_id s) ≡ false
    → text_eq j id ≡ false
unfolding load_tunnel
another_row up up' me s id j t u foreign loaded mine = elim (Bool-cases (text_eq j id)) [
  | inl same ↦
      let row : lookup id s.tunnels ≡ some u =
        subst (λ k. lookup k s.tunnels ≡ some u) ((text_eq_iff j id).0 same) (ground arith) in
      let equal : t ≡ u = some_injective (sym foreign.1 ∙ row) in
      absurd (
        barred_user up' me s id t foreign
          (subst (λ v. may_manage_device up' me v.device_id s ≡ true) (sym equal) (ground arith)))
  | inr other ↦ other
]

update_elsewhere :
    (id j : Text) (f : Tunnel → Tunnel) (s : Server)
    → text_eq j id ≡ false
    → lookup id (update_tunnel j f s).tunnels ≡ lookup id s.tunnels
unfolding update_tunnel
update_elsewhere id j f s other = elim (Option-cases (lookup j s.tunnels)) [
  | inl missing ↦ ground arith
  | inr (u, here) ↦ ground (arith, lookup-insert j id (f u) s.tunnels)
]

delete_elsewhere :
    (id j : Text) (s : Server)
    → text_eq j id ≡ false
    → lookup id (delete_tunnel j s).tunnels ≡ lookup id s.tunnels
unfolding delete_tunnel
delete_elsewhere id j s other = ground (arith, lookup-delete j id s.tunnels)

insert_elsewhere :
    (id : Text) (row t : Tunnel) (s s' : Server)
    → lookup id s.tunnels ≡ some t
    → insert_tunnel row s ≡ some s'
    → lookup id s'.tunnels ≡ some t
unfolding insert_tunnel new_row
insert_elsewhere id row t s s' here h = elim (Option-cases (lookup row.id s.tunnels)) [
  | inl free ↦ ground (arith, text_eq_iff row.id id, lookup-insert row.id id row s.tunnels)
  | inr (u, taken) ↦ absurd (ground arith)
]

-- The foreign row stands after any outcome.
abbrev pub Stands : {A : Type 0} → Text → Tunnel → A → Server → Type 0
Stands id t _ s = lookup id s.tunnels ≡ some t

module _ (me : AuthUser) (s : Server) (id : Text) (t : Tunnel) (foreign : Foreign me s id t) where
  rotate_key-Stands :
      (up : ℕ → Bool) (j : Text) (drawn : Drawn) (now : ℕ)
      → Ends
          (Stands id t)
          (λ s'. lookup id s'.tunnels ≡ some t)
          (handle_rotate_key up me j drawn now)
          s
  unfolding handle_rotate_key log
  rotate_key-Stands up j drawn now =
      let here = foreign.1 in
      gets_step (
        or_refuse_step here (λ u loaded. gets_step (
          refuse_step here (λ mine.
            let other = another_row (up 0) (up 1) me s id j t u foreign loaded mine in
            let still = update_elsewhere id j (new_key drawn.key_hash now) s other ∙ here in
            write_step here (try_step (pure_end still) (pure_end still))))))

  delete_row-Stands :
      (ran logged : Bool) (j : Text) (u : Tunnel) (s1 : Server)
      → text_eq j id ≡ false
      → lookup id s1.tunnels ≡ some t
      → Ends (Stands id t) (λ s'. lookup id s'.tunnels ≡ some t) (delete_row ran logged me j u) s1
  unfolding delete_row log on_gateway
  delete_row-Stands false logged j u s1 other here = modify_step (refuse_end here)
  delete_row-Stands true logged j u s1 other here =
      let still = delete_elsewhere id j s1 other ∙ here in
      modify_step (try_step (modify_step (pure_end still)) (modify_step (pure_end still)))

  delete-Stands :
      (up : ℕ → Bool) (j : Text) (drain : Drain)
      → Ends
          (Stands id t)
          (λ s'. lookup id s'.tunnels ≡ some t)
          (handle_tunnel_delete up me j drain)
          s
  unfolding handle_tunnel_delete on_gateway
  delete-Stands up j drain =
      let here = foreign.1 in
      gets_step (
        or_refuse_step here (λ u loaded. gets_step (
          refuse_step here (λ mine. modify_step (
            modify_step (
              refuse_step here (λ _.
                delete_row-Stands (up 2) (up 3) j u _
                  (another_row (up 0) (up 1) me s id j t u foreign loaded mine) here)))))))

  module _ (parse_ip : Text → Option Ip) where
    forget_keeps :
        (status j : Text) (s1 : Server) → (forget_disabled status j s1).tunnels ≡ s1.tunnels
    unfolding forget_disabled on_gateway
    forget_keeps status j s1 = ground arith

    patch-Stands :
        (up : ℕ → Bool) (j : Text) (body : Option Patch) (now : ℕ)
        → Ends
            (Stands id t)
            (λ s'. lookup id s'.tunnels ≡ some t)
            (handle_tunnel_patch parse_ip up me j body now)
            s
    unfolding handle_tunnel_patch log on_gateway
    patch-Stands up j body now =
        let here = foreign.1 in
        gets_step (
          or_refuse_step here (λ u loaded. gets_step (
            refuse_step here (λ mine. or_refuse_step here (λ p asked. refuse_step here (λ _.
              refuse_step here (λ _. refuse_step here (λ _. refuse_step here (λ _.
                or_refuse_step here (λ status _. write_step here (
                  modify_step (
                    modify_step (
                      let other = another_row (up 0) (up 1) me s id j t u foreign loaded mine in
                      let s1 = update_tunnel j (patched p status now u) s in
                      let still =
                        ap (lookup id)
                          (forget_keeps status j (on_gateway (λ g. reset_proxy g j) s1))
                        ∙ update_elsewhere id j (patched p status now u) s other
                        ∙ here in
                      try_step (gets_end still) (gets_end still))))))))))))))

    create-Stands :
        (hash_token : Text → Text) (up : ℕ → Bool) (body : Option NewTunnel) (drawn : Drawn)
        (nano now : ℕ)
        → Ends
            (Stands id t)
            (λ s'. lookup id s'.tunnels ≡ some t)
            (handle_tunnels_create parse_ip hash_token up me body drawn nano now)
            s
    unfolding handle_tunnels_create log
    create-Stands hash_token up body drawn nano now =
        let here = foreign.1 in
        or_refuse_step here (λ n asked. gets_step (
          refuse_step here (λ mine. refuse_step here (λ _. refuse_step here (λ _.
            refuse_step here (λ _. refuse_step here (λ _. exec_step here (λ s' stored.
              let still = insert_elsewhere id _ t s s' here stored in
              try_step (gets_step (pure_end still)) (gets_step (pure_end still))))))))))

-- Whatever a user who is not an administrator sends to the tunnels' API, and however it ends, the row of
-- a tunnel on somebody else's device stands unchanged.
pub serve_call-Stands :
    (parse_ip : Text → Option Ip) (hash_token : Text → Text) (up : ℕ → Bool) (me : AuthUser)
    (nano now : ℕ) (call : Call) (s : Server) (id : Text) (t : Tunnel)
    → Foreign me s id t
    → Ends
        (Stands id t)
        (λ s'. lookup id s'.tunnels ≡ some t)
        (serve_call parse_ip hash_token up me nano now call)
        s
unfolding serve_call
serve_call-Stands parse_ip hash_token up me nano now (create body drawn) s id t foreign =
    then_step (create-Stands me s id t foreign parse_ip hash_token up body drawn nano now)
      (λ _ s' h. pure_end h)
serve_call-Stands parse_ip hash_token up me nano now (patch j body) s id t foreign =
    then_step (patch-Stands me s id t foreign parse_ip up j body now) (λ _ s' h. pure_end h)
serve_call-Stands parse_ip hash_token up me nano now (remove j drain) s id t foreign =
    delete-Stands me s id t foreign up j drain
serve_call-Stands parse_ip hash_token up me nano now (rotate_key j drawn) s id t foreign =
    then_step (rotate_key-Stands me s id t foreign up j drawn now) (λ _ s' h. pure_end h)
