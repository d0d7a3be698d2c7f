-- ===== src/Api/Devices/Revoked.antt =====
-- internal/api/api.go: what the deletion of a device leaves behind.
use meshbridge.Base.{
  ℕ, ◌≡◌, ◌≢◌, ◌⊎◌, refl, Bool, true, false, not, Option, none, some, arith, subst, Option-cases,
  Bool-cases, inl, inr,
}
use meshbridge.Base.Dict.{
  lookup, lookup-keep, lookup-delete, Distinct, lookup-delete_self, map_values-Distinct,
}
use meshbridge.Base.Text.{Text, codes, text_eq, text_eq_iff, eq_text}
use meshbridge.Api.{Server, DeviceRow, DeviceToken, AuthUser, User, log, not_owner}
use meshbridge.Api.Action.{
  Ends, gets_step, refuse_step, or_refuse_step, write_step, try_step, pure_end,
}
use meshbridge.Api.Devices.{
  device_owner, revoke_tokens, delete_device, handle_device_delete, device_of_token, joined_token,
  owned_token, token_holds, revoked_token,
}
use meshbridge.Tunnel.{Tunnel}

-- An administrator, or the owner of the device.
abbrev pub MayManage : AuthUser → Text → Server → Type 0
MayManage me device s =
    (d : DeviceRow) × (lookup device s.devices ≡ some d)
    × ((me.role ≡ codes "admin") ⊎ (d.owner_user_id ≡ me.id))

-- Nothing is left of this device: no token speaks for it, and it has no tunnel.
abbrev pub Unknown : Text → Server → Type 0
Unknown device s =
    (lookup device s.devices ≡ none)
    × ((now : ℕ) (hash : Text) → device_of_token true now hash s ≢ some device)
    × ((hash : Text) (t : DeviceToken)
        → lookup hash s.device_tokens ≡ some t
        → t.device_id ≢ device)
    × ((id : Text) (t : Tunnel) → lookup id s.tunnels ≡ some t → t.device_id ≢ device)

-- The rows of every other device stand as they stood.
abbrev pub SameElsewhere : Text → Server → Server → Type 0
SameElsewhere device s s' =
    ((id : Text) → id ≢ device → lookup id s'.devices ≡ lookup id s.devices)
    × ((id : Text) (t : Tunnel)
        → lookup id s.tunnels ≡ some t
        → t.device_id ≢ device
        → lookup id s'.tunnels ≡ some t)

pub may_manage :
    (me : AuthUser) (owner : Text)
    → not_owner me owner ≡ false
    → (me.role ≡ codes "admin") ⊎ (owner ≡ me.id)
unfolding not_owner
may_manage me owner h = elim (Bool-cases (text_eq me.role (codes "admin"))) [
  | inl admin ↦ inl ((text_eq_iff me.role (codes "admin")).0 admin)
  | inr user ↦ inr ((text_eq_iff owner me.id).0 (ground arith))
]

pub device_owner_lem :
    (up : Bool) (id owner : Text) (s : Server)
    → device_owner up id s ≡ some owner
    → (d : DeviceRow) × (lookup id s.devices ≡ some d) × (d.owner_user_id ≡ owner)
unfolding device_owner
device_owner_lem up id owner s h = elim (Option-cases (lookup id s.devices)) [
  | inl missing ↦ absurd (ground arith)
  | inr (d, here) ↦ (d, here, ground arith)
]

token_holds_lem :
    (now : ℕ) (t : DeviceToken) (o : Option User) (device : Text)
    → token_holds now t o ≡ some device
    → t.device_id ≡ device
unfolding token_holds
token_holds_lem now t none device h = absurd (cc)
token_holds_lem now t (some u) device h = ground arith

-- A token that speaks for a device is in the table with the device, which exists.
pub owned_token_lem :
    (now : ℕ) (t : DeviceToken) (s : Server) (o : Option DeviceRow) (device : Text)
    → owned_token now t s.users o ≡ some device
    → (t.device_id ≡ device) × ((d : DeviceRow) × (o ≡ some d))
unfolding owned_token
owned_token_lem now t s none device h = absurd (cc)
owned_token_lem now t s (some d) device h =
    (token_holds_lem now t (lookup d.owner_user_id s.users) device h, (d, refl))

pub joined_token_lem :
    (now : ℕ) (s : Server) (o : Option DeviceToken) (device : Text)
    → joined_token now s o ≡ some device
    → (d : DeviceRow) × (lookup device s.devices ≡ some d)
unfolding joined_token
joined_token_lem now s none device h = absurd (cc)
joined_token_lem now s (some t) device h =
    let (same, (d, here)) = owned_token_lem now t s (lookup t.device_id s.devices) device h in
    (d, subst (λ id. lookup id s.devices ≡ some d) same here)

pub live_device :
    (up : Bool) (now : ℕ) (hash device : Text) (s : Server)
    → device_of_token up now hash s ≡ some device
    → device_of_token true now hash s ≡ some device
unfolding device_of_token
live_device up now hash device s h = ground arith

no_owned :
    (now : ℕ) (s : Server) (device : Text) (o : Option DeviceToken)
    → lookup device s.devices ≡ none
    → joined_token now s o ≢ some device
no_owned now s device o missing h = let (d, here) = joined_token_lem now s o device h in absurd (cc)

delete_device-Unknown :
    (device : Text) (s : Server)
    → Distinct s.tunnels
    → Distinct s.device_tokens
    → Unknown device (delete_device device s)
unfolding delete_device device_of_token
delete_device-Unknown device s d d' = (
  lookup-delete_self device s.devices,
  (λ now hash.
      no_owned now (delete_device device s) device
        (lookup hash (delete_device device s).device_tokens) (lookup-delete_self device s.devices)),
  (λ hash t here same. ground (
    arith,
    text_eq_iff t.device_id device,
    lookup-keep (λ (e : Text × DeviceToken). not (text_eq e.1.device_id device)) hash
        s.device_tokens d',
  )),
  λ id t here same. ground (
    arith,
    text_eq_iff t.device_id device,
    lookup-keep (λ (e : Text × Tunnel). not (text_eq e.1.device_id device)) id s.tunnels d,
  ),
)

delete_device-SameElsewhere :
    (device : Text) (s : Server)
    → Distinct s.tunnels
    → SameElsewhere device s (delete_device device s)
unfolding delete_device
delete_device-SameElsewhere device s d = (
  (λ id other. ground (arith, text_eq_iff device id, lookup-delete device id s.devices)),
  λ id t here other. ground (
    arith,
    text_eq_iff t.device_id device,
    lookup-keep (λ (e : Text × Tunnel). not (text_eq e.1.device_id device)) id s.tunnels d,
  ),
)

-- A device is deleted only by its owner or by an administrator. Afterwards no token speaks for it and
-- none of its tokens is left, and no tunnel leads to it; the other devices and the tunnels to them stay.
-- Any other answer leaves all devices and tunnels. The tables have one row for each key.
pub handle_device_delete-Unknown :
    (up : ℕ → Bool) (method : Text) (me : AuthUser) (device : Text) (s : Server)
    → Distinct s.tunnels
    → Distinct s.device_tokens
    → Ends
        (λ _ s'. MayManage me device s × Unknown device s' × SameElsewhere device s s')
        (λ s'. (s'.devices ≡ s.devices) × (s'.tunnels ≡ s.tunnels))
        (handle_device_delete up method me device)
        s
unfolding handle_device_delete revoke_tokens log device_of_token
handle_device_delete-Unknown up method me device s d d' =
    refuse_step (refl, refl)
      (λ _. gets_step (
        or_refuse_step (refl, refl)
          (λ owner found.
            refuse_step (refl, refl)
              (λ mine.
                write_step (refl, refl)
                  (write_step (refl, refl)
                    (let revoked = revoke_tokens device s in
                      let unique = map_values-Distinct (revoked_token device) s.device_tokens d' in
                      let (row, here, owns) = device_owner_lem (up 0) device owner s found in
                      let allowed : MayManage me device s =
                        (row, here, ground (arith, may_manage me owner mine)) in
                      let gone = delete_device-Unknown device revoked d unique in
                      let same = delete_device-SameElsewhere device revoked d in
                      try_step (pure_end (allowed, gone, same))
                        (pure_end (allowed, gone, same))))))))
