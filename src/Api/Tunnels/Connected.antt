-- ===== src/Api/Tunnels/Connected.antt =====
-- internal/api/tunnels.go: which agents come to the gateway.
use meshbridge.Base.{
  ℕ, ◌+◌, ◌-◌, ◌/◌, ◌≡◌, refl, Bool, true, false, not, ◌||◌, Option, none, some, arith, ap, ltb,
  if_elim, ◌∙◌, ◌&&◌, subst, sym,
}
use meshbridge.Base.Dict.{Dict, lookup, lookup-insert_self}
use meshbridge.Base.Text.{Text, codes, text_eq, text_eq_iff, eq_text}
use meshbridge.Api.{Server}
use meshbridge.Api.Action.{
  Ends, gets_step, refuse_step, refuse_case, or_refuse_step, modify_step, try_step, leave_step,
  pure_end, weaken,
}
use meshbridge.Api.Devices.{device_of_token, touch}
use meshbridge.Api.Devices.Revoked.{live_device}
use meshbridge.Api.Sessions.{bearer_hash}
use meshbridge.Api.Tunnels.{load_tunnel, for_token, on_gateway, is_active}
use meshbridge.Api.Tunnels.Bounds.{loaded_row}
use meshbridge.Api.Tunnels.Handlers.{slot_taken, upgrade, handle_tunnel_connect}
use meshbridge.Tunnel.{Tunnel}
use meshbridge.Tunnel.Gateway.{
  Gateway, acquire_agent, release_agent, attach, is_removing, registered, log_online,
  agent_slot_bound,
}
use meshbridge.Tunnel.Limits.{second}

for_token_lem :
    (device : Text) (o : Option Tunnel) (t : Tunnel)
    → for_token device o ≡ some t
    → (o ≡ some t) × (t.device_id ≡ device)
unfolding for_token
for_token_lem device none t h = absurd (cc)
for_token_lem device (some u) t h = ground (arith, text_eq_iff u.device_id device)

-- A slot is taken only from a gateway that is not closing and whose meter works, and only while one is
-- free.
refused_same :
    (g : Gateway) (ready : Bool) → (acquire_agent g ready).1 ≡ false → (acquire_agent g ready).0 ≡ g
unfolding acquire_agent
refused_same g ready =
    if_elim (λ (r : Gateway × Bool). r.1 ≡ false → r.0 ≡ g) (g.closing || not ready) (λ _ _. refl)
      (λ _.
        if_elim (λ (r : Gateway × Bool). r.1 ≡ false → r.0 ≡ g) (ltb g.slots agent_slot_bound)
          (λ _ h. absurd (cc)) (λ _ _. refl))

abbrev pub one_slot : Gateway → Gateway
one_slot g = record g { slots = g.slots + 1 }

taken_slot :
    (g : Gateway) (ready : Bool)
    → (acquire_agent g ready).1 ≡ true
    → ((acquire_agent g ready).0 ≡ one_slot g) × (g.closing ≡ false) × (ready ≡ true)
unfolding acquire_agent
taken_slot g ready =
    if_elim
      (λ (r : Gateway × Bool).
        r.1 ≡ true → (r.0 ≡ one_slot g) × (g.closing ≡ false) × (ready ≡ true))
      (g.closing || not ready) (λ _ h. absurd (cc))
      (λ free.
        if_elim
          (λ (r : Gateway × Bool).
            r.1 ≡ true → (r.0 ≡ one_slot g) × (g.closing ≡ false) × (ready ≡ true))
          (ltb g.slots agent_slot_bound) (λ _ _. (refl, ground arith, ground arith))
          (λ _ h. absurd (cc)))

given_back : (g : Gateway) → release_agent (one_slot g) ≡ g
unfolding release_agent
given_back g =
    let same : g.slots + 1 - 1 ≡ g.slots = omega arith in λ i. record g { slots = same i }

-- Attach was called with what the query for an active row answers; when it is answered, and no removal
-- of the tunnel is under way, the session is the one that the gateway holds for the tunnel.
abbrev pub Attached : (ℕ → Bool) → Text → ℕ → ℕ → Server → Server → Type 0
Attached up id session nano s s' =
    (s'.gateway ≡ attach (one_slot s.gateway) id session (up 3) true nano)
    × (up 3 ≡ true
        → is_removing s.gateway id ≡ false
        → (lookup id s'.gateway.sess ≡ some session) × (lookup id s'.gateway.online ≡ some true))

active_row :
    (up : Bool) (id : Text) (s : Server) (t : Tunnel)
    → lookup id s.tunnels ≡ some t
    → t.status ≡ codes "active"
    → is_active up id s ≡ up
unfolding is_active
active_row up id s t here active =
    let yes_active : text_eq t.status (codes "active") ≡ true =
      (text_eq_iff t.status (codes "active")).1 active in
    ground arith

attached_session :
    (g : Gateway) (id : Text) (session nano : ℕ)
    → g.closing ≡ false
    → is_removing g id ≡ false
    → (lookup id (attach g id session true true nano).sess ≡ some session)
      × (lookup id (attach g id session true true nano).online ≡ some true)
unfolding attach registered log_online
attached_session g id session nano free stays =
    ground (arith, lookup-insert_self id session g.sess, lookup-insert_self id true g.online)

attached_lem :
    (up : ℕ → Bool) (id : Text) (ready : Bool) (session nano : ℕ) (s s' : Server) (t : Tunnel)
    → lookup id s.tunnels ≡ some t
    → t.status ≡ codes "active"
    → s.gateway.closing ≡ false
    → ready ≡ true
    → s'.gateway ≡ attach (one_slot s.gateway) id session (is_active (up 3) id s) ready nano
    → Attached up id session nano s s'
attached_lem up id ready session nano s s' t here active free works is =
    let told : s'.gateway ≡ attach (one_slot s.gateway) id session (up 3) true nano =
      is
      ∙ ap (λ b. attach (one_slot s.gateway) id session b ready nano)
          (active_row (up 3) id s t here active)
      ∙ ap (λ b. attach (one_slot s.gateway) id session (up 3) b nano) works in
    (
      told,
      λ answered stays.
          let known : s'.gateway ≡ attach (one_slot s.gateway) id session true true nano =
            told ∙ ap (λ b. attach (one_slot s.gateway) id session b true nano) answered in
          subst (λ g. (lookup id g.sess ≡ some session) × (lookup id g.online ≡ some true))
            (sym known)
            (attached_session (one_slot s.gateway) id session nano free
              (unfold is_removing in stays)),
    )

module _ (hash_token : Text → Text) where
  -- The token is live, its device has this tunnel, and the tunnel is active.
  abbrev pub Entitled : Text → Text → ℕ → Server → Type 0
  Entitled id header now s =
      (hash : Text) × (device : Text) × (t : Tunnel) × (bearer_hash hash_token header ≡ some hash)
      × (device_of_token true now hash s ≡ some device)
      × (lookup id s.tunnels ≡ some t)
      × (t.device_id ≡ device)
      × (t.status ≡ codes "active")

  upgrade_end :
      (up : ℕ → Bool) (upgraded ready : Bool) (hash id : Text) (session nano : ℕ) (s s1 : Server)
      → s1.gateway ≡ one_slot s.gateway
      → s1.tunnels ≡ s.tunnels
      → Ends
          (λ n s'.
            (n ≡ session)
            × (s'.gateway
                ≡ attach (one_slot s.gateway) id session (is_active (up 3) id s) ready nano))
          (λ s'. s'.gateway ≡ s.gateway)
          (upgrade up upgraded ready hash id session nano)
          s1
  unfolding upgrade on_gateway touch is_active
  upgrade_end up false ready hash id session nano s s1 taken same =
      modify_step (leave_step (ap release_agent taken ∙ given_back s.gateway) (λ h. absurd (cc)))
  upgrade_end up true ready hash id session nano s s1 taken same =
      let active = λ (ts : Dict Text Tunnel).
        up 3 && elim (lookup id ts) [ none ↦ false | some t ↦ text_eq t.status (codes "active") ] in
      let result =
        ap (λ g. attach g id session (active s1.tunnels) ready nano) taken
        ∙ ap (λ ts. attach (one_slot s.gateway) id session (active ts) ready nano) same in
      try_step (gets_step (modify_step (pure_end (refl, result))))
        (gets_step (modify_step (pure_end (refl, result))))

  -- An agent's session comes to the gateway only with a live token of the device that the tunnel belongs
  -- to, while the tunnel is active, the gateway is not closing and its meter works. It takes one slot and
  -- goes to Attach; when the query for an active row is answered and the tunnel is not being removed, it
  -- is then the session that the gateway holds, and the tunnel is online. Any other answer leaves the
  -- gateway as it was, with no slot lost.
  pub handle_tunnel_connect-Entitled :
      (up : ℕ → Bool) (id header : Text) (ready upgraded : Bool) (session nano : ℕ) (s : Server)
      → Ends
          (λ n s'.
            Entitled id header (nano / second) s
            × (s.gateway.closing ≡ false)
            × (ready ≡ true)
            × (n ≡ session)
            × Attached up id session nano s s')
          (λ s'. s'.gateway ≡ s.gateway)
          (handle_tunnel_connect hash_token up id header ready upgraded session nano)
          s
  unfolding handle_tunnel_connect on_gateway slot_taken
  handle_tunnel_connect-Entitled up id header ready upgraded session nano s =
      or_refuse_step refl (λ hash bore. gets_step (
        or_refuse_step refl (λ device live_user. gets_step (
          or_refuse_step refl (λ t fits. refuse_step refl (λ active. gets_step (
            modify_step (
              refuse_case (λ none_free. refused_same s.gateway ready (ground arith))
                (λ slot.
                  let (taken, open_gateway, works) = taken_slot s.gateway ready (ground arith) in
                  let (row, own) = for_token_lem device (load_tunnel (up 1) id s) t fits in
                  let entitled : Entitled id header (nano / second) s = (
                    hash,
                    device,
                    t,
                    bore,
                    live_device (up 0) (nano / second) hash device s live_user,
                    loaded_row (up 1) id s t row,
                    own,
                    (text_eq_iff t.status (codes "active")).0 (ground arith),
                  ) in
                  weaken
                    (upgrade_end up upgraded ready hash id session nano s
                      (on_gateway (λ g. (acquire_agent g ready).0) s) taken refl)
                    (λ n s' h. (
                      entitled,
                      open_gateway,
                      works,
                      h.0,
                      attached_lem up id ready session nano s s' t entitled.5 entitled.7
                          open_gateway works h.1,
                    ))
                    (λ s' h. h))))))))))
