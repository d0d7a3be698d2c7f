-- ===== src/Api/Agents/Told.antt =====
-- internal/api/api.go: what a heartbeat changes and what it answers.
use meshbridge.Base.{
  ℕ, ◌≡◌, ◌≢◌, ◌⊎◌, inl, inr, refl, Bool, true, false, not, ◌&&◌, Option, none, some, List, [], ◌∷◌,
  arith, Option-cases, Bool-cases, if_elim, keep, map, any, All, ap, sym, subst, ◌∙◌, if◌then◌else◌,
  some_injective,
}
use meshbridge.Base.Dict.{Dict, lookup, lookup-insert, lookup-insert_self, Distinct}
use meshbridge.Base.Text.{Text, codes, text_eq, text_eq_iff, eq_text}
use meshbridge.Api.{Server, DeviceRow, AgentRow}
use meshbridge.Api.Action.{
  Ends, gets_step, refuse_step, or_refuse_step, exec_step, try_into, try_step, gets_end, weaken,
}
use meshbridge.Api.Agents.{
  Heartbeat, probe_class, empty, upsert_agent, update_device, set_hostname, set_tailscale_ip,
  observe, config_of, serves, active_tunnels, beat, handle_agent_heartbeat,
}
use meshbridge.Api.Devices.{device_of_token, touch}
use meshbridge.Api.Devices.Revoked.{live_device}
use meshbridge.Api.Sessions.{has, bearer_hash}
use meshbridge.Tunnel.{Tunnel}
use meshbridge.Tunnel.Agent.{AgentConfig, same_config}

-- An active tunnel of the device.
abbrev pub Serving : Text → Dict Text Tunnel → AgentConfig → Type 0
Serving device tunnels c =
    (id : Text) × (t : Tunnel) × (lookup id tunnels ≡ some t)
    × (t.device_id ≡ device)
    × (t.status ≡ codes "active")
    × (c ≡ config_of t)

more_rows-Serving :
    (device id : Text) (t : Tunnel) (tunnels : Dict Text Tunnel) (list : List AgentConfig)
    → lookup id tunnels ≡ none
    → All (Serving device tunnels) list
    → All (Serving device ((id, t) ∷ tunnels)) list
unfolding lookup
more_rows-Serving device id t tunnels [] new every = tt
more_rows-Serving device id t tunnels (c ∷ list) new ((j, u, here, own, active, form), every) = (
  (j, u, ground (arith, text_eq_iff id j), own, active, form),
  more_rows-Serving device id t tunnels list new every,
)

kept-Serving :
    (device : Text) (tunnels : Dict Text Tunnel)
    → Distinct tunnels
    → All
        (Serving device tunnels)
        (map (λ (e : Text × Tunnel). config_of e.1) (keep (serves device) tunnels))
unfolding lookup serves
kept-Serving device [] d = tt
kept-Serving device ((id, t) ∷ tunnels) (new, d) =
    let rest = more_rows-Serving device id t tunnels _ new (kept-Serving device tunnels d) in
    let first : serves device (id, t) ≡ true → Serving device ((id, t) ∷ tunnels) (config_of t) =
      λ on. (
        id,
        t,
        ground (arith, text_eq_iff id id),
        (text_eq_iff t.device_id device).0 (ground arith),
        (text_eq_iff t.status (codes "active")).0 (ground arith),
        refl,
      ) in
    if_elim
      (λ (es : List (Text × Tunnel)).
        All (Serving device ((id, t) ∷ tunnels)) (map (λ (e : Text × Tunnel). config_of e.1) es))
      (serves device (id, t)) (λ on. (first on, rest)) (λ off. rest)

active_tunnels-Serving :
    (up : Bool) (device : Text) (s : Server)
    → Distinct s.tunnels
    → All (Serving device s.tunnels) (active_tunnels up device s)
unfolding active_tunnels
active_tunnels-Serving up device s d =
    if_elim (All (Serving device s.tunnels)) up (λ _. kept-Serving device s.tunnels d) (λ _. tt)

same_config_refl : (c : AgentConfig) → same_config c c ≡ true
unfolding same_config
same_config_refl c =
    ground (arith, text_eq_iff c.id c.id, text_eq_iff c.scheme c.scheme, text_eq_iff c.host c.host)

-- The answer as a function of the table.
abbrev pub list_of : Bool → Text → Dict Text Tunnel → List AgentConfig
list_of up device rows =
    if up then map (λ (e : Text × Tunnel). config_of e.1) (keep (serves device) rows) else []

listed :
    (device id : Text) (t : Tunnel) (tunnels : Dict Text Tunnel)
    → lookup id tunnels ≡ some t
    → serves device (id, t) ≡ true
    → any
        (λ c. same_config c (config_of t))
        (map (λ (e : Text × Tunnel). config_of e.1) (keep (serves device) tunnels))
      ≡ true
unfolding lookup
listed device id t [] here on = absurd (cc)
listed device id t ((j, u) ∷ tunnels) here on =
    let P : List (Text × Tunnel) → Type 0 = λ es.
      any (λ c. same_config c (config_of t)) (map (λ (e : Text × Tunnel). config_of e.1) es)
      ≡ true in
    elim (Bool-cases (text_eq j id)) [
      | inl same ↦
          let equal : t ≡ u = some_injective (ground arith) in
          let on' : serves device (j, u) ≡ true =
            subst (λ v. serves device (j, v) ≡ true) equal
              (subst (λ k. serves device (k, t) ≡ true) (sym ((text_eq_iff j id).0 same)) on) in
          if_elim P (serves device (j, u))
            (λ _. ground (
              arith,
              subst (λ v. same_config (config_of v) (config_of t) ≡ true) equal
                  (same_config_refl (config_of t)),
            ))
            (λ off. absurd (ground arith))
      | inr other ↦
          let rest = listed device id t tunnels (ground arith) on in
          if_elim P (serves device (j, u)) (λ _. ground arith) (λ _. rest)
    ]

all_listed :
    (up : Bool) (device id : Text) (t : Tunnel) (s : Server) (list : List AgentConfig)
    → list ≡ active_tunnels up device s
    → up ≡ true
    → lookup id s.tunnels ≡ some t
    → serves device (id, t) ≡ true
    → any (λ c. same_config c (config_of t)) list ≡ true
unfolding active_tunnels
all_listed up device id t s list told ran here on =
    let every = listed device id t s.tunnels here on in
    subst (λ l. any (λ c. same_config c (config_of t)) l ≡ true)
      (ap (λ b. list_of b device s.tunnels) (sym ran) ∙ sym told) every

-- Everything but the device's own row and its agent.
abbrev pub OthersStand : Text → Server → Server → Type 0
OthersStand device s s' =
    (s'.tunnels ≡ s.tunnels)
    × ((k : Text)
        → k ≢ device
        → (lookup k s'.devices ≡ lookup k s.devices) × (lookup k s'.agents ≡ lookup k s.agents))

updated_elsewhere :
    (device k : Text) (f : DeviceRow → DeviceRow) (s : Server)
    → k ≢ device
    → lookup k (update_device device f s).devices ≡ lookup k s.devices
unfolding update_device
updated_elsewhere device k f s other = elim (Option-cases (lookup device s.devices)) [
  | inl missing ↦ ground arith
  | inr (d, here) ↦ ground (arith, text_eq_iff device k, lookup-insert device k (f d) s.devices)
]

upserted :
    (device : Text) (a : AgentRow) (s s' : Server)
    → upsert_agent device a s ≡ some s'
    → OthersStand device s s' × (lookup device s'.agents ≡ some a)
unfolding upsert_agent
upserted device a s s' =
    if_elim
      (λ (o : Option Server).
        o ≡ some s' → OthersStand device s s' × (lookup device s'.agents ≡ some a))
      (has device s.devices)
      (λ known h.
        subst (λ x. OthersStand device s x × (lookup device x.agents ≡ some a)) (some_injective h)
          (
            (
              refl,
              λ k other.
                  (refl, ground (arith, text_eq_iff device k, lookup-insert device k a s.agents)),
            ),
            lookup-insert_self device a s.agents,
          ))
      (λ missing h. absurd (cc))

-- The agent is present, and nothing else has changed but the device's own row.
abbrev pub Seen : Text → ℕ → Server → Server → Type 0
Seen device now s s' =
    OthersStand device s s'
    × ((a : AgentRow) × (lookup device s'.agents ≡ some a) × (a.last_seen ≡ now))

update_device-Seen :
    (device : Text) (now : ℕ) (f : DeviceRow → DeviceRow) (s s' : Server)
    → Seen device now s s'
    → Seen device now s (update_device device f s')
unfolding update_device
update_device-Seen device now f s s' ((tunnels, others), agent) = (
  (
    tunnels,
    λ k other. (
      unfold update_device in updated_elsewhere device k f s' other ∙ (others k other).0,
      (others k other).1,
    ),
  ),
  agent,
)

module _ (device : Text) (now : ℕ) (s s' : Server) (seen : Seen device now s s') where
  set_hostname-Seen : (hostname : Text) → Seen device now s (set_hostname device hostname s')
  unfolding set_hostname
  set_hostname-Seen hostname =
      if_elim (Seen device now s) (empty hostname) (λ _. seen)
        (λ _. update_device-Seen device now (λ d. record d { hostname = hostname }) s s' seen)

  set_tailscale_ip-Seen : (ip : Text) → Seen device now s (set_tailscale_ip device ip s')
  unfolding set_tailscale_ip
  set_tailscale_ip-Seen ip =
      if_elim (Seen device now s) (empty ip) (λ _. seen)
        (λ _. update_device-Seen device now (λ d. record d { tailscale_ip = ip }) s s' seen)

  observe-Seen : (class : Text) → Seen device now s (observe device class s')
  unfolding observe
  observe-Seen class = if_elim (Seen device now s) (empty class) (λ _. seen) (λ _. seen)

no_other_device :
    (own device : Text)
    → not (empty own) && not (text_eq own device) ≡ false
    → (own ≡ []) ⊎ (own ≡ device)
unfolding empty
no_other_device [] device h = inl refl
no_other_device (c ∷ own) device h = inr ((text_eq_iff (c ∷ own) device).0 (ground arith))

abbrev pub Untouched : Server → Server → Type 0
Untouched s s' = (s'.devices ≡ s.devices) × (s'.agents ≡ s.agents) × (s'.tunnels ≡ s.tunnels)

module _ (hash_token : Text → Text) (class_of : Text → Option Text)
    (marshal_info : Text → Text → Text → Text → Text) where
  -- The heartbeat speaks for this device, which has been seen now, and the list is that of its active
  -- tunnels.
  abbrev pub Told : Bool → ℕ → Text → Option Heartbeat → Server → List AgentConfig → Server → Type 0
  Told up now device body s list s' =
      (hb : Heartbeat) × (body ≡ some hb)
      × ((hb.device_id ≡ []) ⊎ (hb.device_id ≡ device))
      × Seen device now s s'
      × (list ≡ active_tunnels up device s)

  beat-Told :
      (up : ℕ → Bool) (now : ℕ) (device : Text) (body : Option Heartbeat) (s : Server)
      → Ends
          (Told (up 6) now device body s)
          (Untouched s)
          (beat hash_token class_of marshal_info up now device body)
          s
  unfolding beat active_tunnels
  beat-Told up now device body s =
      or_refuse_step (refl, refl, refl)
        (λ hb sent.
          refuse_step (refl, refl, refl)
            (λ own.
              exec_step (refl, refl, refl)
                (λ s1 stored.
                  let (others, agent) = upserted device _ s s1 stored in
                  try_into (Seen device now s) (others, (_, agent, refl))
                    (set_hostname-Seen device now s s1 (others, (_, agent, refl)) hb.hostname)
                    (λ s2 seen2.
                      try_into (Seen device now s) seen2
                        (set_tailscale_ip-Seen device now s s2 seen2 hb.tailscale_ip)
                        (λ s3 seen3.
                          try_into (Seen device now s) seen3
                            (observe-Seen device now s s3 seen3 (probe_class (class_of hb.probe)))
                            (λ s4 seen4. gets_end (
                              hb,
                              sent,
                              no_other_device hb.device_id device own,
                              seen4,
                              ap (λ (rows : Dict Text Tunnel). list_of (up 6) device rows)
                                  seen4.0.0,
                            )))))))

  -- The same for the device whose live token came along, with the list row by row.
  abbrev pub Reported :
      (ℕ → Bool) → Text → ℕ → Option Heartbeat → Server → List AgentConfig → Server → Type 0
  Reported up header now body s list s' =
      (hash : Text) × (device : Text) × (bearer_hash hash_token header ≡ some hash)
      × (device_of_token true now hash s ≡ some device)
      × Told (up 6) now device body s list s'
      × All (Serving device s.tunnels) list
      × ((id : Text) (t : Tunnel)
          → up 6 ≡ true
          → lookup id s.tunnels ≡ some t
          → serves device (id, t) ≡ true
          → any (λ c. same_config c (config_of t)) list ≡ true)

  beat-Reported :
      (up : ℕ → Bool) (header : Text) (now : ℕ) (body : Option Heartbeat) (s s1 : Server)
      (hash device : Text)
      → Distinct s.tunnels
      → bearer_hash hash_token header ≡ some hash
      → device_of_token true now hash s ≡ some device
      → Ends
          (Told (up 6) now device body s)
          (Untouched s)
          (beat hash_token class_of marshal_info up now device body)
          s1
      → Ends
          (Reported up header now body s)
          (Untouched s)
          (beat hash_token class_of marshal_info up now device body)
          s1
  beat-Reported up header now body s s1 hash device d bore live_user ends =
      weaken {Q = Reported up header now body s} ends
        (λ list s' told. (
          hash,
          device,
          bore,
          live_user,
          told,
          subst (All (Serving device s.tunnels)) (sym told.4)
              (active_tunnels-Serving (up 6) device s d),
          λ id t ran here on. all_listed (up 6) device id t s list told.4 ran here on,
        ))
        (λ s' h. h)

  -- A heartbeat that is answered came with a live token of a device and names that device or none. The
  -- device's agent is then seen now, no other device, no other agent and no tunnel has changed, and the
  -- list that the agent is told is that of the active tunnels of its device: each entry is one, and when
  -- the query is answered, each of them is listed. The table of tunnels has one row for each id.
  pub handle_agent_heartbeat-Told :
      (up : ℕ → Bool) (method header : Text) (now : ℕ) (body : Option Heartbeat) (s : Server)
      → Distinct s.tunnels
      → Ends
          (Reported up header now body s)
          (Untouched s)
          (handle_agent_heartbeat hash_token class_of marshal_info up method header now body)
          s
  unfolding handle_agent_heartbeat touch active_tunnels
  handle_agent_heartbeat-Told up method header now body s d =
      refuse_step (refl, refl, refl)
        (λ _.
          or_refuse_step (refl, refl, refl)
            (λ hash bore. gets_step (
              or_refuse_step (refl, refl, refl)
                (λ device live_user.
                  let live' = live_device (up 0) now hash device s live_user in
                  try_step
                    (beat-Reported up header now body s s hash device d bore live'
                      (beat-Told up now device body s))
                    (beat-Reported up header now body s (touch hash now s) hash device d bore live'
                      (beat-Told up now device body (touch hash now s)))))))
