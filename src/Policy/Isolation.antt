-- ===== src/Policy/Isolation.antt =====
-- internal/policy/policy.go: sources and destinations of the rendered grants.
use meshbridge.Base.{
  ℕ, ◌≡◌, ◌≢◌, ◌⊎◌, inl, inr, refl, sym, ap, subst, Bool, true, false, List, [], ◌∷◌, ◌++◌, map,
  drop, any, All, All-append, arith,
}
use meshbridge.Base.Text.{Text, codes, text_eq, text_eq_iff, has_prefix, has_prefix-append}
use meshbridge.Policy.{
  Relay, Input, Grant, sort_strings, project_tag, admin_tag, mesh_grant, ssh_grants, relay_grant,
  relay_grants, render, is_wildcard,
}

abbrev pub names : List Text → Text → Bool
names tags tag = any (λ t. text_eq tag t) tags

-- A source is the tag of the administrators' devices or that of one project: no wildcard, no group.
abbrev pub IsSource : Text → Type 0
IsSource t = (t ≡ admin_tag) ⊎ ((a : Text) × (t ≡ project_tag a))

-- What a project may reach: its own tag, or the tag of one of the relays, which is no wildcard and that
-- of no project.
abbrev pub MayReach : List Relay → Text → Text → Type 0
MayReach relays a d =
    (d ≡ project_tag a)
    ⊎ ((r : Relay) × (names (map (λ q. q.tag) relays) r.tag ≡ true)
        × (d ≡ r.tag)
        × (is_wildcard d ≡ false)
        × ((b : Text) → d ≢ project_tag b))

-- Every source is a plain tag, and every destination of a grant that a project is a source of is one
-- that this project may reach.
abbrev pub Isolated : List Relay → Grant → Type 0
Isolated relays g =
    All IsSource g.src
    × ((a : Text) → names g.src (project_tag a) ≡ true → All (MayReach relays a) g.dst)

-- A tag of a relay is not that of a project and no wildcard.
abbrev pub IsRelayTag : Relay → Type 0
IsRelayTag r = (has_prefix r.tag (codes "tag:project-") ≡ false) × (is_wildcard r.tag ≡ false)

names-single : (tag t : Text) → names (t ∷ []) tag ≡ true → tag ≡ t
names-single tag t h = (text_eq_iff tag t).0 (ground arith)

mesh-Isolated : (relays : List Relay) (slug : Text) → Isolated relays (mesh_grant slug)
unfolding mesh_grant
mesh-Isolated relays slug = (
  (inr (slug, refl), tt),
  λ a ha. (inl (sym (names-single (project_tag a) (project_tag slug) ha)), tt),
)

All-mesh : (relays : List Relay) (slugs : List Text) → All (Isolated relays) (map mesh_grant slugs)
All-mesh relays [] = tt
All-mesh relays (slug ∷ slugs) = (mesh-Isolated relays slug, All-mesh relays slugs)

first_of : Text → ℕ
first_of [] = 0
first_of (c ∷ s) = c

not_admin : (a : Text) → project_tag a ≢ admin_tag
unfolding project_tag first_of
not_admin a h =
    let e : ◌≡◌ {A = ℕ} b'p' b'a' = ap (λ t. first_of (drop 4 t)) h in absurd (omega arith)

All-ssh : (relays : List Relay) (slugs : List Text) → All (Isolated relays) (ssh_grants slugs)
unfolding ssh_grants
All-ssh relays [] = tt
All-ssh relays (slug ∷ slugs) =
    (((inl refl, tt), λ a ha. absurd (not_admin a (names-single (project_tag a) admin_tag ha))), tt)

not_relay : (b : Text) (r : Relay) → IsRelayTag r → r.tag ≢ project_tag b
unfolding project_tag
not_relay b r h e =
    let is : has_prefix r.tag (codes "tag:project-") ≡ true =
      subst (λ t. has_prefix t (codes "tag:project-") ≡ true) (sym e)
        (has_prefix-append (codes "tag:project-") b) in
    let is_not = h.0 in absurd (cc)

-- `relays` are all relays, `rest` those still to come.
All-relay :
    (relays : List Relay) (slug : Text) (rest : List Relay)
    → ((r : Relay)
        → names (map (λ q. q.tag) rest) r.tag ≡ true
        → names (map (λ q. q.tag) relays) r.tag ≡ true)
    → All IsRelayTag rest
    → All (Isolated relays) (map (relay_grant slug) rest)
unfolding relay_grant
All-relay relays slug [] among h = tt
All-relay relays slug (r ∷ rest) among (first, h) =
    let here : names (map (λ (q : Relay). q.tag) (r ∷ rest)) r.tag ≡ true =
      ground (arith, text_eq_iff r.tag r.tag) in
    (
      (
        (inr (slug, refl), tt),
        λ a ha. (inr (r, among r here, refl, first.1, λ b. not_relay b r first), tt),
      ),
      All-relay relays slug rest (λ q later. among q (ground arith)) h,
    )

All-relays :
    (relays : List Relay) (slugs : List Text)
    → All IsRelayTag relays
    → All (Isolated relays) (relay_grants relays slugs)
unfolding relay_grants
All-relays relays [] h = tt
All-relays relays (slug ∷ slugs) h =
    All-append (Isolated relays) (map (relay_grant slug) relays) (relay_grants relays slugs)
      (All-relay relays slug relays (λ r among. among) h) (All-relays relays slugs h)

-- Whatever projects and relays there are, the sources of every grant of the rendered policy are plain
-- tags of projects or of the administrators' devices, and a grant with a project as source leads only to
-- that project itself or to one of the relays, as long as no relay bears a tag of a project or a wildcard.
pub render-Isolated :
    (in_ : Input) → All IsRelayTag in_.relays → All (Isolated in_.relays) (render in_).grants
unfolding render
render-Isolated in_ h =
    let slugs : List Text = sort_strings in_.projects in
    let relays : List Relay = in_.relays in
    All-append (Isolated relays) (map mesh_grant slugs ++ ssh_grants slugs)
      (relay_grants relays slugs)
      (All-append (Isolated relays) (map mesh_grant slugs) (ssh_grants slugs)
        (All-mesh relays slugs) (All-ssh relays slugs))
      (All-relays relays slugs h)
