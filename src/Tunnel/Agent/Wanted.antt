-- ===== src/Tunnel/Agent/Wanted.antt =====
-- internal/tunnel/agent.go: the connections after Reconcile, against the list it was given.
use meshbridge.Base.{
  ◌≡◌, ◌≢◌, ◌∙◌, refl, sym, ap, subst, Bool, true, false, ◌&&◌, Option, none, some, List, [], ◌∷◌,
  ◌==◌, if_elim, if◌then◌else◌, Bool-cases, inl, inr, arith,
}
use meshbridge.Base.Dict.{Dict, lookup, insert, lookup-insert, lookup-keep, Distinct}
use meshbridge.Base.Text.{Text, text_eq, text_eq_iff, eq_text}
use meshbridge.Tunnel.Agent.{
  Ip, AgentConfig, same_config, Client, acceptable, wanted, wants, stop_stale, start_one,
  start_missing, reconcile,
}

and_parts : (a b : Bool) → (a && b) ≡ true → (a ≡ true) × (b ≡ true)
and_parts true b h = (refl, h)
and_parts false b h = absurd (cc)

same_config_eq : (s t : AgentConfig) → same_config s t ≡ true → s ≡ t
unfolding same_config
same_config_eq s t h =
    let (rest, d) =
      and_parts (text_eq s.id t.id && text_eq s.scheme t.scheme && text_eq s.host t.host)
        (s.port == t.port) h in
    let (rest2, c) =
      and_parts (text_eq s.id t.id && text_eq s.scheme t.scheme) (text_eq s.host t.host) rest in
    let (a, b) = and_parts (text_eq s.id t.id) (text_eq s.scheme t.scheme) rest2 in
    let p : s.id ≡ t.id = (text_eq_iff s.id t.id).0 a in
    let q : s.scheme ≡ t.scheme = (text_eq_iff s.scheme t.scheme).0 b in
    let r : s.host ≡ t.host = (text_eq_iff s.host t.host).0 c in
    let n : s.port ≡ t.port = ground arith in
    λ i. record { id = p i; scheme = q i; host = r i; port = n i }

or_else {ℓ} : {A : Type ℓ} → Option A → Option A → Option A
or_else none b = b
or_else (some a) b = some a

or_else-none : (o : Option AgentConfig) → o ≡ or_else o none
unfolding or_else
or_else-none none = refl
or_else-none (some a) = refl

or_else-if :
    (o : Option AgentConfig) (b : Bool) (t : AgentConfig) (w : Option AgentConfig)
    → or_else (or_else o (if b then some t else none)) w ≡ or_else o (if b then some t else w)
unfolding or_else
or_else-if none true t w = refl
or_else-if none false t w = refl
or_else-if (some a) b t w = refl

start_one-lookup :
    (id j : Text) (t : AgentConfig) (c : Client) (o : Option AgentConfig)
    → lookup j c.conns ≡ o
    → lookup id (start_one j t c o).conns
      ≡ or_else (lookup id c.conns) (if text_eq j id then some t else none)
unfolding start_one or_else
start_one-lookup id j t c none h = elim (Bool-cases (text_eq j id)) [
  | inl same ↦
      let e : j ≡ id = (text_eq_iff j id).0 same in
      let fresh : lookup id c.conns ≡ none = subst (λ k. lookup k c.conns ≡ none) e h in
      rw (lookup-insert j id t c.conns, same, fresh) refl
  | inr differ ↦ rw (lookup-insert j id t c.conns, differ) (or_else-none (lookup id c.conns))
]
start_one-lookup id j t c (some r) h = elim (Bool-cases (text_eq j id)) [
  | inl same ↦
      let e : j ≡ id = (text_eq_iff j id).0 same in
      let running : lookup id c.conns ≡ some r = subst (λ k. lookup k c.conns ≡ some r) e h in
      rw running refl
  | inr differ ↦ rw differ (or_else-none (lookup id c.conns))
]

start_missing-lookup :
    (id : Text) (want : Dict Text AgentConfig) (c : Client)
    → lookup id (start_missing want c).conns ≡ or_else (lookup id c.conns) (lookup id want)
unfolding start_missing lookup
start_missing-lookup id [] c = or_else-none (lookup id c.conns)
start_missing-lookup id ((j, t) ∷ want) c =
    start_missing-lookup id want (start_one j t c (lookup j c.conns))
    ∙ ap (λ o. or_else o (lookup id want)) (start_one-lookup id j t c (lookup j c.conns) refl)
    ∙ or_else-if (lookup id c.conns) (text_eq j id) t (lookup id want)

kept_or_wanted :
    (running w : Option AgentConfig)
    → or_else (elim running [ none ↦ none | some t ↦ if wants w t then some t else none ]) w ≡ w
unfolding or_else wants
kept_or_wanted none w = refl
kept_or_wanted (some t) none = refl
kept_or_wanted (some t) (some v) = elim (Bool-cases (same_config v t)) [
  | inl same ↦ rw same (ap some (sym (same_config_eq v t same)))
  | inr differ ↦ rw differ refl
]

-- The connections of a client are those that the last list wanted, whatever ran before: stale ones
-- are gone, missing ones are there, and a changed target has replaced the old one.
pub reconcile-lookup :
    (parse_ip : Text → Option Ip) (allow : List (Ip → Bool)) (list : List AgentConfig) (c : Client)
    (id : Text)
    → Distinct c.conns
    → lookup id (reconcile parse_ip allow list c).conns ≡ lookup id (wanted parse_ip allow list [])
unfolding reconcile stop_stale
reconcile-lookup parse_ip allow list c id distinct =
    let want : Dict Text AgentConfig = wanted parse_ip allow list [] in
    start_missing-lookup id want (stop_stale want c)
    ∙ ap (λ o. or_else o (lookup id want))
        (lookup-keep (λ e. wants (lookup e.0 want) e.1) id c.conns distinct)
    ∙ kept_or_wanted (lookup id c.conns) (lookup id want)

value_or : AgentConfig → Option AgentConfig → AgentConfig
value_or other none = other
value_or other (some t) = t

option_injective : (other t u : AgentConfig) → some t ≡ some u → t ≡ u
unfolding value_or
option_injective other t u h = ap (value_or other) h

no_entry : (id : Text) (t : AgentConfig) → lookup {V = AgentConfig} id [] ≢ some t
unfolding lookup
no_entry id t h = absurd (cc)

module _ (parse_ip : Text → Option Ip) (allow : List (Ip → Bool)) where
  -- The entries under which targets that pass stand are those of their tunnels.
  abbrev pub Accepted : Dict Text AgentConfig → Type 0
  Accepted want =
      (id : Text) (t : AgentConfig)
      → lookup id want ≡ some t
      → (acceptable parse_ip allow t ≡ true) × (t.id ≡ id)

  insert-Accepted :
      (t : AgentConfig) (want : Dict Text AgentConfig)
      → acceptable parse_ip allow t ≡ true
      → Accepted want
      → Accepted (insert t.id t want)
  insert-Accepted t want passes ok id u h = elim (Bool-cases (text_eq t.id id)) [
    | inl same ↦
        let e : t.id ≡ id = (text_eq_iff t.id id).0 same in
        let found : lookup id (insert t.id t want) ≡ some t =
          rw (lookup-insert t.id id t want, same) refl in
        let v : t ≡ u = option_injective t t u (sym found ∙ h) in
        subst (λ w. (acceptable parse_ip allow w ≡ true) × (w.id ≡ id)) v (passes, e)
    | inr differ ↦ ok id u (
        sym (lookup-insert t.id id t want ∙ ap (λ b. if b then some t else lookup id want) differ)
        ∙ h)
  ]

  wanted-Accepted :
      (list : List AgentConfig) (want : Dict Text AgentConfig)
      → Accepted want
      → Accepted (wanted parse_ip allow list want)
  unfolding wanted
  wanted-Accepted [] want ok = ok
  wanted-Accepted (t ∷ list) want ok =
      if_elim Accepted (acceptable parse_ip allow t)
        (λ passes. wanted-Accepted list (insert t.id t want) (insert-Accepted t want passes ok))
        (λ _. wanted-Accepted list want ok)

  -- Whatever list the controller sends and whatever ran before, every connection that the agent
  -- keeps has a target that its own checks and its own dial policy accept.
  pub reconcile-acceptable :
      (list : List AgentConfig) (c : Client) (id : Text) (t : AgentConfig)
      → Distinct c.conns
      → lookup id (reconcile parse_ip allow list c).conns ≡ some t
      → (acceptable parse_ip allow t ≡ true) × (t.id ≡ id)
  reconcile-acceptable list c id t distinct h =
      wanted-Accepted list [] nothing id t
        (sym (reconcile-lookup parse_ip allow list c id distinct) ∙ h)
    where
      nothing : Accepted []
      nothing j u k = absurd (no_entry j u k)
