-- ===== src/Tunnel/Agent/Restarts.antt =====
-- internal/tunnel/agent.go: which connections Reconcile cancels and which it starts.
use meshbridge.Base.{
  ◌≡◌, ◌∙◌, refl, sym, ap, subst, Bool, true, false, ◌||◌, not, Option, none, some, List, [], ◌∷◌,
  ◌++◌, map, keep, any, All, All-append, if_elim, if◌then◌else◌, Bool-cases, inl, inr, arith,
}
use meshbridge.Base.Dict.{
  Dict, lookup, insert, lookup-insert, lookup-keep, insert-Distinct, Distinct,
}
use meshbridge.Base.Text.{Text, text_eq, text_eq_iff, eq_text}
use meshbridge.Tunnel.Agent.{
  Ip, AgentConfig, same_config, Client, acceptable, wanted, wants, stop_stale, start_one,
  start_missing, reconcile,
}
use meshbridge.Tunnel.Agent.Wanted.{reconcile-lookup}

-- What runs, against what is wanted: a connection is stale when nothing or another target is wanted.
abbrev pub is_stale : Option AgentConfig → Option AgentConfig → Bool
is_stale none w = false
is_stale (some t) none = true
is_stale (some t) (some w) = not (same_config w t)

-- A wanted tunnel is missing when nothing or another target runs.
abbrev pub missing : Option AgentConfig → Option AgentConfig → Bool
missing o none = false
missing none (some w) = true
missing (some t) (some w) = not (same_config w t)

abbrev pub has_id : Text → List AgentConfig → Bool
has_id id ts = any (λ t. text_eq id t.id) ts

-- exactly the stale connections are cancelled, and exactly the missing tunnels are started, with the
-- wanted targets; afterwards the connections are the wanted ones.
abbrev pub Switched : Dict Text AgentConfig → Client → Client → Type 0
Switched want c c' =
    ((id : Text) → lookup id c'.conns ≡ lookup id want)
    × ((stopped : List Text) × (c'.cancelled ≡ stopped ++ c.cancelled)
        × ((id : Text) → any (text_eq id) stopped ≡ is_stale (lookup id c.conns) (lookup id want)))
    × ((started : List AgentConfig) × (c'.opened ≡ started ++ c.opened)
        × ((id : Text) → has_id id started ≡ missing (lookup id c.conns) (lookup id want))
        × All (λ t. lookup t.id want ≡ some t) started)

any_kept :
    (p : Text × AgentConfig → Bool) (id : Text) (m : Dict Text AgentConfig)
    → Distinct m
    → any (text_eq id) (map (λ e. e.0) (keep p m))
      ≡ elim (lookup id m) [ none ↦ false | some t ↦ p (id, t) ]
unfolding lookup
any_kept p id [] d = refl
any_kept p id ((j, w) ∷ m) d = elim (Bool-cases (text_eq j id)) [
  | inl same ↦
      let e : j ≡ id = (text_eq_iff j id).0 same in
      let absent : lookup id m ≡ none = subst (λ k. lookup k m ≡ none) e d.0 in
      let value : p (j, w) ≡ p (id, w) = ap (λ k. p (k, w)) e in
      ground (arith, any_kept p id m d.1, text_eq_iff id j)
  | inr differ ↦ ground (arith, any_kept p id m d.1, text_eq_iff id j, text_eq_iff j id)
]

is_stale_lem :
    (o w : Option AgentConfig) → elim o [ none ↦ false | some t ↦ not (wants w t) ] ≡ is_stale o w
unfolding wants
is_stale_lem none w = refl
is_stale_lem (some t) none = refl
is_stale_lem (some t) (some w) = refl

start_one-cancelled :
    (j : Text) (t : AgentConfig) (c : Client) (o : Option AgentConfig)
    → (start_one j t c o).cancelled ≡ c.cancelled
unfolding start_one
start_one-cancelled j t c none = refl
start_one-cancelled j t c (some r) = refl

start_missing-cancelled :
    (want : Dict Text AgentConfig) (c : Client) → (start_missing want c).cancelled ≡ c.cancelled
unfolding start_missing
start_missing-cancelled [] c = refl
start_missing-cancelled ((j, t) ∷ want) c =
    start_missing-cancelled want (start_one j t c (lookup j c.conns))
    ∙ start_one-cancelled j t c (lookup j c.conns)

-- A tunnel that does not run and is wanted.
abbrev fresh : Option AgentConfig → Option AgentConfig → Bool
fresh none (some w) = true
fresh none none = false
fresh (some t) w = false

fresh-missing :
    (o w : Option AgentConfig)
    → fresh (elim o [ none ↦ none | some t ↦ if wants w t then some t else none ]) w ≡ missing o w
unfolding wants
fresh-missing none none = refl
fresh-missing none (some w) = refl
fresh-missing (some t) none = refl
fresh-missing (some t) (some w) = ground arith

no_fresh : (o : Option AgentConfig) → false ≡ fresh o none
no_fresh none = refl
no_fresh (some t) = refl

-- Each entry stands under the tunnel of its target.
abbrev Keyed : Dict Text AgentConfig → Type 0
Keyed want = All (λ (e : Text × AgentConfig). e.1.id ≡ e.0) want

any-append :
    (p : AgentConfig → Bool) (xs ys : List AgentConfig) → any p (xs ++ ys) ≡ any p xs || any p ys
any-append p [] ys = refl
any-append p (x ∷ xs) ys = ground (arith, any-append p xs ys)

append_assoc : (xs ys zs : List AgentConfig) → xs ++ (ys ++ zs) ≡ (xs ++ ys) ++ zs
append_assoc [] ys zs = refl
append_assoc (x ∷ xs) ys zs = ap (λ r. x ∷ r) (append_assoc xs ys zs)

behind :
    (j : Text) (t : AgentConfig) (want : Dict Text AgentConfig) (ts : List AgentConfig)
    → lookup j want ≡ none
    → All (λ u. lookup u.id want ≡ some u) ts
    → All (λ u. lookup u.id ((j, t) ∷ want) ≡ some u) ts
unfolding lookup
behind j t want [] new h = tt
behind j t want (u ∷ ts) new (first, h) =
    (ground (arith, text_eq_iff j u.id), behind j t want ts new h)

abbrev Started : Dict Text AgentConfig → Client → Client → Type 0
Started want c c' =
    (started : List AgentConfig) × (c'.opened ≡ started ++ c.opened)
    × ((id : Text) → has_id id started ≡ fresh (lookup id c.conns) (lookup id want))
    × All (λ t. lookup t.id want ≡ some t) started

one_more :
    (j : Text) (t : AgentConfig) (want : Dict Text AgentConfig) (c c2 : Client)
    (o : Option AgentConfig)
    → lookup j c.conns ≡ o
    → t.id ≡ j
    → lookup j want ≡ none
    → Started want (start_one j t c o) c2
    → Started ((j, t) ∷ want) c c2
unfolding start_one lookup
one_more j t want c c2 none gone named new (started, is, ids, rows) = (
  started ++ t ∷ [],
  is ∙ append_assoc started (t ∷ []) c.opened,
  (λ id. elim (Bool-cases (text_eq j id)) [
    | inl same ↦
        let e : j ≡ id = (text_eq_iff j id).0 same in
        let absent : lookup id c.conns ≡ none = subst (λ k. lookup k c.conns ≡ none) e gone in
        let own : text_eq id t.id ≡ true = (text_eq_iff id t.id).1 (sym (named ∙ e)) in
        rw (any-append (λ u. text_eq id u.id) started (t ∷ []), own, absent, same) (ground arith)
    | inr differ ↦
        let other : text_eq id t.id ≡ false =
          ground (arith, text_eq_iff id t.id, text_eq_iff j id) in
        let before : has_id id started ≡ fresh (lookup id c.conns) (lookup id want) =
          ids id
          ∙ ap (λ l. fresh l (lookup id want)) (lookup-insert j id t c.conns ∙ rw differ refl) in
        rw (any-append (λ u. text_eq id u.id) started (t ∷ []), other, differ) (ground arith)
  ]),
  All-append (λ u. lookup u.id ((j, t) ∷ want) ≡ some u) started (t ∷ [])
      (behind j t want started new rows) (ground (arith, text_eq_iff j t.id), tt),
)
one_more j t want c c2 (some r) runs named new (started, is, ids, rows) = (
  started,
  is,
  (λ id. elim (Bool-cases (text_eq j id)) [
    | inl same ↦
        let e : j ≡ id = (text_eq_iff j id).0 same in
        let there : lookup id c.conns ≡ some r = subst (λ k. lookup k c.conns ≡ some r) e runs in
        ids id ∙ rw (same, there) refl
    | inr differ ↦ rw differ (ids id)
  ]),
  behind j t want started new rows,
)

start_missing-Started :
    (want : Dict Text AgentConfig) (c : Client)
    → Keyed want
    → Distinct want
    → Started want c (start_missing want c)
unfolding start_missing lookup
start_missing-Started [] c k d = ([], refl, (λ id. no_fresh (lookup id c.conns)), tt)
start_missing-Started ((j, t) ∷ want) c (named, k) (new, d) =
    one_more j t want c (start_missing want (start_one j t c (lookup j c.conns))) (lookup j c.conns)
      refl named new (start_missing-Started want (start_one j t c (lookup j c.conns)) k d)

insert-Keyed :
    (t : AgentConfig) (want : Dict Text AgentConfig) → Keyed want → Keyed (insert t.id t want)
unfolding insert
insert-Keyed t [] k = (refl, tt)
insert-Keyed t ((j, w) ∷ want) (named, k) =
    if_elim Keyed (text_eq j t.id) (λ _. (refl, k)) (λ _. (named, insert-Keyed t want k))

module _ (parse_ip : Text → Option Ip) (allow : List (Ip → Bool)) where
  wanted-Keyed :
      (list : List AgentConfig) (want : Dict Text AgentConfig)
      → Keyed want × Distinct want
      → Keyed (wanted parse_ip allow list want) × Distinct (wanted parse_ip allow list want)
  unfolding wanted
  wanted-Keyed [] want h = h
  wanted-Keyed (t ∷ list) want h =
      if_elim (λ (w : Dict Text AgentConfig). Keyed w × Distinct w) (acceptable parse_ip allow t)
        (λ _.
          wanted-Keyed list (insert t.id t want)
            (insert-Keyed t want h.0, insert-Distinct t.id t want h.1))
        (λ _. wanted-Keyed list want h)

  -- Whatever ran before, Reconcile cancels exactly the connections of tunnels that are not wanted any
  -- more or are wanted with another target, and starts exactly the wanted tunnels that do not run with
  -- the wanted target; no other is cancelled or started, and afterwards the connections it keeps are the
  -- wanted ones. A client has one connection for each tunnel.
  pub reconcile-Switched :
      (list : List AgentConfig) (c : Client)
      → Distinct c.conns
      → Switched (wanted parse_ip allow list []) c (reconcile parse_ip allow list c)
  unfolding reconcile stop_stale
  reconcile-Switched list c distinct =
      let want : Dict Text AgentConfig = wanted parse_ip allow list [] in
      let (keyed, once) = wanted-Keyed list [] (tt, tt) in
      let kept = stop_stale want c in
      let (started, is, ids, rows) = start_missing-Started want kept keyed once in
      (
        (λ id. reconcile-lookup parse_ip allow list c id distinct),
        (
          map (λ e. e.0) (keep (λ e. not (wants (lookup e.0 want) e.1)) c.conns),
          start_missing-cancelled want kept,
          λ id.
              any_kept (λ e. not (wants (lookup e.0 want) e.1)) id c.conns distinct
              ∙ is_stale_lem (lookup id c.conns) (lookup id want),
        ),
        (
          started,
          is,
          (λ id.
              ids id
              ∙ ap (λ o. fresh o (lookup id want))
                  (lookup-keep (λ e. wants (lookup e.0 want) e.1) id c.conns distinct)
              ∙ fresh-missing (lookup id c.conns) (lookup id want)),
          rows,
        ),
      )
