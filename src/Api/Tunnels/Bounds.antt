-- ===== src/Api/Tunnels/Bounds.antt =====
-- internal/api/tunnels.go: the bounds of a row, and what the statements do to them.
use meshbridge.Base.{
  ℕ, ◌≡◌, ◌≤◌, Bool, true, false, Option, none, some, arith, subst, length, Option-cases,
  Bool-cases, inl, inr, ltb, some_injective, if_elim,
}
use meshbridge.Base.Decimal.{ℤ, pos, negsuc}
use meshbridge.Base.Dict.{lookup, lookup-insert, lookup-delete}
use meshbridge.Base.Text.{Text, codes, text_eq, eq_text}
use meshbridge.Api.{Server, AuthUser, new_row}
use meshbridge.Api.Tunnels.{
  load_tunnel, update_tunnel, insert_tunnel, delete_tunnel, on_gateway, Drawn, NewTunnel, Patch,
  patched, forget_disabled, tunnel_row, out_of_range, bad_number, too_long, to_nat, number_or,
  value, or_default, most_quota, most_request, default_quota, default_request, or_text,
}
use meshbridge.Tunnel.{Tunnel}
use meshbridge.Tunnel.Agent.{Ip, target_ok, no_error}

pub loaded_row :
    (up : Bool) (j : Text) (s : Server) (t : Tunnel)
    → load_tunnel up j s ≡ some t
    → lookup j s.tunnels ≡ some t
unfolding load_tunnel
loaded_row up j s t h = ground arith

module _ (parse_ip : Text → Option Ip) where
  -- A target that TargetOK accepts, and a name, a quota and a size of requests within their bounds.
  abbrev pub Fit : Tunnel → Type 0
  Fit t =
      (no_error parse_ip (target_ok parse_ip t.target_scheme t.target_host t.target_port) ≡ true)
      × (length t.name ≤ 64)
      × (t.monthly_quota_byte ≤ most_quota)
      × (t.max_request_bytes ≤ most_request)

  abbrev pub AllFit : Server → Type 0
  AllFit s = (id : Text) (t : Tunnel) → lookup id s.tunnels ≡ some t → Fit t

  in_range : (most : ℕ) (n : ℤ) → out_of_range most n ≡ false → to_nat n ≤ most
  unfolding out_of_range to_nat
  in_range most (pos n) h = ground arith
  in_range most (negsuc n) h = absurd (cc)

  number_bound :
      (most n : ℕ) (o : Option ℤ) → n ≤ most → bad_number most o ≡ false → number_or n o ≤ most
  unfolding bad_number number_or
  number_bound most n none h good = h
  number_bound most n (some v) h good = in_range most v good

  name_bound :
      (name : Text) (o : Option Text)
      → length name ≤ 64
      → too_long o ≡ false
      → length (value name o) ≤ 64
  unfolding too_long value
  name_bound name none h good = h
  name_bound name (some new) h good = ground arith

  default_bound : (most other n : ℕ) → n ≤ most → other ≤ most → or_default other n ≤ most
  unfolding or_default
  default_bound most other n h o = ground arith

  pub insert-AllFit :
      (row : Tunnel) (s s' : Server)
      → Fit row
      → AllFit s
      → insert_tunnel row s ≡ some s'
      → AllFit s'
  unfolding insert_tunnel new_row
  insert-AllFit row s s' fit all h id t here = elim (Option-cases (lookup row.id s.tunnels)) [
    | inl free ↦ elim (Bool-cases (text_eq row.id id)) [
      | inl same ↦
          let equal : row ≡ t =
            some_injective (ground (arith, lookup-insert row.id id row s.tunnels)) in
          subst Fit equal fit
      | inr other ↦ all id t (ground (arith, lookup-insert row.id id row s.tunnels))
    ]
    | inr (u, taken) ↦ absurd (ground arith)
  ]

  pub update-AllFit :
      (j : Text) (f : Tunnel → Tunnel) (s : Server)
      → ((u : Tunnel) → lookup j s.tunnels ≡ some u → Fit (f u))
      → AllFit s
      → AllFit (update_tunnel j f s)
  unfolding update_tunnel
  update-AllFit j f s fit all id t here = elim (Option-cases (lookup j s.tunnels)) [
    | inl missing ↦ all id t (ground arith)
    | inr (u, found) ↦ elim (Bool-cases (text_eq j id)) [
      | inl same ↦
          let equal : f u ≡ t =
            some_injective (ground (arith, lookup-insert j id (f u) s.tunnels)) in
          subst Fit equal (fit u found)
      | inr other ↦ all id t (ground (arith, lookup-insert j id (f u) s.tunnels))
    ]
  ]

  pub delete-AllFit : (j : Text) (s : Server) → AllFit s → AllFit (delete_tunnel j s)
  unfolding delete_tunnel
  delete-AllFit j s all id t here = all id t (ground (arith, lookup-delete j id s.tunnels))

  pub forgotten-AllFit :
      (status j : Text) (s : Server) → AllFit s → AllFit (forget_disabled status j s)
  unfolding forget_disabled on_gateway
  forgotten-AllFit status j s all =
      if_elim AllFit (text_eq status (codes "disabled")) (λ _. all) (λ _. all)

  pub patched-Fit :
      (p : Patch) (status : Text) (now : ℕ) (t : Tunnel)
      → Fit t
      → no_error parse_ip (
          target_ok parse_ip
            (value t.target_scheme p.target_scheme)
            (value t.target_host p.target_host)
            (number_or t.target_port p.target_port))
        ≡ true
      → too_long p.name ≡ false
      → bad_number most_quota p.monthly_quota_byte ≡ false
      → bad_number most_request p.max_request_bytes ≡ false
      → Fit (patched p status now t t)
  unfolding patched
  patched-Fit p status now t (_, name, quota, request) target good_name good_quota good_request = (
    target,
    name_bound t.name p.name name good_name,
    number_bound most_quota t.monthly_quota_byte p.monthly_quota_byte quota good_quota,
    number_bound most_request t.max_request_bytes p.max_request_bytes request good_request,
  )

  pub tunnel_row-Fit :
      (id : Text) (n : NewTunnel) (drawn : Drawn) (me : AuthUser) (now : ℕ)
      → no_error parse_ip (
          target_ok parse_ip
            (or_text (codes "http") n.target_scheme)
            (or_text (codes "127.0.0.1") n.target_host)
            (to_nat n.target_port))
        ≡ true
      → ltb 64 (length n.name) ≡ false
      → out_of_range most_quota n.monthly_quota_byte ≡ false
      → out_of_range most_request n.max_request_bytes ≡ false
      → Fit (tunnel_row id n drawn me now)
  unfolding tunnel_row
  tunnel_row-Fit id n drawn me now target name quota request = (
    target,
    ground arith,
    default_bound most_quota default_quota (to_nat n.monthly_quota_byte)
        (in_range most_quota n.monthly_quota_byte quota) (omega arith),
    default_bound most_request default_request (to_nat n.max_request_bytes)
        (in_range most_request n.max_request_bytes request) (omega arith),
  )
