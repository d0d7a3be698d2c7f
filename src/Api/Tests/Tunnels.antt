-- ===== src/Api/Tests/Tunnels.antt =====
-- internal/api/tunnels.go at small inputs, on the tables of the tests beside this file.
use meshbridge.Base.{
  ◌^◌, ◌/◌, ◌≡◌, ◌≢◌, refl, Bool, true, false, Option, none, some, arith, if_elim, some_injective,
  subst,
}
use meshbridge.Base.Dict.{lookup}
use meshbridge.Base.Text.{Text, codes, text_eq, text_eq_iff, eq_text}
use meshbridge.Api.{AuthUser}
use meshbridge.Api.Action.{Ends}
use meshbridge.Api.Lists.{is_admin}
use meshbridge.Api.Tunnels.{Patch}
use meshbridge.Api.Tunnels.Bounds.{AllFit, Fit}
use meshbridge.Api.Tunnels.Connected.{Entitled, Attached, handle_tunnel_connect-Entitled}
use meshbridge.Api.Tunnels.Handlers.{Call, patch, serve_call, handle_tunnel_connect}
use meshbridge.Api.Tunnels.Sized.{serve_call-Fit}
use meshbridge.Api.Tunnels.Tenancy.{Stands, serve_call-Stands}
use meshbridge.Tunnel.{Tunnel}
use meshbridge.Tunnel.Agent.{target_ok, checked_address, is_loopback, no_error}
use meshbridge.Tunnel.Limits.{second}
use meshbridge.Base.Decimal.{ℤ, pos}
use meshbridge.Api.Tests.{plain, up, local_ip, web, device, home, ann, bob}
use meshbridge.Api.Tunnels.Settings.{NewSettings, sets, tunnel_settings, handle_settings_put}
use meshbridge.Api.Tunnels.Settings.Shown.{
  Partly, Shown, Between, sent, put_all, handle_settings_put-Shown,
}

abbrev nothing_new : Patch
nothing_new = record {
  name = some (codes "mine");
  status = none;
  target_scheme = none;
  target_host = none;
  target_port = none;
  strip_prefix = none;
  sandbox = none;
  monthly_quota_byte = none;
  max_request_bytes = none;
}

abbrev rename : Call
rename = patch (codes "t1") (some nothing_new)

differ : (a b : Text) → text_eq a b ≡ false → a ≢ b
differ a b h e = let same = (text_eq_iff a b).1 e in absurd (cc)

serve_call-Stands_example :
    Ends
      (Stands (codes "t1") web)
      (λ s'. lookup (codes "t1") s'.tunnels ≡ some web)
      (serve_call local_ip plain up bob 3 7 rename)
      home
unfolding lookup text_eq home
serve_call-Stands_example =
    serve_call-Stands local_ip plain up bob 3 7 rename home (codes "t1") web (
      differ (codes "user") (codes "admin") refl,
      refl,
      (device (codes "u1"), refl, differ (codes "u1") (codes "u2") refl),
    )

home-AllFit : AllFit local_ip home
unfolding lookup home
home-AllFit id t here =
    let fit : Fit local_ip web =
      unfold target_ok checked_address is_loopback no_error text_eq in
      (refl, omega arith, omega arith, omega arith) in
    if_elim (λ (o : Option Tunnel). o ≡ some t → Fit local_ip t) (text_eq (codes "t1") id)
      (λ _ h. subst (Fit local_ip) (some_injective h) fit) (λ _ h. absurd (cc)) here

serve_call-Fit_example :
    Ends (λ _. AllFit local_ip) (AllFit local_ip) (serve_call local_ip plain up ann 3 7 rename) home
serve_call-Fit_example = serve_call-Fit local_ip plain up ann 3 7 rename home home-AllFit

handle_tunnel_connect-Entitled_example :
    Ends
      (λ n s'.
        Entitled plain (codes "t1") (codes "Bearer x1") (second / second) home
        × (home.gateway.closing ≡ false)
        × (◌≡◌ {A = Bool} true true)
        × (n ≡ 4)
        × Attached up (codes "t1") 4 second home s')
      (λ s'. s'.gateway ≡ home.gateway)
      (handle_tunnel_connect plain up (codes "t1") (codes "Bearer x1") true true 4 second)
      home
handle_tunnel_connect-Entitled_example =
    handle_tunnel_connect-Entitled plain up (codes "t1") (codes "Bearer x1") true true 4 second home

abbrev root : AuthUser
root = record { id = codes "u9"; role = codes "admin" }

abbrev faster : NewSettings
faster = record { is_enabled = none; global_monthly_bytes = some (pos 5000); rate = some (pos 60) }

abbrev zero_on_error : Text → ℤ
zero_on_error t = pos 0

handle_settings_put-Shown_example :
    Ends
      (λ v s'.
        (r : NewSettings) × (some faster ≡ some r)
        × (is_admin root ≡ true)
        × Between 0 (2 ^ 40) r.global_monthly_bytes
        × Between 10 100000 r.rate
        × ((key : Text) → lookup key s'.settings ≡ lookup key (put_all (sets r) home.settings))
        × (up 4 ≡ true → Shown r (tunnel_settings zero_on_error true home) v))
      (Partly (sent (some faster)) home)
      (handle_settings_put zero_on_error up root (some faster))
      home
handle_settings_put-Shown_example =
    handle_settings_put-Shown zero_on_error up root (some faster) home
