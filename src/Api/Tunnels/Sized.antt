-- ===== src/Api/Tunnels/Sized.antt =====
-- internal/api/tunnels.go: the bounds of every row of the table.
use meshbridge.Base.{
  ℕ, ◌≡◌, Bool, true, false, Option, some, arith, sym, subst, ◌∙◌, some_injective,
}
use meshbridge.Base.Dict.{lookup}
use meshbridge.Base.Text.{Text, eq_text}
use meshbridge.Api.{Server, AuthUser, log, new_id}
use meshbridge.Api.Action.{
  Ends, then_step, gets_step, refuse_step, or_refuse_step, write_step, exec_step, modify_step,
  try_step, pure_end, refuse_end, gets_end,
}
use meshbridge.Api.Tunnels.{
  update_tunnel, on_gateway, Drain, Drawn, NewTunnel, Patch, patched, new_key,
}
use meshbridge.Api.Tunnels.Handlers.{
  Call, create, patch, remove, rotate_key, serve_call, handle_rotate_key, handle_tunnel_delete,
  delete_row, handle_tunnel_patch, handle_tunnels_create,
}
use meshbridge.Api.Tunnels.Bounds.{
  Fit, AllFit, insert-AllFit, update-AllFit, delete-AllFit, forgotten-AllFit, loaded_row,
  patched-Fit, tunnel_row-Fit,
}
use meshbridge.Tunnel.{Tunnel}
use meshbridge.Tunnel.Agent.{Ip}
use meshbridge.Tunnel.Gateway.{reset_proxy}

module _ (parse_ip : Text → Option Ip) where
  module _ (me : AuthUser) (s : Server) (all : AllFit parse_ip s) where
    rotate_key-Fit :
        (up : ℕ → Bool) (j : Text) (drawn : Drawn) (now : ℕ)
        → Ends (λ _. (AllFit parse_ip)) (AllFit parse_ip) (handle_rotate_key up me j drawn now) s
    unfolding handle_rotate_key log new_key
    rotate_key-Fit up j drawn now = gets_step (
        or_refuse_step all (λ t loaded. gets_step (
          refuse_step all (λ mine.
            let still = update-AllFit parse_ip j (new_key drawn.key_hash now) s (all j) all in
            write_step all (try_step (pure_end still) (pure_end still))))))

    delete_row-Fit :
        (ran logged : Bool) (j : Text) (t : Tunnel) (s1 : Server)
        → AllFit parse_ip s1
        → Ends (λ _. (AllFit parse_ip)) (AllFit parse_ip) (delete_row ran logged me j t) s1
    unfolding delete_row log on_gateway
    delete_row-Fit false logged j t s1 all1 = modify_step (refuse_end all1)
    delete_row-Fit true logged j t s1 all1 =
        let still = delete-AllFit parse_ip j s1 all1 in
        modify_step (try_step (modify_step (pure_end still)) (modify_step (pure_end still)))

    delete-Fit :
        (up : ℕ → Bool) (j : Text) (drain : Drain)
        → Ends (λ _. (AllFit parse_ip)) (AllFit parse_ip) (handle_tunnel_delete up me j drain) s
    unfolding handle_tunnel_delete on_gateway
    delete-Fit up j drain = gets_step (
        or_refuse_step all (λ t loaded. gets_step (
          refuse_step all (λ mine.
            modify_step
              (modify_step (refuse_step all (λ _. delete_row-Fit (up 2) (up 3) j t _ all)))))))

    patch-Fit :
        (up : ℕ → Bool) (j : Text) (body : Option Patch) (now : ℕ)
        → Ends
            (λ _. (AllFit parse_ip))
            (AllFit parse_ip)
            (handle_tunnel_patch parse_ip up me j body now)
            s
    unfolding handle_tunnel_patch log on_gateway
    patch-Fit up j body now = gets_step (
        or_refuse_step all (λ t loaded. gets_step (
          refuse_step all (λ mine. or_refuse_step all (λ p asked. refuse_step all (λ target.
            refuse_step all (λ name. refuse_step all (λ quota. refuse_step all (λ request.
              or_refuse_step all (λ status _. write_step all (
                modify_step (
                  modify_step (
                    let row = loaded_row (up 0) j s t loaded in
                    let fit : (u : Tunnel)
                        → lookup j s.tunnels ≡ some u
                        → Fit parse_ip (patched p status now t u) =
                      λ u found.
                        subst (λ v. Fit parse_ip (patched p status now t v))
                          (some_injective (sym row ∙ found))
                          (patched-Fit parse_ip p status now t (all j t row) (ground arith) name
                            quota request) in
                    let still = update-AllFit parse_ip j (patched p status now t) s fit all in
                    let kept =
                      forgotten-AllFit parse_ip status j
                        (on_gateway (λ g. reset_proxy g j)
                          (update_tunnel j (patched p status now t) s))
                        still in
                    try_step (gets_end kept) (gets_end kept))))))))))))))

    create-Fit :
        (hash_token : Text → Text) (up : ℕ → Bool) (body : Option NewTunnel) (drawn : Drawn)
        (nano now : ℕ)
        → Ends
            (λ _. (AllFit parse_ip))
            (AllFit parse_ip)
            (handle_tunnels_create parse_ip hash_token up me body drawn nano now)
            s
    unfolding handle_tunnels_create log
    create-Fit hash_token up body drawn nano now = or_refuse_step all (λ n asked. gets_step (
        refuse_step all (λ mine. refuse_step all (λ target. refuse_step all (λ name.
          refuse_step all (λ quota. refuse_step all (λ request. exec_step all (λ s' stored.
            let fit =
              tunnel_row-Fit parse_ip (new_id hash_token n.device_id nano) n drawn me now
                (ground arith) name quota request in
            let still = insert-AllFit parse_ip _ s s' fit all stored in
            try_step (gets_step (pure_end still)) (gets_step (pure_end still))))))))))

  -- Whatever is sent to the tunnels' API, and however it ends, every row keeps a target that TargetOK
  -- accepts, a name of at most 64 bytes, a quota of at most 2^40 bytes and requests of at most 2^30.
  pub serve_call-Fit :
      (hash_token : Text → Text) (up : ℕ → Bool) (me : AuthUser) (nano now : ℕ) (call : Call)
      (s : Server)
      → AllFit parse_ip s
      → Ends
          (λ _. (AllFit parse_ip))
          (AllFit parse_ip)
          (serve_call parse_ip hash_token up me nano now call)
          s
  unfolding serve_call
  serve_call-Fit hash_token up me nano now (create body drawn) s all =
      then_step (create-Fit me s all hash_token up body drawn nano now) (λ _ s' h. pure_end h)
  serve_call-Fit hash_token up me nano now (patch j body) s all =
      then_step (patch-Fit me s all up j body now) (λ _ s' h. pure_end h)
  serve_call-Fit hash_token up me nano now (remove j drain) s all = delete-Fit me s all up j drain
  serve_call-Fit hash_token up me nano now (rotate_key j drawn) s all =
      then_step (rotate_key-Fit me s all up j drawn now) (λ _ s' h. pure_end h)
