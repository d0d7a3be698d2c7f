-- ===== src/Api/Sessions/Revoked.antt =====
-- internal/api/api.go and project_sso.go: signing out.
use meshbridge.Base.{ℕ, ◌≡◌, refl, Bool, true, none, some, subst, sym}
use meshbridge.Base.Dict.{lookup, delete, lookup-delete_self}
use meshbridge.Base.Text.{Text, eq_text}
use meshbridge.Api.{Server, ApiToken}
use meshbridge.Api.Action.{Ends, write_step, pure_end, refuse_step, weaken}
use meshbridge.Api.Sessions.{
  Sessions, cascade, sessions_of, with_sessions, delete_token, delete_derived, grant_of, live_token,
  of_hash, bearer_hash, authenticate_bearer, revoke, handle_logout,
}
use meshbridge.Api.Sessions.Cascade.{Founded, Integral-Founded, cascade-Integral, cascade_absent}

-- The token is gone, and no session is left that it, or a missing grant, would stand under.
abbrev pub Revoked : Text → Server → Type 0
Revoked hash s =
    (lookup hash s.api_tokens ≡ none)
    × ((k : Text) (v : ApiToken)
        → lookup k s.api_tokens ≡ some v
        → Founded (sessions_of s) v.grant_hash)

delete_token-Revoked : (hash : Text) (s : Server) → Revoked hash (delete_token hash s)
unfolding delete_token sessions_of with_sessions
delete_token-Revoked hash s =
    let t : Sessions = record { tokens = delete hash s.api_tokens; grants = s.sso_grants } in
    (
      cascade_absent t hash (lookup-delete_self hash s.api_tokens),
      λ k v. Integral-Founded (cascade t) k v (cascade-Integral t),
    )

module _ (hash_token : Text → Text) where
  revoke-Revoked :
      (up : ℕ → Bool) (hash : Text) (s : Server)
      → Ends (λ _. Revoked hash) (λ _. Unit) (revoke hash_token up (some hash)) s
  unfolding revoke
  revoke-Revoked up hash s = write_step tt (
      let s1 = delete_derived (grant_of (lookup hash s.api_tokens)) s in
      write_step tt (pure_end (delete_token-Revoked hash s1)))

  of_revoked :
      (now : ℕ) (hash : Text) (s : Server)
      → lookup hash s.api_tokens ≡ none
      → of_hash hash_token true now (some hash) s ≡ none
  unfolding of_hash live_token
  of_revoked now hash s missing = rw missing refl

  -- After a sign-out that is answered, the token that signed out authenticates nobody, and every session
  -- that is left and was derived from a grant has that grant and its parent token: none is left that
  -- stands on the revoked one.
  pub handle_logout-Revoked :
      (up : ℕ → Bool) (method header hash : Text) (s : Server)
      → bearer_hash hash_token header ≡ some hash
      → Ends
          (λ _ s'.
            Revoked hash s'
            × ((now : ℕ) → authenticate_bearer hash_token true now header s' ≡ none))
          (λ _. Unit)
          (handle_logout hash_token up method header)
          s
  unfolding handle_logout authenticate_bearer
  handle_logout-Revoked up method header hash s h = refuse_step tt (λ allowed.
      subst
        (λ o.
          Ends (λ _ s'. Revoked hash s' × ((now : ℕ) → of_hash hash_token true now o s' ≡ none))
            (λ _. Unit) (revoke hash_token up o) s)
        (sym h)
        (weaken (revoke-Revoked up hash s)
          (λ _ s' gone_now. (gone_now, λ now. of_revoked now hash s' gone_now.0)) (λ _ _. tt)))
