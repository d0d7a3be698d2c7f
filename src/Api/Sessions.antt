-- ===== src/Api/Sessions.antt =====
-- internal/api/api.go and project_sso.go: bearer tokens, the grants derived from them, and their
-- revocation with the cascades of the schema (migrations/005_platform_sso.sql, 007_project_sessions.sql).
pub mod Cascade
pub mod Revoked
use meshbridge.Base.{
  ℕ, zero, suc, ◌+◌, Bool, true, false, ◌&&◌, ◌||◌, Option, none, some, List, ◌==◌, ltb,
  if◌then◌else◌, keep, length, not, ◌≡◌, ap, ◌++◌,
}
use meshbridge.Base.Dict.{Dict, lookup, delete}
use meshbridge.Base.Text.{Text, codes, text_eq, eq_text, strip, strip-append}
use meshbridge.Api.{Server, User, ApiToken, SsoGrant, AuthUser}
use meshbridge.Api.Action.{Action, pure, gets, or_refuse, refuse_if, write_row, ◌>>=◌, ◌>>◌}

-- The two tables that refer to each other.
pub record Sessions : Type 0 where
  pub tokens : Dict Text ApiToken
  pub grants : Dict Text SsoGrant

unfoldable pub has {ℓ} : {V : Type ℓ} → Text → Dict Text V → Bool
has key table = elim (lookup key table) [ none ↦ false | some v ↦ true ]

-- A token that refers to no grant, or to one that is there.
unfoldable pub anchored : Dict Text SsoGrant → Option Text → Bool
unfolding has
anchored grants none = true
anchored grants (some g) = has g grants

-- ON DELETE CASCADE once over both tables.
unfoldable pub sweep : Sessions → Sessions
unfolding has anchored
sweep t =
    let grants = keep (λ (e : Text × SsoGrant). has e.1.parent_hash t.tokens) t.grants in
    record {
      tokens = keep (λ (e : Text × ApiToken). anchored grants e.1.grant_hash) t.tokens;
      grants = grants;
    }

abbrev pub rows : Sessions → ℕ
rows t = length t.tokens + length t.grants

unfoldable pub sweeps : ℕ → Sessions → Sessions
unfolding sweep
sweeps zero t = t
sweeps (suc fuel) t = sweeps fuel (sweep t)

-- Every round but the last deletes a row.
unfoldable pub cascade : Sessions → Sessions
unfolding sweeps
cascade t = sweeps (rows t) t

unfoldable pub sessions_of : Server → Sessions
sessions_of s = record { tokens = s.api_tokens; grants = s.sso_grants }

unfoldable pub with_sessions : Sessions → Server → Server
with_sessions t s = record s { api_tokens = t.tokens; sso_grants = t.grants }

-- DELETE FROM api_tokens WHERE token_hash=?
unfoldable pub delete_token : Text → Server → Server
unfolding cascade sessions_of with_sessions
delete_token hash s =
    with_sessions (cascade (record { tokens = delete hash s.api_tokens; grants = s.sso_grants })) s

-- DELETE FROM sso_grants WHERE token_hash=?
unfoldable pub delete_grant : Text → Server → Server
unfolding cascade sessions_of with_sessions
delete_grant hash s =
    with_sessions (cascade (record { tokens = s.api_tokens; grants = delete hash s.sso_grants })) s

unfoldable pub grant_of : Option ApiToken → Option Text
grant_of none = none
grant_of (some t) = t.grant_hash

unfoldable pub delete_derived : Option Text → Server → Server
unfolding delete_grant
delete_derived none s = s
delete_derived (some g) s = delete_grant g s

-- The rows of the join that authenticateBearer reads, and its conditions.
unfoldable pub live_user : ℕ → ApiToken → Option User → Option AuthUser
live_user now t none = none
live_user now t (some u) =
    if u.disabled == 0 && (t.expires_at == 0 || ltb now t.expires_at)
    then some (record { id = t.user_id; role = u.role })
    else none

unfoldable pub live_token : ℕ → Dict Text User → Option ApiToken → Option AuthUser
unfolding live_user
live_token now users none = none
live_token now users (some t) = live_user now t (lookup t.user_id users)

module _ (hash_token : Text → Text) where
  unfoldable pub hashed : Option Text → Option Text
  hashed none = none
  hashed (some raw) = some (hash_token raw)

  -- The hash of the token behind `Bearer `.
  unfoldable pub bearer_hash : Text → Option Text
  unfolding strip hashed
  bearer_hash header = hashed (strip (codes "Bearer ") header)

  pub bearer_hash_lem : (raw : Text) → bearer_hash (codes "Bearer " ++ raw) ≡ some (hash_token raw)
  unfolding bearer_hash hashed
  bearer_hash_lem raw = ap hashed (strip-append (codes "Bearer ") raw)

  unfoldable pub of_hash : Bool → ℕ → Option Text → Server → Option AuthUser
  unfolding live_token
  of_hash up now none s = none
  of_hash up now (some hash) s =
      if up then live_token now s.users (lookup hash s.api_tokens) else none

  -- `up` tells whether the database answers.
  unfoldable pub authenticate_bearer : Bool → ℕ → Text → Server → Option AuthUser
  unfolding bearer_hash of_hash
  authenticate_bearer up now header s = of_hash up now (bearer_hash header) s

  unfoldable pub require_auth :
      {A : Type 0} → Bool → ℕ → Text → (AuthUser → Action Server A) → Action Server A
  unfolding authenticate_bearer
  require_auth up now header next = do
    me ← gets (authenticate_bearer up now header)
    user ← or_refuse me 401 (codes "unauthorized")
    next user

  unfoldable pub require_admin_token : Bool → ℕ → Text → Action Server AuthUser
  unfolding authenticate_bearer text_eq
  require_admin_token up now header = do
    me ← gets (authenticate_bearer up now header)
    user ← or_refuse me 401 (codes "unauthorized")
    refuse_if (not (text_eq user.role (codes "admin"))) 403 (codes "forbidden")
    pure user

  unfoldable pub revoke : (ℕ → Bool) → Option Text → Action Server Unit
  unfolding delete_derived grant_of delete_token
  revoke up none = pure tt
  revoke up (some hash) = do
    write_row (up 0) (λ s. delete_derived (grant_of (lookup hash s.api_tokens)) s) 503
        (codes "unavailable")
    write_row (up 1) (delete_token hash) 503 (codes "unavailable")
    pure tt

  unfoldable pub handle_logout : (ℕ → Bool) → Text → Text → Action Server Unit
  unfolding text_eq bearer_hash revoke
  handle_logout up method header = do
    refuse_if (not (text_eq method (codes "POST") || text_eq method (codes "DELETE"))) 405
        (codes "method")
    revoke up (bearer_hash header)
