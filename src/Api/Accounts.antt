-- ===== src/Api/Accounts.antt =====
-- internal/api/setup.go: sending codes, resetting a password, and the switch for registration. The hash
-- of a new password comes from a library: `hash_password` is HashPasswordContext for this request, which
-- may fail.
pub mod Rotated
use meshbridge.Base.{
  ℕ, Bool, true, false, ◌&&◌, ◌||◌, not, Option, none, some, List, [], ◌∷◌, leb, if◌then◌else◌,
  length, any, keep,
}
use meshbridge.Base.Dict.{Dict, lookup, insert}
use meshbridge.Base.Text.{Text, codes, text_eq, eq_text, to_lower, trim_space}
use meshbridge.Api.{Server, User, ApiToken, AuthUser, log}
use meshbridge.Api.Action.{
  Action, pure, gets, or_refuse, refuse_if, refuse, modify, write_row, try, ◌>>=◌, ◌>>◌,
}
use meshbridge.Api.Login.{is_email}
use meshbridge.Api.Sessions.{Sessions, cascade, with_sessions, require_admin_token}
use meshbridge.Mail.{
  Mailbox, Knobs, Sending, sent, please_wait, system_busy, day_over, check_code, send_code,
}

unfoldable pub password_ok : Text → Bool
password_ok p = leb 12 (length p) && leb (length p) 128

unfoldable pub clean_email : Text → Text
unfolding to_lower trim_space
clean_email email = trim_space (to_lower email)

-- WHERE email=?
unfoldable pub find_email : Text → Dict Text User → Option Text
unfolding is_email
find_email email [] = none
find_email email ((id, u) ∷ users) =
    let rest = find_email email users in if is_email email u.email then some id else rest

unfoldable pub account_of_email : Bool → Text → Server → Option Text
unfolding find_email
account_of_email up email s = if up then find_email email s.users else none

unfoldable pub set_password : Text → Text → Server → Server
set_password id hash s = record s {
  users = elim (lookup id s.users) [
    | none ↦ s.users
    | some u ↦ insert id (record u { password_hash = hash }) s.users
  ];
}

-- DELETE FROM api_tokens WHERE user_id=?
unfoldable pub delete_tokens_of : Text → Server → Server
unfolding cascade with_sessions text_eq
delete_tokens_of id s =
    with_sessions
      (cascade (record {
        tokens = keep (λ (e : Text × ApiToken). not (text_eq e.1.user_id id)) s.api_tokens;
        grants = s.sso_grants;
      }))
      s

unfoldable pub set_mailbox : Mailbox → Server → Server
set_mailbox m s = record s { mailbox = m }

pub record ResetRequest : Type 0 where
  pub email : Text
  pub code : Text
  pub new_password : Text

-- What SendCode's errors become: those that ask to wait, and all others.
unfoldable pub sending_code : Sending → ℕ
sending_code please_wait = 429
sending_code system_busy = 429
sending_code day_over = 429
sending_code _ = 502

unfoldable pub sending_kind : Sending → Text
sending_kind please_wait = codes "rate_limited"
sending_kind system_busy = codes "rate_limited"
sending_kind day_over = codes "rate_limited"
sending_kind _ = codes "mail_send_failed"

unfoldable pub answered : Sending → Action Server ℕ
unfolding sending_code sending_kind
answered (sent seconds) = pure seconds
answered other = refuse (sending_code other) (sending_kind other)

-- What a purpose asks for before a code is sent.
pub data PurposeGate : Type 0 where
  closed : ℕ → Text → PurposeGate
  silent : PurposeGate
  opened : PurposeGate

unfoldable pub has_admin : Server → Bool
unfolding text_eq
has_admin s = any (λ (e : Text × User). text_eq e.1.role (codes "admin")) s.users

unfoldable pub registration_open : Option Text → Bool
unfolding text_eq
registration_open none = true
registration_open (some []) = true
registration_open (some (c ∷ v)) = text_eq (c ∷ v) (codes "1")

-- A query that fails counts as none: no administrator, registration allowed, no such account.
unfoldable pub purpose_gate : Bool → Text → Text → Server → PurposeGate
unfolding text_eq has_admin registration_open is_email
purpose_gate up purpose email s =
    if text_eq purpose (codes "setup")
    then (if up && has_admin s then closed 403 (codes "forbidden") else opened)
    else if text_eq purpose (codes "register")
    then (if registration_open (if up then lookup (codes "allow_registration") s.settings else none)
        then opened
        else closed 403 (codes "forbidden"))
    else if text_eq purpose (codes "reset")
    then (if up && any (λ (e : Text × User). is_email email e.1.email) s.users
        then opened
        else silent)
    else closed 400 (codes "bad_request")

module _ (hash_code : Text → Text → Text) where
  unfoldable pub handle_password_reset :
      (ℕ → Bool)
      → (ℕ → Bool)
      → Text
      → Option ResetRequest
      → (Text → Option Text)
      → ℕ
      → Action Server Unit
  unfolding text_eq clean_email password_ok account_of_email check_code set_mailbox set_password
      delete_tokens_of log
  handle_password_reset up mail_up method body hash_password now = do
    refuse_if (not (text_eq method (codes "POST"))) 405 (codes "method")
    r ← or_refuse body 400 (codes "bad_request")
    refuse_if (not (password_ok r.new_password)) 400 (codes "bad_request")
    found ← gets (account_of_email (up 0) (clean_email r.email))
    checked ← gets (λ s.
        check_code hash_code mail_up (clean_email r.email) (codes "reset") r.code now s.mailbox)
    modify (set_mailbox checked.0)
    id ← or_refuse found 400 (codes "bad_code")
    refuse_if (not checked.1) 400 (codes "bad_code")
    hash ← or_refuse (hash_password r.new_password) 400 (codes "bad_request")
    write_row (up 1) (set_password id hash) 500 (codes "db")
    try (up 2) (delete_tokens_of id)
    try (up 3) (log (clean_email r.email) (codes "password reset") [] [] [] [])
    pure tt

module _ (hash_code : Text → Text → Text) (valid_email : Text → Bool) where
  unfoldable pub gated :
      (ℕ → Bool) → Knobs → Text → Text → Option Text → ℕ → ℕ → Bool → PurposeGate → Action Server ℕ
  unfolding send_code set_mailbox answered
  gated mail_up k email purpose code now day_start ok (closed status kind) = refuse status kind
  gated mail_up k email purpose code now day_start ok silent = pure 0
  gated mail_up k email purpose code now day_start ok opened = do
    result ← gets (λ s.
        send_code hash_code valid_email mail_up k email purpose code now day_start ok s.mailbox)
    modify (set_mailbox result.0)
    answered result.1

  -- The body is the address and the purpose.
  unfoldable pub handle_send_code :
      (ℕ → Bool)
      → (ℕ → Bool)
      → Knobs
      → Text
      → Option (Text × Text)
      → Option Text
      → ℕ
      → ℕ
      → Bool
      → Action Server ℕ
  unfolding text_eq clean_email purpose_gate gated
  handle_send_code up mail_up k method body code now day_start ok = do
    refuse_if (not (text_eq method (codes "POST"))) 405 (codes "method")
    b ← or_refuse body 400 (codes "bad_request")
    gate ← gets (purpose_gate (up 0) b.1 (clean_email b.0))
    gated mail_up k (clean_email b.0) b.1 code now day_start ok gate
