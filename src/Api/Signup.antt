-- ===== src/Api/Signup.antt =====
-- internal/api/setup.go: registration and the first administrator. An account is found free and inserted
-- in two statements, as in the code. `raw` is what the library returns for a new token, whose error the
-- code ignores, and `hash_password` is HashPasswordContext for this request, which may fail; `nano` and `now` are the clock in nanoseconds and in seconds.
pub mod Names
pub mod Rows
pub mod Joined
use meshbridge.Base.{
  ℕ, zero, suc, ◌+◌, ◌/◌, Bool, true, false, ◌&&◌, ◌||◌, not, Option, none, some, List, [], ◌∷◌,
  ◌++◌, ◌==◌, leb, if◌then◌else◌, length, any, all,
}
use meshbridge.Base.Decimal.{format_nat}
use meshbridge.Base.Dict.{Dict, lookup, insert}
use meshbridge.Base.Text.{Text, codes, text_eq, eq_text, to_lower, trim_space, trim, cut}
use meshbridge.Api.{Server, User, log, new_row, new_id}
use meshbridge.Api.Accounts.{password_ok, clean_email, set_mailbox, has_admin, registration_open}
use meshbridge.Api.Action.{Action, pure, gets, or_refuse, refuse_if, modify, exec, try, ◌>>=◌, ◌>>◌}
use meshbridge.Api.Login.{is_email, insert_token, login_token_ttl}
use meshbridge.Api.Tunnels.Settings.{set_setting}
use meshbridge.Mail.{check_code}

-- [a-z0-9]
unfoldable pub is_alnum : ℕ → Bool
is_alnum c = (leb b'a' c && leb c b'z') || (leb b'0' c && leb c b'9')

-- [a-z0-9_.-]
unfoldable pub is_name_char : ℕ → Bool
unfolding is_alnum
is_name_char c = is_alnum c || c == b'_' || c == b'.' || c == b'-'

-- Each run of other characters becomes one dash; `run` tells that a run has begun.
unfoldable pub dashed : Bool → Text → Text
unfolding is_name_char
dashed run [] = []
dashed run (c ∷ s) =
    let go = dashed false s in
    let skip = dashed true s in if is_name_char c then c ∷ go else if run then skip else b'-' ∷ skip

-- usernameRe.
unfoldable pub username_ok : Text → Bool
unfolding is_alnum is_name_char
username_ok [] = false
username_ok (c ∷ s) = is_alnum c && leb 1 (length s) && leb (length s) 31 && all is_name_char s

unfoldable pub base_name : Text → Text → Text
unfolding dashed username_ok text_eq to_lower trim cut
base_name email want =
    let given = if text_eq want [] then dashed false (to_lower (cut email b'@').0) else want in
    let base = trim (λ c. c == b'-' || c == b'_' || c == b'.') given in
    if username_ok base then base else codes "user"

unfoldable pub candidate : Text → ℕ → Text
unfolding format_nat
candidate base zero = base
candidate base (suc i) = base ++ b'-' ∷ format_nat (i + 2)

unfoldable pub name_taken : Text → Dict Text User → Bool
unfolding text_eq
name_taken name users = any (λ (e : Text × User). text_eq e.1.username name) users

-- The loop from candidate `i` on; a query that fails counts as none.
unfoldable pub free_name : (ℕ → Bool) → Text → ℕ → ℕ → Dict Text User → Text
unfolding candidate name_taken
free_name up base zero i users = candidate base i
free_name up base (suc fuel) i users =
    let rest = free_name up base fuel (i + 1) users in
    if up i && name_taken (candidate base i) users then rest else candidate base i

unfoldable pub sanitize_username : (ℕ → Bool) → Text → Text → Dict Text User → Text
unfolding base_name free_name
sanitize_username up email want users = free_name up (base_name email want) (length users) 0 users

unfoldable pub email_taken : Text → Dict Text User → Bool
unfolding is_email
email_taken email users = any (λ (e : Text × User). is_email email e.1.email) users

-- The unique index spares empty addresses.
unfoldable pub address_taken : Option Text → Dict Text User → Bool
unfolding email_taken
address_taken none users = false
address_taken (some []) users = false
address_taken (some (c ∷ email)) users = email_taken (c ∷ email) users

-- INSERT INTO users, whose names and addresses are unique.
unfoldable pub insert_user : Text → User → Server → Option Server
unfolding name_taken address_taken new_row
insert_user id u s =
    if name_taken u.username s.users || address_taken u.email s.users
    then none
    else elim (new_row id u s.users) [
      | none ↦ none
      | some users ↦ some (record s { users = users })
    ]

-- An INSERT whose error is ignored.
unfoldable pub or_same : Server → Option Server → Server
or_same s none = s
or_same s (some s') = s'

pub record NewUser : Type 0 where
  pub email : Text
  pub code : Text
  pub password : Text
  pub username : Text

pub record SignUp : Type 0 where
  pub method : Text
  pub body : Option NewUser
  pub hash_password : Text → Option Text
  pub raw : Text
  pub nano : ℕ
  pub now : ℕ

unfoldable pub user_row : Text → NewUser → Text → Text → User
unfolding clean_email
user_row role b hash name = record {
  username = name;
  email = some (clean_email b.email);
  password_hash = hash;
  role = role;
  disabled = 0;
}

module _ (hash_token : Text → Text) (hash_code : Text → Text → Text) where
  unfoldable pub accept_code : (ℕ → Bool) → Text → ℕ → NewUser → Action Server Unit
  unfolding check_code set_mailbox clean_email
  accept_code mail_up purpose now b = do
    checked ←
        gets (λ s. check_code hash_code mail_up (clean_email b.email) purpose b.code now s.mailbox)
    modify (set_mailbox checked.0)
    refuse_if (not checked.1) 400 (codes "bad_code")

  -- The token of the new account's first session.
  unfoldable pub first_session : Text → Text → ℕ → Server → Server
  unfolding or_same insert_token
  first_session id raw now s =
      or_same s (insert_token (hash_token raw) id (now + login_token_ttl) s)

  -- The account with a name that is free; `names` tells of each question for a name whether it is answered.
  unfoldable pub add_user :
      Bool → (ℕ → Bool) → Text → SignUp → NewUser → Text → Action Server (Text × Text)
  unfolding sanitize_username insert_user user_row new_id clean_email to_lower trim_space
  add_user up names role r b hash = do
    name ← gets (λ s.
        sanitize_username names (clean_email b.email) (to_lower (trim_space b.username)) s.users)
    exec up
        (insert_user (new_id hash_token (clean_email b.email) r.nano) (user_row role b hash name))
        500 (codes "db")
    pure (new_id hash_token (clean_email b.email) r.nano, name)

  unfoldable pub handle_register :
      (ℕ → Bool) → (ℕ → Bool) → (ℕ → Bool) → SignUp → Action Server Text
  unfolding text_eq registration_open password_ok email_taken clean_email accept_code add_user log
      first_session
  handle_register up mail_up names r = do
    refuse_if (not (text_eq r.method (codes "POST"))) 405 (codes "method")
    is_open ← gets (λ s.
        registration_open (if up 0 then lookup (codes "allow_registration") s.settings else none))
    refuse_if (not is_open) 403 (codes "forbidden")
    b ← or_refuse r.body 400 (codes "bad_request")
    refuse_if (not (password_ok b.password)) 400 (codes "bad_request")
    exists ← gets (λ s. up 1 && email_taken (clean_email b.email) s.users)
    refuse_if exists 409 (codes "conflict")
    accept_code mail_up (codes "register") r.now b
    hash ← or_refuse (r.hash_password b.password) 400 (codes "bad_request")
    account ← add_user (up 2) names (codes "user") r b hash
    try (up 3) (log account.1 (codes "user registered") [] [] [] (clean_email b.email))
    try (up 4) (first_session account.0 r.raw r.now)
    pure account.1

  unfoldable pub handle_setup_initial :
      (ℕ → Bool) → (ℕ → Bool) → (ℕ → Bool) → SignUp → Action Server Text
  unfolding text_eq has_admin password_ok clean_email accept_code add_user set_setting log
      first_session
  handle_setup_initial up mail_up names r = do
    refuse_if (not (text_eq r.method (codes "POST"))) 405 (codes "method")
    done ← gets (λ s. up 0 && has_admin s)
    refuse_if done 403 (codes "forbidden")
    b ← or_refuse r.body 400 (codes "bad_request")
    refuse_if (not (password_ok b.password)) 400 (codes "bad_request")
    accept_code mail_up (codes "setup") r.now b
    hash ← or_refuse (r.hash_password b.password) 400 (codes "bad_request")
    account ← add_user (up 1) names (codes "admin") r b hash
    try (up 2) (set_setting (codes "setup_completed") (codes "1"))
    try (up 3) (log account.1 (codes "setup admin created") [] [] [] (clean_email b.email))
    try (up 4) (first_session account.0 r.raw r.now)
    pure account.1
