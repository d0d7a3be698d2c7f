-- ===== src/Api/Login/Issued.antt =====
-- internal/api/api.go: what a sign-in that is answered has done.
use meshbridge.Base.{
  ℕ, ◌+◌, ◌/◌, ◌≤◌, ◌<◌, ◌≡◌, refl, Bool, true, false, Option, none, some, ◌++◌, [], ◌∷◌, arith,
  sym, subst, Option-cases, inl, inr, Bool-cases, ◌==◌, not,
}
use meshbridge.Base.Dict.{Dict, lookup, lookup-insert_self, Distinct}
use meshbridge.Base.Text.{Text, codes, text_eq_iff, eq_text, to_lower, trim_space}
use meshbridge.Api.{Server, User, ApiToken, log, new_row}
use meshbridge.Api.Action.{
  Action, Ends, then_step, gets_step, modify_step, refuse_step, refuse_if_end, or_refuse_step,
  leave_step, exec_step, try_step, weaken, pure_end, refuse_end, ◌>>=◌,
}
use meshbridge.Api.Login.{
  LoginRequest, Credentials, login_token_ttl, login_blocked, set_failures, set_checked,
  stop_blocked, both_failed, both_reset, insert_token, if_enabled, find_user, account, verified,
  issue, handle_login, ip_key, user_key,
}
use meshbridge.Api.Sessions.{authenticate_bearer, bearer_hash_lem, of_hash, live_token, live_user}
use meshbridge.Tunnel.Limits.{second}

module _ {B : Type 0} {Q : B → Server → Type 0} {E : Server → Type 0} where
  pub stop_step :
      (key : Text) (now : ℕ) {k : Unit → Action Server B} {s : Server}
      → E (set_checked key now s)
      → ((login_blocked s.login_failures key now).1 ≡ false
          → Ends Q E (k tt) (set_checked key now s))
      → Ends Q E (stop_blocked key now >>= k) s
  unfolding stop_blocked
  stop_step key now {k = k} {s = s} stop go =
      let P : Unit → Server → Type 0 = λ _ s'.
        (s' ≡ set_checked key now s) × ((login_blocked s.login_failures key now).1 ≡ false) in
      then_step {P = P} (gets_step (modify_step (refuse_if_end stop (λ free. (refl, free)))))
        (λ _ s' h. subst (Ends Q E (k tt)) (sym h.0) (go h.1))

insert_token_lem :
    (hash user : Text) (expiry : ℕ) (s s' : Server)
    → insert_token hash user expiry s ≡ some s'
    → (lookup hash s'.api_tokens
        ≡ some (record { user_id = user; expires_at = expiry; grant_hash = none }))
      × (s'.users ≡ s.users)
unfolding insert_token new_row
insert_token_lem hash user expiry s s' h = elim (Option-cases (lookup hash s.api_tokens)) [
  | inl free ↦
      let row : ApiToken = record { user_id = user; expires_at = expiry; grant_hash = none } in
      ground (arith, lookup-insert_self hash row s.api_tokens)
  | inr (t, taken) ↦ absurd (ground arith)
]

-- The first row that a name or an address finds.
find_user_lem :
    (name email : Text) (users : Dict Text User) (id : Text) (u : User)
    → Distinct users
    → find_user name email users ≡ some (id, u)
    → lookup id users ≡ some u
unfolding find_user lookup
find_user_lem name email [] id u d h = absurd (cc)
find_user_lem name email ((j, w) ∷ users) id u d h =
    ground (arith, text_eq_iff j id, find_user_lem name email users id u d.1)

enabled_lem :
    (o : Option (Text × User)) (id : Text) (u : User)
    → if_enabled o ≡ some (id, u)
    → (o ≡ some (id, u)) × (not (u.disabled == 1) ≡ true)
unfolding if_enabled
enabled_lem none id u h = absurd (cc)
enabled_lem (some (j, w)) id u h = ground arith

-- Who may sign in: the first account that the name or the address finds, when it is not disabled and
-- the password is its own.
abbrev pub Admitted : (Text → Text → Bool) → Bool → Credentials → Server → Text → User → Type 0
Admitted verify up c s id u =
    (account up c.username s ≡ some (id, u)) × (verify u.password_hash c.password ≡ true)

account_lem :
    (up : Bool) (name : Text) (s : Server) (id : Text) (u : User)
    → Distinct s.users
    → account up name s ≡ some (id, u)
    → (lookup id s.users ≡ some u) × (not (u.disabled == 1) ≡ true)
unfolding account
account_lem false name s id u d h = absurd (cc)
account_lem true name s id u d h =
    let (found, on) = enabled_lem (find_user name (to_lower (trim_space name)) s.users) id u h in
    (find_user_lem name (to_lower (trim_space name)) s.users id u d found, on)

module _ (hash_token : Text → Text) (verify : Text → Text → Bool) where
  verified_lem :
      (password : Text) (o : Option (Text × User)) (id : Text)
      → verified hash_token verify password o ≡ some id
      → (u : User) × (o ≡ some (id, u)) × (verify u.password_hash password ≡ true)
  unfolding verified
  verified_lem password none id h = absurd (cc)
  verified_lem password (some (j, w)) id h = elim (Bool-cases (verify w.password_hash password)) [
    | inl right ↦ (w, ground arith, right)
    | inr wrong ↦ absurd (ground arith)
  ]

  -- The token is stored for this account until the time that is answered.
  abbrev pub Stored : Server → ℕ → Text → Text × ℕ → Server → Type 0
  Stored s now id (raw, expiry) s' =
      (expiry ≡ now / second + login_token_ttl)
      × (lookup (hash_token raw) s'.api_tokens
          ≡ some (record { user_id = id; expires_at = expiry; grant_hash = none }))
      × (s'.users ≡ s.users)

  issue-Stored :
      (up : ℕ → Bool) (r : LoginRequest) (name : Text) (o : Option Text) (s : Server)
      → Ends
          (λ t s'. (id : Text) × (o ≡ some id) × Stored s r.now id t s')
          (λ s'. s'.api_tokens ≡ s.api_tokens)
          (issue hash_token verify up r name o)
          s
  unfolding issue both_failed both_reset set_failures log
  issue-Stored up r name none s = modify_step (refuse_end refl)
  issue-Stored up r name (some id) s = modify_step (
      or_refuse_step refl (λ raw drawn. exec_step refl (λ s' inserted.
        let expiry = r.now / second + login_token_ttl in
        let (there, same) =
          insert_token_lem (hash_token raw) id expiry (both_reset (user_key name) (ip_key r.ip) s)
            s' inserted in
        try_step (pure_end (id, refl, (refl, there, same)))
          (pure_end (id, refl, (refl, there, same))))))

  -- The token answers for its owner until it expires.
  live_user-Stored :
      (s s' : Server) (now t : ℕ) (id : Text) (u : User) (raw : Text) (expiry : ℕ)
      → Stored s now id (raw, expiry) s'
      → lookup id s.users ≡ some u
      → u.disabled ≡ 0
      → t < expiry
      → authenticate_bearer hash_token true t (codes "Bearer " ++ raw) s'
        ≡ some (record { id = id; role = u.role })
  unfolding authenticate_bearer of_hash live_token live_user
  live_user-Stored s s' now t id u raw expiry (_, there, same) owner on early =
      subst (λ o. of_hash hash_token true t o s' ≡ some (record { id = id; role = u.role }))
        (sym (bearer_hash_lem hash_token raw)) (rw (there, same, owner, on) (ground arith))

  -- What an answered sign-in has shown and done.
  abbrev pub SignedIn : (ℕ → Bool) → LoginRequest → Server → Text × ℕ → Server → Type 0
  SignedIn up r s t s' =
      (c : Credentials) × (id : Text) × (u : User) × (r.body ≡ some c)
      × Admitted verify (up 0) c s id u
      × (t.1 ≡ r.now / second + login_token_ttl)
      × ((at : ℕ)
          → at < t.1
          → authenticate_bearer hash_token true at (codes "Bearer " ++ t.0) s'
            ≡ some (record { id = id; role = u.role }))

  Stored-SignedIn :
      (up : ℕ → Bool) (r : LoginRequest) (s : Server)
      → Distinct s.users
      → ((k : Text) (u : User) → lookup k s.users ≡ some u → u.disabled ≤ 1)
      → (c : Credentials) → r.body ≡ some c
      → (t : Text × ℕ) (s' : Server) (id : Text)
      → verified hash_token verify c.password (account (up 0) c.username s) ≡ some id
      → Stored s r.now id t s'
      → SignedIn up r s t s'
  Stored-SignedIn up r s d flags c body t s' id right kept =
      let (u, found, good) = verified_lem c.password (account (up 0) c.username s) id right in
      let (owner, on) = account_lem (up 0) c.username s id u d found in
      let flag : u.disabled ≡ 0 = ground (arith, flags id u owner) in
      (
        c,
        id,
        u,
        body,
        (found, good),
        kept.0,
        λ at early. live_user-Stored s s' r.now at id u t.0 t.1 kept owner flag early,
      )

  -- A sign-in that is answered was made with the password of an account that the name or the address
  -- finds and that is not disabled, and its token signs that account in until it expires, 24 hours later;
  -- no other sign-in changes the table of tokens. Accounts have distinct names, and their flag
  -- `disabled` is 0 or 1.
  pub handle_login-Issued :
      (up : ℕ → Bool) (r : LoginRequest) (s : Server)
      → Distinct s.users
      → ((k : Text) (u : User) → lookup k s.users ≡ some u → u.disabled ≤ 1)
      → Ends
          (SignedIn up r s)
          (λ s'. s'.api_tokens ≡ s.api_tokens)
          (handle_login hash_token verify up r)
          s
  unfolding handle_login set_checked set_failures
  handle_login-Issued up r s d flags = refuse_step refl (λ _. stop_step _ _ refl (λ _.
      or_refuse_step refl (λ c body. stop_step _ _ refl (λ _. gets_step (
        leave_step refl (λ _.
          let o = account (up 0) c.username s in
          weaken
            (issue-Stored up r c.username (verified hash_token verify c.password o)
              (set_checked (user_key c.username) r.now (set_checked (ip_key r.ip) r.now s)))
            (λ t s' (id, right, kept). Stored-SignedIn up r s d flags c body t s' id right kept)
            (λ s' h. h)))))))
