-- ===== src/Api/Signup/Joined.antt =====
-- internal/api/setup.go: what a registration or the first set-up that is answered has done.
use meshbridge.Base.{
  ℕ, ◌+◌, ◌≡◌, refl, ◌∙◌, ap, sym, subst, Bool, true, false, none, some, [], arith, true_of_not,
  inl, if◌then◌else◌,
}
use meshbridge.Base.Dict.{Dict, lookup, insert}
use meshbridge.Base.Text.{Text, codes, eq_text}
use meshbridge.Api.{Server, User, log}
use meshbridge.Api.Accounts.{password_ok, clean_email, set_mailbox, has_admin, registration_open}
use meshbridge.Api.Action.{
  Action, or_refuse, ◌>>◌, Ends, then_step, gets_step, modify_step, refuse_step, refuse_if_end,
  or_refuse_step, exec_step, try_into, try, pure, weaken, pure_end, ◌>>=◌,
}
use meshbridge.Api.Login.{login_token_ttl}
use meshbridge.Api.Signup.{
  NewUser, SignUp, name_taken, address_taken, user_row, accept_code, first_session, add_user,
  handle_register, handle_setup_initial,
}
use meshbridge.Api.Signup.Rows.{Adds, Kept, insert_user_lem, insert_token-Adds}
use meshbridge.Api.Tunnels.Settings.{set_setting}
use meshbridge.Mail.Sent.{Accepted, check_code-Accepted}

-- A free name, an address that nobody has and a new key; the row is added to these accounts.
abbrev pub Fresh : Text → NewUser → Text → Text → Text → Dict Text User → Server → Type 0
Fresh role b hash id name users s' =
    (name_taken name users ≡ false)
    × (address_taken (some (clean_email b.email)) users ≡ false)
    × (lookup id users ≡ none)
    × (s'.users ≡ insert id (user_row role b hash name) users)

module _ (hash_token : Text → Text) (hash_code : Text → Text → Text) where
  -- A valid code for the address, a password of the right length, and a new account with this role.
  abbrev pub Joined : Text → Text → SignUp → Server → Text → Text → Server → Type 0
  Joined purpose role r s id name s' =
      (b : NewUser) × (hash : Text) × (r.body ≡ some b)
      × (r.hash_password b.password ≡ some hash)
      × (password_ok b.password ≡ true)
      × Accepted hash_code (clean_email b.email) purpose b.code r.now s.mailbox s'.mailbox
      × Fresh role b hash id name s.users s'
      × Adds id s s'

  accept_code-Accepted :
      (mail_up : ℕ → Bool) (purpose : Text) (now : ℕ) (b : NewUser) (s : Server)
      → Ends
          (λ _ s'.
            Kept s s'
            × Accepted hash_code (clean_email b.email) purpose b.code now s.mailbox s'.mailbox)
          (Kept s)
          (accept_code hash_token hash_code mail_up purpose now b)
          s
  unfolding accept_code set_mailbox
  accept_code-Accepted mail_up purpose now b s = gets_step (
      modify_step (
        refuse_if_end (refl, refl)
          (λ right. (
            (refl, refl),
            check_code-Accepted hash_code mail_up (clean_email b.email) purpose b.code now s.mailbox
                (true_of_not _ right),
          ))))

  add_user-Fresh :
      (up : Bool) (names : ℕ → Bool) (role : Text) (r : SignUp) (b : NewUser) (hash : Text)
      (s : Server)
      → Ends
          (λ (a : Text × Text) s'.
            Fresh role b hash a.0 a.1 s.users s'
            × (s'.api_tokens ≡ s.api_tokens)
            × (s'.mailbox ≡ s.mailbox))
          (Kept s)
          (add_user hash_token hash_code up names role r b hash)
          s
  unfolding add_user user_row
  add_user-Fresh up names role r b hash s = gets_step (
      exec_step (refl, refl)
        (λ s' h.
          let (free, alone, new, is) = insert_user_lem _ _ s s' h in
          pure_end (
            (free, alone, new, ap (λ x. x.users) (sym is)),
            ap (λ x. x.api_tokens) (sym is),
            ap (λ x. x.mailbox) (sym is),
          )))

  -- From the check of the code on, whatever is done with the account afterwards.
  account_step :
      (mail_up names : ℕ → Bool) (up : Bool) (purpose role : Text) (r : SignUp) (b : NewUser)
      (s : Server) {k : Text × Text → Action Server Text}
      → r.body ≡ some b
      → password_ok b.password ≡ true
      → ((id name : Text) (s' : Server)
          → Joined purpose role r s id name s'
          → Ends
              (λ answer s2. (key : Text) × Joined purpose role r s key answer s2)
              (Kept s)
              (k (id, name))
              s')
      → Ends
          (λ answer s2. (key : Text) × Joined purpose role r s key answer s2)
          (Kept s)
          (do
            accept_code hash_token hash_code mail_up purpose r.now b
            hash ← or_refuse (r.hash_password b.password) 400 (codes "bad_request")
            account ← add_user hash_token hash_code up names role r b hash
            k account)
          s
  account_step mail_up names up purpose role r b s body long rest =
      then_step (accept_code-Accepted mail_up purpose r.now b s) (λ _ s1 (kept, accepted).
        or_refuse_step kept (λ hash made.
          then_step
            (weaken (add_user-Fresh up names role r b hash s1) (λ _ s2 h. h)
              (λ s2 e. (e.0 ∙ kept.0, e.1 ∙ kept.1)))
            (λ a s2 h.
              let same : s2.api_tokens ≡ s.api_tokens = h.1 ∙ kept.1 in
              rest a.0 a.1 s2 (
                b,
                hash,
                body,
                made,
                long,
                subst
                    (λ m. Accepted hash_code (clean_email b.email) purpose b.code r.now s.mailbox m)
                    (sym h.2) accepted,
                subst (λ us. Fresh role b hash a.0 a.1 us s2) kept.0 h.0,
                (
                  (λ k t here. ap (lookup k) same ∙ here),
                  λ k t here. inl (sym (ap (lookup k) same) ∙ here),
                ),
              ))))

  first_session-Joined :
      (mail_up : ℕ → Bool) (purpose role raw : Text) (now : ℕ) (r : SignUp) (s : Server)
      (id name : Text) (s' : Server)
      → Joined purpose role r s id name s'
      → Joined purpose role r s id name (first_session hash_token hash_code id raw now s')
  unfolding first_session
  first_session-Joined mail_up purpose role raw now r s id name s' h =
      let (b, hash, body, made, long, accepted, fresh, adds) = h in
      let (free, alone, new, added) = fresh in
      let (more, same, mail) =
        insert_token-Adds (hash_token raw) id (now + login_token_ttl) s s' adds in
      let used =
        subst (λ m. Accepted hash_code (clean_email b.email) purpose b.code r.now s.mailbox m)
          (sym mail) accepted in
      (b, hash, body, made, long, used, (free, alone, new, same ∙ added), more)

  finish :
      (mail_up : ℕ → Bool) (purpose role event detail : Text) (told kept : Bool) (r : SignUp)
      (s : Server) (id name : Text) (s' : Server)
      → Joined purpose role r s id name s'
      → Ends
          (λ answer s2. (key : Text) × Joined purpose role r s key answer s2)
          (Kept s)
          (do
            try told (log name event [] [] [] detail)
            try kept (first_session hash_token hash_code id r.raw r.now)
            pure name)
          s'
  unfolding log
  finish mail_up purpose role event detail told kept r s id name s' h =
      try_into (Joined purpose role r s id name) h h (λ s2 h2.
        try_into (Joined purpose role r s id name) h2
          (first_session-Joined mail_up purpose role r.raw r.now r s id name s2 h2)
          (λ s3 h3. pure_end (id, h3)))

-- A registration that is answered found registration open, and a first set-up found no administrator
-- when that question was answered. Either was made with a valid code for the address, which is then
-- used up, and a password of 12 to 128 bytes, whose hash is stored; it adds one account, a user's or an administrator's, under a name, an address and a
-- key that no account had, and touches no other account and no session but those of the new one. Any
-- other answer leaves all accounts and sessions.
pub signup-Joined :
    (hash_token : Text → Text) (hash_code : Text → Text → Text) (up mail_up names : ℕ → Bool)
    (r : SignUp) (s : Server)
    → Ends
        (λ answer s'.
          (registration_open (if up 0 then lookup (codes "allow_registration") s.settings else none)
            ≡ true)
          × ((key : Text) × Joined hash_token hash_code
                (codes "register")
                (codes "user")
                r
                s
                key
                answer
                s'))
        (Kept s)
        (handle_register hash_token hash_code up mail_up names r)
        s
      × Ends
          (λ answer s'.
            (up 0 ≡ true → has_admin s ≡ false)
            × ((key : Text) × Joined hash_token hash_code
                  (codes "setup")
                  (codes "admin")
                  r
                  s
                  key
                  answer
                  s'))
          (Kept s)
          (handle_setup_initial hash_token hash_code up mail_up names r)
          s
unfolding handle_register handle_setup_initial log set_setting
signup-Joined hash_token hash_code up mail_up names r s = (
  refuse_step (refl, refl)
      (λ _. gets_step (
        refuse_step (refl, refl)
          (λ is_open.
            or_refuse_step (refl, refl)
              (λ b body.
                refuse_step (refl, refl)
                  (λ long. gets_step (
                    refuse_step (refl, refl)
                      (λ _.
                        weaken
                          (account_step hash_token hash_code mail_up names (up 2) (codes "register")
                            (codes "user") r b s body (true_of_not (password_ok b.password) long)
                            (finish hash_token hash_code mail_up (codes "register") (codes "user")
                              (codes "user registered") (clean_email b.email) (up 3) (up 4) r s))
                          (λ answer s' h. (true_of_not _ is_open, h)) (λ s' e. e)))))))),
  refuse_step (refl, refl)
      (λ _. gets_step (
        refuse_step (refl, refl)
          (λ first.
            or_refuse_step (refl, refl)
              (λ b body.
                refuse_step (refl, refl)
                  (λ long.
                    weaken
                      (account_step hash_token hash_code mail_up names (up 1) (codes "setup")
                        (codes "admin") r b s body (true_of_not (password_ok b.password) long)
                        (λ id name s1 h.
                          try_into
                            (Joined hash_token hash_code (codes "setup") (codes "admin") r s id
                              name)
                            h h
                            (finish hash_token hash_code mail_up (codes "setup") (codes "admin")
                              (codes "setup admin created") (clean_email b.email) (up 3) (up 4) r s
                              id name)))
                      (λ answer s' h. ((λ on. ground arith), h)) (λ s' e. e)))))),
)
