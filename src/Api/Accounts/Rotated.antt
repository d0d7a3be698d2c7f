-- ===== src/Api/Accounts/Rotated.antt =====
-- internal/api/setup.go: what a password reset has done.
use meshbridge.Base.{
  ℕ, zero, suc, ◌≡◌, ◌≢◌, refl, Bool, true, not, [], Option, some, arith, keep, all, Option-cases,
  inl, inr, true_of_not, all-keep, all_kept,
}
use meshbridge.Base.Dict.{lookup, lookup-insert, lookup-insert_self}
use meshbridge.Base.Text.{Text, codes, text_eq, text_eq_iff, eq_text}
use meshbridge.Api.{Server, User, ApiToken, log}
use meshbridge.Api.Accounts.{
  ResetRequest, password_ok, clean_email, account_of_email, set_password, delete_tokens_of,
  set_mailbox, handle_password_reset,
}
use meshbridge.Api.Action.{
  Ends, gets_step, modify_step, refuse_step, or_refuse_step, write_step, try_case, try_into, try,
  pure, pure_end, ◌>>◌,
}
use meshbridge.Api.Sessions.{Sessions, sweep, rows, sweeps, cascade, with_sessions}
use meshbridge.Api.Sessions.Cascade.{all_of_lookup}
use meshbridge.Mail.{check_code}
use meshbridge.Mail.Sent.{Accepted, check_code-Accepted}

-- Cascades keep what holds of every token.
all-sweeps :
    (q : Text × ApiToken → Bool) (fuel : ℕ) (t : Sessions)
    → all q t.tokens ≡ true
    → all q (sweeps fuel t).tokens ≡ true
unfolding sweeps sweep
all-sweeps q zero t h = h
all-sweeps q (suc fuel) t h = all-sweeps q fuel (sweep t) (all-keep _ q t.tokens h)

-- No session of this account is left.
abbrev pub SignedOut : Text → Server → Type 0
SignedOut id s = (hash : Text) (t : ApiToken) → lookup hash s.api_tokens ≡ some t → t.user_id ≢ id

delete_tokens-SignedOut : (id : Text) (s : Server) → SignedOut id (delete_tokens_of id s)
unfolding delete_tokens_of with_sessions cascade
delete_tokens-SignedOut id s hash t here same =
    let q = λ (e : Text × ApiToken). not (text_eq e.1.user_id id) in
    let start : Sessions = record { tokens = keep q s.api_tokens; grants = s.sso_grants } in
    let every = all-sweeps q (rows start) start (all_kept q s.api_tokens) in
    let mine = all_of_lookup q hash t (sweeps (rows start) start).tokens every here in
    ground (arith, text_eq_iff t.user_id id)

-- The account has the new password, and the others have what they had.
abbrev pub Rotated : Text → Text → Server → Server → Type 0
Rotated id hash s s' =
    ((u : User)
      → lookup id s.users ≡ some u
      → lookup id s'.users ≡ some (record u { password_hash = hash }))
    × ((k : Text) → k ≢ id → lookup k s'.users ≡ lookup k s.users)

set_password-Rotated : (id hash : Text) (s : Server) → Rotated id hash s (set_password id hash s)
unfolding set_password
set_password-Rotated id hash s = (
  (λ u here. ground (arith, lookup-insert_self id (record u { password_hash = hash }) s.users)),
  λ k other. elim (Option-cases (lookup id s.users)) [
    | inl missing ↦ ground arith
    | inr (u, here) ↦
        ground
          (arith, text_eq_iff id k, lookup-insert id k (record u { password_hash = hash }) s.users)
  ],
)

module _ (hash_code : Text → Text → Text) where
  -- A valid code for the address of this account, which `s'` has used up, and a password of the right
  -- length.
  abbrev pub Permitted : (ℕ → Bool) → ResetRequest → ℕ → Server → Text → Server → Type 0
  Permitted up r now s id s' =
      (password_ok r.new_password ≡ true)
      × (account_of_email (up 0) (clean_email r.email) s ≡ some id)
      × Accepted hash_code (clean_email r.email) (codes "reset") r.code now s.mailbox s'.mailbox

  abbrev pub Reset :
      (ℕ → Bool) → Option ResetRequest → (Text → Option Text) → ℕ → Server → Server → Type 0
  Reset up body hash_password now s s' =
      (r : ResetRequest) × (id : Text) × (hash : Text) × (body ≡ some r)
      × Permitted up r now s id s'
      × (hash_password r.new_password ≡ some hash)
      × Rotated id hash s s'
      × (up 2 ≡ true → SignedOut id s')

  logged :
      (up : ℕ → Bool) (body : Option ResetRequest) (hash_password : Text → Option Text) (now : ℕ)
      (s s1 : Server) (told : Bool) (actor event : Text)
      → Reset up body hash_password now s s1
      → Ends
          (λ _ s'. Reset up body hash_password now s s')
          (λ s'. (s'.users ≡ s.users) × (s'.api_tokens ≡ s.api_tokens))
          (try told (log actor event [] [] [] []) >> pure tt)
          s1
  unfolding log
  logged up body hash_password now s s1 told actor event h =
      try_into (Reset up body hash_password now s) h h (λ s2 k. pure_end k)

  -- A password is reset only with a valid code for the address of the account; the code is then used up
  -- in the table, the account has the hash of the new password and no other account has changed, and no
  -- session of the account is left when the statement that deletes them is carried out. Any other answer
  -- leaves all accounts and sessions.
  pub handle_password_reset-Rotated :
      (up mail_up : ℕ → Bool) (method : Text) (body : Option ResetRequest)
      (hash_password : Text → Option Text) (now : ℕ) (s : Server)
      → Ends
          (λ _ s'. Reset up body hash_password now s s')
          (λ s'. (s'.users ≡ s.users) × (s'.api_tokens ≡ s.api_tokens))
          (handle_password_reset hash_code up mail_up method body hash_password now)
          s
  unfolding handle_password_reset log set_mailbox set_password delete_tokens_of with_sessions
      account_of_email
  handle_password_reset-Rotated up mail_up method body hash_password now s =
      refuse_step (refl, refl)
        (λ _.
          or_refuse_step (refl, refl)
            (λ r sent.
              refuse_step (refl, refl)
                (λ long. gets_step (
                  gets_step (
                    modify_step (
                      or_refuse_step (refl, refl)
                        (λ id found.
                          refuse_step (refl, refl)
                            (λ right.
                              or_refuse_step (refl, refl)
                                (λ hash made.
                                  write_step (refl, refl)
                                    (let checked =
                                        check_code hash_code mail_up (clean_email r.email)
                                          (codes "reset") r.code now s.mailbox in
                                      let accepted =
                                        check_code-Accepted hash_code mail_up (clean_email r.email)
                                          (codes "reset") r.code now s.mailbox
                                          (true_of_not _ right) in
                                      let fits = true_of_not (password_ok r.new_password) long in
                                      let rotated = set_password-Rotated id hash s in
                                      let s1 = set_password id hash (set_mailbox checked.0 s) in
                                      let out = delete_tokens-SignedOut id s1 in
                                      try_case
                                        (λ off.
                                          logged up body hash_password now s s1 (up 3)
                                            (clean_email r.email) (codes "password reset")
                                            (
                                              r,
                                              id,
                                              hash,
                                              sent,
                                              (fits, found, accepted),
                                              made,
                                              rotated,
                                              λ on. absurd (cc),
                                            ))
                                        (λ on.
                                          logged up body hash_password now s
                                            (delete_tokens_of id s1) (up 3) (clean_email r.email)
                                            (codes "password reset")
                                            (
                                              r,
                                              id,
                                              hash,
                                              sent,
                                              (fits, found, accepted),
                                              made,
                                              rotated,
                                              λ _. out,
                                            ))))))))))))
