-- ===== src/Api/Signup/Rows.antt =====
-- internal/api/setup.go: what the statements that add an account and its first session do to the tables.
use meshbridge.Base.{
  ℕ, ◌≡◌, refl, ap, sym, subst, false, ◌||◌, Option, none, some, arith, ◌⊎◌, inl, inr, Option-cases,
  Bool-cases, some_injective,
}
use meshbridge.Base.Dict.{lookup, insert, lookup-insert}
use meshbridge.Base.Text.{Text, text_eq, text_eq_iff, eq_text}
use meshbridge.Api.{Server, User, ApiToken, new_row}
use meshbridge.Api.Login.{insert_token}
use meshbridge.Api.Signup.{name_taken, address_taken, insert_user, or_same}

pub insert_user_lem :
    (id : Text) (u : User) (s s' : Server)
    → insert_user id u s ≡ some s'
    → (name_taken u.username s.users ≡ false)
      × (address_taken u.email s.users ≡ false)
      × (lookup id s.users ≡ none)
      × (record s { users = insert id u s.users } ≡ s')
unfolding insert_user new_row
insert_user_lem id u s s' h =
    elim (Bool-cases (name_taken u.username s.users || address_taken u.email s.users)) [
      | inl taken ↦ absurd (ground arith)
      | inr free ↦ elim (Option-cases (lookup id s.users)) [
        | inl new ↦ (ground arith, ground arith, new, some_injective (ground arith))
        | inr (w, old) ↦ absurd (ground arith)
      ]
    ]

-- The only sessions that came are those of this account, and none went.
abbrev pub Adds : Text → Server → Server → Type 0
Adds id s s' =
    ((k : Text) (t : ApiToken) → lookup k s.api_tokens ≡ some t → lookup k s'.api_tokens ≡ some t)
    × ((k : Text) (t : ApiToken)
        → lookup k s'.api_tokens ≡ some t
        → (lookup k s.api_tokens ≡ some t) ⊎ (t.user_id ≡ id))

abbrev pub Kept : Server → Server → Type 0
Kept s s' = (s'.users ≡ s.users) × (s'.api_tokens ≡ s.api_tokens)

abbrev session_of : Text → ℕ → ApiToken
session_of id expiry = record { user_id = id; expires_at = expiry; grant_hash = none }

insert_token-cases :
    (hash id : Text) (expiry : ℕ) (s : Server)
    → (insert_token hash id expiry s ≡ none)
      ⊎ ((lookup hash s.api_tokens ≡ none)
          × (insert_token hash id expiry s
              ≡ some (record s { api_tokens = insert hash (session_of id expiry) s.api_tokens })))
unfolding insert_token new_row
insert_token-cases hash id expiry s = elim (Option-cases (lookup hash s.api_tokens)) [
  | inl free ↦ inr (free, ground arith)
  | inr (t, taken) ↦ inl (ground arith)
]

pub insert_token-Adds :
    (hash id : Text) (expiry : ℕ) (s0 s : Server)
    → Adds id s0 s
    → Adds id s0 (or_same s (insert_token hash id expiry s))
      × ((or_same s (insert_token hash id expiry s)).users ≡ s.users)
      × ((or_same s (insert_token hash id expiry s)).mailbox ≡ s.mailbox)
unfolding or_same
insert_token-Adds hash id expiry s0 s (old, new) =
    let row = session_of id expiry in
    let P : Option Server → Type 0 = λ o.
      Adds id s0 (or_same s o)
      × ((or_same s o).users ≡ s.users)
      × ((or_same s o).mailbox ≡ s.mailbox) in
    elim (insert_token-cases hash id expiry s) [
      | inl refused ↦ subst P (sym refused) ((old, new), refl, refl)
      | inr (free, is) ↦ subst P (sym is) (
        (
          (λ k t here.
              ground
                (arith, old k t here, text_eq_iff hash k, lookup-insert hash k row s.api_tokens)),
          λ k t here. elim (Bool-cases (text_eq hash k)) [
            | inl same ↦
                let mine : some row ≡ some t =
                  ground (arith, lookup-insert hash k row s.api_tokens) in
                inr (ap (λ (x : ApiToken). x.user_id) (sym (some_injective mine)))
            | inr other ↦ new k t (ground (arith, lookup-insert hash k row s.api_tokens))
          ],
        ),
        refl,
        refl,
      )
    ]
