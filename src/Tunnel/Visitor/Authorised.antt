-- ===== src/Tunnel/Visitor/Authorised.antt =====
-- internal/tunnel/gateway.go: the conditions of serveVisitor, gate and tryKey, from their answers.
use meshbridge.Base.{
  ℕ, ◌+◌, ◌*◌, ◌/◌, ◌^◌, ◌≤◌, ◌<◌, ◌≡◌, ◌≢◌, ◌⊎◌, ◌∙◌, refl, sym, ap, subst, inl, inr, Bool, true,
  false, ◌&&◌, not, Option, none, some, [], if_elim, leb, arith,
}
use meshbridge.Base.Decimal.{pos}
use meshbridge.Base.Text.{Text, codes, text_eq, has_prefix, trim_prefix, trim_space}
use meshbridge.Tunnel.{Tunnel}
use meshbridge.Tunnel.Gate.{sign_gate, verify_gate, check_key, gate_ttl}
use meshbridge.Tunnel.Gate.Cookie.{verify_gate-sign_gate}
use meshbridge.Tunnel.Limits.{second, blocked, allow}
use meshbridge.Tunnel.Visitor.{
  HttpRequest, Response, Visitors, signed_in, passed, attempt_key, is_form, sign_in, try_key,
  cookie_opens, gate, admit_visitor, serve_visitor, rate_per_min,
}

true_of_not : (b : Bool) → not b ≡ false → b ≡ true
true_of_not true h = refl
true_of_not false h = absurd (cc)

cookie_in : Text → Response → Text
cookie_in other (signed_in value path uri secure) = value
cookie_in other _ = other

module _ (hmac : Text → Text → Text) (hash_token : Text → Text) (secret : Text) where
  -- The key that an Authorization header carries.
  abbrev pub bearer : HttpRequest → Text
  bearer r = trim_space (trim_prefix r.authorization (codes "Bearer "))

  -- No key is asked for, or a cookie of this tunnel stands, or a right key comes in the header while
  -- the address is not locked out.
  abbrev pub Authorised : Visitors → HttpRequest → Tunnel → ℕ → Type 0
  Authorised v r t now =
      (t.key_required ≡ false)
      ⊎ ((value : Text) × (r.cookie ≡ some value)
          × (verify_gate hmac secret t.slug value (now / second) ≡ true))
      ⊎ ((has_prefix r.authorization (codes "Bearer ") ≡ true)
          × (blocked v.keys (attempt_key t r.ip) now ≡ false)
          × (check_key hash_token t.access_key_hash (bearer r) ≡ true))

  try_key-passed :
      (v : Visitors) (r : HttpRequest) (t : Tunnel) (key : Text) (subdomain : Bool) (now : ℕ)
      → (try_key hmac hash_token secret v r t key false subdomain now).1 ≡ passed
      → (blocked v.keys (attempt_key t r.ip) now ≡ false)
        × (check_key hash_token t.access_key_hash key ≡ true)
  unfolding try_key
  try_key-passed v r t key subdomain now =
      let Goal : Type 0 =
        (blocked v.keys (attempt_key t r.ip) now ≡ false)
        × (check_key hash_token t.access_key_hash key ≡ true) in
      if_elim (λ (p : Visitors × Response). p.1 ≡ passed → Goal)
        (blocked v.keys (attempt_key t r.ip) now) (λ _ h. absurd (cc))
        (λ open_.
          if_elim (λ (p : Visitors × Response). p.1 ≡ passed → Goal)
            (not (check_key hash_token t.access_key_hash key)) (λ _ h. absurd (cc))
            (λ right _. (open_, true_of_not (check_key hash_token t.access_key_hash key) right)))

  form-never :
      (v : Visitors) (r : HttpRequest) (t : Tunnel) (key : Text) (subdomain : Bool) (now : ℕ)
      → (try_key hmac hash_token secret v r t key true subdomain now).1 ≢ passed
  unfolding try_key sign_in
  form-never v r t key subdomain now =
      if_elim (λ (p : Visitors × Response). p.1 ≢ passed) (blocked v.keys (attempt_key t r.ip) now)
        (λ _ h. absurd (cc))
        (λ _.
          if_elim (λ (p : Visitors × Response). p.1 ≢ passed)
            (not (check_key hash_token t.access_key_hash key)) (λ _ h. absurd (cc))
            (λ _ h. absurd (cc)))

  cookie_opens-value :
      (cookie : Option Text) (t : Tunnel) (now : ℕ)
      → cookie_opens hmac hash_token secret cookie t now ≡ true
      → (value : Text) × (cookie ≡ some value)
        × (verify_gate hmac secret t.slug value (now / second) ≡ true)
  unfolding cookie_opens
  cookie_opens-value none t now h = absurd (cc)
  cookie_opens-value (some value) t now h = (value, refl, h)

  gate-Authorised :
      (v : Visitors) (r : HttpRequest) (t : Tunnel) (subdomain : Bool) (now : ℕ)
      → (gate hmac hash_token secret v r t subdomain now).1 ≡ passed
      → Authorised v r t now
  unfolding gate
  gate-Authorised v r t subdomain now =
      if_elim (λ (p : Visitors × Response). p.1 ≡ passed → Authorised v r t now)
        (not t.key_required) (λ free _. inl (ground arith))
        (λ _.
          if_elim (λ (p : Visitors × Response). p.1 ≡ passed → Authorised v r t now)
            (cookie_opens hmac hash_token secret r.cookie t now)
            (λ opens _. inr (inl (cookie_opens-value r.cookie t now opens)))
            (λ _.
              if_elim (λ (p : Visitors × Response). p.1 ≡ passed → Authorised v r t now)
                (has_prefix r.authorization (codes "Bearer "))
                (λ carries h.
                  let (free, right) = try_key-passed v r t (bearer r) subdomain now h in
                  inr (inr (carries, free, right)))
                (λ _.
                  if_elim (λ (p : Visitors × Response). p.1 ≡ passed → Authorised v r t now)
                    (is_form r && not (text_eq r.form_key []))
                    (λ _ h. absurd (form-never v r t r.form_key subdomain now h))
                    (λ _ h. absurd (cc)))))

  -- The tunnel serves and no budget is spent.
  abbrev pub Serving : Tunnel → Text → Bool → Type 0
  Serving t enabled_setting over_budget =
      (text_eq enabled_setting (codes "1") ≡ true)
      × (text_eq t.status (codes "disabled") ≡ false)
      × (text_eq t.status (codes "quota_exceeded") ≡ false)
      × (over_budget ≡ false)

  admit-passed :
      (v : Visitors) (r : HttpRequest) (t : Tunnel) (subdomain : Bool) (enabled_setting : Text)
      (over_budget : Bool) (now : ℕ)
      → (admit_visitor hmac hash_token secret v r t subdomain enabled_setting over_budget now).1
        ≡ passed
      → Serving t enabled_setting over_budget × Authorised v r t now
  unfolding admit_visitor
  admit-passed v r t subdomain enabled_setting over_budget now =
      let Goal : Type 0 = Serving t enabled_setting over_budget × Authorised v r t now in
      if_elim (λ (p : Visitors × Response). p.1 ≡ passed → Goal)
        (not (text_eq enabled_setting (codes "1"))) (λ _ h. absurd (cc))
        (λ on.
          if_elim (λ (p : Visitors × Response). p.1 ≡ passed → Goal)
            (text_eq t.status (codes "disabled")) (λ _ h. absurd (cc))
            (λ able.
              if_elim (λ (p : Visitors × Response). p.1 ≡ passed → Goal)
                (text_eq t.status (codes "quota_exceeded")) (λ _ h. absurd (cc))
                (λ within.
                  if_elim (λ (p : Visitors × Response). p.1 ≡ passed → Goal) over_budget
                    (λ _ h. absurd (cc))
                    (λ spare h. (
                      (true_of_not (text_eq enabled_setting (codes "1")) on, able, within, spare),
                      gate-Authorised v r t subdomain now h,
                    )))))

  -- A request reaches the proxy only if its address is within the rate, tunnels are enabled, the
  -- tunnel is neither disabled nor over its quota, the budget of all tunnels is not spent, and the
  -- visitor is authorised; the submission of a form never passes itself.
  pub serve_visitor-passed :
      (v : Visitors) (r : HttpRequest) (t : Tunnel) (subdomain : Bool)
      (rate_setting enabled_setting : Text) (over_budget : Bool) (now : ℕ)
      → (serve_visitor hmac hash_token secret v r t subdomain rate_setting enabled_setting
          over_budget now).1
        ≡ passed
      → ((allow v.rate r.ip (rate_per_min rate_setting) now).1 ≡ true)
        × Serving t enabled_setting over_budget
        × Authorised v r t now
  unfolding serve_visitor
  serve_visitor-passed v r t subdomain rate_setting enabled_setting over_budget now =
      let allowed : Bool = (allow v.rate r.ip (rate_per_min rate_setting) now).1 in
      let counted : Visitors = record v {
        rate = (allow v.rate r.ip (rate_per_min rate_setting) now).0;
      } in
      if_elim
        (λ (p : Visitors × Response).
          p.1 ≡ passed
          → (allowed ≡ true) × Serving t enabled_setting over_budget × Authorised v r t now)
        (not allowed) (λ _ h. absurd (cc))
        (λ ok h.
          let (serving, authorised) =
            admit-passed counted r t subdomain enabled_setting over_budget now h in
          (true_of_not allowed ok, serving, authorised))

  signed_value :
      (v : Visitors) (r : HttpRequest) (t : Tunnel) (key : Text) (form_mode subdomain secure : Bool)
      (value path uri : Text) (now : ℕ)
      → (try_key hmac hash_token secret v r t key form_mode subdomain now).1
        ≡ signed_in value path uri secure
      → value ≡ sign_gate hmac secret t.slug (pos (now / second + gate_ttl))
  unfolding try_key sign_in cookie_in
  signed_value v r t key form_mode subdomain secure value path uri now =
      let Signed : Response → Type 0 = λ q.
        q ≡ signed_in value path uri secure
        → value ≡ sign_gate hmac secret t.slug (pos (now / second + gate_ttl)) in
      if_elim (λ (p : Visitors × Response). Signed p.1) (blocked v.keys (attempt_key t r.ip) now)
        (λ _ h. absurd (cc))
        (λ _.
          if_elim (λ (p : Visitors × Response). Signed p.1)
            (not (check_key hash_token t.access_key_hash key))
            (λ _. if_elim Signed form_mode (λ _ h. absurd (cc)) (λ _ h. absurd (cc)))
            (λ _.
              if_elim Signed (not form_mode) (λ _ h. absurd (cc))
                (λ _ h. sym (ap (cookie_in []) h))))

  -- A visitor who submits a right key gets a cookie that opens the gate of this tunnel at every time
  -- from then on for seven days, up to the second.
  pub try_key-cookie_opens :
      (v : Visitors) (r : HttpRequest) (t : Tunnel) (key : Text) (form_mode subdomain secure : Bool)
      (value path uri : Text) (now later : ℕ)
      → (try_key hmac hash_token secret v r t key form_mode subdomain now).1
        ≡ signed_in value path uri secure
      → now ≤ later
      → later ≤ now + 604800 * second
      → now / second + gate_ttl < 2 ^ 63
      → cookie_opens hmac hash_token secret (some value) t later ≡ true
  unfolding cookie_opens
  try_key-cookie_opens v r t key form_mode subdomain secure value path uri now later signed from
        until fits =
      let n : ℕ = now / second + gate_ttl in
      let soon : later / second ≤ n = omega arith in
      let not_early : n ≤ later / second + 608400 = omega arith in
      let timely : (leb (later / second) n && leb n (later / second + 608400)) ≡ true =
        ground arith in
      subst (λ c. verify_gate hmac secret t.slug c (later / second) ≡ true)
        (sym (signed_value v r t key form_mode subdomain secure value path uri now signed))
        (verify_gate-sign_gate hmac secret t.slug n (later / second) fits ∙ timely)
