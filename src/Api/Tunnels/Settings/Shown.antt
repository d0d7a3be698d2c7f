-- ===== src/Api/Tunnels/Settings/Shown.antt =====
-- internal/api/tunnels.go: a change of the settings, and what is read back afterwards.
use meshbridge.Base.{
  ℕ, ◌^◌, ◌≤◌, ◌<◌, ◌≡◌, refl, ◌∙◌, ap, sym, subst, Bool, true, false, Option, none, some, List, [],
  ◌∷◌, ◌++◌, all, arith, true_of_not, some_injective, ◌=?◌,
}
use meshbridge.Base.Decimal.{
  ℤ, pos, negsuc, format_int, format_nat, parse_int, parse_int-format_nat, format_nat_form,
}
use meshbridge.Base.Dict.{Dict, lookup, insert, lookup-insert, lookup-insert_self}
use meshbridge.Base.Text.{Text, codes, text_eq, eq_text}
use meshbridge.Api.{Server, AuthUser, log}
use meshbridge.Api.Action.{
  Ends, weaken, then_step, write_step, or_refuse_step, refuse_step, try_into, gets_end, pure_end,
}
use meshbridge.Api.Lists.{is_admin}
use meshbridge.Api.Tunnels.{bad_number, out_of_range}
use meshbridge.Api.Tunnels.Settings.{
  TunnelSettings, NewSettings, non_empty, setting, enabled_key, global_key, rate_key, bad_rate,
  set_setting, flag, set_flag, set_number, sets, write_all, number_of, tunnel_settings,
  handle_settings_put,
}

abbrev pub newer {ℓ} : {A : Type ℓ} → Option A → A → A
newer none old = old
newer (some new) old = new

-- The table after these writes.
abbrev pub put_all : List (Text × Text) → Dict Text Text → Dict Text Text
put_all [] d = d
put_all ((key, v) ∷ rest) d = put_all rest (insert key v d)

-- What a request asks to write; nothing when it cannot be read.
abbrev pub sent : Option NewSettings → List (Text × Text)
sent none = []
sent (some r) = sets r

-- Some of these writes have been carried out, whichever they were.
abbrev pub Partly : List (Text × Text) → Server → Server → Type 0
Partly l s s' =
    (done : List (Text × Text)) × ((q : Text × Text → Bool) → all q l ≡ true → all q done ≡ true)
    × (s' ≡ record s { settings = put_all done s.settings })

abbrev pub Between : ℕ → ℕ → Option ℤ → Type 0
Between low high o = (z : ℤ) → o ≡ some z → (n : ℕ) × (z ≡ pos n) × (low ≤ n) × (n ≤ high)

abbrev pub Shown : NewSettings → TunnelSettings → TunnelSettings → Type 0
Shown r old new =
    (new.is_enabled ≡ newer r.is_enabled old.is_enabled)
    × (new.global_monthly_bytes ≡ newer r.global_monthly_bytes old.global_monthly_bytes)
    × (new.rate ≡ newer r.rate old.rate)

put_all-append :
    (a b : List (Text × Text)) (d : Dict Text Text) → put_all (a ++ b) d ≡ put_all b (put_all a d)
put_all-append [] b d = refl
put_all-append ((key, v) ∷ a) b d = put_all-append a b (insert key v d)

abbrev printed : Option ℤ → Option Text → Option Text
printed none old = old
printed (some z) old = some (format_int z)

abbrev flagged : Option Bool → Option Text → Option Text
flagged none old = old
flagged (some b) old = some (flag b)

lookup-set_number_self :
    (key : Text) (o : Option ℤ) (d : Dict Text Text)
    → lookup key (put_all (set_number key o) d) ≡ printed o (lookup key d)
unfolding set_number
lookup-set_number_self key none d = refl
lookup-set_number_self key (some z) d = lookup-insert_self key (format_int z) d

lookup-set_number :
    (key other : Text) (o : Option ℤ) (d : Dict Text Text)
    → (key =? other) ≡ false
    → lookup other (put_all (set_number key o) d) ≡ lookup other d
unfolding set_number
lookup-set_number key other none d apart = refl
lookup-set_number key other (some z) d apart =
    ground (arith, lookup-insert key other (format_int z) d)

lookup-set_flag_self :
    (o : Option Bool) (d : Dict Text Text)
    → lookup enabled_key (put_all (set_flag o) d) ≡ flagged o (lookup enabled_key d)
unfolding set_flag
lookup-set_flag_self none d = refl
lookup-set_flag_self (some b) d = lookup-insert_self enabled_key (flag b) d

lookup-set_flag :
    (other : Text) (o : Option Bool) (d : Dict Text Text)
    → (enabled_key =? other) ≡ false
    → lookup other (put_all (set_flag o) d) ≡ lookup other d
unfolding set_flag
lookup-set_flag other none d apart = refl
lookup-set_flag other (some b) d apart = ground (arith, lookup-insert enabled_key other (flag b) d)

-- The three keys do not disturb each other.
lookup-sets :
    (r : NewSettings) (d : Dict Text Text)
    → (lookup enabled_key (put_all (sets r) d) ≡ flagged r.is_enabled (lookup enabled_key d))
      × (lookup global_key (put_all (sets r) d)
          ≡ printed r.global_monthly_bytes (lookup global_key d))
      × (lookup rate_key (put_all (sets r) d) ≡ printed r.rate (lookup rate_key d))
unfolding sets text_eq
lookup-sets r d =
    let first = set_flag r.is_enabled in
    let second = set_number global_key r.global_monthly_bytes in
    let third = set_number rate_key r.rate in
    let d1 = put_all first d in
    let d2 = put_all second d1 in
    let whole : put_all (first ++ second ++ third) d ≡ put_all third d2 =
      put_all-append (first ++ second) third d
      ∙ ap (put_all third) (put_all-append first second d) in
    (
      ap (lookup enabled_key) whole
          ∙ lookup-set_number rate_key enabled_key r.rate d2 refl
          ∙ lookup-set_number global_key enabled_key r.global_monthly_bytes d1 refl
          ∙ lookup-set_flag_self r.is_enabled d,
      ap (lookup global_key) whole
          ∙ lookup-set_number rate_key global_key r.rate d2 refl
          ∙ lookup-set_number_self global_key r.global_monthly_bytes d1
          ∙ ap (printed r.global_monthly_bytes) (lookup-set_flag global_key r.is_enabled d refl),
      ap (lookup rate_key) whole
          ∙ lookup-set_number_self rate_key r.rate d2
          ∙ ap (printed r.rate) (
              lookup-set_number global_key rate_key r.global_monthly_bytes d1 refl
              ∙ lookup-set_flag rate_key r.is_enabled d refl),
    )

Between-bad_number : (high : ℕ) (o : Option ℤ) → bad_number high o ≡ false → Between 0 high o
unfolding bad_number out_of_range
Between-bad_number high none fine z is = absurd (cc)
Between-bad_number high (some (pos n)) fine z is =
    (n, sym (some_injective is), omega arith, ground arith)
Between-bad_number high (some (negsuc n)) fine z is = absurd (cc)

Between-bad_rate : (o : Option ℤ) → bad_rate o ≡ false → Between 10 100000 o
unfolding bad_rate
Between-bad_rate none fine z is = absurd (cc)
Between-bad_rate (some (pos n)) fine z is = (n, sym (some_injective is), ground arith, ground arith)
Between-bad_rate (some (negsuc n)) fine z is = absurd (cc)

non_empty-format_nat : (other : Text) (n : ℕ) → non_empty other (some (format_nat n)) ≡ format_nat n
unfolding non_empty
non_empty-format_nat other n = let (c, s, form, digit) = format_nat_form n in rw form refl

format_int-pos : (n : ℕ) → format_int (pos n) ≡ format_nat n
unfolding format_int
format_int-pos n = refl

module _ (on_error : Text → ℤ) where
  abbrev number : Text → Option Text → ℤ
  number other o = number_of on_error (non_empty other o) (parse_int (non_empty other o))

  -- A number in range is read back as it was sent, and one that was not sent is as before.
  number-printed :
      (low high : ℕ) (other : Text) (o : Option ℤ) (old : Option Text)
      → high < 2 ^ 63
      → Between low high o
      → number other (printed o old) ≡ newer o (number other old)
  unfolding number_of
  number-printed low high other none old fits range = refl
  number-printed low high other (some z) old fits range =
      let (n, is, above, below) = range z refl in
      let read : parse_int (non_empty other (some (format_nat n))) ≡ some (pos n) =
        rw (non_empty-format_nat other n) (parse_int-format_nat n (omega arith)) in
      let shown : number other (some (format_int (pos n))) ≡ pos n =
        ap (λ t. number other (some t)) (format_int-pos n)
        ∙ ap (number_of on_error (non_empty other (some (format_nat n)))) read in
      subst (λ y. number other (some (format_int y)) ≡ y) (sym is) shown

text-flagged :
    (o : Option Bool) (old : Option Text)
    → text_eq (non_empty (codes "1") (flagged o old)) (codes "1")
      ≡ newer o (text_eq (non_empty (codes "1") old) (codes "1"))
unfolding text_eq non_empty
text-flagged none old = refl
text-flagged (some true) old = refl
text-flagged (some false) old = refl

tunnel_settings-Shown :
    (on_error : Text → ℤ) (r : NewSettings) (s s' : Server)
    → Between 0 (2 ^ 40) r.global_monthly_bytes
    → Between 10 100000 r.rate
    → s'.settings ≡ put_all (sets r) s.settings
    → Shown r (tunnel_settings on_error true s) (tunnel_settings on_error true s')
unfolding tunnel_settings setting
tunnel_settings-Shown on_error r s s' budget rate after =
    let (flag_set, global_set, rate_set) = lookup-sets r s.settings in
    (
      ap (λ o. text_eq (non_empty (codes "1") o) (codes "1"))
            (ap (lookup enabled_key) after ∙ flag_set)
          ∙ text-flagged r.is_enabled (lookup enabled_key s.settings),
      ap (number on_error (codes "21474836480")) (ap (lookup global_key) after ∙ global_set)
          ∙ number-printed on_error 0 (2 ^ 40) (codes "21474836480") r.global_monthly_bytes
              (lookup global_key s.settings) (omega arith) budget,
      ap (number on_error (codes "240")) (ap (lookup rate_key) after ∙ rate_set)
          ∙ number-printed on_error 10 100000 (codes "240") r.rate (lookup rate_key s.settings)
              (omega arith) rate,
    )

write_all-Put :
    (up : ℕ → Bool) (l : List (Text × Text)) (s : Server)
    → Ends
        (λ _ s'. s' ≡ record s { settings = put_all l s.settings })
        (Partly l s)
        (write_all up l)
        s
unfolding write_all set_setting
write_all-Put up [] s = pure_end refl
write_all-Put up ((key, v) ∷ rest) s =
    write_step ([], (λ q h. refl), refl)
      (weaken (write_all-Put up rest (set_setting key v s)) (λ _ s' h. h)
        (λ s' (done, chosen, is). ((key, v) ∷ done, (λ q h. ground (arith, chosen q)), is)))

-- A change of the settings that is answered was sent by an administrator, with a budget of at most 2^40
-- bytes and a rate between 10 and 100000; the table then reads like the old one with the values sent.
-- When it can be read, the answer shows each value that was sent, and those not sent as before. Otherwise
-- the table is the old one with some of the values to be written, or none, and nothing else has changed.
pub handle_settings_put-Shown :
    (on_error : Text → ℤ) (up : ℕ → Bool) (me : AuthUser) (body : Option NewSettings) (s : Server)
    → Ends
        (λ v s'.
          (r : NewSettings) × (body ≡ some r)
          × (is_admin me ≡ true)
          × Between 0 (2 ^ 40) r.global_monthly_bytes
          × Between 10 100000 r.rate
          × ((key : Text) → lookup key s'.settings ≡ lookup key (put_all (sets r) s.settings))
          × (up 4 ≡ true → Shown r (tunnel_settings on_error true s) v))
        (Partly (sent body) s)
        (handle_settings_put on_error up me body)
        s
unfolding handle_settings_put is_admin
handle_settings_put-Shown on_error up me body s =
    let nothing : Partly (sent body) s s = ([], (λ q h. refl), refl) in
    refuse_step nothing (λ admin. or_refuse_step nothing (λ r is. refuse_step nothing (λ budget.
      refuse_step nothing (λ rate.
        let low_budget = Between-bad_number (2 ^ 40) r.global_monthly_bytes budget in
        let fair_rate = Between-bad_rate r.rate rate in
        then_step
          (weaken (write_all-Put up (sets r) s) (λ _ s' h. h)
            (λ s' e. subst (λ l. Partly l s s') (sym (ap sent is)) e))
          (λ _ s' written.
            try_into (λ s2. s2.settings ≡ put_all (sets r) s.settings)
              (ap (λ x. x.settings) written) (unfold log in ap (λ x. x.settings) written)
              (λ s2 kept. gets_end (
                r,
                is,
                true_of_not (is_admin me) admin,
                low_budget,
                fair_rate,
                (λ key. ap (lookup key) kept),
                λ on.
                    subst
                      (λ b.
                        Shown r (tunnel_settings on_error true s) (tunnel_settings on_error b s2))
                      (sym on) (tunnel_settings-Shown on_error r s s2 low_budget fair_rate kept),
              )))))))
