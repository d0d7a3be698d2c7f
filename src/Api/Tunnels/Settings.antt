-- ===== src/Api/Tunnels/Settings.antt =====
-- internal/api/tunnels.go: the settings of all tunnels; Get of internal/settings/settings.go. What ParseInt
-- and Atoi return along with an error is the parameter `on_error`. Go ranges over the changed keys in any
-- order; here they stand in the order of the code. Dropping the gateway's cache of settings is not part
-- of this state.
pub mod Shown
use meshbridge.Base.{
  ℕ, ◌^◌, Bool, true, false, ◌||◌, not, Option, none, some, List, [], ◌∷◌, ◌++◌, ltb, if◌then◌else◌,
  length,
}
use meshbridge.Base.Decimal.{ℤ, pos, negsuc, format_int, parse_int, format_nat}
use meshbridge.Base.Dict.{lookup, insert}
use meshbridge.Base.Text.{Text, codes, text_eq, eq_text}
use meshbridge.Api.{Server, AuthUser, log}
use meshbridge.Api.Action.{Action, pure, gets, or_refuse, refuse_if, write_row, try, ◌>>=◌, ◌>>◌}
use meshbridge.Api.Tunnels.{bad_number}

pub record TunnelSettings : Type 0 where
  pub is_enabled : Bool
  pub global_monthly_bytes : ℤ
  pub rate : ℤ

pub record NewSettings : Type 0 where
  pub is_enabled : Option Bool
  pub global_monthly_bytes : Option ℤ
  pub rate : Option ℤ

-- settings.Get and the test for an empty value.
unfoldable pub non_empty : Text → Option Text → Text
non_empty other none = other
non_empty other (some []) = other
non_empty other (some (c ∷ v)) = c ∷ v

unfoldable pub setting : Bool → Text → Text → Server → Text
unfolding non_empty
setting up key other s = if up then non_empty other (lookup key s.settings) else other

abbrev pub enabled_key : Text
enabled_key = codes "tunnels_enabled"

abbrev pub global_key : Text
global_key = codes "tunnels_global_monthly_bytes"

abbrev pub rate_key : Text
rate_key = codes "tunnels_rate_per_min"

-- `*in.RatePerMin < 10 || *in.RatePerMin > 100000`.
unfoldable pub bad_rate : Option ℤ → Bool
bad_rate none = false
bad_rate (some (pos n)) = ltb n 10 || ltb 100000 n
bad_rate (some (negsuc n)) = true

unfoldable pub set_setting : Text → Text → Server → Server
set_setting key v s = record s { settings = insert key v s.settings }

abbrev pub flag : Bool → Text
flag true = codes "1"
flag false = codes "0"

-- The map `sets`.
unfoldable pub set_flag : Option Bool → List (Text × Text)
set_flag none = []
set_flag (some b) = (enabled_key, flag b) ∷ []

unfoldable pub set_number : Text → Option ℤ → List (Text × Text)
unfolding format_int
set_number key none = []
set_number key (some n) = (key, format_int n) ∷ []

unfoldable pub sets : NewSettings → List (Text × Text)
unfolding set_flag set_number
sets r =
    set_flag r.is_enabled
    ++ set_number global_key r.global_monthly_bytes
    ++ set_number rate_key r.rate

unfoldable pub write_all : (ℕ → Bool) → List (Text × Text) → Action Server Unit
unfolding set_setting
write_all up [] = pure tt
write_all up ((key, v) ∷ rest) =
    write_row (up (length rest)) (set_setting key v) 500 (codes "db") >> write_all up rest

module _ (on_error : Text → ℤ) where
  unfoldable pub number_of : Text → Option ℤ → ℤ
  number_of v none = on_error v
  number_of v (some n) = n

  -- tunnelSettingsFromDB and handleTunnelSettingsGet.
  unfoldable pub tunnel_settings : Bool → Server → TunnelSettings
  unfolding setting text_eq number_of parse_int
  tunnel_settings up s =
      let global = setting up global_key (codes "21474836480") s in
      let rate = setting up rate_key (codes "240") s in
      record {
        is_enabled = text_eq (setting up enabled_key (codes "1") s) (codes "1");
        global_monthly_bytes = number_of global (parse_int global);
        rate = number_of rate (parse_int rate);
      }

  unfoldable pub handle_settings_put :
      (ℕ → Bool) → AuthUser → Option NewSettings → Action Server TunnelSettings
  unfolding text_eq bad_number bad_rate sets write_all log tunnel_settings
  handle_settings_put up me body = do
    refuse_if (not (text_eq me.role (codes "admin"))) 403 (codes "forbidden")
    r ← or_refuse body 400 (codes "bad_request")
    refuse_if (bad_number (2 ^ 40) r.global_monthly_bytes) 400 (codes "bad_request")
    refuse_if (bad_rate r.rate) 400 (codes "bad_request")
    write_all up (sets r)
    try (up 3) (
        log me.id (codes "tunnel settings updated") [] [] []
          (format_nat (length (sets r)) ++ codes " keys"))
    gets (tunnel_settings (up 4))
