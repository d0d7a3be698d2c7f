-- ===== src/Tunnel/Gate.antt =====
-- internal/tunnel/tunnel.go, the visitor gate: SignGate, VerifyGate and CheckKey. Keyed and plain
-- hashes of the standard library and of auth.HashToken are parameters. Times are seconds since 1970.
pub mod Cookie
mod Tests
use meshbridge.Base.{
  ℕ, ◌+◌, ◌-◌, ◌*◌, ◌/◌, ◌%◌, Bool, true, false, ◌&&◌, ◌||◌, not, Option, none, some, List, [], ◌∷◌,
  ◌++◌, ltb, if◌then◌else◌, take,
}
use meshbridge.Base.Decimal.{ℤ, pos, negsuc, format_int, parse_int}
use meshbridge.Base.Text.{Text, codes, text_eq, cut}

-- Seven days.
abbrev pub gate_ttl : ℕ
gate_ttl = 604800

abbrev hour : ℕ
hour = 3600

unfoldable pub hex_digit : ℕ → ℕ
hex_digit n = if ltb n 10 then 48 + n else 87 + n

-- hex.EncodeToString
unfoldable pub hex_encode : Text → Text
unfolding hex_digit
hex_encode [] = []
hex_encode (b ∷ s) = hex_digit (b / 16) ∷ hex_digit (b % 16) ∷ hex_encode s

-- `a < b` on int64.
unfoldable pub less : ℤ → ℤ → Bool
less (pos a) (pos b) = ltb a b
less (pos a) (negsuc b) = false
less (negsuc a) (pos b) = true
less (negsuc a) (negsuc b) = ltb b a

-- The text that is signed.
unfoldable pub gate_text : Text → ℤ → Text
unfolding format_int
gate_text slug exp = codes "mb-gate|" ++ slug ++ b'|' ∷ format_int exp

unfoldable pub in_time : ℤ → ℕ → Bool
unfolding less
in_time exp now = not (less exp (pos now)) && not (less (pos (now + gate_ttl + hour)) exp)

module _ (hmac : Text → Text → Text) where
  unfoldable pub gate_mac : Text → Text → ℤ → Text
  unfolding gate_text
  gate_mac secret slug exp = hmac secret (gate_text slug exp)

  -- The text behind the dot of a cookie.
  unfoldable pub signature : Text → Text → ℤ → Text
  unfolding gate_mac hex_encode
  signature secret slug exp = hex_encode (take 16 (gate_mac secret slug exp))

  unfoldable pub sign_gate : Text → Text → ℤ → Text
  unfolding signature format_int
  sign_gate secret slug exp = format_int exp ++ b'.' ∷ signature secret slug exp

  unfoldable pub verify_expiry : Text → Text → Text → ℕ → Option ℤ → Bool
  unfolding in_time signature text_eq
  verify_expiry secret slug sig now none = false
  verify_expiry secret slug sig now (some exp) =
      in_time exp now && text_eq sig (signature secret slug exp)

  unfoldable pub verify_cut : Text → Text → ℕ → Text × Text × Bool → Bool
  unfolding verify_expiry parse_int
  verify_cut secret slug now (exp_s, sig, ok) =
      ok && verify_expiry secret slug sig now (parse_int exp_s)

  unfoldable pub verify_gate : Text → Text → Text → ℕ → Bool
  unfolding verify_cut cut
  verify_gate secret slug value now = verify_cut secret slug now (cut value b'.')

module _ (hash_token : Text → Text) where
  unfoldable pub check_key : Text → Text → Bool
  unfolding text_eq
  check_key stored candidate = not (text_eq stored []) && text_eq (hash_token candidate) stored
