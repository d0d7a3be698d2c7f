-- ===== src/Mail.antt =====
-- internal/mailer/mailer.go: the codes that are sent to verify an address. The rows stand newest first, as
-- `ORDER BY id DESC` reads them; times are seconds. The form of addresses, the hash of a code (with the
-- server's secret) and what is random or delivered are parameters and arguments.
pub mod Guesses
pub mod Sent
mod Tests
use meshbridge.Base.{
  ℕ, suc, ◌+◌, ◌-◌, ◌*◌, ◌/◌, ◌%◌, Bool, true, false, ◌&&◌, ◌||◌, not, Option, none, some, List, [],
  ◌∷◌, ◌==◌, ltb, leb, if◌then◌else◌, length, map, keep,
}
use meshbridge.Base.Text.{Text, codes, text_eq}

pub record MailCode : Type 0 where
  pub id : ℕ
  pub email : Text
  pub code_hash : Text
  pub purpose : Text
  pub attempts : ℕ
  pub used : Bool
  pub created_at : ℕ
  pub expires_at : ℕ

-- The table, the next id, and the codes handed to the mail server.
pub record Mailbox : Type 0 where
  pub rows : List MailCode
  pub next_id : ℕ
  pub delivered : List (Text × Text)

pub record Knobs : Type 0 where
  pub cooldown_seconds : ℕ
  pub expire_minutes : ℕ
  pub minute_limit : ℕ
  pub daily_limit : ℕ

unfoldable pub is_purpose : Text → Bool
unfolding text_eq
is_purpose p =
    text_eq p (codes "setup") || text_eq p (codes "register") || text_eq p (codes "reset")

-- WHERE email=? AND purpose=? AND used=0 AND expires_at > ?
unfoldable pub usable_code : Text → Text → ℕ → MailCode → Bool
unfolding text_eq
usable_code email purpose now c =
    text_eq c.email email && text_eq c.purpose purpose && not c.used && ltb now c.expires_at

-- ORDER BY id DESC LIMIT 1.
unfoldable pub newest : (MailCode → Bool) → List MailCode → Option MailCode
newest p [] = none
newest p (c ∷ rows) = let rest = newest p rows in if p c then some c else rest

unfoldable pub add_attempt : ℕ → MailCode → MailCode
add_attempt id c = if c.id == id then record c { attempts = c.attempts + 1 } else c

unfoldable pub mark_used : ℕ → MailCode → MailCode
mark_used id c = if c.id == id then record c { used = true } else c

-- WHERE email=? AND purpose=?
unfoldable pub sent_to : Text → Text → MailCode → Bool
unfolding text_eq
sent_to email purpose c = text_eq c.email email && text_eq c.purpose purpose

unfoldable pub cooling : ℕ → ℕ → Option MailCode → Bool
cooling now seconds none = false
cooling now seconds (some c) = ltb now (c.created_at + seconds)

-- `created_at > now - 60`, and the day's count.
unfoldable pub in_minute : ℕ → MailCode → Bool
in_minute now c = ltb now (c.created_at + 60)

unfoldable pub since : ℕ → MailCode → Bool
since start c = ltb start c.created_at

unfoldable pub count_rows : (MailCode → Bool) → List MailCode → ℕ
count_rows p rows = length (keep p rows)

unfoldable pub limit_reached : ℕ → ℕ → Bool
limit_reached limit n = ltb 0 limit && leb limit n

-- What SendCode ends in: the cooldown, or one of its errors.
pub data Sending : Type 0 where
  sent : ℕ → Sending
  bad_address : Sending
  bad_purpose : Sending
  please_wait : Sending
  system_busy : Sending
  day_over : Sending
  no_random : Sending
  not_stored : Sending
  not_delivered : Sending

unfoldable pub drop_row : Bool → ℕ → List MailCode → List MailCode
drop_row true id rows = keep (λ c. not (c.id == id)) rows
drop_row false id rows = rows

-- hex.EncodeToString.
unfoldable pub hex_char : ℕ → ℕ
hex_char n = if ltb n 10 then b'0' + n else b'a' + (n - 10)

unfoldable pub encode_hex : Text → Text
unfolding hex_char
encode_hex [] = []
encode_hex (c ∷ s) = hex_char (c / 16) ∷ hex_char (c % 16) ∷ encode_hex s

unfoldable pub hex_value : ℕ → Option ℕ
hex_value c =
    if leb b'0' c && leb c b'9'
    then some (c - b'0')
    else if leb b'a' c && leb c b'f'
    then some (c - b'a' + 10)
    else if leb b'A' c && leb c b'F'
    then some (c - b'A' + 10)
    else none

unfoldable pub hex_byte : Option ℕ → Option ℕ → Option Text → Option Text
hex_byte (some a) (some b) (some s) = some ((a * 16 + b) ∷ s)
hex_byte _ _ _ = none

-- hex.DecodeString, which takes both cases and an even number of digits.
unfoldable pub decode_hex : Text → Option Text
unfolding hex_value hex_byte
decode_hex [] = some []
decode_hex (a ∷ []) = none
decode_hex (a ∷ b ∷ s) = hex_byte (hex_value a) (hex_value b) (decode_hex s)

-- The digest that a row holds: `len(want) != sha256.Size` is an error as well.
unfoldable pub sized_digest : Option Text → Option Text
sized_digest none = none
sized_digest (some d) = if length d == 32 then some d else none

unfoldable pub stored_digest : MailCode → Option Text
unfolding decode_hex sized_digest
stored_digest c = sized_digest (decode_hex c.code_hash)

-- `hash_code` is the digest of the server's secret, the address and the code.
module _ (hash_code : Text → Text → Text) where
  unfoldable pub compare_digest :
      Bool → Text → Text → MailCode → Mailbox → Option Text → Mailbox × Bool
  unfolding text_eq add_attempt mark_used
  compare_digest up email code c m none = (m, false)
  compare_digest up email code c m (some want) =
      if not (text_eq want (hash_code email code))
      then (if up then record m { rows = map (add_attempt c.id) m.rows } else m, false)
      else if up
      then (record m { rows = map (mark_used c.id) m.rows }, true)
      else (m, false)

  unfoldable pub try_code : Bool → Text → Text → Option MailCode → Mailbox → Mailbox × Bool
  unfolding stored_digest compare_digest
  try_code up email code none m = (m, false)
  try_code up email code (some c) m =
      let checked = compare_digest up email code c m (stored_digest c) in
      if leb 5 c.attempts then (m, false) else checked

  -- CheckCode. Statement 0 is the query, 1 the update that follows it.
  unfoldable pub check_code : (ℕ → Bool) → Text → Text → Text → ℕ → Mailbox → Mailbox × Bool
  unfolding usable_code newest try_code
  check_code up email purpose code now m =
      if not (length code == 6)
      then (m, false)
      else try_code (up 1) email code
          (if up 0 then newest (usable_code email purpose now) m.rows else none) m

  unfoldable pub new_code : Text → Text → Text → ℕ → ℕ → ℕ → MailCode
  unfolding encode_hex
  new_code email purpose code now minutes id = record {
    id = id;
    email = email;
    code_hash = encode_hex (hash_code email code);
    purpose = purpose;
    attempts = 0;
    used = false;
    created_at = now;
    expires_at = now + minutes * 60;
  }

  -- INSERT, delivery, and the DELETE after a failed one.
  unfoldable pub deliver :
      (ℕ → Bool) → Knobs → Text → Text → Option Text → ℕ → Bool → Mailbox → Mailbox × Sending
  unfolding new_code drop_row
  deliver up k email purpose none now ok m = (m, no_random)
  deliver up k email purpose (some code) now ok m =
      if not (up 3)
      then (m, not_stored)
      else let row = new_code email purpose code now k.expire_minutes m.next_id in
        if ok
        then (
          record {
            rows = row ∷ m.rows;
            next_id = suc m.next_id;
            delivered = (email, code) ∷ m.delivered;
          },
          sent k.cooldown_seconds,
        )
        else (
          record m { rows = drop_row (up 4) m.next_id (row ∷ m.rows); next_id = suc m.next_id },
          not_delivered,
        )

module _ (hash_code : Text → Text → Text) (valid_email : Text → Bool) where
  -- SendCode; a count whose query fails keeps the value that it had.
  unfoldable pub send_code :
      (ℕ → Bool) → Knobs → Text → Text → Option Text → ℕ → ℕ → Bool → Mailbox → Mailbox × Sending
  unfolding is_purpose cooling newest sent_to limit_reached count_rows in_minute since deliver
  send_code up k email purpose code now day_start ok m =
      let last = if up 0 then newest (sent_to email purpose) m.rows else none in
      let minute = if up 1 then count_rows (in_minute now) m.rows else 0 in
      let day = if up 2 then count_rows (since day_start) m.rows else minute in
      if not (valid_email email)
      then (m, bad_address)
      else if not (is_purpose purpose)
      then (m, bad_purpose)
      else if cooling now k.cooldown_seconds last
      then (m, please_wait)
      else if limit_reached k.minute_limit minute
      then (m, system_busy)
      else if limit_reached k.daily_limit day
      then (m, day_over)
      else deliver hash_code up k email purpose code now ok m
