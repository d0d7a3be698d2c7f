-- ===== src/Mail/Tests.antt =====
-- internal/mailer/mailer.go at small inputs.
use meshbridge.Base.{ℕ, ◌≡◌, refl, Bool, true, false, some, [], ◌∷◌, ◌++◌, take, replicate}
use meshbridge.Base.Text.{Text, codes, text_eq}
use meshbridge.Mail.{
  Mailbox, Knobs, send_code, check_code, compare_digest, stored_digest, decode_hex, hex_value,
  hex_byte, sized_digest, encode_hex, hex_char, usable_code, newest, try_code, mark_used,
  add_attempt, deliver, new_code, is_purpose, sent_to, cooling, in_minute, since, count_rows,
  limit_reached,
}
use meshbridge.Mail.Guesses.{sending, checking, Events, guesses, guessed, compares}
use meshbridge.Mail.Sent.{Delivered, Unhindered, send_code-Delivered}

abbrev up : ℕ → Bool
up n = true

abbrev hash : Text → Text → Text
hash email code = take 32 (email ++ code ++ replicate 32 0)

abbrev any_address : Text → Bool
any_address email = true

abbrev knobs : Knobs
knobs = record { cooldown_seconds = 60; expire_minutes = 15; minute_limit = 5; daily_limit = 100 }

abbrev fresh : Mailbox
fresh = record { rows = []; next_id = 1; delivered = [] }

abbrev one : Mailbox
one = record {
  rows =
      record {
        id = 1;
        email = codes "a";
        code_hash = encode_hex (hash (codes "a") (codes "123456"));
        purpose = codes "reset";
        attempts = 4;
        used = false;
        created_at = 10;
        expires_at = 910;
      }
      ∷ [];
  next_id = 2;
  delivered = [];
}

send_code-Delivered_example :
    Delivered hash
      (Unhindered hash any_address up knobs (codes "a") (codes "reset") 10 0 fresh)
      knobs
      (codes "a")
      (codes "reset")
      (some (codes "123456"))
      10
      fresh
      (send_code hash any_address up knobs
        (codes "a")
        (codes "reset")
        (some (codes "123456"))
        10
        0
        true
        fresh)
send_code-Delivered_example =
    send_code-Delivered hash any_address up knobs (codes "a") (codes "reset")
      (some (codes "123456")) 10 0 true fresh refl tt

abbrev tries : Events
tries =
    checking up (codes "a") (codes "reset") (codes "000000") 20
    ∷ checking up (codes "a") (codes "reset") (codes "123456") 30
    ∷ sending up knobs (codes "a") (codes "reset") (some (codes "222222")) 90 0 true
    ∷ checking up (codes "a") (codes "reset") (codes "222222") 91
    ∷ []

-- The wrong guess was the fifth for the old row, so the right one comes too late; the new code is taken.
two_guesses : guesses hash any_address tries one ≡ 2
unfolding guesses check_code try_code newest usable_code text_eq send_code deliver new_code
    is_purpose sent_to cooling in_minute since count_rows limit_reached mark_used add_attempt
    guessed compare_digest stored_digest decode_hex hex_value hex_byte sized_digest encode_hex
    hex_char compares
two_guesses = refl
