-- ===== src/Api/Tests/Signup.antt =====
-- internal/api/setup.go at small inputs: somebody registers, and somebody is the first administrator.
use meshbridge.Base.{◌≡◌, refl, true, false, none, some, [], ◌∷◌, if◌then◌else◌}
use meshbridge.Base.Decimal.{format_nat}
use meshbridge.Base.Dict.{lookup}
use meshbridge.Base.Text.{Text, codes, eq_text, text_eq, to_lower, trim, trim_left, lower, cut}
use meshbridge.Api.{Server}
use meshbridge.Api.Accounts.{has_admin, registration_open}
use meshbridge.Api.Action.{Ends}
use meshbridge.Api.Signup.{
  SignUp, name_taken, sanitize_username, base_name, dashed, is_name_char, is_alnum, username_ok,
  free_name, candidate, handle_register, handle_setup_initial,
}
use meshbridge.Api.Signup.Joined.{Joined, signup-Joined}
use meshbridge.Api.Signup.Rows.{Kept}
use meshbridge.Api.Signup.Names.{sanitize_username-Free}
use meshbridge.Mail.{encode_hex}
use meshbridge.Api.Tests.{plain, up, home, hash_code, hash_password}

sanitize_username-Free_example :
    name_taken (sanitize_username (λ _. true) (codes "Ann@x") [] home.users) home.users ≡ false
sanitize_username-Free_example = sanitize_username-Free (codes "Ann@x") [] home.users

-- "ann" is taken.
second_name : sanitize_username (λ _. true) (codes "Ann@x") [] home.users ≡ codes "ann-2"
unfolding sanitize_username base_name dashed is_name_char is_alnum username_ok free_name candidate
    name_taken text_eq to_lower trim trim_left lower cut format_nat home
second_name = refl

abbrev carol : SignUp
carol = record {
  method = codes "POST";
  body = some (record {
    email = codes "Ann@x ";
    code = codes "123456";
    password = codes "a longer password";
    username = [];
  });
  hash_password = hash_password;
  raw = codes "r";
  nano = 7;
  now = 5;
}

-- A code for registration and one for the first set-up wait.
abbrev invited : Server
invited = record home {
  mailbox = record {
    rows =
        record {
          id = 1;
          email = codes "ann@x";
          code_hash = encode_hex (hash_code (codes "ann@x") (codes "123456"));
          purpose = codes "register";
          attempts = 0;
          used = false;
          created_at = 1;
          expires_at = 900;
        }
        ∷ record {
          id = 2;
          email = codes "ann@x";
          code_hash = encode_hex (hash_code (codes "ann@x") (codes "123456"));
          purpose = codes "setup";
          attempts = 0;
          used = false;
          created_at = 1;
          expires_at = 900;
        }
        ∷ [];
    next_id = 3;
    delivered = [];
  };
}

signup-Joined_example :
    Ends
      (λ answer s'.
        (registration_open
            (if up 0 then lookup (codes "allow_registration") invited.settings else none)
          ≡ true)
        × ((key : Text) × Joined plain hash_code
              (codes "register")
              (codes "user")
              carol
              invited
              key
              answer
              s'))
      (Kept invited)
      (handle_register plain hash_code up up up carol)
      invited
    × Ends
        (λ answer s'.
          (up 0 ≡ true → has_admin invited ≡ false)
          × ((key : Text) × Joined plain hash_code
                (codes "setup")
                (codes "admin")
                carol
                invited
                key
                answer
                s'))
        (Kept invited)
        (handle_setup_initial plain hash_code up up up carol)
        invited
signup-Joined_example = signup-Joined plain hash_code up up up carol invited
