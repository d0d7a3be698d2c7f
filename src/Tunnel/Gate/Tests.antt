-- ===== src/Tunnel/Gate/Tests.antt =====
-- The visitor gate with a keyed hash that only joins its arguments.
use meshbridge.Base.{ℕ, ◌+◌, ◌≡◌, ◌&&◌, ◌++◌, leb, replicate, arith}
use meshbridge.Base.Decimal.{pos}
use meshbridge.Base.Text.{Text, codes}
use meshbridge.Tunnel.Gate.{sign_gate, verify_gate}
use meshbridge.Tunnel.Gate.Cookie.{Signed, verify_gate-sign_gate, verify_gate_sound}

abbrev joined : Text → Text → Text
joined secret t = secret ++ t ++ replicate 16 0

abbrev secret : Text
secret = codes "k"

verify_gate-sign_gate_example :
    verify_gate joined secret (codes "ab") (sign_gate joined secret (codes "ab") (pos 1700)) 1000
    ≡ (leb 1000 1700 && leb 1700 (1000 + 608400))
verify_gate-sign_gate_example =
    verify_gate-sign_gate joined secret (codes "ab") 1700 1000 (omega arith)

verify_gate_sound_example :
    (n : ℕ) × Signed joined secret
      (codes "ab")
      (sign_gate joined secret (codes "ab") (pos 1700))
      1000
      n
verify_gate_sound_example =
    verify_gate_sound joined secret (codes "ab") (sign_gate joined secret (codes "ab") (pos 1700))
      1000 verify_gate-sign_gate_example
