-- ===== src/Server/Startup/Ports.antt =====
-- src/bin: which ports and fork versions a server starts with.
use validator_guardian.Prelude.{
  ◌↔◌, refl, ap, sym, ◌∙◌, ℕ, ◌+◌, ◌-◌, ◌*◌, ◌^◌, ◌<◌, ◌≤◌, ◌≡◌, inl, inr, arith, Option, none,
  some, [], ◌∷◌, ◌==◌, ltb, length, if◌then◌else◌, All, Bool-cases, Option-cases, ==_iff,
}
use validator_guardian.Text.{Text, strip_0x_prefix}
use validator_guardian.Outcome.{Outcome, ok, ok_inj}
use validator_guardian.External.Hex.{Hex}
use validator_guardian.Eth2.Types.{Version}
use validator_guardian.Enclave.Shared.{AppState}
use validator_guardian.Server.Startup.{
  u16_digits, parse_u16, setting, parse_fork_version, default_fork_version, start_with,
  start_secure_signer, start_guardian, start_validator,
}

abbrev pub IsDigit : ℕ → Type 0
IsDigit c = (48 ≤ c) × (c ≤ 57)

-- the number that decimal digits stand for after `acc`
unfoldable pub decimal : ℕ → Text → ℕ
decimal acc [] = acc
decimal acc (c ∷ t) = decimal (acc * 10 + (c - 48)) t

decimal-ge : (acc : ℕ) (t : Text) → acc ≤ decimal acc t
unfolding decimal
decimal-ge acc [] = omega arith
decimal-ge acc (c ∷ t) = omega (arith, decimal-ge (acc * 10 + (c - 48)) t)

u16_digits-eq :
    (acc : ℕ) (t : Text)
    → acc < 2 ^ 16
    → All IsDigit t
    → u16_digits acc t ≡ (if ltb (decimal acc t) (2 ^ 16) then some (decimal acc t) else none)
unfolding u16_digits decimal
u16_digits-eq acc [] h digits = ground arith
u16_digits-eq acc (c ∷ t) h (digit, digits) =
    let next = acc * 10 + (c - 48) in
    elim (Bool-cases (ltb next (2 ^ 16))) [
      | inl fits ↦ ground (arith, u16_digits-eq next t (ground arith) digits)
      | inr large ↦ ground (arith, decimal-ge next t)
    ]

-- A text of decimal digits parses to the number that they stand for if it is below 2 ^ 16.
parse_u16-eq-decimal :
    (c : ℕ) (t : Text)
    → All IsDigit (c ∷ t)
    → parse_u16 (c ∷ t)
      ≡ (if ltb (decimal 0 (c ∷ t)) (2 ^ 16) then some (decimal 0 (c ∷ t)) else none)
unfolding parse_u16
parse_u16-eq-decimal c [] digits = u16_digits-eq 0 (c ∷ []) (omega arith) digits
parse_u16-eq-decimal c (d ∷ t) digits =
    ground (arith, u16_digits-eq 0 (c ∷ d ∷ t) (omega arith) digits)

u16_digits-bound :
    (acc : ℕ) (t : Text) (n : ℕ) → acc < 2 ^ 16 → u16_digits acc t ≡ some n → n < 2 ^ 16
unfolding u16_digits
u16_digits-bound acc [] n h e = ground arith
u16_digits-bound acc (c ∷ t) n h e = ground (arith, u16_digits-bound (acc * 10 + (c - 48)) t n)

parse_u16-bound : (t : Text) (n : ℕ) → parse_u16 t ≡ some n → n < 2 ^ 16
unfolding parse_u16
parse_u16-bound [] n e = cc
parse_u16-bound (c ∷ []) n e = u16_digits-bound 0 (c ∷ []) n (omega arith) e
parse_u16-bound (c ∷ d ∷ t) n e = ground (
  arith,
  u16_digits-bound 0 (d ∷ t) n (omega arith),
  u16_digits-bound 0 (c ∷ d ∷ t) n (omega arith),
)

-- The variable goes before the argument, and both before the default.
pub data IsChosen (default : Text) : Option Text → Option Text → Text → Type 0 where
  of_variable : {arg : Option Text} (var : Text) → IsChosen default (some var) arg var
  of_argument : (arg : Text) → IsChosen default none (some arg) arg
  of_default : IsChosen default none none default

setting-IsChosen :
    (default : Text) (var arg : Option Text) → IsChosen default var arg (setting var arg default)
unfolding setting
setting-IsChosen default (some var) arg = of_variable var
setting-IsChosen default none (some arg) = of_argument arg
setting-IsChosen default none none = of_default

IsChosen-setting :
    (default : Text) (var arg : Option Text) (text : Text)
    → IsChosen default var arg text
    → setting var arg default ≡ text
unfolding setting
IsChosen-setting default var arg text (of_variable _) = refl
IsChosen-setting default var arg text (of_argument _) = refl
IsChosen-setting default var arg text of_default = refl

parse_u16-not_empty : (n : ℕ) → ¬ (parse_u16 [] ≡ some n)
unfolding parse_u16
parse_u16-not_empty n h = cc

parse_u16-decimal : (t : Text) (n : ℕ) → parse_u16 t ≡ some n → All IsDigit t → n ≡ decimal 0 t
parse_u16-decimal [] n h digits = absurd (parse_u16-not_empty n h)
parse_u16-decimal (c ∷ t) n h digits = ground (arith, parse_u16-eq-decimal c t digits)

module _ (hex : Hex) (port_var version_var port_arg version_arg : Option Text) where
  -- A server with this default port starts with this port and version: the port is the number that
  -- the chosen text reads as, and the version the four bytes of the chosen hex.
  pub record StartsWith (default_port : Text) (port : ℕ) (version : Version) : Type 0 where
    pub port_text : Text
    pub port_chosen : IsChosen default_port port_var port_arg port_text
    pub port_reads : parse_u16 port_text ≡ some port
    pub is_decimal : All IsDigit port_text → port ≡ decimal 0 port_text
    pub is_u16 : port < 65536
    pub version_text : Text
    pub version_chosen :
        IsChosen
          (b'0' ∷ b'0' ∷ b'0' ∷ b'0' ∷ b'0' ∷ b'0' ∷ b'0' ∷ b'0' ∷ [])
          version_var
          version_arg
          version_text
    pub version_hex : hex.decode (strip_0x_prefix version_text) ≡ some version
    pub has_four : length version ≡ 4

  start_with-StartsWith :
      (default_port : Text) (port : ℕ) (version : Version)
      → start_with hex default_port port_var version_var port_arg version_arg
        ≡ ok (port, record { genesis_fork_version = version })
      → StartsWith default_port port version
  unfolding start_with parse_fork_version
  start_with-StartsWith default_port port version h =
      let port_text = setting port_var port_arg default_port in
      let version_text = setting version_var version_arg default_fork_version in
      elim (Option-cases (parse_u16 port_text)) [
        | inl no_port ↦ absurd (ground (arith, no_port, h))
        | inr (p, parsed) ↦ elim (Option-cases (hex.decode (strip_0x_prefix version_text))) [
          | inl no_version ↦ absurd (ground (arith, parsed, no_version, h))
          | inr (bytes, decoded) ↦ elim (Bool-cases (length bytes == 4)) [
            | inr other ↦ absurd (ground (arith, parsed, decoded, other, h))
            | inl four ↦
                let result : Outcome (ℕ × AppState) =
                  ok (p, record { genesis_fork_version = bytes }) in
                let both : result ≡ ok (port, record { genesis_fork_version = version }) =
                  ground (arith, parsed, decoded, four, h) in
                let reads = parsed ∙ ap (λ r. some r.0) (ok_inj both) in
                let same : bytes ≡ version = ap (λ r. r.1.genesis_fork_version) (ok_inj both) in
                record {
                  port_text = port_text;
                  port_chosen = setting-IsChosen default_port port_var port_arg;
                  port_reads = reads;
                  is_decimal = parse_u16-decimal port_text port reads;
                  is_u16 = parse_u16-bound port_text port reads;
                  version_text = version_text;
                  version_chosen = setting-IsChosen default_fork_version version_var version_arg;
                  version_hex = decoded ∙ ap some same;
                  has_four = ap length (sym same) ∙ (==_iff (length bytes) 4).0 four;
                }
          ]
        ]
      ]

  StartsWith-start_with :
      (default_port : Text) (port : ℕ) (version : Version)
      → StartsWith default_port port version
      → start_with hex default_port port_var version_var port_arg version_arg
        ≡ ok (port, record { genesis_fork_version = version })
  unfolding start_with parse_fork_version
  StartsWith-start_with default_port port version s = ground (
    arith,
    IsChosen-setting default_port port_var port_arg s.port_text s.port_chosen,
    s.port_reads,
    IsChosen-setting default_fork_version version_var version_arg s.version_text s.version_chosen,
    s.version_hex,
    s.has_four,
  )

  start_with_iff :
      (default_port : Text) (port : ℕ) (version : Version)
      → (start_with hex default_port port_var version_var port_arg version_arg
          ≡ ok (port, record { genesis_fork_version = version }))
        ↔ StartsWith default_port port version
  start_with_iff default_port port version = (
    start_with-StartsWith default_port port version,
    StartsWith-start_with default_port port version,
  )

  -- Each server starts with a port and a fork version exactly if they are what the first of its
  -- variable, its argument and its default reads as: a port below 2 ^ 16, which is 9001 by default
  -- for the secure signer and 3031 for the guardian and the validator, and four bytes in hex, which
  -- are 0 by default.
  pub servers-StartsWith :
      (port : ℕ) (version : Version)
      → ((start_secure_signer hex port_var version_var port_arg version_arg
            ≡ ok (port, record { genesis_fork_version = version }))
          ↔ StartsWith (b'9' ∷ b'0' ∷ b'0' ∷ b'1' ∷ []) port version)
        × ((start_guardian hex port_var version_var port_arg version_arg
              ≡ ok (port, record { genesis_fork_version = version }))
            ↔ StartsWith (b'3' ∷ b'0' ∷ b'3' ∷ b'1' ∷ []) port version)
        × ((start_validator hex port_var version_var port_arg version_arg
              ≡ ok (port, record { genesis_fork_version = version }))
            ↔ StartsWith (b'3' ∷ b'0' ∷ b'3' ∷ b'1' ∷ []) port version)
  unfolding start_secure_signer start_guardian start_validator
  servers-StartsWith port version = (
    start_with_iff (b'9' ∷ b'0' ∷ b'0' ∷ b'1' ∷ []) port version,
    start_with_iff (b'3' ∷ b'0' ∷ b'3' ∷ b'1' ∷ []) port version,
    start_with_iff (b'3' ∷ b'0' ∷ b'3' ∷ b'1' ∷ []) port version,
  )
