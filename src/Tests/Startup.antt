-- ===== src/Tests/Startup.antt =====
-- Servers that start where the variable states port 8080.
use validator_guardian.Prelude.{◌≡◌, ◌↔◌, none, some, [], ◌∷◌, replicate}
use validator_guardian.Text.{Text}
use validator_guardian.Outcome.{ok}
use validator_guardian.Server.Startup.{start_secure_signer, start_guardian, start_validator}
use validator_guardian.Server.Startup.Ports.{StartsWith, servers-StartsWith}
use validator_guardian.Tests.HexWorld.{hex_world}

-- "8080"
abbrev port_8080 : Text
port_8080 = b'8' ∷ b'0' ∷ b'8' ∷ b'0' ∷ []

-- "3031"
abbrev port_3031 : Text
port_3031 = b'3' ∷ b'0' ∷ b'3' ∷ b'1' ∷ []

servers-StartsWith_example :
    ((start_secure_signer hex_world (some port_8080) none (some port_3031) none
        ≡ ok (8080, record { genesis_fork_version = replicate 4 0 }))
      ↔ StartsWith hex_world
          (some port_8080)
          none
          (some port_3031)
          none
          (b'9' ∷ b'0' ∷ b'0' ∷ b'1' ∷ [])
          8080
          (replicate 4 0))
    × ((start_guardian hex_world (some port_8080) none (some port_3031) none
          ≡ ok (8080, record { genesis_fork_version = replicate 4 0 }))
        ↔ StartsWith hex_world
            (some port_8080)
            none
            (some port_3031)
            none
            port_3031
            8080
            (replicate 4 0))
    × ((start_validator hex_world (some port_8080) none (some port_3031) none
          ≡ ok (8080, record { genesis_fork_version = replicate 4 0 }))
        ↔ StartsWith hex_world
            (some port_8080)
            none
            (some port_3031)
            none
            port_3031
            8080
            (replicate 4 0))
servers-StartsWith_example =
    servers-StartsWith hex_world (some port_8080) none (some port_3031) none 8080 (replicate 4 0)
