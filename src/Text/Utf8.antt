-- ===== src/Text/Utf8.antt =====
-- The test that `String::from_utf8` and `OsString::into_string` make.
use validator_guardian.Prelude.{ℕ, zero, suc, Bool, ◌&&◌, [], ◌∷◌, leb, ltb, ◌==◌, if◌then◌else◌}
use validator_guardian.Text.{Bytes}

-- How many bytes follow a first byte of UTF-8, and the bounds of the next of them. No first byte
-- has a next byte above 255.
unfoldable pub utf8_lead : ℕ → ℕ × (ℕ × ℕ)
utf8_lead b =
    if ltb b 128
    then (0, (128, 191))
    else if leb 194 b && leb b 223
    then (1, (128, 191))
    else if b == 224
    then (2, (160, 191))
    else if b == 237
    then (2, (128, 159))
    else if leb 225 b && leb b 239
    then (2, (128, 191))
    else if b == 240
    then (3, (144, 191))
    else if leb 241 b && leb b 243
    then (3, (128, 191))
    else if b == 244
    then (3, (128, 143))
    else (1, (256, 256))

-- `n` bytes of a character are still to come, and the next lies within the bounds
unfoldable pub is_utf8_from : ℕ → ℕ → ℕ → Bytes → Bool
is_utf8_from n lo hi [] = n == 0
is_utf8_from zero lo hi (b ∷ bs) = let (n, (lo', hi')) = utf8_lead b in is_utf8_from n lo' hi' bs
is_utf8_from (suc n) lo hi (b ∷ bs) =
    let rest = is_utf8_from n 128 191 bs in leb lo b && leb b hi && rest

unfoldable pub is_utf8 : Bytes → Bool
is_utf8 bytes = is_utf8_from 0 128 191 bytes
