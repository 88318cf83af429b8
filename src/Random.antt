-- ===== src/Random.antt =====
-- `RandomHex` and `RandomBase62` of util.go.
use yggdrasil_authentication.Base.{ℕ, ◌+◌, ◌-◌, ◌/◌, ◌%◌, [], ◌∷◌, Text, ltb, if◌then◌else◌}
use yggdrasil_authentication.Types.{Result, ok, err}
use yggdrasil_authentication.Platform.{Platform}
use yggdrasil_authentication.Action.{Action, ◌>>=◌, pure, rand_read}

-- A hexadecimal digit.
unfoldable pub hex_digit : ℕ → ℕ
hex_digit d = if ltb d 10 then b'0' + d else b'a' + (d - 10)

-- `hex.EncodeToString`.
unfoldable pub hex_encode : Text → Text
unfolding hex_digit
hex_encode [] = []
hex_encode (b ∷ bytes) = hex_digit (b / 16) ∷ hex_digit (b % 16) ∷ hex_encode bytes

module _ ⦃P : Platform⦄ where
  -- `RandomHex`.
  unfoldable pub random_hex : ℕ → Action (Result Text)
  random_hex n =
      rand_read n >>= λ r. pure (elim r [ err e ↦ err e | ok bytes ↦ ok (hex_encode bytes) ])

  -- `RandomBase62`.
  unfoldable pub random_base62 : ℕ → Action (Result Text)
  random_base62 n =
      rand_read n >>= λ r. pure (elim r [ err e ↦ err e | ok bytes ↦ ok (P.base62_encode bytes) ])
