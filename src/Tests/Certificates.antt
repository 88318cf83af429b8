-- ===== src/Tests/Certificates.antt =====
-- The theorems on player certificates, at a concrete server.
use yggdrasil_authentication.Base.{
  ◌≡◌, ◌≢◌, ◌↔◌, refl, some, [], ◌∷◌, ◌++◌, Text, text, text_beq, get_elem?, arith,
}
use yggdrasil_authentication.Base.Int.{pos}
use yggdrasil_authentication.Types.{ok, User, PlayerCertificatesResponse, player_certificates, json}
use yggdrasil_authentication.Action.{World, reply}
use yggdrasil_authentication.Random.{hex_encode}
use yggdrasil_authentication.Util.{contains}
use yggdrasil_authentication.Model.Ids.{uuid_to_id}
use yggdrasil_authentication.Model.Tokens.{get_client, client_of_claims, is_stale, duration_seconds}
use yggdrasil_authentication.Model.Tokens.Fresh.{claims_at}
use yggdrasil_authentication.Services.{bearer_token}
use yggdrasil_authentication.Certificates.{signed_data_v2, services_player_certificates}
use yggdrasil_authentication.Certificates.Signed.{
  key_buffer, signed_data_v2-key_buffer, IsSigned, services_player_certificates-IsSigned,
}
use yggdrasil_authentication.Tests.Memory.{platform, encode}
use yggdrasil_authentication.Tests.Sample.{app, steve, launcher, logged_in}

abbrev uuid : Text
uuid =
    0x12 ∷ 0x34 ∷ 0x56 ∷ 0x78 ∷ 0x12 ∷ 0x34 ∷ 0x12 ∷ 0x34 ∷ 0x12 ∷ 0x34 ∷ 0x12 ∷ 0x34 ∷ 0x56 ∷ 0x78
    ∷ 0x9a ∷ 0xbc ∷ []

abbrev zero_uuid : Text
zero_uuid =
    0 ∷ 0x34 ∷ 0x56 ∷ 0x78 ∷ 0x12 ∷ 0x34 ∷ 0x12 ∷ 0x34 ∷ 0x12 ∷ 0x34 ∷ 0x12 ∷ 0x34 ∷ 0x56 ∷ 0x78
    ∷ 0x9a ∷ 0xbc ∷ []

-- A player whose UUID starts with a byte that is zero.
abbrev herobrine : User
herobrine = record steve { uuid = text "00345678-1234-1234-1234-123456789abc" }

signed_data_v2-key_buffer_example :
    (signed_data_v2 herobrine (pos 0) (text "key") ≡ ok (key_buffer zero_uuid (pos 0) (text "key")))
    ↔ (get_elem? zero_uuid 0 ≢ some 0)
unfolding uuid_to_id hex_encode text
signed_data_v2-key_buffer_example =
    signed_data_v2-key_buffer herobrine zero_uuid (pos 0) (text "key") (omega arith) refl

abbrev token : Text
token = encode (claims_at app launcher logged_in)

abbrev seen : World platform
seen = record logged_in { moment = 1 }

services_player_certificates-IsSigned_example :
    (r : PlayerCertificatesResponse) × ((services_player_certificates app
        (text "/player/certificates")
        (text "Bearer " ++ token)
        logged_in).0
      ≡ reply (json 200 (player_certificates r)))
    × IsSigned app uuid r
unfolding bearer_token get_client client_of_claims is_stale duration_seconds contains text text_beq
    uuid_to_id hex_encode
services_player_certificates-IsSigned_example =
    services_player_certificates-IsSigned app (text "/player/certificates")
      (text "Bearer " ++ token) token uuid launcher steve logged_in seen tt (text "private") [] refl
      refl refl refl (omega arith) (ground arith) refl refl refl (λ s. (s, refl))
