-- ===== src/Certificates.antt =====
-- The key pairs for signed chat: `ServicesPlayerCertificates` of services.go.
pub mod Numbers
pub mod Signed
use yggdrasil_authentication.Base.{
  ℕ, ◌+◌, ◌/◌, ◌^◌, Bool, Option, none, some, List, [], ◌∷◌, ◌++◌, ◌==◌, nat_eq, Text, text,
  if◌then◌else◌,
}
use yggdrasil_authentication.Base.Int.{ℤ, pos, negsuc, unsigned64, ltb_ℤ, ◌+ℤ◌}
use yggdrasil_authentication.Types.{Time, Result, ok, err, User, player_certificates, json}
use yggdrasil_authentication.Platform.{Platform}
use yggdrasil_authentication.Action.{
  App, Action, Handler, World, Exit, next, reply, fail, panic, ◌>>=◌, pure, respond, or_return,
  deref, now, generate_key,
}
use yggdrasil_authentication.Util.{wrap}
use yggdrasil_authentication.Model.Ids.{uuid_to_id}
use yggdrasil_authentication.Model.Tokens.{distant_future, duration_seconds}
use yggdrasil_authentication.Services.{with_bearer_authentication}
use yggdrasil_authentication.Certificates.Numbers.{big_int_bytes, put_uint64}

-- `UnixMilli` of an instant in nanoseconds, which rounds down.
unfoldable pub unix_milli : Time → ℤ
unix_milli (pos n) = pos (n / 10 ^ 6)
unix_milli (negsuc n) = negsuc (n / 10 ^ 6)

-- `strings.ReplaceAll(s, "\n", "")`.
unfoldable pub remove_newlines : Text → Text
remove_newlines [] = []
remove_newlines (c ∷ s) = if c == 10 then remove_newlines s else c ∷ remove_newlines s

-- The text between the lines of a PEM block.
abbrev pub mojang_pem : Text → Text
mojang_pem body =
    text "-----BEGIN RSA PUBLIC KEY-----\n" ++ (body ++ text "\n-----END RSA PUBLIC KEY-----\n")

module _ ⦃P : Platform⦄ where
  -- `signedData`; `Wrap` ends, since 76 is positive.
  unfoldable pub signed_data : Time → Text → Option Text
  signed_data expires_at pub_der = elim (wrap (remove_newlines (P.base64_encode pub_der)) 76) [
    | none ↦ none
    | some pub_base64_wrapped ↦
        some (P.format_int (unix_milli expires_at) ++ mojang_pem pub_base64_wrapped)
  ]

  -- `signedDataV2`.
  unfoldable pub signed_data_v2 : User → Time → Text → Result Text
  signed_data_v2 user expires_at pub_der = elim (uuid_to_id user.uuid) [
    | err e ↦ err e
    | ok user_id ↦
        ok (big_int_bytes user_id ++ (put_uint64 (unsigned64 (unix_milli expires_at)) ++ pub_der))
  ]

  -- `SignSHA1` of util.go, encoded in base 64.
  unfoldable pub sign_base64 : App P → Text → Result Text
  sign_base64 app plaintext = elim (P.sign_pkcs1v15_sha1 app.key plaintext) [
    | err e ↦ err e
    | ok signature ↦ ok (P.base64_encode signature)
  ]

  module _ (app : App P) where
    -- `expiresAt`, at the instant `now`.
    unfoldable pub certificate_expiry : Time → Time
    certificate_expiry at =
        if ltb_ℤ (pos 0) app.config.token_stale_sec
        then at +ℤ duration_seconds app.config.token_stale_sec
        else distant_future

    -- The two signatures, which are empty unless the configuration wants them.
    unfoldable pub certificate_signatures : User → Time → Text → Action (Text × Text)
    certificate_signatures user expires_at pub_der =
        if app.config.sign_public_keys
        then (do
          data_v1 ← deref (signed_data expires_at pub_der)
          signature ← or_return (sign_base64 app data_v1)
          data_v2 ← or_return (signed_data_v2 user expires_at pub_der)
          signature_v2 ← or_return (sign_base64 app data_v2)
          pure (signature, signature_v2))
        else pure ([], [])

    -- `ServicesPlayerCertificates`; the instants are formatted when they are written.
    unfoldable pub services_player_certificates : Text → Text → Handler
    services_player_certificates path header = with_bearer_authentication app path header λ user.
        (do
          key ← generate_key 2048 >>= or_return
          key_der ← or_return (P.marshal_pkcs8_private_key key)
          pub_der ← or_return (P.marshal_pkix_public_key (P.public key))
          at ← now
          let expires_at = certificate_expiry at
          signatures ← certificate_signatures user expires_at pub_der
          respond (
              json 200 (
                player_certificates (record {
                  key_pair = record {
                    private_key = P.pem_encode (text "RSA PRIVATE KEY") key_der;
                    public_key = P.pem_encode (text "RSA PUBLIC KEY") pub_der;
                  };
                  public_key_signature = signatures.0;
                  public_key_signature_v2 = signatures.1;
                  expires_at = expires_at;
                  refreshed_after = at;
                }))))
