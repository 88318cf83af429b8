-- ===== src/Certificates/Signed.antt =====
-- About `ServicesPlayerCertificates` of services.go.
use yggdrasil_authentication.Base.{
  zero, suc, ◌+◌, ◌≡◌, ◌≢◌, ◌↔◌, refl, ap, true, some, List, [], ◌∷◌, ◌++◌, Text, text, length,
  length-append, get_elem?, arith,
}
use yggdrasil_authentication.Base.Int.{unsigned64}
use yggdrasil_authentication.Types.{
  Time, ok, User, Client, stale_policy_allow, PlayerCertificatesResponse, player_certificates, json,
}
use yggdrasil_authentication.Platform.{Platform}
use yggdrasil_authentication.Action.{App, World, next, reply}
use yggdrasil_authentication.Random.{hex_encode}
use yggdrasil_authentication.Util.Lines.{Cut, join_lines, wrap_lines}
use yggdrasil_authentication.Model.Ids.{uuid_to_id}
use yggdrasil_authentication.Model.Tokens.{get_client}
use yggdrasil_authentication.Services.{bearer_token, with_bearer_authentication}
use yggdrasil_authentication.Certificates.Numbers.{
  AreBytes, strip_zeros, put_uint64, big_int_bytes-hex_encode, length-strip_zeros,
}
use yggdrasil_authentication.Certificates.{
  unix_milli, remove_newlines, mojang_pem, signed_data, signed_data_v2, sign_base64,
  certificate_expiry, certificate_signatures, services_player_certificates,
}

-- The buffer that a game checks the second signature of: the player's UUID, the instant at which the
-- key expires, and the key.
abbrev pub key_buffer : Text → Time → Text → Text
key_buffer uuid expires_at der = uuid ++ (put_uint64 (unsigned64 (unix_milli expires_at)) ++ der)

strip_zeros_shorter :
    (uuid rest : Text) → get_elem? uuid 0 ≡ some 0 → strip_zeros uuid ++ rest ≢ uuid ++ rest
unfolding strip_zeros
strip_zeros_shorter [] rest h e = ground (arith, h)
strip_zeros_shorter (zero ∷ uuid) rest h e = omega (
  arith,
  ap length e,
  length-append (strip_zeros uuid) rest,
  length-append uuid rest,
  length-strip_zeros uuid,
)
strip_zeros_shorter (suc b ∷ uuid) rest h e = ground (arith, h)

strip_zeros_whole : (uuid : Text) → get_elem? uuid 0 ≢ some 0 → strip_zeros uuid ≡ uuid
unfolding strip_zeros
strip_zeros_whole [] h = refl
strip_zeros_whole (zero ∷ uuid) h = absurd (h refl)
strip_zeros_whole (suc b ∷ uuid) h = refl

module _ ⦃P : Platform⦄ where
  module _ (user : User) (uuid : Text) (expires_at : Time) (der : Text) (bytes : AreBytes uuid)
      (id : uuid_to_id user.uuid ≡ ok (hex_encode uuid)) where
    signed_data_v2_lem :
        signed_data_v2 user expires_at der
        ≡ ok (strip_zeros uuid ++ (put_uint64 (unsigned64 (unix_milli expires_at)) ++ der))
    unfolding signed_data_v2
    signed_data_v2_lem = ground (arith, id, big_int_bytes-hex_encode uuid bytes)

    -- What the second signature of a certificate is made of is the buffer that a game checks it for
    -- exactly when the first byte of the player's UUID is not zero.
    pub signed_data_v2-key_buffer :
        (signed_data_v2 user expires_at der ≡ ok (key_buffer uuid expires_at der))
        ↔ (get_elem? uuid 0 ≢ some 0)
    signed_data_v2-key_buffer = (
      λ same first.
          strip_zeros_shorter uuid (put_uint64 (unsigned64 (unix_milli expires_at)) ++ der) first
            (ground (arith, same, signed_data_v2_lem)),
      λ first. ground (arith, signed_data_v2_lem, strip_zeros_whole uuid first),
    )

module _ ⦃P : Platform⦄ (app : App P) where
  -- Both signatures can be checked against the key and the instant that are sent with them.
  pub record IsSigned (uuid : Text) (r : PlayerCertificatesResponse) : Type 0 where
    pub key : P.PrivateKey
    pub der : Text
    pub lines : List Text
    pub signature : Text
    pub signature_v2 : Text
    pub marshalled : P.marshal_pkix_public_key (P.public key) ≡ ok der
    pub public_key : r.key_pair.public_key ≡ P.pem_encode (text "RSA PUBLIC KEY") der
    pub wrapped : Cut 76 (remove_newlines (P.base64_encode der)) lines
    pub signs :
        P.sign_pkcs1v15_sha1 app.key
          (P.format_int (unix_milli r.expires_at) ++ mojang_pem (join_lines lines))
        ≡ ok signature
    pub signs_v2 : P.sign_pkcs1v15_sha1 app.key (key_buffer uuid r.expires_at der) ≡ ok signature_v2
    pub sent : r.public_key_signature ≡ P.base64_encode signature
    pub sent_v2 : r.public_key_signature_v2 ≡ P.base64_encode signature_v2

  module _ (path header token uuid : Text) (client : Client) (user : User) (w before : World P)
      (key : P.PrivateKey) (private_der der : Text) (bears : bearer_token header ≡ some token)
      (accepted : get_client app token stale_policy_allow w ≡ (next (some (client, user)), before))
      (wanted : app.config.sign_public_keys ≡ true)
      (id : uuid_to_id user.uuid ≡ ok (hex_encode uuid)) (bytes : AreBytes uuid)
      (first : get_elem? uuid 0 ≢ some 0) (generated : P.generate_key before.moment 2048 ≡ ok key)
      (marshalled_private : P.marshal_pkcs8_private_key key ≡ ok private_der)
      (marshalled : P.marshal_pkix_public_key (P.public key) ≡ ok der)
      (signs : (s : Text)
        → (signature : Text) × (P.sign_pkcs1v15_sha1 app.key s ≡ ok signature)) where
    abbrev at : Time
    at = P.clock (before.moment + 1)

    abbrev expires_at : Time
    expires_at = certificate_expiry app at

    -- If the token of a user is accepted, signatures are wanted, the first byte of the user's UUID
    -- is not zero, and no call of the RSA library fails, then the answer is a key pair with two
    -- signatures of the server's key: one of the instant at which the key expires and the key, cut
    -- into lines of 76 bytes, and one of the buffer that a game checks it for.
    pub services_player_certificates-IsSigned :
        (r : PlayerCertificatesResponse) × ((services_player_certificates app path header w).0
          ≡ reply (json 200 (player_certificates r)))
        × IsSigned uuid r
    unfolding services_player_certificates with_bearer_authentication certificate_signatures
        sign_base64 signed_data
    services_player_certificates-IsSigned =
        let (lines, wraps, cut) =
          wrap_lines (remove_newlines (P.base64_encode der)) 76 (omega arith) in
        let (signature, signed) =
          signs (P.format_int (unix_milli expires_at) ++ mojang_pem (join_lines lines)) in
        let (signature_v2, signed_v2) = signs (key_buffer uuid expires_at der) in
        let data_v2 = (signed_data_v2-key_buffer user uuid expires_at der bytes id).1 first in
        (
          record {
            key_pair = record {
              private_key = P.pem_encode (text "RSA PRIVATE KEY") private_der;
              public_key = P.pem_encode (text "RSA PUBLIC KEY") der;
            };
            public_key_signature = P.base64_encode signature;
            public_key_signature_v2 = P.base64_encode signature_v2;
            expires_at = expires_at;
            refreshed_after = at;
          },
          ground (
            arith, bears, accepted, wanted, generated, marshalled_private, marshalled, wraps,
            signed, signed_v2, data_v2,
          ),
          record {
            key = key;
            der = der;
            lines = lines;
            signature = signature;
            signature_v2 = signature_v2;
            marshalled = marshalled;
            public_key = refl;
            wrapped = cut;
            signs = signed;
            signs_v2 = signed_v2;
            sent = refl;
            sent_v2 = refl;
          },
        )
