-- ===== src/Keys.antt =====
-- The public keys that the server accepts signatures of: their collection in `setup` of main.go, and
-- the handler of services.go that publishes them.
pub mod Published
use yggdrasil_authentication.Base.{
  ℕ, Bool, true, false, not, Option, none, some, List, [], ◌∷◌, ◌++◌, ◌==◌, nat_eq, Text, text,
  if◌then◌else◌,
}
use yggdrasil_authentication.Types.{
  Result, ok, err, Error, errors_new, FallbackApiServer, SerializedKey, PublicKeysResponse,
  public_keys, json,
}
use yggdrasil_authentication.Platform.{Platform}
use yggdrasil_authentication.Action.{
  App, Action, Handler, World, Exit, next, reply, fail, panic, ◌>>=◌, pure, respond, or_return,
  http_get,
}

module _ ⦃P : Platform⦄ where
  -- `ContainsPublicKey`.
  unfoldable pub contains_public_key : List P.PublicKey → P.PublicKey → Bool
  contains_public_key [] target = false
  contains_public_key (el ∷ slice) target =
      if P.key_equal el target then true else contains_public_key slice target

  -- `SerializedKeyToPublicKey`.
  unfoldable pub serialized_key_to_public_key : SerializedKey → Result P.PublicKey
  serialized_key_to_public_key serialized_key = elim (P.base64_decode serialized_key.public_key) [
    | err e ↦ err e
    | ok public_key_der ↦ elim (P.parse_pkix_public_key public_key_der) [
      | err e ↦ err e
      | ok none ↦ err (errors_new (text "not an RSA public key"))
      | ok (some public_key) ↦ ok public_key
    ]
  ]

  -- One round of a loop over the keys of a response, and the loop.
  unfoldable pub add_key : List P.PublicKey → Result P.PublicKey → List P.PublicKey
  add_key keys (err e) = keys
  add_key keys (ok public_key) =
      if contains_public_key keys public_key then keys else keys ++ public_key ∷ []

  unfoldable pub add_keys : List P.PublicKey → List SerializedKey → List P.PublicKey
  add_keys keys [] = keys
  add_keys keys (serialized_key ∷ serialized_keys) =
      add_keys (add_key keys (serialized_key_to_public_key serialized_key)) serialized_keys

  -- `profilePropertyKeys` and `playerCertificateKeys`.
  pub record CollectedKeys : Type 0 where
    pub profile_property_keys : List P.PublicKey
    pub player_certificate_keys : List P.PublicKey

  -- The keys that a fallback server sends: none where it cannot be read. An error of `Unwrap` ends
  -- the program; it is an error here.
  unfoldable pub ask_keys : FallbackApiServer → Action (Option PublicKeysResponse)
  ask_keys server = do
    req_url ← or_return (P.url_join_path server.services_url (text "publickeys" ∷ []))
    got ← http_get req_url
    elim got [
      | err e ↦ pure none
      | ok res ↦
          if not (res.status_code == 200) then pure none else elim (P.decode_public_keys res.body) [
            | err e ↦ pure none
            | ok public_keys_res ↦ pure (some public_keys_res)
          ]
    ]

  unfoldable pub add_response : CollectedKeys → Option PublicKeysResponse → CollectedKeys
  add_response keys none = keys
  add_response keys (some res) = record {
    profile_property_keys = add_keys keys.profile_property_keys res.profile_property_keys;
    player_certificate_keys = add_keys keys.player_certificate_keys res.player_certificate_keys;
  }

  -- The loop over the fallback servers.
  unfoldable pub ask_servers : CollectedKeys → List FallbackApiServer → Action CollectedKeys
  ask_servers keys [] = pure keys
  ask_servers keys (server ∷ servers) = do
    res ← ask_keys server
    ask_servers (add_response keys res) servers

  -- The keys that `setup` collects, the server's own first.
  unfoldable pub collect_keys : App P → Action CollectedKeys
  collect_keys app =
      ask_servers
        (record {
          profile_property_keys = P.public app.key ∷ [];
          player_certificate_keys = P.public app.key ∷ [];
        })
        app.config.fallback_api_servers

  -- A loop of `ServicesPublicKeys`.
  unfoldable pub serialize_keys : List P.PublicKey → Result (List SerializedKey)
  serialize_keys [] = ok []
  serialize_keys (key ∷ keys) = elim (P.marshal_pkix_public_key key) [
    | err e ↦ err e
    | ok public_key_der ↦ elim (serialize_keys keys) [
      | err e ↦ err e
      | ok serialized_keys ↦
          ok (record { public_key = P.base64_encode public_key_der } ∷ serialized_keys)
    ]
  ]

  -- `ServicesPublicKeys`, whose two loops go over the same keys.
  unfoldable pub services_public_keys : CollectedKeys → Handler
  services_public_keys keys = do
    serialized_profile_property_keys ← or_return (serialize_keys keys.profile_property_keys)
    serialized_player_certificate_keys ← or_return (serialize_keys keys.profile_property_keys)
    respond (
        json 200 (
          public_keys (record {
            player_certificate_keys = serialized_player_certificate_keys;
            profile_property_keys = serialized_profile_property_keys;
          })))
