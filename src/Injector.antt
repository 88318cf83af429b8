-- ===== src/Injector.antt =====
-- What authlib-injector is told: `AuthlibInjectorRoot` of authlib_injector.go.
pub mod Unique
use yggdrasil_authentication.Base.{
  Bool, true, List, [], ◌∷◌, ◌++◌, Text, text, text_eq, if◌then◌else◌,
}
use yggdrasil_authentication.Types.{
  Config, FallbackApiServer, Result, ok, err, json, authlib_injector,
}
use yggdrasil_authentication.Platform.{Platform}
use yggdrasil_authentication.Action.{App, Handler, ◌>>=◌, respond, or_return}
use yggdrasil_authentication.Keys.{CollectedKeys}
use yggdrasil_authentication.Util.{contains}

-- The inner loop: the domains of one server that are not in the list yet are appended.
unfoldable pub add_domains : List Text → List Text → List Text
add_domains skin_domains [] = skin_domains
add_domains skin_domains (d ∷ ds) =
    add_domains (if contains skin_domains d then skin_domains else skin_domains ++ d ∷ []) ds

-- The outer loop.
unfoldable pub add_servers : List Text → List FallbackApiServer → List Text
add_servers skin_domains [] = skin_domains
add_servers skin_domains (server ∷ servers) =
    add_servers (add_domains skin_domains server.skin_domains) servers

-- The domains in the response.
unfoldable pub skin_domains : Config → List Text
skin_domains config = add_servers (config.domain ∷ []) config.fallback_api_servers

-- `VERSION` of build_config.go.
abbrev pub version : Text
version = text "1.0.2"

module _ ⦃P : Platform⦄ where
  -- `authlibInjectorSerializeKey`.
  unfoldable pub authlib_injector_serialize_key : P.PublicKey → Result Text
  authlib_injector_serialize_key key = elim (P.marshal_pkix_public_key key) [
    | err e ↦ err e
    | ok pub_der ↦ ok (P.pem_encode (text "PUBLIC KEY") pub_der)
  ]

  -- The loop over the keys. An error of `Check` or `Unwrap` ends the program; it is an error here.
  unfoldable pub signature_public_keys : List P.PublicKey → Result (List Text)
  signature_public_keys [] = ok []
  signature_public_keys (key ∷ keys) = elim (authlib_injector_serialize_key key) [
    | err e ↦ err e
    | ok serialized ↦ elim (signature_public_keys keys) [
      | err e ↦ err e
      | ok rest ↦ ok (serialized ∷ rest)
    ]
  ]

  -- `AuthlibInjectorRoot`.
  unfoldable pub authlib_injector_root : App P → CollectedKeys → Handler
  authlib_injector_root app keys = do
    signature_publickey ← or_return (authlib_injector_serialize_key (P.public app.key))
    signature_publickeys ← or_return (signature_public_keys keys.profile_property_keys)
    register ← or_return (P.url_join_path app.front_end_url (text "drasl/registration" ∷ []))
    respond (
        json 200 (
          authlib_injector (record {
            meta = record {
              implementation_name = text "Drasl";
              implementation_version = version;
              links = record { homepage = app.front_end_url; register = register };
              server_name = app.config.instance_name;
              feature_enable_profile_key = true;
            };
            signature_publickey = signature_publickey;
            signature_publickeys = signature_publickeys;
            skin_domains = skin_domains app.config;
          })))
