-- ===== src/Tests/Keys.antt =====
-- The theorems on public keys, at a platform with one key.
use yggdrasil_authentication.Base.{◌≡◌, refl, true, ◌||◌, none, some, [], ◌∷◌, text}
use yggdrasil_authentication.Types.{FallbackApiServer, PublicKeysResponse, public_keys, json}
use yggdrasil_authentication.Base.Int.{pos}
use yggdrasil_authentication.Platform.Laws.{KeyLaws}
use yggdrasil_authentication.Action.{App, World, next, reply}
use yggdrasil_authentication.Keys.{
  CollectedKeys, contains_public_key, add_response, ask_servers, ask_keys, collect_keys,
  serialize_keys, services_public_keys,
}
use yggdrasil_authentication.Keys.Published.{services_public_keys-add_response}
use yggdrasil_authentication.Tests.Store.{store}
use yggdrasil_authentication.Tests.Sample.{config}

key_laws : KeyLaws store
key_laws = record {
  key_equal_iff = λ k l. (λ h. refl, λ h. refl);
  parse_marshal = λ k der h. refl;
  base64_decode-base64_encode = λ b. refl;
}

abbrev mojang : FallbackApiServer
mojang = record {
  nickname = text "Mojang";
  session_url = [];
  account_url = [];
  services_url = text "https://api.minecraftservices.com";
  skin_domains = [];
  cache_ttl_seconds = pos 600;
  deny_unknown_users = true;
}

abbrev app : App store
app = record {
  config = record config { fallback_api_servers = mojang ∷ [] };
  front_end_url = [];
  transient_username_regex = λ name. true;
  key = tt;
  key_b3_sum512 = [];
}

abbrev own : CollectedKeys
own = record { profile_property_keys = tt ∷ []; player_certificate_keys = tt ∷ [] }

abbrev start : World store
start = record {
  db = record {
    row = none;
    pending = none;
    invite = none;
    pending_invite = none;
    version = 1;
    pending_version = 1;
  };
  cache = [];
  files = tt;
  moment = 0;
  set_cookies = [];
}

collected : collect_keys app start ≡ (next own, record start { moment = 1 })
unfolding collect_keys ask_servers ask_keys add_response text
collected = refl

abbrev published : PublicKeysResponse
published = record {
  player_certificate_keys = record { public_key = [] } ∷ [];
  profile_property_keys = record { public_key = [] } ∷ [];
}

publishes : services_public_keys own start ≡ (reply (json 200 (public_keys published)), start)
unfolding services_public_keys serialize_keys
publishes = refl

services_public_keys-add_response_example :
    (contains_public_key (add_response own (some published)).profile_property_keys tt
      ≡ contains_public_key own.profile_property_keys tt
        || contains_public_key own.profile_property_keys tt)
    × (contains_public_key (add_response own (some published)).player_certificate_keys tt
        ≡ contains_public_key own.player_certificate_keys tt
          || contains_public_key own.profile_property_keys tt)
services_public_keys-add_response_example =
    services_public_keys-add_response key_laws own own published start start tt publishes
