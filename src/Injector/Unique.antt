-- ===== src/Injector/Unique.antt =====
-- About the skin domains of `AuthlibInjectorRoot` of authlib_injector.go.
use yggdrasil_authentication.Base.{
  ◌≡◌, refl, inl, inr, Bool, false, List, [], ◌∷◌, ◌++◌, ◌||◌, text_eq, text_beq_iff, Text, arith,
  Bool-cases,
}
use yggdrasil_authentication.Types.{Config, FallbackApiServer}
use yggdrasil_authentication.Util.{contains}
use yggdrasil_authentication.Util.Slices.{IsUnique, contains-append, append-IsUnique}
use yggdrasil_authentication.Injector.{add_domains, add_servers, skin_domains}

-- Some server has the domain.
abbrev pub listed : List FallbackApiServer → Text → Bool
listed [] d = false
listed (server ∷ servers) d = contains server.skin_domains d || listed servers d

add_domains-IsUnique : (xs ds : List Text) → IsUnique xs → IsUnique (add_domains xs ds)
unfolding add_domains
add_domains-IsUnique xs [] unique = unique
add_domains-IsUnique xs (d ∷ ds) unique = elim (Bool-cases (contains xs d)) [
  | inl old ↦ rw old (add_domains-IsUnique xs ds unique)
  | inr new ↦ rw new (add_domains-IsUnique (xs ++ d ∷ []) ds (append-IsUnique xs d unique new))
]

contains-add_domains :
    (xs ds : List Text) (e : Text) → contains (add_domains xs ds) e ≡ contains xs e || contains ds e
unfolding add_domains contains
contains-add_domains xs [] e = ground arith
contains-add_domains xs (d ∷ ds) e = elim (Bool-cases (contains xs d)) [
  | inl old ↦ ground (arith, old, contains-add_domains xs ds e, text_beq_iff d e)
  | inr new ↦
      ground (arith, new, contains-add_domains (xs ++ d ∷ []) ds e, contains-append xs (d ∷ []) e)
]

add_servers-IsUnique :
    (xs : List Text) (servers : List FallbackApiServer)
    → IsUnique xs
    → IsUnique (add_servers xs servers)
unfolding add_servers
add_servers-IsUnique xs [] unique = unique
add_servers-IsUnique xs (server ∷ servers) unique =
    add_servers-IsUnique (add_domains xs server.skin_domains) servers
      (add_domains-IsUnique xs server.skin_domains unique)

contains-add_servers :
    (xs : List Text) (servers : List FallbackApiServer) (d : Text)
    → contains (add_servers xs servers) d ≡ contains xs d || listed servers d
unfolding add_servers
contains-add_servers xs [] d = ground arith
contains-add_servers xs (server ∷ servers) d = ground (
  arith,
  contains-add_servers (add_domains xs server.skin_domains) servers d,
  contains-add_domains xs server.skin_domains d,
)

-- The skin domains that authlib-injector is told are the server's own domain and those of the
-- fallback servers, and none of them stands there twice.
pub skin_domains-IsUnique :
    (config : Config)
    → IsUnique (skin_domains config)
      × ((d : Text)
          → contains (skin_domains config) d
            ≡ contains (config.domain ∷ []) d || listed config.fallback_api_servers d)
unfolding skin_domains contains
skin_domains-IsUnique config = (
  add_servers-IsUnique _ config.fallback_api_servers (refl, tt),
  contains-add_servers _ config.fallback_api_servers,
)
