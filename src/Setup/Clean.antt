-- ===== src/Setup/Clean.antt =====
-- About `CleanConfig` of config.go.
use yggdrasil_authentication.Base.{
  ◌≡◌, ◌≢◌, ◌⊎◌, inl, inr, Bool-cases, refl, Bool, true, false, ◌&&◌, Option, none, some, List, [],
  ◌∷◌, ◌==◌, nat_eq, text_eq, if◌then◌else◌, ℕ, text_beq, text_beq_iff, Text, arith,
}
use yggdrasil_authentication.Types.{
  Result, ok, err, Error, Config, FallbackApiServer, RegistrationExistingPlayerConfig,
}
use yggdrasil_authentication.Model.Language.{is_valid_preferred_language}
use yggdrasil_authentication.Platform.{Platform}
use yggdrasil_authentication.Util.{contains}
use yggdrasil_authentication.Setup.{
  ◌>>=◌, trim_right, require, clean_url, check_skin_domains, clean_fallback_api_server,
  clean_fallback_api_servers, clean_existing_player, clean_config, check_language,
  open_data_directory,
}

-- A text ends in "/".
abbrev pub ends_in_slash : Text → Bool
ends_in_slash [] = false
ends_in_slash (c ∷ []) = c == b'/'
ends_in_slash (c ∷ d ∷ s) = ends_in_slash (d ∷ s)

trim_cons :
    (c : ℕ) (t : Text)
    → ends_in_slash t ≡ false
    → ends_in_slash (if c == b'/' && t == [] then [] else c ∷ t) ≡ false
unfolding text_beq
trim_cons c [] h = ground arith
trim_cons c (d ∷ t) h = ground arith

trim_right_lem : (s : Text) → ends_in_slash (trim_right s) ≡ false
unfolding trim_right
trim_right_lem [] = refl
trim_right_lem (c ∷ s) = trim_cons c (trim_right s) (trim_right_lem s)

bind_ok {ℓ κ} :
    {A : Type ℓ} {B : Type κ} (r : Result A) (f : A → Result B) {b : B}
    → (r >>= f) ≡ ok b
    → (a : A) × (r ≡ ok a) × (f a ≡ ok b)
bind_ok (ok a) f h = (a, refl, h)
bind_ok (err e) f h = cc

module _ ⦃P : Platform⦄ where
  -- A URL was given, parses, and was trimmed.
  pub record IsCleaned (url cleaned : Text) : Type 0 where
    pub given : url ≢ []
    pub parses : P.url_parse url ≡ none
    pub trimmed : cleaned ≡ trim_right url
    pub no_slash : ends_in_slash cleaned ≡ false

  url_parsed :
      (blank invalid url cleaned : Text)
      → clean_url blank invalid url ≡ ok cleaned
      → (e : Option Error) → P.url_parse url ≡ e
      → url ≢ []
      → IsCleaned url cleaned
  unfolding clean_url require
  url_parsed blank invalid url cleaned h (some e) p given =
      absurd (ground (arith, p, h, text_beq_iff url []))
  url_parsed blank invalid url cleaned h none p given =
      let same : cleaned ≡ trim_right url = ground (arith, p, h, text_beq_iff url []) in
      record { given = given; parses = p; trimmed = same; no_slash = rw same (trim_right_lem url) }

  clean_url-IsCleaned :
      (blank invalid url cleaned : Text)
      → clean_url blank invalid url ≡ ok cleaned
      → IsCleaned url cleaned
  unfolding clean_url require
  clean_url-IsCleaned blank invalid url cleaned h =
      url_parsed blank invalid url cleaned h _ refl (λ e. ground (arith, h, e, text_beq_iff url []))

  -- A fallback server before and after.
  pub record IsCleanServer (before after : FallbackApiServer) : Type 0 where
    pub nickname : before.nickname ≢ []
    pub account : IsCleaned before.account_url after.account_url
    pub session : IsCleaned before.session_url after.session_url
    pub services : IsCleaned before.services_url after.services_url
    pub rest : after ≡ record before {
      account_url = after.account_url;
      session_url = after.session_url;
      services_url = after.services_url;
    }
    pub skin_domains : contains before.skin_domains [] ≡ false

  require_given : (s message : Text) {u : Unit} → require s message ≡ ok u → s ≢ []
  unfolding require
  require_given s message h e = ground (arith, h, e, text_beq_iff s [])

  skin_domains_given :
      (nickname : Text) (ds : List Text) {u : Unit}
      → check_skin_domains nickname ds ≡ ok u
      → contains ds [] ≡ false
  unfolding check_skin_domains contains
  skin_domains_given nickname [] h = refl
  skin_domains_given nickname (d ∷ ds) h = ground (arith, h, skin_domains_given nickname ds)

  clean_server :
      (before after : FallbackApiServer)
      → clean_fallback_api_server before ≡ ok after
      → IsCleanServer before after
  unfolding clean_fallback_api_server
  clean_server before after h =
      let (_, named, h) = bind_ok (require before.nickname _) _ h in
      let (account_url, account, h) = bind_ok (clean_url _ _ before.account_url) _ h in
      let (session_url, session, h) = bind_ok (clean_url _ _ before.session_url) _ h in
      let (services_url, services, h) = bind_ok (clean_url _ _ before.services_url) _ h in
      let (_, domains, h) = bind_ok (check_skin_domains _ before.skin_domains) _ h in
      let same : after ≡ record before {
        account_url = account_url;
        session_url = session_url;
        services_url = services_url;
      } =
        cc in
      rw same (record {
        nickname = require_given _ _ named;
        account = clean_url-IsCleaned _ _ _ _ account;
        session = clean_url-IsCleaned _ _ _ _ session;
        services = clean_url-IsCleaned _ _ _ _ services;
        rest = refl;
        skin_domains = skin_domains_given _ _ domains;
      })

  -- The fallback servers before and after.
  pub data AreCleanServers : List FallbackApiServer → List FallbackApiServer → Type 0 where
    no_servers : AreCleanServers [] []
    and_server :
        {before after : FallbackApiServer} {befores afters : List FallbackApiServer}
        → IsCleanServer before after
        → AreCleanServers befores afters
        → AreCleanServers (before ∷ befores) (after ∷ afters)

  clean_servers :
      (befores : List FallbackApiServer) {afters : List FallbackApiServer}
      → clean_fallback_api_servers befores ≡ ok afters
      → AreCleanServers befores afters
  unfolding clean_fallback_api_servers
  clean_servers [] {afters} h = let same : afters ≡ [] = cc in rw same no_servers
  clean_servers (before ∷ befores) {afters = all} h =
      let (after, first, h) = bind_ok (clean_fallback_api_server before) _ h in
      let (afters, others, h) = bind_ok (clean_fallback_api_servers befores) _ h in
      let same : all ≡ after ∷ afters = cc in
      rw same (and_server (clean_server before after first) (clean_servers befores others))

  -- The server of existing players before and after, if registration from there is allowed.
  pub record IsCleanExisting (before after : RegistrationExistingPlayerConfig) : Type 0 where
    pub nickname : before.nickname ≢ []
    pub session : IsCleaned before.session_url after.session_url
    pub account : IsCleaned before.account_url after.account_url
    pub rest :
        after ≡ record before { session_url = after.session_url; account_url = after.account_url }

  -- The same whether it is allowed, or it is not and nothing changes.
  abbrev pub IsExisting :
      RegistrationExistingPlayerConfig → RegistrationExistingPlayerConfig → Type 0
  IsExisting before after =
      ((before.allow ≡ true) × IsCleanExisting before after)
      ⊎ ((before.allow ≡ false) × (after ≡ before))

  -- The configuration before and after.
  pub record IsCleanConfig (before after : Config) : Type 0 where
    pub base : IsCleaned before.base_url after.base_url
    pub language : is_valid_preferred_language after.default_preferred_language ≡ true
    pub domain : after.domain ≢ []
    pub instance_name : after.instance_name ≢ []
    pub listen_address : after.listen_address ≢ []
    pub existing_player :
        IsExisting before.registration_existing_player after.registration_existing_player
    pub servers : AreCleanServers before.fallback_api_servers after.fallback_api_servers
    pub rest : after ≡ record before {
      base_url = after.base_url;
      registration_existing_player = after.registration_existing_player;
      fallback_api_servers = after.fallback_api_servers;
    }

  clean_existing_player-IsExisting :
      (before after : RegistrationExistingPlayerConfig)
      → clean_existing_player before ≡ ok after
      → IsExisting before after
  unfolding clean_existing_player
  clean_existing_player-IsExisting before after h = elim (Bool-cases before.allow) [
    | inl allow ↦
        (let h = rw allow at h in
          let (_, named, h) = bind_ok (require before.nickname _) _ h in
          let (session_url, session, h) = bind_ok (clean_url _ _ before.session_url) _ h in
          let (account_url, account, h) = bind_ok (clean_url _ _ before.account_url) _ h in
          let same : after
              ≡ record before { session_url = session_url; account_url = account_url } =
            cc in
          inl (
            allow,
            rw same (record {
              nickname = require_given _ _ named;
              session = clean_url-IsCleaned _ _ _ _ session;
              account = clean_url-IsCleaned _ _ _ _ account;
              rest = refl;
            }),
          ))
    | inr closed ↦ inr (closed, ground (arith, h, closed))
  ]

  language_valid :
      (language : Text) {u : Unit}
      → check_language language ≡ ok u
      → is_valid_preferred_language language ≡ true
  unfolding check_language
  language_valid language h = ground (arith, h)

  -- If `CleanConfig` returns no error, then the base URL, the URLs of each fallback server and, if it
  -- is allowed, those of the server of existing players were given and parse, and have lost each "/"
  -- at their end; the default language is valid; the domain, the instance's name, the listen address,
  -- each nickname of a fallback server and, if it is allowed, that of the server of existing players
  -- are not blank, and no skin domain of a fallback server is; and nothing else of the configuration,
  -- of a fallback server or of the server of existing players is changed.
  pub clean_config-IsCleanConfig :
      (files : P.Files) (before after : Config)
      → clean_config files before ≡ ok after
      → IsCleanConfig before after
  unfolding clean_config
  clean_config-IsCleanConfig files before after h =
      let (base_url, base, h) = bind_ok (clean_url _ _ before.base_url) _ h in
      let (_, language, h) = bind_ok (check_language before.default_preferred_language) _ h in
      let (_, domain, h) = bind_ok (require before.domain _) _ h in
      let (_, instance_name, h) = bind_ok (require before.instance_name _) _ h in
      let (_, listen_address, h) = bind_ok (require before.listen_address _) _ h in
      let (_, opened, h) = bind_ok (open_data_directory before.data_directory files) _ h in
      let (existing, player, h) =
        bind_ok (clean_existing_player before.registration_existing_player) _ h in
      let (servers, cleaned, h) =
        bind_ok (clean_fallback_api_servers before.fallback_api_servers) _ h in
      let same : after ≡ record before {
        base_url = base_url;
        registration_existing_player = existing;
        fallback_api_servers = servers;
      } =
        cc in
      rw same (record {
        base = clean_url-IsCleaned _ _ _ _ base;
        language = language_valid _ language;
        domain = require_given _ _ domain;
        instance_name = require_given _ _ instance_name;
        listen_address = require_given _ _ listen_address;
        existing_player =
            clean_existing_player-IsExisting before.registration_existing_player existing player;
        servers = clean_servers _ cleaned;
        rest = refl;
      })
