-- ===== src/Types/Responses.antt =====
-- The structs that the handlers send as JSON, and what a handler answers. The JSON text itself is
-- the work of encoding/json and is not modelled.
use yggdrasil_authentication.Base.{ℕ, Bool, Option, List, Text}
use yggdrasil_authentication.Base.Int.{ℤ}
use yggdrasil_authentication.Types.Tables.{User, Invite}

pub record ErrorResponse : Type 0 where
  pub path : Option Text
  pub error : Option Text
  pub error_message : Option Text

pub record Profile : Type 0 where
  pub id : Text
  pub name : Text

pub record Agent : Type 0 where
  pub name : Text
  pub version : ℕ

pub record UserProperty : Type 0 where
  pub name : Text
  pub value : Text

pub record UserResponse : Type 0 where
  pub id : Text
  pub properties : List UserProperty

pub record AuthenticateResponse : Type 0 where
  pub access_token : Text
  pub client_token : Text
  pub selected_profile : Option Profile
  pub available_profiles : Option (List Profile)
  pub user : Option UserResponse

pub record RefreshResponse : Type 0 where
  pub access_token : Text
  pub client_token : Text
  pub selected_profile : Profile
  pub available_profiles : List Profile
  pub user : Option UserResponse

pub record PlayerNameToUuidResponse : Type 0 where
  pub name : Text
  pub id : Text

pub record SessionProfileProperty : Type 0 where
  pub name : Text
  pub value : Text
  pub signature : Option Text

pub record SessionProfileResponse : Type 0 where
  pub id : Text
  pub name : Text
  pub properties : List SessionProfileProperty

pub record TextureMetadata : Type 0 where
  pub model : Text

pub record Texture : Type 0 where
  pub url : Text
  pub metadata : Option TextureMetadata

pub record TextureMap : Type 0 where
  pub skin : Option Texture
  pub cape : Option Texture

pub record TexturesValue : Type 0 where
  pub timestamp : ℤ
  pub profile_id : Text
  pub profile_name : Text
  pub textures : TextureMap

pub record ServicesProfileSkin : Type 0 where
  pub id : Text
  pub state : Text
  pub url : Text
  pub variant : Text

-- `none` is a nil slice, whose JSON is null.
pub record ServicesProfile : Type 0 where
  pub id : Text
  pub name : Text
  pub skins : Option (List ServicesProfileSkin)
  pub capes : Option (List Text)

pub record NameChangeResponse : Type 0 where
  pub changed_at : ℤ
  pub created_at : ℤ
  pub name_change_allowed : Bool

pub record ChangeNameErrorResponse : Type 0 where
  pub path : Text
  pub error_type : Text
  pub error : Text
  pub details : Option Text
  pub error_message : Text
  pub developer_message : Text

pub record SerializedKey : Type 0 where
  pub public_key : Text

pub record PublicKeysResponse : Type 0 where
  pub player_certificate_keys : List SerializedKey
  pub profile_property_keys : List SerializedKey

pub record PlayerCertificatesKeyPair : Type 0 where
  pub private_key : Text
  pub public_key : Text

pub record PlayerCertificatesResponse : Type 0 where
  pub key_pair : PlayerCertificatesKeyPair
  pub public_key_signature : Text
  pub public_key_signature_v2 : Text
  pub expires_at : ℤ
  pub refreshed_after : ℤ

pub record PlayerAttributesPrivileges : Type 0 where
  pub online_chat : Bool
  pub multiplayer_server : Bool
  pub multiplayer_realms : Bool
  pub telemetry : Bool
  pub optional_telemetry : Bool

-- The ban status has no field with content.
pub record PlayerAttributesResponse : Type 0 where
  pub privileges : PlayerAttributesPrivileges
  pub profanity_filter_on : Bool

pub record MsaMigrationResponse : Type 0 where
  pub feature : Text
  pub rollout : Bool

pub record ServerInfoResponse : Type 0 where
  pub status : Text
  pub runtime_mode : Text
  pub application_author : Text
  pub application_description : Text
  pub specification_version : Text
  pub implementation_version : Text
  pub application_owner : Text

pub record AuthlibInjectorLinks : Type 0 where
  pub homepage : Text
  pub register : Text

pub record AuthlibInjectorMeta : Type 0 where
  pub implementation_name : Text
  pub implementation_version : Text
  pub links : AuthlibInjectorLinks
  pub server_name : Text
  pub feature_enable_profile_key : Bool

pub record AuthlibInjectorResponse : Type 0 where
  pub meta : AuthlibInjectorMeta
  pub signature_publickey : Text
  pub signature_publickeys : List Text
  pub skin_domains : List Text

pub record WebManifestIcon : Type 0 where
  pub src : Text
  pub icon_type : Text
  pub sizes : Text

-- What `c.JSON` and `c.JSONBlob` are given.
pub data Body : Type 0 where
  error_response : ErrorResponse → Body
  authenticate_response : AuthenticateResponse → Body
  refresh_response : RefreshResponse → Body
  player_name_to_uuid : PlayerNameToUuidResponse → Body
  player_names_to_uuids : List PlayerNameToUuidResponse → Body
  session_profile : SessionProfileResponse → Body
  services_profile : ServicesProfile → Body
  name_change : NameChangeResponse → Body
  name_availability : Text → Body
  change_name_error : ChangeNameErrorResponse → Body
  public_keys : PublicKeysResponse → Body
  player_certificates : PlayerCertificatesResponse → Body
  player_attributes : PlayerAttributesResponse → Body
  blocklist : List Text → Body
  msa_migration : MsaMigrationResponse → Body
  server_info : ServerInfoResponse → Body
  authlib_injector : AuthlibInjectorResponse → Body
  web_manifest : List WebManifestIcon → Body

-- The messages that every page has.
pub record Messages : Type 0 where
  pub success : Text
  pub warning : Text
  pub error : Text

-- `rootContext`, the context of `FrontRegistration`, `adminContext`, `challengeSkinContext` and
-- `profileContext`, without the application and the URL of the request.
pub record RootContext : Type 0 where
  pub user : Option User
  pub messages : Messages

pub record RegistrationContext : Type 0 where
  pub user : Option User
  pub messages : Messages
  pub invite_code : Text

pub record AdminContext : Type 0 where
  pub user : User
  pub messages : Messages
  pub users : List User
  pub invites : List Invite

pub record ChallengeSkinContext : Type 0 where
  pub user : Option User
  pub messages : Messages
  pub username : Text
  pub skin_base64 : Text
  pub skin_filename : Text
  pub challenge_token : Text
  pub invite_code : Text

pub record ProfileContext : Type 0 where
  pub user : User
  pub messages : Messages
  pub profile_user : User
  pub profile_user_id : Text
  pub skin_url : Option Text
  pub cape_url : Option Text
  pub admin_view : Bool

-- What a handler writes: `c.NoContent`, `c.JSON`, `c.Blob` and `c.Stream` with the content type,
-- `c.String`, `c.Redirect`, and `c.Render`, a constructor for each template.
pub data Response : Type 0 where
  no_content : ℕ → Response
  json : ℕ → Body → Response
  blob : ℕ → Text → Text → Response
  string : ℕ → Text → Response
  redirect : ℕ → Text → Response
  render_root : ℕ → RootContext → Response
  render_registration : ℕ → RegistrationContext → Response
  render_admin : ℕ → AdminContext → Response
  render_challenge_skin : ℕ → ChallengeSkinContext → Response
  render_profile : ℕ → ProfileContext → Response
