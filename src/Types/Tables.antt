-- ===== src/Types/Tables.antt =====
-- The tables of model.go, Go's errors, and the claims of an access token.
use Prim.Native.Nat.{ℕ, ◌+◌, ◌%◌, ◌^◌}
use yggdrasil_authentication.Base.{Bool, Option, List, Text}
use yggdrasil_authentication.Base.Int.{ℤ}

-- `time.Time`: nanoseconds since the Unix epoch.
abbrev pub Time : Type 0
Time = ℤ

-- `sql.NullString`. The zero string stands beside `Valid: false`, as the program writes it.
pub record NullString : Type 0 where
  pub string : Text
  pub valid : Bool

-- A value of Go's `error`, as far as the program tells errors apart: gorm.ErrRecordNotFound,
-- an echo.HTTPError (its message is none where it is no string), and any other, by its text.
pub data Error : Type 0 where
  record_not_found : Error
  http_error : ℕ → Option Text → Error
  errors_new : Text → Error

-- A Go call's value and error.
pub data Result {ℓ} (A : Type ℓ) : Type ℓ where
  ok : A → Result A
  err : Error → Result A

-- `Client`. Its association `User`, which only a preloading query fills in, is returned beside it.
-- `Version` is an `int`: a bit pattern of 64 bits.
pub record Client : Type 0 where
  pub client_token : Text
  pub version : ℕ
  pub user_uuid : Text

pub record User : Type 0 where
  pub is_admin : Bool
  pub is_locked : Bool
  pub uuid : Text
  pub username : Text
  pub password_salt : Text
  pub password_hash : Text
  pub clients : List Client
  pub server_id : NullString
  pub player_name : Text
  pub offline_uuid : Text
  pub fallback_player : Text
  pub preferred_language : Text
  pub browser_token : NullString
  pub skin_hash : NullString
  pub skin_model : Text
  pub cape_hash : NullString
  pub created_at : Time
  pub name_last_changed_at : Time

pub record Invite : Type 0 where
  pub code : Text
  pub created_at : Time

-- `TokenClaims`, with the registered claims that the program writes or reads.
pub record TokenClaims : Type 0 where
  pub subject : Text
  pub issued_at : Time
  pub expires_at : Time
  pub issuer : Text
  pub version : ℕ
  pub stale_at : Option Time

pub data StaleTokenPolicy : Type 0 where
  stale_policy_allow stale_policy_deny : StaleTokenPolicy

-- `version + 1` on an `int`.
abbrev pub next_version : ℕ → ℕ
next_version v = (v + 1) % 2 ^ 64
