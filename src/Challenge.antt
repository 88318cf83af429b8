-- ===== src/Challenge.antt =====
-- The skin challenge of front.go: a player of another server shows that an account is theirs by
-- putting on a skin with the challenge in it.
pub mod Window
pub mod Roundtrip
pub mod Keeps
pub mod Shown
pub mod Verified
use yggdrasil_authentication.Base.{
  ℕ, zero, suc, ◌+◌, Bool, true, false, not, ◌&&◌, Option, none, some, List, [], ◌∷◌, ◌++◌, ◌==◌,
  nat_eq, text_eq, Text, text, get_elem?, leb, ltb, if◌then◌else◌,
}
use yggdrasil_authentication.Types.{Result, ok, err, Error, errors_new, SessionProfileProperty}
use yggdrasil_authentication.Platform.{Platform, Nrgba, HttpResponse}
use yggdrasil_authentication.Action.{
  App, Action, World, Exit, next, reply, fail, panic, ◌>>=◌, ◌>>◌, pure, or_return, return_error,
  http_get,
}
use yggdrasil_authentication.Model.Ids.{id_to_uuid}

-- SKIN_WINDOW_X_MIN and the like.
abbrev pub skin_window_x_min : ℕ
skin_window_x_min = 40

abbrev pub skin_window_x_max : ℕ
skin_window_x_max = 48

abbrev pub skin_window_y_min : ℕ
skin_window_y_min = 9

abbrev pub skin_window_y_max : ℕ
skin_window_y_max = 11

abbrev pub skin_size : ℕ
skin_size = 64

abbrev pub in_window : ℕ → ℕ → Bool
in_window x y =
    leb skin_window_y_min y
    && ltb y skin_window_y_max
    && leb skin_window_x_min x
    && ltb x skin_window_x_max

-- The numbers that a loop from `low` goes through in `count` rounds.
unfoldable pub range : ℕ → ℕ → List ℕ
range low zero = []
range low (suc count) = low ∷ range (low + 1) count

-- `challenge[i]`, which is in bounds: the window has 16 pixels and the challenge 64 bytes.
abbrev pub byte_at : Text → ℕ → ℕ
byte_at challenge i = elim (get_elem? challenge i) [ none ↦ 0 | some b ↦ b ]

abbrev pub color_at : Text → ℕ → Nrgba
color_at challenge i = record {
  r = byte_at challenge i;
  g = byte_at challenge (i + 1);
  b = byte_at challenge (i + 2);
  a = byte_at challenge (i + 3);
}

-- The account on the other server.
pub record ProxiedAccountDetails : Type 0 where
  pub username : Text
  pub uuid : Text

module _ ⦃P : Platform⦄ where
  -- One pixel of the loops in `FrontChallengeSkin`, with the image and `challengeByte`.
  unfoldable pub draw_pixel : Text → P.Image → ℕ → ℕ → P.Image × ℕ → P.Image × ℕ
  draw_pixel challenge skin y x (img, i) =
      if in_window x y
      then (P.set_nrgba x y (color_at challenge i) img, i + 4)
      else (P.set_nrgba x y (P.nrgba_at skin x y) img, i)

  -- The loop over `x`.
  unfoldable pub draw_row : Text → P.Image → ℕ → List ℕ → P.Image × ℕ → P.Image × ℕ
  draw_row challenge skin y [] state = state
  draw_row challenge skin y (x ∷ xs) state =
      draw_row challenge skin y xs (draw_pixel challenge skin y x state)

  -- The loop over `y`.
  unfoldable pub draw_rows : Text → P.Image → List ℕ → P.Image × ℕ → P.Image × ℕ
  draw_rows challenge skin [] state = state
  draw_rows challenge skin (y ∷ ys) state =
      draw_rows challenge skin ys (draw_row challenge skin y (range 0 skin_size) state)

  -- The image that `FrontChallengeSkin` makes of the verification skin.
  unfoldable pub draw_challenge : Text → P.Image → P.Image
  draw_challenge challenge skin =
      (draw_rows challenge skin (range 0 skin_size) (P.new_nrgba skin_size skin_size, 0)).0

  -- The loops of `validateChallenge` that read the window; the bytes fill `challenge` from its start.
  unfoldable pub read_row : P.Image → ℕ → List ℕ → Text
  read_row img y [] = []
  read_row img y (x ∷ xs) = let c = P.nrgba_at img x y in c.r ∷ c.g ∷ c.b ∷ c.a ∷ read_row img y xs

  unfoldable pub read_rows : P.Image → List ℕ → Text
  read_rows img [] = []
  read_rows img (y ∷ ys) = read_row img y (range skin_window_x_min 8) ++ read_rows img ys

  unfoldable pub read_challenge : P.Image → Text
  read_challenge img = read_rows img (range skin_window_y_min 2)

  module _ (app : App P) where
    -- `getChallenge`.
    unfoldable pub get_challenge : Text → Text → Text
    get_challenge username token =
        P.blake3_sum512 (username ++ (app.key_b3_sum512 ++ (token ++ [])))

    -- The URL of a request of `validateChallenge`; the error of parsing the base is given to `wrap`.
    unfoldable pub request_url : (Error → Error) → Text → Text → Result Text
    request_url wrap base path = elim (P.parse_url base) [
      | err e ↦ err (wrap e)
      | ok url ↦ elim (P.url_join_path (P.url_path url) (path ∷ [])) [
        | err e ↦ err e
        | ok joined ↦ ok (P.url_string (P.with_path url joined))
      ]
    ]

    -- A request of `validateChallenge` that has to be answered with 200.
    unfoldable pub get_ok : Result Text → Action Text
    get_ok requested = do
      url ← or_return requested
      res ← http_get url >>= or_return
      (if not (res.status_code == 200)
          then return_error (errors_new (text "registration server returned error"))
          else pure res.body)

    -- The check of the skin that an address gives.
    unfoldable pub check_skin : Text → Text → Action (Unit {0})
    check_skin correct_challenge url = do
      res ← http_get url >>= or_return
      decoded ← or_return (P.png_decode res.body)
      elim decoded [
        | none ↦ return_error (errors_new (text "invalid image"))
        | some img ↦
            if not (read_challenge img == correct_challenge)
            then return_error (errors_new (text "skin does not match"))
            else pure tt
      ]

    -- The check of the property of that name.
    unfoldable pub check_textures : Text → SessionProfileProperty → Action (Unit {0})
    check_textures correct_challenge property = do
      texture_json ← or_return (P.base64_decode property.value)
      texture ← or_return (P.unmarshal_textures texture_json)
      elim (texture.textures.skin) [
        | none ↦ return_error (errors_new (text "player does not have a skin"))
        | some skin ↦ check_skin correct_challenge skin.url
      ]

    -- The loop over the profile's properties.
    unfoldable pub verify_skin : Text → List SessionProfileProperty → Action (Unit {0})
    verify_skin correct_challenge [] =
        return_error (errors_new (text "registration server didn't return textures"))
    verify_skin correct_challenge (property ∷ properties) =
        let rest = verify_skin correct_challenge properties in
        if property.name == text "textures" then check_textures correct_challenge property else rest

    -- `fmt.Errorf("Invalid SessionURL %s: %s", …)`.
    abbrev pub invalid_session_url : Error → Error
    invalid_session_url e = errors_new (
        text "Invalid SessionURL "
        ++ (app.config.registration_existing_player.session_url ++ (text ": " ++ P.error_string e)))

    -- `validateChallenge`.
    unfoldable pub validate_challenge : Text → Text → Action ProxiedAccountDetails
    validate_challenge username challenge_token = do
      let servers = app.config.registration_existing_player
      player_body ←
          get_ok (
            request_url (λ e. e) servers.account_url (text "users/profiles/minecraft/" ++ username))
      id_res ← or_return (P.decode_player player_body)
      profile_body ← get_ok (
          request_url invalid_session_url servers.session_url
            (text "session/minecraft/profile/" ++ id_res.id))
      profile_res ← or_return (P.decode_profile profile_body)
      account_uuid ← or_return (id_to_uuid profile_res.id)
      let details : ProxiedAccountDetails = record {
        username = profile_res.name;
        uuid = account_uuid;
      }
      (if not servers.require_skin_verification
          then pure details
          else verify_skin (get_challenge username challenge_token) profile_res.properties
            >> pure details)
