-- ===== src/Challenge/Keeps.antt =====
-- About `validateChallenge` of front.go: it only reads.
use yggdrasil_authentication.Base.{
  ◌≡◌, refl, Option, none, some, List, [], ◌∷◌, text_eq, Text, text, arith,
}
use yggdrasil_authentication.Types.{
  Result, errors_new, SessionProfileProperty, Texture, TexturesValue,
}
use yggdrasil_authentication.Platform.{Platform}
use yggdrasil_authentication.Action.{App, Action, World, ◌>>=◌, or_return, return_error}
use yggdrasil_authentication.Action.Keeps.{bind-Keeps, or_return-Keeps}
use yggdrasil_authentication.Challenge.{
  get_ok, check_skin, check_textures, verify_skin, validate_challenge,
}

module _ ⦃P : Platform⦄ (app : App P) where
  get_ok_keeps : (r : Result Text) (w : World P) → (get_ok app r w).1.db ≡ w.db
  unfolding get_ok
  get_ok_keeps r w = ground arith

  check_skin_keeps : (c url : Text) (w : World P) → (check_skin app c url w).1.db ≡ w.db
  unfolding check_skin
  check_skin_keeps c url w = ground arith

  skin_of : Text → TexturesValue → Action (Unit {0})
  skin_of c texture = elim (texture.textures.skin) [
    | none ↦ return_error (errors_new (text "player does not have a skin"))
    | some skin ↦ check_skin app c skin.url
  ]

  skin_of_keeps :
      (c : Text) (texture : TexturesValue) (skin : Option Texture) (w : World P)
      → texture.textures.skin ≡ skin
      → (skin_of c texture w).1.db ≡ w.db
  unfolding skin_of
  skin_of_keeps c texture none w s = ground (arith, s)
  skin_of_keeps c texture (some skin) w s = ground (arith, s, check_skin_keeps c skin.url w)

  check_textures_keeps :
      (c : Text) (p : SessionProfileProperty) (w : World P) → (check_textures app c p w).1.db ≡ w.db
  unfolding check_textures skin_of
  check_textures_keeps c p =
      bind-Keeps (λ db. db) (or_return (P.base64_decode p.value))
        (λ texture_json. or_return (P.unmarshal_textures texture_json) >>= skin_of c)
        (or_return-Keeps (λ db. db) (P.base64_decode p.value))
        λ texture_json.
          bind-Keeps (λ db. db) (or_return (P.unmarshal_textures texture_json)) (skin_of c)
            (or_return-Keeps (λ db. db) (P.unmarshal_textures texture_json))
            λ texture w. skin_of_keeps c texture texture.textures.skin w refl

  verify_skin_keeps :
      (c : Text) (ps : List SessionProfileProperty) (w : World P)
      → (verify_skin app c ps w).1.db ≡ w.db
  unfolding verify_skin
  verify_skin_keeps c [] w = refl
  verify_skin_keeps c (p ∷ ps) w =
      ground (arith, check_textures_keeps c p w, verify_skin_keeps c ps w)

  pub validate_challenge_keeps :
      (name token : Text) (w : World P) → (validate_challenge app name token w).1.db ≡ w.db
  unfolding validate_challenge
  validate_challenge_keeps name token w = grind (arith, get_ok_keeps, verify_skin_keeps)
