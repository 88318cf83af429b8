-- ===== src/Challenge/Shown.antt =====
-- About the requests of `validateChallenge` of front.go, and its check of the skin.
use yggdrasil_authentication.Base.{
  ℕ, ◌+◌, ◌≡◌, refl, inl, inr, text_beq_iff, Bool-cases, Option, none, some, List, [], ◌∷◌, ◌==◌,
  text_eq, Text, text, arith,
}
use yggdrasil_authentication.Types.{Result, ok, err, SessionProfileProperty, Texture, TexturesValue}
use yggdrasil_authentication.Util.Slices.{In, here, there}
use yggdrasil_authentication.Platform.{Platform, HttpResponse}
use yggdrasil_authentication.Action.{App, World, next}
use yggdrasil_authentication.Challenge.{
  get_ok, check_skin, check_textures, verify_skin, read_challenge,
}

module _ ⦃P : Platform⦄ where
  -- The request at an address, the reading of the network of that number, was answered 200 with the
  -- body.
  pub record IsAnswered (moment : ℕ) (requested : Result Text) (body : Text) : Type 0 where
    pub url : Text
    pub res : HttpResponse
    pub requests : requested ≡ ok url
    pub answered : P.http_get moment url ≡ ok res
    pub accepted : res.status_code ≡ 200
    pub sent : res.body ≡ body

  -- A skin with the challenge in its window is served, at that reading of the network, under the
  -- address that a textures property of the profile gives.
  pub record IsShown (moment : ℕ) (challenge : Text) (properties : List SessionProfileProperty)
      : Type 0 where
    pub property : SessionProfileProperty
    pub json : Text
    pub texture : TexturesValue
    pub skin : Texture
    pub res : HttpResponse
    pub img : P.Image
    pub listed : In property properties
    pub named : property.name ≡ text "textures"
    pub encoded : P.base64_decode property.value ≡ ok json
    pub value : P.unmarshal_textures json ≡ ok texture
    pub worn : texture.textures.skin ≡ some skin
    pub served : P.http_get moment skin.url ≡ ok res
    pub decoded : P.png_decode res.body ≡ ok (some img)
    pub matches : read_challenge img ≡ challenge

module _ ⦃P : Platform⦄ (app : App P) where
  pub get_ok_next :
      (requested : Result Text) (body : Text) (w w' : World P)
      → get_ok app requested w ≡ (next body, w')
      → IsAnswered w.moment requested body × (w'.moment ≡ w.moment + 1)
  unfolding get_ok
  get_ok_next (err e) body w w' h = absurd (ground (arith, h))
  get_ok_next (ok url) body w w' h = by_answer _ refl
    where
      by_answer :
          (got : Result HttpResponse)
          → P.http_get w.moment url ≡ got
          → IsAnswered w.moment (ok url) body × (w'.moment ≡ w.moment + 1)
      by_answer (err e) g = absurd (ground (arith, h, g))
      by_answer (ok res) g = (
        record {
          url = url;
          res = res;
          requests = refl;
          answered = g;
          accepted = ground (arith, h, g);
          sent = ground (arith, h, g);
        },
        ground (arith, h, g),
      )

  -- The part of it that `check_skin` sees.
  IsServed : Text → Text → World P → Type 0
  IsServed c url w =
      (res : HttpResponse) × (img : P.Image) × (P.http_get w.moment url ≡ ok res)
      × (P.png_decode res.body ≡ ok (some img))
      × (read_challenge img ≡ c)

  check_skin_next :
      (c url : Text) (w w' : World P) → check_skin app c url w ≡ (next tt, w') → IsServed c url w
  unfolding check_skin IsServed
  check_skin_next c url w w' h = by_answer _ refl
    where
      by_image :
          (res : HttpResponse) (decoded : Result (Option P.Image))
          → P.http_get w.moment url ≡ ok res
          → P.png_decode res.body ≡ decoded
          → IsServed c url w
      by_image res (err e) g d = absurd (ground (arith, h, g, d))
      by_image res (ok none) g d = absurd (ground (arith, h, g, d))
      by_image res (ok (some img)) g d =
          (res, img, g, d, ground (arith, h, g, d, text_beq_iff (read_challenge img) c))

      by_answer : (got : Result HttpResponse) → P.http_get w.moment url ≡ got → IsServed c url w
      by_answer (err e) g = absurd (ground (arith, h, g))
      by_answer (ok res) g = by_image res _ g refl

  check_textures_next :
      (c : Text) (p : SessionProfileProperty) (w w' : World P)
      → p.name ≡ text "textures"
      → check_textures app c p w ≡ (next tt, w')
      → (ps : List SessionProfileProperty) → In p ps
      → IsShown w.moment c ps
  unfolding check_textures IsServed
  check_textures_next c p w w' named h ps listed = by_json _ refl
    where
      by_skin :
          (json : Text) (texture : TexturesValue) (skin : Option Texture)
          → P.base64_decode p.value ≡ ok json
          → P.unmarshal_textures json ≡ ok texture
          → texture.textures.skin ≡ skin
          → IsShown w.moment c ps
      by_skin json texture none j t s = absurd (ground (arith, h, j, t, s))
      by_skin json texture (some skin) j t s =
          let (res, img, served, decoded, matches) =
            check_skin_next c skin.url w w' (ground (arith, h, j, t, s)) in
          record {
            property = p;
            json = json;
            texture = texture;
            skin = skin;
            res = res;
            img = img;
            listed = listed;
            named = named;
            encoded = j;
            value = t;
            worn = s;
            served = served;
            decoded = decoded;
            matches = matches;
          }

      by_texture :
          (json : Text) (texture : Result TexturesValue)
          → P.base64_decode p.value ≡ ok json
          → P.unmarshal_textures json ≡ texture
          → IsShown w.moment c ps
      by_texture json (err e) j t = absurd (ground (arith, h, j, t))
      by_texture json (ok texture) j t = by_skin json texture _ j t refl

      by_json : (json : Result Text) → P.base64_decode p.value ≡ json → IsShown w.moment c ps
      by_json (err e) j = absurd (ground (arith, h, j))
      by_json (ok json) j = by_texture json _ j refl

  IsShown-later :
      {moment : ℕ} {c : Text} {p : SessionProfileProperty} {ps : List SessionProfileProperty}
      → IsShown moment c ps
      → IsShown moment c (p ∷ ps)
  IsShown-later s = record {
    property = s.property;
    json = s.json;
    texture = s.texture;
    skin = s.skin;
    res = s.res;
    img = s.img;
    listed = there s.listed;
    named = s.named;
    encoded = s.encoded;
    value = s.value;
    worn = s.worn;
    served = s.served;
    decoded = s.decoded;
    matches = s.matches;
  }

  pub verify_skin_next :
      (c : Text) (ps : List SessionProfileProperty) (w w' : World P)
      → verify_skin app c ps w ≡ (next tt, w')
      → IsShown w.moment c ps
  unfolding verify_skin
  verify_skin_next c [] w w' h = absurd (ground (arith, h))
  verify_skin_next c (p ∷ ps) w w' h = elim (Bool-cases (p.name == text "textures")) [
    | inl here_named ↦
        check_textures_next c p w w'
          (ground (arith, here_named, text_beq_iff p.name (text "textures")))
          (ground (arith, h, here_named)) (p ∷ ps) (here refl)
    | inr other ↦ IsShown-later (verify_skin_next c ps w w' (ground (arith, h, other)))
  ]
