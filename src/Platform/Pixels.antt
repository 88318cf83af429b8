-- ===== src/Platform/Pixels.antt =====
-- Documented behaviour of image.NRGBA, as named hypotheses: a pixel that is set inside the image is
-- read again, and no other is changed.
use yggdrasil_authentication.Base.{ℕ, ◌≡◌, ◌<◌, ◌==◌, nat_eq, if◌then◌else◌}
use yggdrasil_authentication.Platform.{Platform, Nrgba}

pub record ImageLaws (P : Platform) : Type 0 where
  pub bounds_new : (width height : ℕ) → P.bounds (P.new_nrgba width height) ≡ (width, height)
  pub bounds_set :
      (x y : ℕ) (c : Nrgba) (img : P.Image) → P.bounds (P.set_nrgba x y c img) ≡ P.bounds img
  pub at_set :
      (x y : ℕ) (c : Nrgba) (img : P.Image) (x' y' : ℕ)
      → x < (P.bounds img).0
      → y < (P.bounds img).1
      → P.nrgba_at (P.set_nrgba x y c img) x' y'
        ≡ (if x' == x then (if y' == y then c else P.nrgba_at img x' y') else P.nrgba_at img x' y')
