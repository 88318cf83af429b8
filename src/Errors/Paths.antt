-- ===== src/Errors/Paths.antt =====
-- About `IsYggdrasilPath` of common.go.
use yggdrasil_authentication.Base.{
  ◌≡◌, refl, false, not, [], ◌∷◌, ◌++◌, ◌==◌, nat_eq, text_eq, text_beq, Text, text, arith,
}
use yggdrasil_authentication.Errors.{split, is_yggdrasil_path}
use yggdrasil_authentication.Util.{contains}

split_segment :
    (segment rest : Text)
    → contains segment b'/' ≡ false
    → split (segment ++ (b'/' ∷ rest)) ≡ segment ∷ split rest
unfolding split contains
split_segment [] rest no_slash = refl
split_segment (c ∷ segment) rest no_slash = ground (arith, split_segment segment rest)

-- A path with a first segment and more is the API's unless that segment is "drasl".
pub is_yggdrasil_path_segment :
    (segment rest : Text)
    → contains segment b'/' ≡ false
    → is_yggdrasil_path (b'/' ∷ (segment ++ (b'/' ∷ rest))) ≡ not (segment == text "drasl")
unfolding is_yggdrasil_path split text text_beq
is_yggdrasil_path_segment [] rest no_slash = refl
is_yggdrasil_path_segment (c ∷ segment) rest no_slash =
    let first : split (c ∷ (segment ++ (b'/' ∷ rest))) ≡ (c ∷ segment) ∷ split rest =
      split_segment (c ∷ segment) rest no_slash in
    rw first refl
