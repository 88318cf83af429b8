-- ===== src/Tests/Model.antt =====
-- model.go at small inputs.
use yggdrasil_authentication.Base.{
  ℕ, ◌+◌, ◌%◌, ◌≡◌, ◌≢◌, refl, true, false, some, Text, text, text_eq, text_beq, nat_eq, arith,
  length, get_elem?, replicate,
}
use yggdrasil_authentication.Types.{ok}
use yggdrasil_authentication.Model.Ids.{id_to_uuid, is_valid_skin_model}
use yggdrasil_authentication.Model.Ids.Roundtrip.{NoDash}
use yggdrasil_authentication.Model.Language.{is_valid_preferred_language}
use yggdrasil_authentication.Model.Offline.{set_version_3}
use yggdrasil_authentication.Model.Offline.Fields.{set_version_3_fields}
use yggdrasil_authentication.Tests.Memory.{platform}

abbrev id : Text
id = text "123456781234123412341234567890ab"

uuid_runs : id_to_uuid id ≡ ok (text "12345678-1234-1234-1234-1234567890ab")
unfolding id_to_uuid text
uuid_runs = refl

id-NoDash : NoDash id
unfolding text
id-NoDash = omega arith

id-length : length id ≡ 32
unfolding text
id-length = refl

skin_models : is_valid_skin_model (text "slim") ≡ true
unfolding is_valid_skin_model text text_beq
skin_models = refl

english : is_valid_preferred_language (text "en") ≡ true
unfolding is_valid_preferred_language text_beq
english = refl

klingon : is_valid_preferred_language (text "tlh") ≡ false
unfolding is_valid_preferred_language text_beq
klingon = refl

abbrev all_ones : Text
all_ones = replicate 16 255

set_version_3_fields_example :
    (get_elem? (set_version_3 all_ones) 6 ≡ some (0x30 + 255 % 16))
    × (get_elem? (set_version_3 all_ones) 8 ≡ some (0x80 + 255 % 64))
    × ((i : ℕ) → i ≢ 6 → i ≢ 8 → get_elem? (set_version_3 all_ones) i ≡ get_elem? all_ones i)
    × (length (set_version_3 all_ones) ≡ length all_ones)
set_version_3_fields_example =
    set_version_3_fields all_ones 255 255 refl (omega arith) refl (omega arith)
