-- ===== src/Model/Ids.antt =====
-- `UUIDToID` and `IDToUUID`, null strings, and skin models.
pub mod Roundtrip
use yggdrasil_authentication.Base.{
  ℕ, ◌+◌, Bool, true, false, ◌||◌, not, Option, none, some, List, [], ◌∷◌, ◌++◌, ◌==◌, nat_eq,
  text_eq, Text, text, length, take, drop, if◌then◌else◌,
}
use yggdrasil_authentication.Types.{NullString, Result, ok, err, errors_new}

-- `MakeNullString`, of a pointer to a string.
abbrev pub make_null_string : Option Text → NullString
make_null_string none = record { string = []; valid = false }
make_null_string (some s) = record { string = s; valid = true }

-- `UnmakeNullString`.
abbrev pub unmake_null_string : NullString → Option Text
unmake_null_string ns = if ns.valid then some ns.string else none

abbrev pub skin_model_slim : Text
skin_model_slim = text "slim"

abbrev pub skin_model_classic : Text
skin_model_classic = text "classic"

-- `IsValidSkinModel`.
unfoldable pub is_valid_skin_model : Text → Bool
is_valid_skin_model model = model == skin_model_slim || model == skin_model_classic

-- `strings.ReplaceAll(s, "-", "")`.
unfoldable pub remove_dashes : Text → Text
remove_dashes [] = []
remove_dashes (c ∷ s) = if c == b'-' then remove_dashes s else c ∷ remove_dashes s

-- `UUIDToID`.
unfoldable pub uuid_to_id : Text → Result Text
unfolding remove_dashes
uuid_to_id uuid =
    if not (length uuid == 36)
    then err (errors_new (text "Invalid UUID"))
    else ok (remove_dashes uuid)

-- `s[from:from + count]`.
abbrev slice : ℕ → ℕ → Text → Text
slice from count s = take count (drop from s)

-- `IDToUUID`.
unfoldable pub id_to_uuid : Text → Result Text
id_to_uuid id =
    if not (length id == 32)
    then err (errors_new (text "Invalid ID"))
    else ok (
        slice 0 8 id
        ++ (b'-'
            ∷ (slice 8 4 id
                ++ (b'-' ∷ (slice 12 4 id ++ (b'-' ∷ (slice 16 4 id ++ (b'-' ∷ drop 20 id))))))))
