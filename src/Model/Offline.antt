-- ===== src/Model/Offline.antt =====
-- `OfflineUUID`: the version-3 UUID that a server in offline mode gives a player name.
pub mod Fields
use yggdrasil_authentication.Base.{
  ℕ, zero, suc, List, [], ◌∷◌, ◌++◌, Text, text, Option, none, some, get_elem?, set,
}
use Prim.Native.Nat.{bit_and, bit_or}
use yggdrasil_authentication.Types.{Result, ok, err}
use yggdrasil_authentication.Platform.{Platform}

-- `b[i] &= mask; b[i] |= bits`. MD5 sums have 16 bytes, so the index is in bounds.
abbrev patch : Text → ℕ → ℕ → ℕ → Text
patch b i mask bits = elim (get_elem? b i) [
  | none ↦ b
  | some x ↦ set b i (bit_or (bit_and x mask) bits)
]

-- The version nibble becomes 3 and the variant that of the IETF.
unfoldable pub set_version_3 : Text → Text
set_version_3 md5_bytes = patch (patch md5_bytes 6 0x0f 0x30) 8 0x3f 0x80

-- `OfflineUUID`.
unfoldable pub offline_uuid : ⦃P : Platform⦄ → Text → Result Text
unfolding set_version_3
offline_uuid ⦃P⦄ player_name =
    elim (P.uuid_from_bytes (set_version_3 (P.md5 (text "OfflinePlayer:" ++ player_name)))) [
      | err e ↦ err e
      | ok u ↦ ok (P.uuid_string u)
    ]
