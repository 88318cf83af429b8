-- ===== src/Model/Language.antt =====
-- `IsValidPreferredLanguage`.
use yggdrasil_authentication.Base.{Bool, List, [], ◌∷◌, Text, text, text_eq, map, String}
use yggdrasil_authentication.Util.{contains}

-- The cases of the switch.
unfoldable pub languages : List String
languages =
    "sq" ∷ "ar" ∷ "be" ∷ "bg" ∷ "ca" ∷ "zh" ∷ "hr" ∷ "cs" ∷ "da" ∷ "nl" ∷ "en" ∷ "et" ∷ "fi" ∷ "fr"
    ∷ "de" ∷ "el" ∷ "iw" ∷ "hi" ∷ "hu" ∷ "is" ∷ "in" ∷ "ga" ∷ "it" ∷ "ja" ∷ "ko" ∷ "lv" ∷ "lt"
    ∷ "mk" ∷ "ms" ∷ "mt" ∷ "no" ∷ "nb" ∷ "nn" ∷ "pl" ∷ "pt" ∷ "ro" ∷ "ru" ∷ "sr" ∷ "sk" ∷ "sl"
    ∷ "es" ∷ "sv" ∷ "th" ∷ "tr" ∷ "uk" ∷ "vi" ∷ []

unfoldable pub is_valid_preferred_language : Text → Bool
unfolding languages contains text
is_valid_preferred_language preferred_language = contains (map text languages) preferred_language
