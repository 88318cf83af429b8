-- ===== src/Fallback/Order.antt =====
-- About the loops over the fallback servers.
use yggdrasil_authentication.Base.{◌≡◌, refl, Option, none, some, List, [], ◌∷◌, arith}
use yggdrasil_authentication.Types.{FallbackApiServer}
use yggdrasil_authentication.Platform.{Platform}
use yggdrasil_authentication.Action.{Action, World, next}
use yggdrasil_authentication.Fallback.{first_answer}

module _ ⦃P : Platform⦄ where
  -- An action that always goes on.
  abbrev pub Continues {ℓ} : {A : Type ℓ} → Action A → Type ℓ
  Continues {A = A} f = (w : World P) → (a : A) × (w' : World P) × (f w ≡ (next a, w'))

  -- A loop over the fallback servers goes on, if its body always does.
  pub first_answer-Continues {ℓ} :
      {A : Type ℓ} (ask : FallbackApiServer → Action (Option A))
      → ((server : FallbackApiServer) → Continues (ask server))
      → (servers : List FallbackApiServer) → Continues (first_answer ask servers)
  unfolding first_answer
  first_answer-Continues ask goes [] w = (none, w, refl)
  first_answer-Continues {A = A} ask goes (server ∷ servers) w =
      by_answer (first_answer-Continues ask goes servers) (goes server w)
    where
      by_answer :
          Continues (first_answer ask servers)
          → (a : Option A) × (w1 : World P) × (ask server w ≡ (next a, w1))
          → (a : Option A) × (w1 : World P) × (first_answer ask (server ∷ servers) w ≡ (next a, w1))
      by_answer others (some a, w1, e) = (some a, w1, ground (arith, e))
      by_answer others (none, w1, e) =
          let (r, w', run) = others w1 in (r, w', ground (arith, e, run))
