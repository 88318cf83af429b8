-- ===== src/Auth/Clients.antt =====
-- What `AuthAuthenticate` does to the clients of a user.
use yggdrasil_authentication.Base.{
  ◌≡◌, ◌≢◌, refl, Bool, true, false, none, some, List, [], ◌∷◌, ◌++◌, map, ◌==◌, text_eq,
  text_beq_iff, Text, arith, ap, if◌then◌else◌, Bool-cases, inl, inr,
}
use yggdrasil_authentication.Types.{Client}
use yggdrasil_authentication.Util.{contains}
use yggdrasil_authentication.Auth.{bump, new_client, bump_clients, use_client_token}

abbrev pub tokens : List Client → List Text
tokens = map (λ (c : Client). c.client_token)

-- How the clients change when a request names a token that one of them has: `Uses m t cs cs' c`,
-- for the setting AllowMultipleAccessTokens `m`. The first client with the token moves to its next
-- version, those before it do so unless multiple tokens are allowed, and those after it stay.
pub data Uses (allow_multiple : Bool) (t : Text) : List Client → List Client → Client → Type 0 where
  this :
      {c : Client} {cs : List Client}
      → c.client_token ≡ t
      → Uses allow_multiple t (c ∷ cs) (bump c ∷ cs) (bump c)
  later :
      {c d : Client} {cs cs' : List Client}
      → c.client_token ≢ t
      → Uses allow_multiple t cs cs' d
      → Uses allow_multiple t (c ∷ cs) ((if allow_multiple then c else bump c) ∷ cs') d

bump_clients-Uses :
    (allow_multiple : Bool) (t : Text) (cs : List Client)
    → contains (tokens cs) t ≡ true
    → (cs' : List Client) × (c : Client) × (bump_clients allow_multiple t cs ≡ (cs', some c))
      × Uses allow_multiple t cs cs' c
unfolding bump_clients contains
bump_clients-Uses allow_multiple t [] h = cc
bump_clients-Uses allow_multiple t (c ∷ cs) h = elim (Bool-cases (c.client_token == t)) [
  | inl same ↦ (bump c ∷ cs, bump c, ground arith, this ((text_beq_iff c.client_token t).0 same))
  | inr other ↦
      let (cs', d, e, uses) = bump_clients-Uses allow_multiple t cs (ground arith) in
      (
        (if allow_multiple then c else bump c) ∷ cs',
        d,
        ground (arith, e),
        later (λ same. cc (other, (text_beq_iff c.client_token t).1 same)) uses,
      )
]

-- For a token that some client has, `AuthAuthenticate` makes that change, and uses the client that
-- it moved to its next version.
pub use_client_token-Uses :
    (allow_multiple : Bool) (t : Text) (cs : List Client)
    → contains (tokens cs) t ≡ true
    → (cs' : List Client) × (c : Client) × (use_client_token allow_multiple t cs ≡ (cs', c))
      × Uses allow_multiple t cs cs' c
unfolding use_client_token
use_client_token-Uses allow_multiple t cs h =
    let (cs', c, e, uses) = bump_clients-Uses allow_multiple t cs h in
    (cs', c, ground (arith, e), uses)

-- The clients without a match: all of them bumped, unless multiple tokens are allowed.
abbrev pub untouched : Bool → List Client → List Client
untouched allow_multiple cs = if allow_multiple then cs else map bump cs

bump_clients_absent :
    (allow_multiple : Bool) (t : Text) (cs : List Client)
    → contains (tokens cs) t ≡ false
    → bump_clients allow_multiple t cs ≡ (untouched allow_multiple cs, none)
unfolding bump_clients contains
bump_clients_absent true t [] h = refl
bump_clients_absent false t [] h = refl
bump_clients_absent true t (c ∷ cs) h = ground (arith, bump_clients_absent true t cs)
bump_clients_absent false t (c ∷ cs) h = ground (arith, bump_clients_absent false t cs)

-- For a token that no client has, a client of version 0 is added behind the others, and the others
-- move to their next version unless multiple tokens are allowed.
pub use_client_token_absent :
    (allow_multiple : Bool) (t : Text) (cs : List Client)
    → contains (tokens cs) t ≡ false
    → use_client_token allow_multiple t cs
      ≡ (untouched allow_multiple cs ++ new_client t ∷ [], new_client t)
unfolding use_client_token
use_client_token_absent allow_multiple t cs h =
    ground (arith, bump_clients_absent allow_multiple t cs h)

pub tokens-untouched :
    (allow_multiple : Bool) (cs : List Client) → tokens (untouched allow_multiple cs) ≡ tokens cs
tokens-untouched true cs = refl
tokens-untouched false [] = refl
tokens-untouched false (c ∷ cs) = ap (λ ts. c.client_token ∷ ts) (tokens-untouched false cs)
