-- ===== src/Routes/Kinds.antt =====
-- About the routes of `GetServer` and `HandleError` of main.go.
use yggdrasil_authentication.Base.{
  ◌≡◌, ◌≢◌, refl, sym, ap, ◌∙◌, Bool, true, false, not, ◌&&◌, ◌||◌, List, [], ◌∷◌, ◌==◌, nat_eq,
  text_eq, text_beq, text_beq_iff, Text, text, if◌then◌else◌, arith,
}
use yggdrasil_authentication.Types.{Error}
use yggdrasil_authentication.Util.Slices.{In, here, there}
use yggdrasil_authentication.Errors.{
  split, is_yggdrasil_path, handle_error, handle_api_error, handle_front_error,
}
use yggdrasil_authentication.Routes.{Endpoint, Route, routes}

-- The handlers that answer a person's browser; the others answer the game and its launchers.
unfoldable pub is_front : Endpoint → Bool
is_front Endpoint.front_root = true
is_front Endpoint.front_web_manifest = true
is_front Endpoint.front_admin = true
is_front Endpoint.front_challenge_skin = true
is_front Endpoint.front_profile = true
is_front Endpoint.front_registration = true
is_front Endpoint.front_delete_invite = true
is_front Endpoint.front_new_invite = true
is_front Endpoint.front_update_users = true
is_front Endpoint.front_delete_user = true
is_front Endpoint.front_login = true
is_front Endpoint.front_logout = true
is_front Endpoint.front_register = true
is_front Endpoint.front_update = true
is_front Endpoint.static_files = true
is_front _ = false

-- A segment of a route that stands for others.
is_wild : Text → Bool
is_wild [] = false
is_wild (c ∷ s) = c == b':' || c == b'*'

abbrev is_end : List Text → Bool
is_end [] = true
is_end (s ∷ ss) = false

-- The segments of a path follow those of a route.
pub data Follows : List Text → List Text → Type 0 where
  done : Follows [] []
  same_segment : {s : Text} {ps ss : List Text} → Follows ps ss → Follows (s ∷ ps) (s ∷ ss)
  any_segment :
      {p s : Text} {ps ss : List Text} (name : Text)
      → p ≡ b':' ∷ name
      → Follows ps ss
      → Follows (p ∷ ps) (s ∷ ss)
  any_rest : {p : Text} {ss : List Text} → p ≡ text "*" → Follows (p ∷ []) ss

abbrev pub Matches : Route → Text → Type 0
Matches r path = Follows (split (text r.path)) (split path)

Follows-cons :
    (p : Text) (ps segments : List Text)
    → is_wild p ≡ false
    → Follows (p ∷ ps) segments
    → (ss : List Text) × (segments ≡ p ∷ ss) × Follows ps ss
unfolding is_wild text
Follows-cons p ps segments fixed (same_segment {ss} rest) = (ss, refl, rest)
Follows-cons p ps segments fixed (any_segment name e rest) = absurd (ground (arith, fixed, e))
Follows-cons p ps segments fixed (any_rest e) = absurd (ground (arith, fixed, e))

split_some : (s : Text) → split s ≢ []
unfolding split
split_some [] h = cc
split_some (c ∷ s) h = by_rest _ refl
  where
    by_rest : (rest : List Text) → split s ≡ rest → ⊥
    by_rest [] r = ground (arith, h, r)
    by_rest (segment ∷ segments) r = ground (arith, h, r)

split_empty : (s : Text) → split s ≡ [] ∷ [] → s ≡ []
unfolding split
split_empty [] h = refl
split_empty (c ∷ s) h = by_rest _ refl
  where
    by_rest : (rest : List Text) → split s ≡ rest → c ∷ s ≡ []
    by_rest [] r = absurd (split_some s r)
    by_rest (segment ∷ segments) r = absurd (ground (arith, h, r))

split_root : (s : Text) → split s ≡ [] ∷ [] ∷ [] → s ≡ text "/"
unfolding split text
split_root [] h = absurd (ground (arith, h))
split_root (c ∷ s) h = by_rest _ refl
  where
    by_rest : (rest : List Text) → split s ≡ rest → c ∷ s ≡ 47 ∷ []
    by_rest [] r = absurd (split_some s r)
    by_rest (segment ∷ segments) r = ground (arith, h, r, split_empty s)

-- The second segment of a route decides: it is fixed, and it is "drasl", or not empty and the route is
-- not the front end's, or empty and the route is "/".
is_clear : Bool → List Text → Bool
is_clear front (a ∷ b ∷ rest) =
    not (is_wild a)
    && not (is_wild b)
    && (if front
        then b == text "drasl" || (a == [] && b == [] && is_end rest)
        else not (b == text "drasl") && not (b == []))
is_clear front _ = false

all_clear : List Route → Bool
all_clear [] = true
all_clear (r ∷ rs) = is_clear (is_front r.endpoint) (split (text r.path)) && all_clear rs

routes_clear : all_clear routes ≡ true
unfolding routes all_clear is_clear is_front is_wild split text text_beq
routes_clear = refl

clear_of_in :
    (r : Route) (rs : List Route)
    → In r rs
    → all_clear rs ≡ true
    → is_clear (is_front r.endpoint) (split (text r.path)) ≡ true
unfolding all_clear
clear_of_in r [] i h = elim i [ ]
clear_of_in r (x ∷ xs) (here e) h = rw (sym e) (ground (arith, h))
clear_of_in r (x ∷ xs) (there later) h = clear_of_in r xs later (ground (arith, h))

clear_fixed :
    (front : Bool) (a b : Text) (rest : List Text)
    → is_clear front (a ∷ b ∷ rest) ≡ true
    → (is_wild a ≡ false) × (is_wild b ≡ false)
unfolding is_clear
clear_fixed front a b rest clear = (ground (arith, clear), ground (arith, clear))

Follows-nil : (segments : List Text) → Follows [] segments → segments ≡ []
Follows-nil [] done = refl
Follows-nil (s ∷ ss) f = elim f [ ]

root_segments : (path : Text) → path == text "/" ≡ true → split path ≡ [] ∷ [] ∷ []
unfolding split text
root_segments path h = ap split ((text_beq_iff path (47 ∷ [])).0 h)

front_kind :
    (path a b : Text) (rest ss : List Text)
    → is_clear true (a ∷ b ∷ rest) ≡ true
    → split path ≡ a ∷ b ∷ ss
    → Follows rest ss
    → is_yggdrasil_path path ≡ false
unfolding is_clear is_yggdrasil_path
front_kind path a b [] ss clear e f = ground (
  arith,
  clear,
  e,
  Follows-nil ss f,
  split_root path,
  text_beq_iff a [],
  text_beq_iff b [],
  text_beq_iff path (text "/"),
)
front_kind path a b (s ∷ rest) ss clear e f = ground (arith, clear, e)

api_kind :
    (path a b : Text) (rest ss : List Text)
    → is_clear false (a ∷ b ∷ rest) ≡ true
    → split path ≡ a ∷ b ∷ ss
    → is_yggdrasil_path path ≡ true
unfolding is_clear is_yggdrasil_path
api_kind path a b rest ss clear e = ground (arith, clear, e, root_segments path, text_beq_iff b [])

path_kind :
    (front : Bool) (pattern : List Text) (path : Text)
    → is_clear front pattern ≡ true
    → Follows pattern (split path)
    → is_yggdrasil_path path ≡ not front
unfolding is_clear
path_kind front [] path clear f = absurd (ground (arith, clear))
path_kind front (a ∷ []) path clear f = absurd (ground (arith, clear))
path_kind front (a ∷ b ∷ rest) path clear f =
    let (fixed_a, fixed_b) = clear_fixed front a b rest clear in
    let (ss, e, f') = Follows-cons a (b ∷ rest) (split path) fixed_a f in
    let (ss', e', f'') = Follows-cons b rest ss fixed_b f' in
    by_kind front clear (e ∙ ap (λ t. a ∷ t) e') f''
  where
    by_kind :
        (front : Bool)
        → is_clear front (a ∷ b ∷ rest) ≡ true
        → {ss : List Text} → split path ≡ a ∷ b ∷ ss
        → Follows rest ss
        → is_yggdrasil_path path ≡ not front
    by_kind true clear {ss} e f = front_kind path a b rest ss clear e f
    by_kind false clear {ss} e f = api_kind path a b rest ss clear e

-- The front end's handlers and the API's are told apart by `HandleError`: under every path of a route,
-- any error is answered by the rules for the route's kind.
pub handle_error-routes :
    (r : Route) (path : Text) (e : Error)
    → In r routes
    → Matches r path
    → handle_error e path
      ≡ (if is_front r.endpoint then handle_front_error e else handle_api_error path e)
unfolding handle_error
handle_error-routes r path e registered matches = ground (
  arith,
  path_kind (is_front r.endpoint) (split (text r.path)) path
      (clear_of_in r routes registered routes_clear) matches,
)
