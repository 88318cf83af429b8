-- ===== src/Platform/Rows.antt =====
-- Lists of the rows of users, in which the uuid is the primary key.
use yggdrasil_authentication.Base.{
  ◌≡◌, refl, sym, ap, false, List, [], ◌∷◌, ◌++◌, map, append_assoc, Text, text_eq, text_beq_iff,
  ◌==◌, arith,
}
use yggdrasil_authentication.Types.{User}
use yggdrasil_authentication.Util.{contains}
use yggdrasil_authentication.Util.Slices.{IsUnique, contains-append}
use yggdrasil_authentication.Platform.Transactions.{uuids}

pub map_append :
    {A B : Type 0} (f : A → B) (xs ys : List A) → map f (xs ++ ys) ≡ map f xs ++ map f ys
map_append f [] ys = refl
map_append f (x ∷ xs) ys = ap (λ zs. f x ∷ zs) (map_append f xs ys)

IsUnique-middle :
    (xs : List Text) (a : Text) (ys : List Text)
    → IsUnique (xs ++ a ∷ ys)
    → (contains xs a ≡ false) × (contains ys a ≡ false)
unfolding contains
IsUnique-middle [] a ys (new, unique) = (refl, new)
IsUnique-middle (x ∷ xs) a ys (new, unique) =
    let (before, after) = IsUnique-middle xs a ys unique in
    (
      ground
          (arith, before, new, contains-append xs (a ∷ ys) x, text_beq_iff a x, text_beq_iff x a),
      after,
    )

-- A function that changes one row only.
map_absent :
    (f : User → User) (uuid : Text) (rows : List User)
    → ((r : User) → r.uuid == uuid ≡ false → f r ≡ r)
    → contains (uuids rows) uuid ≡ false
    → map f rows ≡ rows
unfolding contains
map_absent f uuid [] others h = refl
map_absent f uuid (r ∷ rows) others h =
    let rest = map_absent f uuid rows others (ground arith) in ground (arith, h, rest, others r)

pub map_middle :
    (f : User → User) (u : User) (before after : List User)
    → ((r : User) → r.uuid == u.uuid ≡ false → f r ≡ r)
    → IsUnique (uuids (before ++ u ∷ after))
    → map f (before ++ u ∷ after) ≡ before ++ f u ∷ after
map_middle f u before after others unique =
    let same : uuids (before ++ u ∷ after) ≡ uuids before ++ u.uuid ∷ uuids after =
      map_append (λ (r : User). r.uuid) before (u ∷ after) in
    let (not_before, not_after) =
      IsUnique-middle (uuids before) u.uuid (uuids after) (rw (sym same) unique) in
    rw (
      map_append f before (u ∷ after),
      map_absent f u.uuid before others not_before,
      map_absent f u.uuid after others not_after,
    )

pub shift :
    (done : List User) (row : User) (todo : List User)
    → done ++ row ∷ todo ≡ (done ++ row ∷ []) ++ todo
shift done row todo = sym (append_assoc done (row ∷ []) todo)

pub same_uuids :
    (done : List User) (u v : User) (todo : List User)
    → v.uuid ≡ u.uuid
    → uuids (done ++ v ∷ todo) ≡ uuids (done ++ u ∷ todo)
same_uuids done u v todo same = rw (
  map_append (λ (r : User). r.uuid) done (u ∷ todo),
  map_append (λ (r : User). r.uuid) done (v ∷ todo),
  same,
)
