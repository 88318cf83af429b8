-- ===== src/Util/Mutex/Keys.antt =====
-- The mutexes that the map of a `KeyedMutex` has for its keys.
use yggdrasil_authentication.Base.{
  ℕ, ◌+◌, ◌<◌, ◌≡◌, ◌⊎◌, inl, inr, Option, none, some, List, ◌∷◌, nat_eq, text_eq, text_beq_iff,
  Text, arith,
}
use yggdrasil_authentication.Util.Mutex.{KeyedMutex, load, store_unless, load_or_store}

-- The map gives different keys different mutexes, all of them allocated.
pub record Maps (mutexes : List (Text × ℕ)) (made : ℕ) : Type 0 where
  pub allocated : (key : Text) (mutex : ℕ) → load key mutexes ≡ some mutex → mutex < made
  pub separate :
      (key other : Text) (mutex : ℕ)
      → load key mutexes ≡ some mutex
      → load other mutexes ≡ some mutex
      → key ≡ other

load-cons :
    (key : Text) (fresh_mutex : ℕ) (mutexes : List (Text × ℕ))
    → (other : Text) (mutex : ℕ) → load key mutexes ≡ none
    → load other mutexes ≡ some mutex
    → load other ((key, fresh_mutex) ∷ mutexes) ≡ some mutex
unfolding load
load-cons key fresh_mutex mutexes other mutex missing found =
    ground (arith, missing, found, (text_beq_iff other key).0)

load-or :
    (key : Text) (fresh_mutex : ℕ) (mutexes : List (Text × ℕ)) (other : Text) (mutex : ℕ)
    → load other ((key, fresh_mutex) ∷ mutexes) ≡ some mutex
    → ((other ≡ key) × (mutex ≡ fresh_mutex)) ⊎ (load other mutexes ≡ some mutex)
unfolding load
load-or key fresh_mutex mutexes other mutex found =
    ground (arith, found, (text_beq_iff other key).0)

Maps-cons :
    (key : Text) (mutexes : List (Text × ℕ)) (made : ℕ)
    → Maps mutexes made
    → Maps ((key, made) ∷ mutexes) (made + 1)
Maps-cons key mutexes made h = record {
  allocated = λ other mutex found. elim (load-or key made mutexes other mutex found) [
    | inl (_, e) ↦ omega arith
    | inr old ↦ omega (arith, h.allocated other mutex old)
  ];
  separate = λ one other mutex first second. elim (load-or key made mutexes one mutex first) [
    | inl (here, e) ↦ elim (load-or key made mutexes other mutex second) [
      | inl (there, _) ↦ cc
      | inr old ↦ absurd (omega (arith, e, h.allocated other mutex old))
    ]
    | inr old ↦ elim (load-or key made mutexes other mutex second) [
      | inl (_, e) ↦ absurd (omega (arith, e, h.allocated one mutex old))
      | inr older ↦ h.separate one other mutex old older
    ]
  ];
}

Maps-allocate : (mutexes : List (Text × ℕ)) (made : ℕ) → Maps mutexes made → Maps mutexes (made + 1)
Maps-allocate mutexes made h = record {
  allocated = λ key mutex found. omega (arith, h.allocated key mutex found);
  separate = h.separate;
}

pub load-load_or_store :
    (key : Text) (m : KeyedMutex)
    → load key (load_or_store key m).1.mutexes ≡ some (load_or_store key m).0
unfolding load_or_store store_unless load
load-load_or_store key m = ground (arith, (text_beq_iff key key).1)

pub load_or_store_keeps :
    (key : Text) (m : KeyedMutex) (other : Text) (mutex : ℕ)
    → load other m.mutexes ≡ some mutex
    → load other (load_or_store key m).1.mutexes ≡ some mutex
unfolding load_or_store store_unless
load_or_store_keeps key m other mutex found =
    ground (arith, found, load-cons key m.made m.mutexes other mutex)

pub store_unless-Maps :
    (found : Option ℕ) (key : Text) (m : KeyedMutex)
    → Maps m.mutexes m.made
    → Maps (store_unless found key m).1.mutexes (store_unless found key m).1.made
unfolding store_unless
store_unless-Maps (some mutex) key m h = Maps-allocate m.mutexes m.made h
store_unless-Maps none key m h = Maps-cons key m.mutexes m.made h

pub load_or_store-locked : (key : Text) (m : KeyedMutex) → (load_or_store key m).1.locked ≡ m.locked
unfolding load_or_store store_unless
load_or_store-locked key m = ground arith
