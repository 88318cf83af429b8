-- ===== src/Util/Mutex.antt =====
-- `KeyedMutex` of util.go: goroutines that take and release the lock of a key, in any order.
pub mod Keys
pub mod Locks
use yggdrasil_authentication.Base.{
  ℕ, ◌+◌, ◌≡◌, Bool, true, false, Option, none, some, List, [], ◌∷◌, ◌==◌, nat_eq, text_eq, Text,
  if◌then◌else◌,
}

-- The map from keys to mutexes, a mutex being the number of its allocation; how many were allocated;
-- and which are locked.
pub record KeyedMutex : Type 0 where
  pub mutexes : List (Text × ℕ)
  pub made : ℕ
  pub locked : ℕ → Bool

-- `m.mutexes.Load`
unfoldable pub load : Text → List (Text × ℕ) → Option ℕ
load key [] = none
load key ((stored, mutex) ∷ mutexes) = if key == stored then some mutex else load key mutexes

-- The first line of `Lock`, for what the map has at the key: a mutex is allocated, and stored
-- unless the key has one already.
unfoldable pub store_unless : Option ℕ → Text → KeyedMutex → ℕ × KeyedMutex
store_unless (some mutex) key m = (mutex, record m { made = m.made + 1 })
store_unless none key m =
    (m.made, record m { mutexes = (key, m.made) ∷ m.mutexes; made = m.made + 1 })

unfoldable pub load_or_store : Text → KeyedMutex → ℕ × KeyedMutex
load_or_store key m = store_unless (load key m.mutexes) key m

-- A function changed at one number.
abbrev pub changed_at {ℓ} : {A : Type ℓ} → (ℕ → A) → ℕ → A → ℕ → A
changed_at f i a j = if j == i then a else f j

-- `mtx.Lock()`, once it returns, and `mtx.Unlock()`.
abbrev pub lock : ℕ → KeyedMutex → KeyedMutex
lock mutex m = record m { locked = changed_at m.locked mutex true }

abbrev pub unlock : ℕ → KeyedMutex → KeyedMutex
unlock mutex m = record m { locked = changed_at m.locked mutex false }

-- Where a goroutine is: outside, in `mtx.Lock()` for a key and its mutex, or after it.
pub data Goroutine : Type 0 where
  outside : Goroutine
  waiting : Text → ℕ → Goroutine
  holding : Text → ℕ → Goroutine

-- One atomic step of one goroutine: `LoadOrStore`, `mtx.Lock` on a mutex that is not locked, and the
-- function that `Lock` returned.
pub data Move : KeyedMutex → Goroutine → KeyedMutex → Goroutine → Type 0 where
  call :
      {m : KeyedMutex} (key : Text)
      → Move m outside (load_or_store key m).1 (waiting key (load_or_store key m).0)
  acquire :
      {m : KeyedMutex} {key : Text} {mutex : ℕ}
      → m.locked mutex ≡ false
      → Move m (waiting key mutex) (lock mutex m) (holding key mutex)
  release :
      {m : KeyedMutex} {key : Text} {mutex : ℕ}
      → Move m (holding key mutex) (unlock mutex m) outside

-- The lock and the goroutines that use it, by number.
pub record System : Type 0 where
  pub keyed_mutex : KeyedMutex
  pub goroutines : ℕ → Goroutine

pub data Step : System → System → Type 0 where
  pick :
      {s : System} {m : KeyedMutex} {g : Goroutine} (i : ℕ)
      → Move s.keyed_mutex (s.goroutines i) m g
      → Step s (record { keyed_mutex = m; goroutines = changed_at s.goroutines i g })

-- `KeyedMutex{}`, and goroutines that have not called it.
abbrev pub fresh : System
fresh = record {
  keyed_mutex = record { mutexes = []; made = 0; locked = λ mutex. false };
  goroutines = λ i. outside;
}

-- The states that any interleaving of the goroutines' steps leads to.
pub data Reach : System → Type 0 where
  start : Reach fresh
  later : {s t : System} → Reach s → Step s t → Reach t
