-- ===== src/Storage.antt =====
-- mcubridge/mcubridge/state/storage.py: the persistent queue and cache over SQLite. A table is the
-- list of its rows in the order of their ids, each statement a function on it. What the database does
-- is an argument: it works, it fails once, so that the file is made anew, or it fails again then.
pub mod Fifo
pub mod Memory
mod Tests
use arduino_yun_bridge.Base.{
  ℕ, ◌+◌, ◌-◌, Bool, true, false, Option, none, some, List, [], ◌∷◌, ◌++◌, ltb, if◌then◌else◌,
  Bytes, Text, length, drop,
}
use arduino_yun_bridge.Base.Assoc.{lookup, insert, text_key}

pub data Database : Type 0 where
  works fails_once fails : Database

-- What an operation returns, or the exception that leaves it.
pub data Outcome {ℓ} (A : Type ℓ) : Type ℓ where
  returns : A → Outcome A
  index_error storage_error : Outcome A

-- `SqliteDeque`. A path names a file, or is ":memory:", where every connection has a table of its own.
pub record Deque : Type 0 where
  pub in_file : Bool
  pub rows : List Bytes
  -- `self._length`
  pub count : ℕ
  pub maxlen : Option ℕ

-- What `func` makes of the rows and the count: new ones and a value, or an exception before any change.
pub data Step (A : Type 0) : Type 0 where
  changes : List Bytes → ℕ → A → Step A
  finds_none : Step A

abbrev rows_seen : Deque → List Bytes
rows_seen d = if d.in_file then d.rows else []

-- `_recreate_db`
abbrev recreated : Deque → Deque
recreated d = record d { rows = []; count = 0 }

module _ {A : Type 0} where
  abbrev commit : Deque → Step A → Deque × Outcome A
  commit d finds_none = (d, index_error)
  commit d (changes rows count a) =
      (record d { rows = if d.in_file then rows else []; count = count }, returns a)

  -- `_execute`
  unfoldable pub execute : Database → (List Bytes → ℕ → Step A) → Deque → Deque × Outcome A
  execute works func d = commit d (func (rows_seen d) d.count)
  execute fails_once func d = commit (recreated d) (func [] 0)
  execute fails func d = (recreated d, storage_error)

abbrev pub append_impl : Option ℕ → Bytes → List Bytes → ℕ → Step Bytes
append_impl none item rows count = changes (rows ++ (item ∷ [])) (count + 1) item
append_impl (some maxlen) item rows count =
    if ltb maxlen (count + 1)
    then changes (drop (count + 1 - maxlen) (rows ++ (item ∷ []))) maxlen item
    else changes (rows ++ (item ∷ [])) (count + 1) item

unfoldable pub append : Database → Bytes → Deque → Deque × Outcome Bytes
unfolding execute
append db item d = execute db (append_impl d.maxlen item) d

abbrev popleft_impl : List Bytes → ℕ → Step Bytes
popleft_impl [] count = finds_none
popleft_impl (item ∷ rows) count = changes rows (count - 1) item

unfoldable pub popleft : Database → Deque → Deque × Outcome Bytes
unfolding execute
popleft db d = execute db popleft_impl d

abbrev peek_impl : List Bytes → ℕ → Step Bytes
peek_impl [] count = finds_none
peek_impl (item ∷ rows) count = changes (item ∷ rows) count item

unfoldable pub peek : Database → Deque → Deque × Outcome Bytes
unfolding execute
peek db d = execute db peek_impl d

-- `clear`, by `_recreate_db`
abbrev pub clear : Deque → Deque
clear d = record d { rows = []; count = 0 }

-- `SqliteCache`, under a file: the rows by their key.
unfoldable pub cache_set :
    Database → Text → Bytes → List (Text × Bytes) → List (Text × Bytes) × Outcome Bytes
cache_set works key value rows = (insert key value rows, returns value)
cache_set fails_once key value rows = (insert key value [], returns value)
cache_set fails key value rows = ([], storage_error)

abbrev or_default : Bytes → Option Bytes → Bytes
or_default default none = default
or_default default (some v) = v

-- `get(key)`, whose default is None
unfoldable pub cache_find :
    Database → Text → List (Text × Bytes) → List (Text × Bytes) × Option Bytes
cache_find works key rows = (rows, lookup key rows)
cache_find fails_once key rows = ([], none)
cache_find fails key rows = ([], none)

-- A second failure is caught here, and gives the default.
unfoldable pub cache_get :
    Database → Text → Bytes → List (Text × Bytes) → List (Text × Bytes) × Bytes
cache_get works key default rows = (rows, or_default default (lookup key rows))
cache_get fails_once key default rows = ([], default)
cache_get fails key default rows = ([], default)
