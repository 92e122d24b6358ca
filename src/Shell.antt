-- ===== src/Shell.antt =====
-- user/shell.c: the line that is typed, and what a key does.
pub mod Laws
mod Tests
use lilac_os.Base.{ℕ, zero, suc, ◌+◌, ◌-◌, ◌||◌, List, [], ◌∷◌, ◌++◌, update, ◌==◌, if◌then◌else◌}

-- `line` and `len`
pub record Shell : Type 0 where
  pub line : ℕ → ℕ
  pub len : ℕ

-- A byte put out, or a process that executes a command and is waited for.
pub data Event : Type 0 where
  put : ℕ → Event
  run : List ℕ → Event

abbrev pub line_size : ℕ
line_size = 256

-- `line[i] = '\0'` for the bytes from `i` on
pub clear_line : (rounds i : ℕ) → (ℕ → ℕ) → ℕ → ℕ
clear_line zero i line = line
clear_line (suc rounds) i line = clear_line rounds (i + 1) (update line i 0)

pub clear : Shell → Shell
clear s = record { line = clear_line line_size 0 s.line; len = 0 }

-- The string that stands at `i`, of at most `size` bytes.
pub string_at : (size : ℕ) → (ℕ → ℕ) → (i : ℕ) → List ℕ
string_at zero line i = []
string_at (suc size) line i =
    let rest = string_at size line (i + 1) in if line i == 0 then [] else line i ∷ rest

abbrev pub prompt : List Event
prompt = put 36 ∷ put 32 ∷ []

pub enter : Shell → Shell × List Event
enter s =
    if s.len == 0
    then (s, put 10 ∷ prompt)
    else (clear s, put 10 ∷ run (string_at line_size s.line 0) ∷ prompt)

pub erase : Shell → Shell × List Event
erase s = if s.len == 0 then (s, []) else (
  record { line = update s.line (s.len - 1) 0; len = s.len - 1 },
  put 8 ∷ put 32 ∷ put 8 ∷ [],
)

pub insert : ℕ → Shell → Shell × List Event
insert c s = (record { line = update s.line s.len c; len = s.len + 1 }, put c ∷ [])

-- What the shell does with a key.
pub press : ℕ → Shell → Shell × List Event
press c s =
    if c == 10 || c == 13 then enter s else if c == 8 || c == 127 then erase s else insert c s

-- The events for these keys, one behind the other.
pub session : List ℕ → Shell → List Event
session [] s = []
session (c ∷ keys) s = let (after, events) = press c s in events ++ session keys after
