-- ===== src/Strings.antt =====
-- The strings of kernel/string.h: bytes in memory up to a zero byte, compared as unsigned chars.
-- `fuel` bounds the bytes that a loop reads; `none` is a loop that has not met the end by then.
pub mod Laws
mod Tests
use lilac_os.Base.{ℕ, zero, suc, ◌+◌, Bool, not, ◌&&◌, Option, none, some, ltb, ◌==◌, if◌then◌else◌}
use lilac_os.Memory.{Memory, store8}

-- The results -1, 0 and 1 of `strcmp`.
pub data Comparison : Type 0 where
  minus_one : Comparison
  nought : Comparison
  one : Comparison

-- The loop of `strlen`, with `len` bytes counted.
pub count : ℕ → Memory → (str len : ℕ) → Option ℕ
count zero m str len = none
count (suc fuel) m str len =
    let rest = count fuel m str (len + 1) in if m (str + len) == 0 then some len else rest

pub strlen : ℕ → Memory → ℕ → Option ℕ
strlen fuel m str = count fuel m str 0

-- The tests after the loop of `strcmp`.
pub by_length : Memory → (str1 str2 : ℕ) → Comparison
by_length m str1 str2 =
    if m str1 == 0 && m str2 == 0 then nought else (if m str1 == 0 then minus_one else one)

pub strcmp : ℕ → Memory → (str1 str2 : ℕ) → Option Comparison
strcmp zero m str1 str2 = none
strcmp (suc fuel) m str1 str2 =
    let rest = strcmp fuel m (str1 + 1) (str2 + 1) in
    if not (m str1 == 0) && not (m str2 == 0)
    then (if ltb (m str1) (m str2)
        then some minus_one
        else (if ltb (m str2) (m str1) then some one else rest))
    else some (by_length m str1 str2)

pub strcpy : ℕ → Memory → (dest src : ℕ) → Option Memory
strcpy zero m dest src = none
strcpy (suc fuel) m dest src =
    let rest = strcpy fuel (store8 m dest (m src)) (dest + 1) (src + 1) in
    if m src == 0 then some (store8 m dest 0) else rest
