-- ===== src/Memory.antt =====
-- The kernel's memory as bytes at addresses, and its 64-, 32- and 16-bit cells, little endian as on RV64.
-- The addresses of a cell do not wrap.
use native.Mathlib.Nat.{add-zero}
use lilac_os.Base.{
  subst, ℕ, ◌+◌, ◌-◌, ◌*◌, ◌/◌, ◌%◌, ◌^◌, ◌≤◌, ◌<◌, ◌≡◌, ◌⊎◌, ◌&&◌, arith, leb, ltb, ◌==◌,
  if◌then◌else◌,
}

abbrev pub Memory : Type 0
Memory = ℕ → ℕ

-- `*(uint64 *)p = v`
unfoldable pub store64 : Memory → ℕ → ℕ → Memory
store64 m p v q = if leb p q && ltb q (p + 8) then v / 256 ^ (q - p) % 256 else m q

-- `*(uint64 *)p`
unfoldable pub load64 : Memory → ℕ → ℕ
load64 m p =
    m p
    + 256 * m (p + 1)
    + 256 ^ 2 * m (p + 2)
    + 256 ^ 3 * m (p + 3)
    + 256 ^ 4 * m (p + 4)
    + 256 ^ 5 * m (p + 5)
    + 256 ^ 6 * m (p + 6)
    + 256 ^ 7 * m (p + 7)

-- `*(uint32 *)p = v` and `*(uint32 *)p`
unfoldable pub store32 : Memory → ℕ → ℕ → Memory
store32 m p v q = if leb p q && ltb q (p + 4) then v / 256 ^ (q - p) % 256 else m q

unfoldable pub load32 : Memory → ℕ → ℕ
load32 m p = m p + 256 * m (p + 1) + 256 ^ 2 * m (p + 2) + 256 ^ 3 * m (p + 3)

-- `*(uint16 *)p = v` and `*(uint16 *)p`
unfoldable pub store16 : Memory → ℕ → ℕ → Memory
store16 m p v q = if leb p q && ltb q (p + 2) then v / 256 ^ (q - p) % 256 else m q

unfoldable pub load16 : Memory → ℕ → ℕ
load16 m p = m p + 256 * m (p + 1)

-- `*p = v` for a byte
unfoldable pub store8 : Memory → ℕ → ℕ → Memory
store8 m p v q = if p == q then v % 256 else m q

store64-inside :
    (m : Memory) (p v k q : ℕ) → q ≡ p + k → k < 8 → store64 m p v q ≡ v / 256 ^ k % 256
unfolding store64
store64-inside m p v k q e h = let d : q - p ≡ k = omega arith in rw d (ground arith)

pub store64-outside : (m : Memory) (p v q : ℕ) → (q < p) ⊎ (p + 8 ≤ q) → store64 m p v q ≡ m q
unfolding store64
store64-outside m p v q h = ground arith

pub load64-store64_self : (m : Memory) (p v : ℕ) → v < 2 ^ 64 → load64 (store64 m p v) p ≡ v
unfolding load64
load64-store64_self m p v h = omega (
  arith,
  store64-inside m p v 0 p (omega arith) (omega arith),
  store64-inside m p v 1 (p + 1) (omega arith) (omega arith),
  store64-inside m p v 2 (p + 2) (omega arith) (omega arith),
  store64-inside m p v 3 (p + 3) (omega arith) (omega arith),
  store64-inside m p v 4 (p + 4) (omega arith) (omega arith),
  store64-inside m p v 5 (p + 5) (omega arith) (omega arith),
  store64-inside m p v 6 (p + 6) (omega arith) (omega arith),
  store64-inside m p v 7 (p + 7) (omega arith) (omega arith),
)

-- A load sees only the eight bytes of its cell.
pub load64-ext :
    (m n : Memory) (q : ℕ) → ((k : ℕ) → k < 8 → m (q + k) ≡ n (q + k)) → load64 m q ≡ load64 n q
unfolding load64
load64-ext m n q same = omega (
  arith,
  let e : m q ≡ n q = subst (λ t. m t ≡ n t) (add-zero q) (same 0 (omega arith)) in e,
  same 1 (omega arith),
  same 2 (omega arith),
  same 3 (omega arith),
  same 4 (omega arith),
  same 5 (omega arith),
  same 6 (omega arith),
  same 7 (omega arith),
)

pub load64-store64_ne :
    (m : Memory) (p v q : ℕ) → (q + 8 ≤ p) ⊎ (p + 8 ≤ q) → load64 (store64 m p v) q ≡ load64 m q
load64-store64_ne m p v q h =
    load64-ext (store64 m p v) m q λ k b. store64-outside m p v (q + k) (omega arith)

pub store32-outside : (m : Memory) (p v q : ℕ) → (q < p) ⊎ (p + 4 ≤ q) → store32 m p v q ≡ m q
unfolding store32
store32-outside m p v q h = ground arith

store32-inside :
    (m : Memory) (p v k q : ℕ) → q ≡ p + k → k < 4 → store32 m p v q ≡ v / 256 ^ k % 256
unfolding store32
store32-inside m p v k q e h = let d : q - p ≡ k = omega arith in rw d (ground arith)

pub load32-store32_self : (m : Memory) (p v : ℕ) → v < 2 ^ 32 → load32 (store32 m p v) p ≡ v
unfolding load32
load32-store32_self m p v h = omega (
  arith,
  store32-inside m p v 0 p (omega arith) (omega arith),
  store32-inside m p v 1 (p + 1) (omega arith) (omega arith),
  store32-inside m p v 2 (p + 2) (omega arith) (omega arith),
  store32-inside m p v 3 (p + 3) (omega arith) (omega arith),
)

-- A load sees only the four bytes of its cell.
pub load32-ext :
    (m n : Memory) (q : ℕ) → ((k : ℕ) → q ≤ k → k < q + 4 → m k ≡ n k) → load32 m q ≡ load32 n q
unfolding load32
load32-ext m n q same = omega (
  arith,
  same q (omega arith) (omega arith),
  same (q + 1) (omega arith) (omega arith),
  same (q + 2) (omega arith) (omega arith),
  same (q + 3) (omega arith) (omega arith),
)

pub load32-store32_ne :
    (m : Memory) (p v q : ℕ) → (q + 4 ≤ p) ⊎ (p + 4 ≤ q) → load32 (store32 m p v) q ≡ load32 m q
load32-store32_ne m p v q h =
    load32-ext (store32 m p v) m q λ k lo hi. store32-outside m p v k (omega arith)

pub store16-outside : (m : Memory) (p v q : ℕ) → (q < p) ⊎ (p + 2 ≤ q) → store16 m p v q ≡ m q
unfolding store16
store16-outside m p v q h = ground arith

pub load16-store16_self : (m : Memory) (p v : ℕ) → v < 2 ^ 16 → load16 (store16 m p v) p ≡ v
unfolding load16 store16
load16-store16_self m p v h =
    let zero_off : p - p ≡ 0 = omega arith in
    let one_off : p + 1 - p ≡ 1 = omega arith in rw (zero_off, one_off) (ground arith)

pub load16-ext :
    (m n : Memory) (q : ℕ) → ((k : ℕ) → q ≤ k → k < q + 2 → m k ≡ n k) → load16 m q ≡ load16 n q
unfolding load16
load16-ext m n q same =
    omega (arith, same q (omega arith) (omega arith), same (q + 1) (omega arith) (omega arith))

pub load16-store16_ne :
    (m : Memory) (p v q : ℕ) → (q + 2 ≤ p) ⊎ (p + 2 ≤ q) → load16 (store16 m p v) q ≡ load16 m q
load16-store16_ne m p v q h =
    load16-ext (store16 m p v) m q λ k lo hi. store16-outside m p v k (omega arith)

-- Every byte is one.
abbrev pub IsBytes : Memory → Type 0
IsBytes m = (q : ℕ) → m q < 256

pub load32-lt : (m : Memory) (p : ℕ) → IsBytes m → load32 m p < 2 ^ 32
unfolding load32
load32-lt m p b = omega (arith, b p, b (p + 1), b (p + 2), b (p + 3))

pub load16-lt : (m : Memory) (p : ℕ) → IsBytes m → load16 m p < 2 ^ 16
unfolding load16
load16-lt m p b = omega (arith, b p, b (p + 1))

pub store32-IsBytes : (m : Memory) (p v : ℕ) → IsBytes m → IsBytes (store32 m p v)
unfolding store32
store32-IsBytes m p v b q = ground (arith, b q)

pub store16-IsBytes : (m : Memory) (p v : ℕ) → IsBytes m → IsBytes (store16 m p v)
unfolding store16
store16-IsBytes m p v b q = ground (arith, b q)
