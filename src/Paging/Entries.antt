-- ===== src/Paging/Entries.antt =====
-- Page table entries and page numbers, taken apart and put together.
use lilac_os.Base.{ℕ, ◌+◌, ◌*◌, ◌%◌, ◌^◌, ◌<◌, ◌≡◌, arith}
use lilac_os.Word.{u64_mod, ◌<<<◌}
use lilac_os.Word.Fields.{bit_or-field, bit_and-field}
use lilac_os.Paging.{ppn2pte, pte2ppn, pte2pa, get_vpn_levels, is_table}

pub ppn2pte_sum :
    (ppn flags : ℕ) → ppn < 2 ^ 44 → flags < 2 ^ 10 → ppn2pte ppn flags ≡ ppn * 2 ^ 10 + flags
unfolding ppn2pte
ppn2pte_sum ppn flags h g =
    let small : (ppn <<< 10) % u64_mod ≡ ppn * 2 ^ 10 = omega arith in
    rw small (bit_or-field 10 ppn flags g)

-- What an entry says of its frame and flags.
pub record Maps (pte ppn flags : ℕ) : Type 0 where
  pub frame : pte2ppn pte ≡ ppn
  pub address : pte2pa pte ≡ ppn * 4096
  pub low : pte % 2 ^ 10 ≡ flags
  pub small : pte < 2 ^ 54

-- An entry made of a frame number of 44 bits and flags of 10 bits gives the number, its
-- address and the flags back, and is below 2^54.
pub ppn2pte_lem :
    (ppn flags : ℕ) → ppn < 2 ^ 44 → flags < 2 ^ 10 → Maps (ppn2pte ppn flags) ppn flags
unfolding pte2ppn pte2pa
ppn2pte_lem ppn flags h g =
    let whole = ppn2pte_sum ppn flags h g in
    let frame : pte2ppn (ppn2pte ppn flags) ≡ ppn = omega (arith, whole) in
    record {
      frame = frame;
      address = omega (arith, frame);
      low = omega (arith, whole);
      small = omega (arith, whole);
    }

-- The three levels of a page number.
pub record Levels (vpn : ℕ) : Type 0 where
  pub whole :
      get_vpn_levels vpn 2 * 2 ^ 18 + get_vpn_levels vpn 1 * 2 ^ 9 + get_vpn_levels vpn 0
      ≡ vpn % 2 ^ 27
  pub top : get_vpn_levels vpn 2 < 512
  pub middle : get_vpn_levels vpn 1 < 512
  pub bottom : get_vpn_levels vpn 0 < 512

-- The three levels of a page number are indices of a table of 512 entries, and together they
-- are the low 27 bits of the number.
pub get_vpn_levels_lem : (vpn : ℕ) → Levels vpn
unfolding get_vpn_levels
get_vpn_levels_lem vpn = record {
  whole = omega arith;
  top = omega arith;
  middle = omega arith;
  bottom = omega arith;
}

-- Whether an entry is taken for a table depends on its flags alone.
pub is_table_flags :
    (ppn flags : ℕ) → ppn < 2 ^ 44 → flags < 2 ^ 10 → is_table (ppn2pte ppn flags) ≡ is_table flags
unfolding is_table
is_table_flags ppn flags h g = rw (
  ppn2pte_sum ppn flags h g,
  bit_and-field 10 ppn flags 1 g (omega arith),
  bit_and-field 10 ppn flags 14 g (omega arith),
)
