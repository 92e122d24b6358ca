-- ===== src/Spaces/Tests.antt =====
-- The flags of a segment that may be read and executed.
use lilac_os.Base.{bit_and, ◌≡◌, ◌&&◌, arith, ◌==◌}
use lilac_os.Paging.{ppn2pte, is_table}
use lilac_os.Spaces.{convert_flags}
use lilac_os.Spaces.Flags.{loaded_is_table}

loaded_is_table_example :
    is_table (ppn2pte 0x80200 (convert_flags 0))
    ≡ (bit_and 0 1 == 0 && bit_and 0 2 == 0 && bit_and 0 4 == 0)
loaded_is_table_example = loaded_is_table 0x80200 0 (omega arith)
