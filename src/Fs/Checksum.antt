-- ===== src/Fs/Checksum.antt =====
-- Checksums of checked files: the macros of Project5b/xv6/include/fs.h on a 32-bit block pointer,
-- and `calculate_checksum` of fs.c. `x & CH_MASK` and `x & ~CH_MASK` are written by `/` and `%`.
pub mod Word
pub mod Detect
use cs537_intro_to_os.Prelude.{ℕ, zero, suc, ◌+◌, ◌*◌, ◌/◌, ◌%◌, ◌^◌, bit_xor, for_each}
use cs537_intro_to_os.Fs.Block.{Block}

-- `CH_GET_CHECKSUM`: `(addr & 0xff000000) >> 24`
abbrev pub get_checksum : ℕ → ℕ
get_checksum addr = addr / 2 ^ 24 % 2 ^ 8

-- `CH_GET_ADDR`: `addr & 0x00ffffff`
abbrev pub get_addr : ℕ → ℕ
get_addr addr = addr % 2 ^ 24

-- `CH_SET_CHECKSUM`: `(addr & 0x00ffffff) | ((val & 0xff) << 24)`
abbrev pub set_checksum : (addr val : ℕ) → ℕ
set_checksum addr val = addr % 2 ^ 24 + val % 2 ^ 8 * 2 ^ 24

-- `CH_SET_ADDR`: `(addr & 0xff000000) | (val & 0x00ffffff)`
abbrev pub set_addr : (addr val : ℕ) → ℕ
set_addr addr val = addr / 2 ^ 24 % 2 ^ 8 * 2 ^ 24 + val % 2 ^ 24

-- the loop of `calculate_checksum` from byte `i` on, for `k` bytes
unfoldable pub checksum_from : (k i result : ℕ) → Block → ℕ
checksum_from zero i result b = result
checksum_from (suc k) i result b = checksum_from k (i + 1) (bit_xor result (b i)) b

unfoldable pub calculate_checksum : Block → (size : ℕ) → ℕ
unfolding checksum_from
calculate_checksum b size = checksum_from size 0 0 b
