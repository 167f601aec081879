-- ===== src/Fs/Checksum/Word.antt =====
-- The two fields of a block pointer do not disturb each other.
use cs537_intro_to_os.Prelude.{ℕ, ◌^◌, ◌%◌, ◌<◌, ◌≡◌, arith}
use cs537_intro_to_os.Fs.Checksum.{get_checksum, get_addr, set_checksum, set_addr}

-- Setting one field of a 32-bit block pointer sets it to the low bits of the value, keeps the other
-- field, and stays a 32-bit word; a word is determined by its two fields.
pub pointer_fields :
    (addr val : ℕ)
    → addr < 2 ^ 32
    → (get_checksum (set_checksum addr val) ≡ val % 2 ^ 8)
      × (get_addr (set_checksum addr val) ≡ get_addr addr)
      × (get_addr (set_addr addr val) ≡ val % 2 ^ 24)
      × (get_checksum (set_addr addr val) ≡ get_checksum addr)
      × (set_checksum addr val < 2 ^ 32)
      × (set_addr addr val < 2 ^ 32)
      × (set_checksum addr (get_checksum addr) ≡ addr)
pointer_fields addr val h = omega arith
