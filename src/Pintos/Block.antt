-- ===== src/Pintos/Block.antt =====
-- group1/pintos/src/devices/block.c: a block device as an array of sectors, and its bytes at one
-- address each. The driver reads and writes whole sectors; the counts of accesses, which are only
-- printed, are left out. An access past the end panics, which is a fault.
use sum.Prelude.{
  ℕ, ◌/◌, ◌%◌, ◌<◌, ◌≡◌, Bool, false, Option, List, length, get_elem?, ltb, ◌==◌, if◌then◌else◌,
  Run, done, fault, arith,
}

abbrev pub sector_size : ℕ
sector_size = 512

pub record Block : Type 0 where
  pub size : ℕ
  pub sectors : ℕ → List ℕ
  pub is_foreign : Bool

unfoldable pub read : Block → ℕ → Run (List ℕ)
read d s = if ltb s d.size then done (d.sectors s) else fault

unfoldable pub write : Block → ℕ → List ℕ → Run Block
write d s bytes =
    if ltb s d.size
    then if d.is_foreign
      then fault
      else done (record d { sectors = λ t. if s == t then bytes else d.sectors t })
    else fault

-- Every sector is full, and the device can be written.
pub record IsBlock (d : Block) : Type 0 where
  pub full : (s : ℕ) → length (d.sectors s) ≡ sector_size
  pub own : d.is_foreign ≡ false

-- The byte at an address.
unfoldable pub byte_at : Block → ℕ → Option ℕ
byte_at d a = get_elem? (d.sectors (a / sector_size)) (a % sector_size)

-- The device with one sector written.
abbrev pub with_sector : Block → ℕ → List ℕ → Block
with_sector d s bytes = record d { sectors = λ t. if s == t then bytes else d.sectors t }

pub write_lem :
    (d : Block) (s : ℕ) (bytes : List ℕ)
    → IsBlock d
    → s < d.size
    → length bytes ≡ sector_size
    → (write d s bytes ≡ done (with_sector d s bytes))
      × IsBlock (with_sector d s bytes)
      × ((a : ℕ)
          → byte_at (with_sector d s bytes) a
            ≡ (if s == a / sector_size then get_elem? bytes (a % sector_size) else byte_at d a))
unfolding write byte_at
write_lem d s bytes h lt whole = (
  ground (arith, h.own),
  record { full = λ t. ground (arith, h.full t, whole); own = h.own },
  λ a. ground arith,
)
