-- ===== src/PageBitmap/Align.antt =====
-- Kernel/Core/Memory/PhysicalMemoryBitmap.cpp: `Align` at the size of a page.
use objective_hail_os.Prelude.{ℕ, ◌+◌, ◌-◌, ◌*◌, ◌/◌, ◌%◌, ◌^◌, ◌<◌, ◌≡◌, arith}
use objective_hail_os.Prelude.Bits.{bit_and_mask, bit_and_high}
use objective_hail_os.PageBitmap.{page_size, align}

pub align-page_size :
    (addr : ℕ) → addr + 4095 < 2 ^ 64 → align addr page_size ≡ (addr + 4095) / 4096 * 4096
unfolding align
align-page_size addr h = ground (
  arith,
  bit_and_high 12 ((addr + 4095) / 4096) ((addr + 4095) % 4096) (2 ^ 52 - 1),
  bit_and_mask 52 ((addr + 4095) / 4096),
)
