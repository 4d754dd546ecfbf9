-- ===== src/Console/Scroll.antt =====
-- What VGA_Scroll moves.
use chud_os.Base.{ℕ, zero, suc, ◌+◌, ◌*◌, ◌<◌, ◌≡◌, arith, ◌&&◌, ltb, leb, ==_of_ne, if◌then◌else◌}
use chud_os.Console.{Screen, copy_row, copy_rows, vga_scroll}

copy_rows-shift :
    (rounds i n : ℕ) (byte : ℕ → ℕ) (p : ℕ)
    → 0 < n
    → copy_rows rounds i n byte p
      ≡ (if leb (i * 160) p && ltb p ((i + rounds) * 160) then byte (p + n * 160) else byte p)
unfolding copy_rows copy_row
copy_rows-shift zero i n byte p h = ground arith
copy_rows-shift (suc rounds) i n byte p h =
    let moved = copy_row (i * 160) (i * 160 + n * 160) byte in
    ground (arith, copy_rows-shift rounds (suc i) n moved p h)

-- VGA_Scroll by at least one line moves 80 rows, not the 25 of the screen: each of the first 12800 bytes
-- from the start of the screen's 4000 gets the value of the byte `n` rows further on, and all others
-- stay.
pub vga_scroll-shift :
    (n p : ℕ) (s : Screen)
    → 0 < n
    → (vga_scroll n s).byte p ≡ (if ltb p 12800 then s.byte (p + n * 160) else s.byte p)
unfolding vga_scroll
vga_scroll-shift n p s h =
    rw (==_of_ne n 0 (λ e. absurd (omega arith)))
      (ground (arith, copy_rows-shift 80 0 n s.byte p h))
