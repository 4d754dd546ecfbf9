-- ===== src/Tasks/Bytes.antt =====
-- 64-bit words in byte-addressed memory, lowest byte first.
use chud_os.Base.{ℕ, ◌+◌, ◌*◌, ◌/◌, ◌%◌, ◌^◌, ◌<◌, ◌≤◌, ◌≡◌, ltb, if◌then◌else◌, arith}
use chud_os.Base.Words.{add64, sub64}

abbrev pub byte : ℕ → ℕ → ℕ
byte v i = v / 2 ^ (8 * i) % 0x100

-- `*(uint64_t*)a = v` and `*(uint64_t*)a`.
unfoldable pub store64 : ℕ → ℕ → (ℕ → ℕ) → ℕ → ℕ
store64 a v bytes p = if ltb (sub64 p a) 8 then byte v (sub64 p a) else bytes p

unfoldable pub load64 : ℕ → (ℕ → ℕ) → ℕ
load64 a bytes =
    bytes a
    + 0x100
      * (bytes (add64 a 1)
          + 0x100
            * (bytes (add64 a 2)
                + 0x100
                  * (bytes (add64 a 3)
                      + 0x100
                        * (bytes (add64 a 4)
                            + 0x100
                              * (bytes (add64 a 5)
                                  + 0x100 * (bytes (add64 a 6) + 0x100 * bytes (add64 a 7)))))))

stored : (a v i : ℕ) (bytes : ℕ → ℕ) → a < 2 ^ 64 → i < 8 → store64 a v bytes (add64 a i) ≡ byte v i
unfolding store64
stored a v i bytes ha hi = let e : sub64 (add64 a i) a ≡ i = omega arith in rw e (ground arith)

stored_here : (a v : ℕ) (bytes : ℕ → ℕ) → a < 2 ^ 64 → store64 a v bytes a ≡ byte v 0
unfolding store64
stored_here a v bytes ha = let e : sub64 a a ≡ 0 = omega arith in rw e (ground arith)

pub load64-store64 :
    (a v : ℕ) (bytes : ℕ → ℕ) → a < 2 ^ 64 → v < 2 ^ 64 → load64 a (store64 a v bytes) ≡ v
unfolding load64
load64-store64 a v bytes ha hv = omega (
  arith,
  stored_here a v bytes ha,
  stored a v 1 bytes ha (omega arith),
  stored a v 2 bytes ha (omega arith),
  stored a v 3 bytes ha (omega arith),
  stored a v 4 bytes ha (omega arith),
  stored a v 5 bytes ha (omega arith),
  stored a v 6 bytes ha (omega arith),
  stored a v 7 bytes ha (omega arith),
)

-- A word is read from its eight bytes alone.
pub load64_eq :
    (a : ℕ) (f g : ℕ → ℕ)
    → a + 8 ≤ 2 ^ 64
    → ((p : ℕ) → a ≤ p → p < a + 8 → f p ≡ g p)
    → load64 a f ≡ load64 a g
unfolding load64
load64_eq a f g h same = omega (
  arith,
  same a (omega arith) (omega arith),
  same (add64 a 1) (omega arith) (omega arith),
  same (add64 a 2) (omega arith) (omega arith),
  same (add64 a 3) (omega arith) (omega arith),
  same (add64 a 4) (omega arith) (omega arith),
  same (add64 a 5) (omega arith) (omega arith),
  same (add64 a 6) (omega arith) (omega arith),
  same (add64 a 7) (omega arith) (omega arith),
)

-- A store changes only the eight bytes from its address on.
pub store64_outside :
    (a v p : ℕ) (bytes : ℕ → ℕ)
    → a + 8 ≤ 2 ^ 64
    → p < 2 ^ 64
    → (a + 8 ≤ p)
    → store64 a v bytes p ≡ bytes p
unfolding store64
store64_outside a v p bytes ha hp h = ground arith
