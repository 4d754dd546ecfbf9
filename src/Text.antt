-- ===== src/Text.antt =====
-- Text in C buffers, for the conversions of src/kernel/Libraries/std.c. A buffer is the list of its
-- characters; `none` stands for an access outside of it, which C leaves undefined.
pub mod Number
use chud_os.Base.{
  ℕ, zero, suc, ◌+◌, Option, none, some, List, length, get_elem?, set, ltb, if◌then◌else◌,
}

infixl 5 ◌>>=◌
abbrev pub ◌>>=◌ {ℓ κ} : {A : Type ℓ} {B : Type κ} → Option A → (A → Option B) → Option B
none >>= f = none
some a >>= f = f a

abbrev pub Buffer : Type 0
Buffer = List ℕ

-- `buffer[i] = c`.
abbrev pub put : ℕ → ℕ → Buffer → Option Buffer
put i c buffer = if ltb i (length buffer) then some (set buffer i c) else none
