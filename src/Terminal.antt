-- ===== src/Terminal.antt =====
-- The virtual terminals of src/kernel/drivers/Userland/terminal.c: their set-up, the text that
-- virtualprint appends, the ownership of the screen, and in Refresh the drawing.
pub mod Bounds
pub mod Owner
pub mod Refresh
use chud_os.Base.{
  ℕ, zero, suc, ◌+◌, ◌*◌, ◌/◌, ◌%◌, ◌^◌, Bool, true, false, not, ltb, ◌==◌, if◌then◌else◌, List, [],
  ◌∷◌, length, get_or, Option, none, some,
}
use chud_os.Text.{Buffer, put, ◌>>=◌}

-- `struct Terminal`; `bytes` has 2000 elements and `name` 16.
pub record Terminal : Type 0 where
  pub bytes : Buffer
  pub last_pos : ℕ
  pub w : ℕ
  pub h : ℕ
  pub visible : Bool
  pub x : ℕ
  pub y : ℕ
  pub name : Buffer
  pub name_len : ℕ
  pub fg : ℕ
  pub bg : ℕ

abbrev pub zeros : ℕ → Buffer
zeros zero = []
zeros (suc n) = 0 ∷ zeros n

abbrev zero_terminal : Terminal
zero_terminal = record {
  bytes = zeros 2000;
  last_pos = 0;
  w = 0;
  h = 0;
  visible = false;
  x = 0;
  y = 0;
  name = zeros 16;
  name_len = 0;
  fg = 0;
  bg = 0;
}

-- Terminal 0 after initVirtualTerminals: the kernel's, called KERNEL, black on white.
pub kernel_terminal : Bool → Terminal
kernel_terminal debug = record zero_terminal {
  visible = debug;
  w = if debug then 80 / 2 else 80;
  x = if debug then 80 / 2 else 0;
  name = 75 ∷ 69 ∷ 82 ∷ 78 ∷ 69 ∷ 76 ∷ zeros 10;
  name_len = 6;
  bg = 15;
  fg = 0;
  h = 25;
}

-- Terminal 1: the user's. The six bytes that are copied are USER, the end of that text, and one more, which
-- is `behind`.
unfoldable pub user_terminal : ℕ → Bool → Terminal
user_terminal behind debug = record zero_terminal {
  visible = true;
  w = if debug then 80 / 2 else 80;
  name = 85 ∷ 83 ∷ 69 ∷ 82 ∷ 0 ∷ behind ∷ zeros 10;
  name_len = 4;
  bg = 0;
  fg = 15;
  h = 25;
}

-- The length of the text, up to 128.
pub text_length : ℕ → ℕ → Buffer → ℕ
text_length zero i src = i
text_length (suc rounds) i src =
    let rest = text_length rounds (suc i) src in if get_or src i 0 == 0 then i else rest

-- `memcpy(&bytes[pos], src, len)`, from element `i` on.
pub copy_text : ℕ → ℕ → ℕ → Buffer → Buffer → Option Buffer
copy_text zero i pos src bytes = some bytes
copy_text (suc rounds) i pos src bytes =
    put (pos + i) (get_or src i 0) bytes >>= copy_text rounds (suc i) pos src

-- What virtualprint does to its terminal before it draws all of them (Refresh.virtual_print). `lastPos` is 64
-- bits wide.
pub append_text : Buffer → Terminal → Option Terminal
append_text src term =
    let len = text_length 128 0 src in
    let nadd = ltb (term.w * term.h) ((term.last_pos + len) % 2 ^ 64) in
    let pos = if nadd then 0 else term.last_pos in
    copy_text len 0 pos src term.bytes >>= (λ bytes. some (record term {
      bytes = bytes;
      last_pos = if nadd then 0 else (term.last_pos + len) % 2 ^ 64;
    }))

-- `screenOwner` and `TTY`; PID 0 stands for nobody.
pub record Ownership : Type 0 where
  pub screen_owner : ℕ
  pub tty : Bool

pub request_screen_ownership : ℕ → Ownership → Bool × Ownership
request_screen_ownership pid o =
    if o.screen_owner == 0 then (true, record o { screen_owner = pid }) else (false, o)

pub relinquish_screen_ownership : ℕ → Ownership → Ownership
relinquish_screen_ownership pid o =
    if o.screen_owner == pid then record o { screen_owner = 0 } else o

pub set_tty : ℕ → Bool → Ownership → Ownership
set_tty pid new o = if o.screen_owner == pid then record o { tty = new } else o
