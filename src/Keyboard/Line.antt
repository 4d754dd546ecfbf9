-- ===== src/Keyboard/Line.antt =====
-- A line that is typed on the keyboard of src/kernel/drivers/Devices/PS2/Keyboard.c, from its first key to the
-- buffer of the program that waits for it.
use chud_os.Base.{
  ℕ, zero, suc, ◌+◌, ◌^◌, ◌≤◌, ◌<◌, ◌≡◌, ◌≢◌, refl, ap, ◌∙◌, arith, Bool, Option, none, some, List,
  [], ◌∷◌, length, update, update_self, update_ne, ==_of_ne, get_or,
}
use chud_os.Base.Words.{sub64}
use chud_os.Tasks.{InterruptRegisters, Task, Kernel, set_registers, ready_process_state}
use chud_os.Keyboard.{
  Keyboard, Echo, KeyResult, silent, on_terminal, enter_key, key_code_to_char, store_char, copy_in,
  deliver_line, get_waiting_program, press_entry, store_typed, press_key, handle_keyboard_interrupt,
  key_code_lookup_table, is_upper,
}
use chud_os.Keyboard.Tables.{char_of, in_table, key_code_to_char-char_of}

-- A key of the table that types a character other than backspace and tab.
pub record IsPlain (shifted : Bool) (key_code : ℕ) : Type 0 where
  pub in_range : key_code < 85
  pub printable : get_or key_code_lookup_table key_code 0 ≢ 0
  pub no_backspace : char_of key_code shifted ≢ 8
  pub no_tab : char_of key_code shifted ≢ 9

dispatch :
    (key_code : ℕ) (regs : InterruptRegisters) (kb : Keyboard) (k : Kernel)
    → key_code < 85
    → (key_code ≢ 0) × (key_code ≢ 42) × (key_code ≢ 54) × (key_code ≢ 58)
    → handle_keyboard_interrupt 1 key_code regs kb k
      ≡ press_key key_code kb (set_registers k.cur_pid regs k)
unfolding handle_keyboard_interrupt
dispatch key_code regs kb k h ne = ground (arith, ne)

no_modifier :
    (key_code : ℕ)
    → get_or key_code_lookup_table key_code 0 ≢ 0
    → (key_code ≢ 0) × (key_code ≢ 42) × (key_code ≢ 54) × (key_code ≢ 58)
unfolding key_code_lookup_table
no_modifier key_code h = (
  λ e. h (ap (λ c. get_or key_code_lookup_table c 0) e),
  λ e. h (ap (λ c. get_or key_code_lookup_table c 0) e),
  λ e. h (ap (λ c. get_or key_code_lookup_table c 0) e),
  λ e. h (ap (λ c. get_or key_code_lookup_table c 0) e),
)

abbrev with_char : ℕ → Keyboard → Keyboard
with_char c kb = record kb {
  key_buffer = update kb.key_buffer kb.key_buffer_pos c;
  key_buffer_pos = kb.key_buffer_pos + 1;
}

store_char-plain :
    (c : ℕ) (kb : Keyboard)
    → c ≢ 8
    → c ≢ 9
    → kb.key_buffer_pos < 256
    → store_char c kb ≡ (on_terminal c, with_char c kb)
unfolding store_char
store_char-plain c kb h h' room = ground (arith, h, h', room)

entry_plain :
    (entry key_code : ℕ) (kb : Keyboard) (k : Kernel)
    → entry ≢ 0
    → press_entry (some entry) key_code kb k ≡ store_typed (key_code_to_char key_code kb) kb k
unfolding press_entry
entry_plain zero key_code kb k h = absurd (h refl)
entry_plain (suc c) key_code kb k h = refl

plain_key :
    (key_code : ℕ) (regs : InterruptRegisters) (kb : Keyboard) (k : Kernel)
    → IsPlain (is_upper kb) key_code
    → kb.key_buffer_pos < 256
    → handle_keyboard_interrupt 1 key_code regs kb k
      ≡ some (
        on_terminal (char_of key_code (is_upper kb)),
        with_char (char_of key_code (is_upper kb)) kb,
        set_registers k.cur_pid regs k,
      )
unfolding press_key store_typed
plain_key key_code regs kb k plain room =
    let saved = set_registers k.cur_pid regs k in
    let c = char_of key_code (is_upper kb) in
    dispatch key_code regs kb k plain.in_range (no_modifier key_code plain.printable)
    ∙ ap (λ entry. press_entry entry key_code kb saved) (in_table key_code plain.in_range)
    ∙ entry_plain (get_or key_code_lookup_table key_code 0) key_code kb saved plain.printable
    ∙ ap (λ char. store_typed char kb saved) (key_code_to_char-char_of key_code kb plain.in_range)
    ∙ ap (λ (r : Echo × Keyboard). some (r.0, r.1, saved))
        (store_char-plain c kb plain.no_backspace plain.no_tab room)

-- A key interrupt: the code, the interrupt frame and the kernel of that time.
abbrev pub KeyEvent : Type 0
KeyEvent = ℕ × InterruptRegisters × Kernel

abbrev after_key : KeyResult → (Keyboard → Option Keyboard) → Option Keyboard
after_key none rest = none
after_key (some (echo, kb, k)) rest = rest kb

-- The keyboard after a sequence of keys; `none` where one reads past the table.
pub type_keys : List KeyEvent → Keyboard → Option Keyboard
type_keys [] kb = some kb
type_keys ((key_code, regs, k) ∷ es) kb =
    after_key (handle_keyboard_interrupt 1 key_code regs kb k) (type_keys es)

abbrev pub chars : Bool → List KeyEvent → List ℕ
chars shifted [] = []
chars shifted ((key_code, regs, k) ∷ es) = char_of key_code shifted ∷ chars shifted es

abbrev pub AllPlain : Bool → List KeyEvent → Type 0
AllPlain shifted [] = Unit {0}
AllPlain shifted ((key_code, regs, k) ∷ es) = IsPlain shifted key_code × AllPlain shifted es

-- The keyboard after plain keys.
record Typed (kb : Keyboard) (cs : List ℕ) (kb' : Keyboard) : Type 0 where
  pos : kb'.key_buffer_pos ≡ kb.key_buffer_pos + length cs
  now : (i : ℕ) → i < length cs → kb'.key_buffer (kb.key_buffer_pos + i) ≡ get_or cs i 0
  before : (i : ℕ) → i < kb.key_buffer_pos → kb'.key_buffer i ≡ kb.key_buffer i

Typed-now :
    (kb : Keyboard) (c : ℕ) (cs : List ℕ) (kb' : Keyboard)
    → Typed (with_char c kb) cs kb'
    → (i : ℕ) → i < suc (length cs)
    → kb'.key_buffer (kb.key_buffer_pos + i) ≡ get_or (c ∷ cs) i 0
Typed-now kb c cs kb' typed zero h =
    ap kb'.key_buffer (omega arith)
    ∙ typed.before kb.key_buffer_pos (omega arith)
    ∙ update_self kb.key_buffer kb.key_buffer_pos c
Typed-now kb c cs kb' typed (suc i) h = ap kb'.key_buffer (omega arith) ∙ typed.now i (omega arith)

Typed-next :
    (kb : Keyboard) (c : ℕ) (cs : List ℕ) (kb' : Keyboard)
    → Typed (with_char c kb) cs kb'
    → Typed kb (c ∷ cs) kb'
Typed-next kb c cs kb' typed = record {
  pos = omega (arith, typed.pos);
  now = Typed-now kb c cs kb' typed;
  before = λ i h.
      typed.before i (omega arith)
      ∙ update_ne kb.key_buffer kb.key_buffer_pos c i (λ e. absurd (omega (arith, e)));
}

type_keys-Typed :
    (es : List KeyEvent) (kb : Keyboard)
    → AllPlain (is_upper kb) es
    → kb.key_buffer_pos + length (chars (is_upper kb) es) ≤ 256
    → (kb' : Keyboard) × (type_keys es kb ≡ some kb') × Typed kb (chars (is_upper kb) es) kb'
unfolding type_keys
type_keys-Typed [] kb plain room = (
  kb,
  refl,
  record { pos = omega arith; now = λ i h. absurd (omega arith); before = λ i h. refl },
)
type_keys-Typed ((key_code, regs, k) ∷ es) kb plain room =
    let c = char_of key_code (is_upper kb) in
    let (kb', runs, typed) = type_keys-Typed es (with_char c kb) plain.1 (omega arith) in
    (
      kb',
      ap (λ r. after_key r (type_keys es)) (plain_key key_code regs kb k plain.0 (omega arith))
          ∙ runs,
      Typed-next kb c (chars (is_upper kb) es) kb' typed,
    )

-- Enter hands the characters over.
enter_delivers :
    (regs : InterruptRegisters) (kb : Keyboard) (k : Kernel)
    → let saved = set_registers k.cur_pid regs k in
      let delivered = deliver_line (get_waiting_program saved) kb saved in
      handle_keyboard_interrupt 1 28 regs kb k ≡ some (silent, delivered.0, delivered.1)
unfolding handle_keyboard_interrupt press_key press_entry key_code_lookup_table
enter_delivers regs kb k = refl

copy_in_at :
    (buffer count : ℕ) (from bytes : ℕ → ℕ) (i : ℕ)
    → i < 2 ^ 64
    → i < count
    → copy_in buffer count from bytes (buffer + i) ≡ from i
copy_in_at buffer count from bytes i small h =
    let e : sub64 (buffer + i) buffer ≡ i = omega arith in rw e (ground (arith, h))

module _ (pid : ℕ) (kb : Keyboard) (k : Kernel) (some_pid : pid ≢ 512) where
  deliver_line-ready :
      ((deliver_line pid kb k).1.task_manager pid).process_state ≡ ready_process_state
  unfolding deliver_line
  deliver_line-ready =
      rw (==_of_ne pid 512 some_pid)
        (ap (λ (t : Task). t.process_state) (update_self k.task_manager pid _))

  deliver_line-pos : (deliver_line pid kb k).0.key_buffer_pos ≡ 0
  unfolding deliver_line
  deliver_line-pos = rw (==_of_ne pid 512 some_pid) refl

  deliver_line-bytes :
      (i : ℕ)
      → i < 2 ^ 64
      → i < kb.key_buffer_pos
      → i < (k.task_manager pid).saved_registers.rcx
      → (deliver_line pid kb k).1.space
          (k.task_manager pid).base_pml4
          ((k.task_manager pid).saved_registers.rbx + i)
        ≡ kb.key_buffer i
  unfolding deliver_line
  deliver_line-bytes i small h h' =
      let task = k.task_manager pid in
      rw (==_of_ne pid 512 some_pid) (
        rw (update_self k.space task.base_pml4 _) (
          copy_in_at task.saved_registers.rbx _ kb.key_buffer (k.space task.base_pml4) i small
            (ground (arith, h, h'))))

-- What a program gets from a line of `cs` typed on it: `k` is the kernel at the last key, `k'` after it.
abbrev pub Delivered : List ℕ → ℕ → Kernel → Keyboard → Kernel → Type 0
Delivered cs pid k kb' k' =
    (kb'.key_buffer_pos ≡ 0)
    × ((k'.task_manager pid).process_state ≡ ready_process_state)
    × ((i : ℕ)
        → i < length cs
        → i < (k.task_manager pid).saved_registers.rcx
        → k'.space (k.task_manager pid).base_pml4 ((k.task_manager pid).saved_registers.rbx + i)
          ≡ get_or cs i 0)

deliver_line-Delivered :
    (cs : List ℕ) (kb kb' : Keyboard) (pid : ℕ) (k : Kernel)
    → kb.key_buffer_pos ≡ 0
    → length cs ≤ 256
    → pid ≢ 512
    → Typed kb cs kb'
    → Delivered cs pid k (deliver_line pid kb' k).0 (deliver_line pid kb' k).1
deliver_line-Delivered cs kb kb' pid k start short some_pid typed = (
  deliver_line-pos pid kb' k some_pid,
  deliver_line-ready pid kb' k some_pid,
  λ i h h'.
      deliver_line-bytes pid kb' k some_pid i (omega arith) (omega (arith, typed.pos)) h'
      ∙ ap kb'.key_buffer (omega arith)
      ∙ typed.now i h,
)

-- From an empty line buffer, any sequence of at most 256 keys that type characters other than backspace and
-- tab, with whatever happens to the kernel between them, is taken without reading past the table; and
-- Enter then, where GetWaitingProgram finds a program, empties the buffer, makes that program ready, and
-- leaves in its buffer the typed characters in their order, as many as fit the length it gave.
pub handle_keyboard_interrupt-line :
    (es : List KeyEvent) (kb : Keyboard) (regs : InterruptRegisters) (k : Kernel)
    → kb.key_buffer_pos ≡ 0
    → AllPlain (is_upper kb) es
    → length (chars (is_upper kb) es) ≤ 256
    → get_waiting_program (set_registers k.cur_pid regs k) ≢ 512
    → let saved = set_registers k.cur_pid regs k in
      (kb' : Keyboard) × (kb'' : Keyboard) × (k' : Kernel) × (type_keys es kb ≡ some kb')
      × (handle_keyboard_interrupt 1 enter_key regs kb' k ≡ some (silent, kb'', k'))
      × Delivered (chars (is_upper kb) es) (get_waiting_program saved) saved kb'' k'
handle_keyboard_interrupt-line es kb regs k start plain short waits =
    let saved = set_registers k.cur_pid regs k in
    let pid = get_waiting_program saved in
    let (kb', runs, typed) = type_keys-Typed es kb plain (omega arith) in
    let delivered = deliver_line pid kb' saved in
    (
      kb',
      delivered.0,
      delivered.1,
      runs,
      enter_delivers regs kb' k,
      deliver_line-Delivered (chars (is_upper kb) es) kb kb' pid saved start short waits typed,
    )
