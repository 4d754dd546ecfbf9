-- ===== src/Tasks/Arguments.antt =====
-- SetupTaskStack of src/kernel/drivers/Userland/Tasks.c. A string of `argv` is the list of its characters,
-- without the terminator.
pub mod Layout
use chud_os.Base.{ℕ, suc, ◌+◌, List, [], ◌∷◌, ◌++◌, length, update}
use chud_os.Base.Words.{sub64}
use chud_os.Tasks.{InterruptRegisters, Task, Kernel, mem_set_cr3, set_registers}
use chud_os.Tasks.Bytes.{store64}

-- The stack pointer and the bytes of the address space.
abbrev pub Stack : Type 0
Stack = ℕ × (ℕ → ℕ)

-- `*(--stack) = c`, from the last character to the first.
unfoldable pub push_chars : List ℕ → Stack → Stack
push_chars [] st = st
push_chars (c ∷ cs) st =
    let (sp, bytes) = push_chars cs st in (sub64 sp 1, update bytes (sub64 sp 1) c)

-- The strings with their terminators, from the last to the first, and where each starts.
unfoldable pub push_strings : List (List ℕ) → Stack → List ℕ × Stack
push_strings [] st = ([], st)
push_strings (s ∷ ss) st =
    let (pointers, st1) = push_strings ss st in
    let st2 = push_chars (s ++ 0 ∷ []) st1 in (st2.0 ∷ pointers, st2)

-- Words, from the last to the first.
unfoldable pub push_words : List ℕ → Stack → Stack
push_words [] st = st
push_words (v ∷ vs) st =
    let (sp, bytes) = push_words vs st in (sub64 sp 8, store64 (sub64 sp 8) v bytes)

unfoldable pub push_arguments : List (List ℕ) → Stack → Stack
push_arguments argv st =
    let (pointers, st1) = push_strings argv st in
    push_words (length argv ∷ (pointers ++ 0 ∷ [])) st1

-- The caller's address space and task are the current ones again afterwards.
pub setup_task_stack : ℕ → List (List ℕ) → Kernel → Kernel
setup_task_stack pid argv k =
    let task = k.task_manager pid in
    let switched = mem_set_cr3 task.base_pml4 (record k { cur_pid = pid }) in
    let (sp, bytes) =
      push_arguments argv (task.saved_registers.rsp, switched.space switched.pml4_physical) in
    let written = record switched { space = update switched.space switched.pml4_physical bytes } in
    let moved = set_registers pid (record task.saved_registers { rsp = sp }) written in
    record (mem_set_cr3 k.pml4_physical moved) { cur_pid = k.cur_pid }
