-- ===== src/Tasks/Access.antt =====
-- The memory check of src/kernel/drivers/Userland/Tasks.c: get_mem_low_high, mem_access_ok.
use chud_os.Base.{
  ℕ, ◌+◌, ◌-◌, ◌*◌, ◌/◌, ◌%◌, ◌^◌, ◌<◌, ◌≤◌, ◌≡◌, ◌≢◌, ◌↔◌, ◌⊎◌, Bool, true, false, ◌&&◌, ◌||◌, ltb,
  if◌then◌else◌, arith,
}
use chud_os.Base.Words.{add64}
use chud_os.Memory.Malloc.{TaskMemory}
use chud_os.Tasks.{Kernel}

-- `-0x1000` is an `int` that the assignment widens to 64 bits.
abbrev pub get_mem_low_high : ℕ → ℕ → Bool → ℕ
get_mem_low_high vaddr page_count fwd =
    let offset = if fwd then 0x1000 else 2 ^ 64 - 0x1000 in add64 vaddr (page_count * offset)

pub region_ok : ℕ → TaskMemory → Bool
region_ok vaddr t =
    let in_code_region =
      ltb t.base_virtual_address vaddr
      && ltb vaddr (get_mem_low_high t.base_virtual_address t.page_count true) in
    let in_stack_region =
      ltb vaddr (add64 t.stack_base_virtual_address 0x1000)
      && ltb (get_mem_low_high t.stack_base_virtual_address t.stack_page_count false) vaddr in
    let in_kernel_stack_region =
      ltb vaddr (add64 t.kernel_stack_base_virtual_address 0x1000)
      && ltb (get_mem_low_high t.kernel_stack_base_virtual_address t.kernel_stack_page_count false)
          vaddr in
    in_code_region || in_stack_region || in_kernel_stack_region

pub mem_access_ok : ℕ → ℕ → Kernel → Bool
mem_access_ok vaddr pid k = region_ok vaddr (k.task_manager pid).memory_data

-- Every region starts at a page and stays inside the address space.
pub record IsLaidOut (t : TaskMemory) : Type 0 where
  pub code : t.base_virtual_address + t.page_count * 0x1000 < 2 ^ 64
  pub code_page : t.base_virtual_address % 0x1000 ≡ 0
  pub stack : t.stack_base_virtual_address + 0x1000 < 2 ^ 64
  pub stack_page : t.stack_base_virtual_address % 0x1000 ≡ 0
  pub stack_low : t.stack_page_count * 0x1000 ≤ t.stack_base_virtual_address
  pub kernel_stack : t.kernel_stack_base_virtual_address + 0x1000 < 2 ^ 64
  pub kernel_stack_page : t.kernel_stack_base_virtual_address % 0x1000 ≡ 0
  pub kernel_stack_low : t.kernel_stack_page_count * 0x1000 ≤ t.kernel_stack_base_virtual_address

-- An address on one of `pages` pages from that of `base` up.
abbrev pub OnPages : ℕ → ℕ → ℕ → Type 0
OnPages base pages a = (base / 0x1000 ≤ a / 0x1000) × (a / 0x1000 < base / 0x1000 + pages)

-- An address on one of `pages` pages from that of `base` down.
abbrev pub OnPagesDown : ℕ → ℕ → ℕ → Type 0
OnPagesDown base pages a = (base / 0x1000 < a / 0x1000 + pages) × (a / 0x1000 ≤ base / 0x1000)

-- An address on the page below those, but for the lowest one.
abbrev pub OnPageBelow : ℕ → ℕ → ℕ → Type 0
OnPageBelow base pages a = (a / 0x1000 + pages ≡ base / 0x1000) × (a % 0x1000 ≢ 0)

-- The addresses that a task reaches, by the pages that it owns.
abbrev pub IsAccepted : TaskMemory → ℕ → Type 0
IsAccepted t a =
    (OnPages t.base_virtual_address t.page_count a × (a ≢ t.base_virtual_address))
    ⊎ OnPagesDown t.stack_base_virtual_address t.stack_page_count a
    ⊎ OnPageBelow t.stack_base_virtual_address t.stack_page_count a
    ⊎ OnPagesDown t.kernel_stack_base_virtual_address t.kernel_stack_page_count a
    ⊎ OnPageBelow t.kernel_stack_base_virtual_address t.kernel_stack_page_count a

downward :
    (base pages : ℕ)
    → base + 0x1000 < 2 ^ 64
    → pages * 0x1000 ≤ base
    → get_mem_low_high base pages false ≡ base - pages * 0x1000
downward base pages h l = omega arith

upward :
    (base pages : ℕ)
    → base + pages * 0x1000 < 2 ^ 64
    → get_mem_low_high base pages true ≡ base + pages * 0x1000
upward base pages h = omega arith

ltb_iff : (a b : ℕ) → (ltb a b ≡ true) ↔ (a < b)
ltb_iff a b = ground arith

code_iff :
    (base pages a : ℕ)
    → base % 0x1000 ≡ 0
    → ((base < a) × (a < base + pages * 0x1000)) ↔ (OnPages base pages a × (a ≢ base))
code_iff base pages a aligned = (
  (λ (low, high). ((omega arith, omega arith), λ e. absurd (omega arith))),
  (λ ((low, high), ne). (ground arith, omega arith)),
)

stack_iff :
    (base pages a : ℕ)
    → base % 0x1000 ≡ 0
    → pages * 0x1000 ≤ base
    → ((a < base + 0x1000) × (base - pages * 0x1000 < a))
      ↔ (OnPagesDown base pages a ⊎ OnPageBelow base pages a)
stack_iff base pages a aligned low = ground arith

regions_iff :
    (t : TaskMemory) (a : ℕ)
    → IsLaidOut t
    → (((ltb t.base_virtual_address a && ltb a (t.base_virtual_address + t.page_count * 0x1000))
          || (ltb a (t.stack_base_virtual_address + 0x1000)
              && ltb (t.stack_base_virtual_address - t.stack_page_count * 0x1000) a)
          || (ltb a (t.kernel_stack_base_virtual_address + 0x1000)
              && ltb (t.kernel_stack_base_virtual_address - t.kernel_stack_page_count * 0x1000) a))
        ≡ true)
      ↔ IsAccepted t a
regions_iff t a laid =
    let code = code_iff t.base_virtual_address t.page_count a laid.code_page in
    let stack =
      stack_iff t.stack_base_virtual_address t.stack_page_count a laid.stack_page laid.stack_low in
    let kernel_stack =
      stack_iff t.kernel_stack_base_virtual_address t.kernel_stack_page_count a
        laid.kernel_stack_page laid.kernel_stack_low in
    ground (arith, code, stack, kernel_stack)

region_ok_iff :
    (t : TaskMemory) (vaddr : ℕ) → IsLaidOut t → (region_ok vaddr t ≡ true) ↔ IsAccepted t vaddr
unfolding region_ok
region_ok_iff t vaddr laid =
    let stack_end : add64 t.stack_base_virtual_address 0x1000
        ≡ t.stack_base_virtual_address + 0x1000 =
      omega (arith, laid.stack) in
    let kernel_stack_end : add64 t.kernel_stack_base_virtual_address 0x1000
        ≡ t.kernel_stack_base_virtual_address + 0x1000 =
      omega (arith, laid.kernel_stack) in
    rw
      (
        upward t.base_virtual_address t.page_count laid.code,
        downward t.stack_base_virtual_address t.stack_page_count laid.stack laid.stack_low,
        downward t.kernel_stack_base_virtual_address t.kernel_stack_page_count laid.kernel_stack
            laid.kernel_stack_low,
        stack_end,
        kernel_stack_end,
      )
      (regions_iff t vaddr laid)

-- mem_access_ok in terms of the pages that the task owns, where the regions start at pages and do not wrap around:
-- it accepts exactly the addresses on the pages of the code except the base address itself, those on the pages of the
-- stack and of the kernel stack, and, although it is no page of the task, those on the page directly below
-- either stack except the lowest one.
pub mem_access_ok_iff :
    (k : Kernel) (pid vaddr : ℕ)
    → IsLaidOut (k.task_manager pid).memory_data
    → (mem_access_ok vaddr pid k ≡ true) ↔ IsAccepted (k.task_manager pid).memory_data vaddr
unfolding mem_access_ok
mem_access_ok_iff k pid vaddr laid = region_ok_iff (k.task_manager pid).memory_data vaddr laid
