-- ===== src/Signals/Restore.antt =====
-- What SignalReturn restores.
use chud_os.Base.{
  ℕ, zero, suc, ◌+◌, ◌-◌, ◌*◌, ◌^◌, ◌<◌, ◌≤◌, ◌≡◌, refl, ap, ◌∙◌, arith, Bool, true, ◌==◌,
  if◌then◌else◌,
}
use chud_os.Tasks.{InterruptRegisters, Kernel, set_registers}
use chud_os.Tasks.Bytes.{load64}
use chud_os.Tasks.Stack.Effects.{registers, memory, registers-set, set_registers-Same}
use chud_os.Signals.{signal_frame, pop_all, signal_slots, signal_return}
use chud_os.Signals.Frame.{Stacked, assigned, KeepRsp, Popped, pop_all-Popped}
use chud_os.Signals.Space.{Resident, entered, Entered, entered-Entered, left, left-registers}

-- The registers of the frame from `old`, the others from `now`.
abbrev pub restored : InterruptRegisters → InterruptRegisters → InterruptRegisters
restored old now = record old {
  int_no = now.int_no;
  cr2 = now.cr2;
  r8 = now.r8;
  error_code = now.error_code;
  cs = now.cs;
  rflags = now.rflags;
  ss = now.ss;
}

pub slots-KeepRsp : KeepRsp signal_slots
slots-KeepRsp = (
  λ v r. refl,
  (
    λ v r. refl,
    (
      λ v r. refl,
      (
        λ v r. refl,
        (
          λ v r. refl,
          (
            λ v r. refl,
            (
              λ v r. refl,
              (
                λ v r. refl,
                (
                  λ v r. refl,
                  (
                    λ v r. refl,
                    (λ v r. refl, (λ v r. refl, (λ v r. refl, (λ v r. refl, (λ v r. refl, tt))))),
                  ),
                ),
              ),
            ),
          ),
        ),
      ),
    ),
  ),
)

-- `j` words up and `j` words down.
abbrev ups : ℕ → ℕ → ℕ
ups zero p = p
ups (suc j) p = ups j (p + 8)

abbrev downs : ℕ → ℕ → ℕ
downs zero a = a
downs (suc j) a = downs j (a - 8)

ups_lem : (j p : ℕ) → ups j p ≡ p + 8 * j
ups_lem zero p = omega arith
ups_lem (suc j) p = omega (arith, ups_lem j (p + 8))

downs_lem : (j a : ℕ) → downs j a ≡ a - 8 * j
downs_lem zero a = omega arith
downs_lem (suc j) a = omega (arith, downs_lem j (a - 8))

-- Popping a stacked frame from its lowest word on assigns every register of the frame.
pub assigned-Stacked :
    (bytes : ℕ → ℕ) (old now : InterruptRegisters)
    → 128 ≤ old.rsp
    → Stacked bytes (signal_frame old) old.rsp
    → assigned bytes signal_slots (old.rsp - 128) now ≡ restored old now
assigned-Stacked bytes old now low
      (
        rsp,
        (
          rip,
          (
            rax,
            (
              rbx,
              (rcx, (rdx, (rbp, (rdi, (rsi, (r9, (r10, (r11, (r12, (r13, (r14, (r15, _)))))))))))),
            ),
          ),
        ),
      ) =
    λ i. record {
      int_no = now.int_no;
      cr2 = now.cr2;
      r15 = word 0 (omega arith) r15 i;
      r14 = word 1 (omega arith) r14 i;
      r13 = word 2 (omega arith) r13 i;
      r12 = word 3 (omega arith) r12 i;
      r11 = word 4 (omega arith) r11 i;
      r10 = word 5 (omega arith) r10 i;
      r9 = word 6 (omega arith) r9 i;
      r8 = now.r8;
      rdi = word 8 (omega arith) rdi i;
      rsi = word 7 (omega arith) rsi i;
      rbp = word 9 (omega arith) rbp i;
      rbx = word 12 (omega arith) rbx i;
      rdx = word 10 (omega arith) rdx i;
      rcx = word 11 (omega arith) rcx i;
      rax = word 13 (omega arith) rax i;
      error_code = now.error_code;
      rip = word 14 (omega arith) rip i;
      cs = now.cs;
      rflags = now.rflags;
      rsp = word 15 (omega arith) rsp i;
      ss = now.ss;
    }
  where
    word :
        (j : ℕ) {v : ℕ}
        → j ≤ 16
        → load64 (downs (16 - j) old.rsp) bytes ≡ v
        → load64 (ups j (old.rsp - 128)) bytes ≡ v
    word j h e =
        ap (λ (t : ℕ). load64 t bytes)
          (omega (arith, ups_lem j (old.rsp - 128), downs_lem (16 - j) old.rsp))
        ∙ e

-- SignalReturn of a task that exists pops a frame from where `r12` points, in its own address space.
module _ (pid : ℕ) (k : Kernel) (e : (k.task_manager pid).exists ≡ true)
    (own : Resident pid (pid == k.cur_pid) k) (top : (registers pid k).r12 + 128 < 2 ^ 64) where
  abbrev now : InterruptRegisters
  now = registers pid k

  abbrev at_frame : InterruptRegisters
  at_frame = record now { rsp = now.r12 }

  abbrev start : Kernel
  start = entered pid (pid == k.cur_pid) k

  abbrev rewound : Kernel
  rewound = set_registers pid at_frame start

  abbrev finish : Kernel
  finish = pop_all pid signal_slots rewound

  inside : Entered pid k start
  inside = entered-Entered pid (pid == k.cur_pid) k own

  rewound-registers : registers pid rewound ≡ at_frame
  rewound-registers =
      registers-set start pid (record (start.task_manager pid) { saved_registers = at_frame })

  pops : Popped pid signal_slots rewound finish
  pops =
      let at = ap (λ (r : InterruptRegisters). r.rsp) rewound-registers in
      let there = (set_registers-Same start pid at_frame).exists ∙ inside.exists ∙ e in
      pop_all-Popped pid signal_slots rewound there slots-KeepRsp (omega (arith, at))

  signal_return_eq : signal_return pid k ≡ left pid (pid == k.cur_pid) k.pml4_physical finish
  unfolding signal_return
  signal_return_eq =
      ap (λ (b : Bool). if b then left pid (pid == k.cur_pid) k.pml4_physical finish else k) e

  pub signal_return-registers :
      registers pid (signal_return pid k)
      ≡ assigned (k.space (k.task_manager pid).base_pml4) signal_slots now.r12 at_frame
  signal_return-registers =
      ap (registers pid) signal_return_eq
      ∙ left-registers pid (pid == k.cur_pid) k.pml4_physical finish
      ∙ pops.regs
      ∙ ap (λ (r : InterruptRegisters). assigned (memory rewound) signal_slots r.rsp r)
          rewound-registers
      ∙ ap (λ (f : ℕ → ℕ). assigned f signal_slots now.r12 at_frame) inside.bytes
