-- ===== src/Signals/RoundTrip.antt =====
-- SignalReturn undoes EstablishSignalStack, whatever the handler did in between to the registers that
-- are saved and to the memory outside of the saved frame.
use chud_os.Base.{
  ℕ, ◌-◌, ◌*◌, ◌^◌, ◌<◌, ◌≤◌, ◌≡◌, ap, ◌∙◌, arith, true, ◌==◌, List, [], ◌∷◌, length,
}
use chud_os.Tasks.{Kernel}
use chud_os.Tasks.Bytes.{load64_eq}
use chud_os.Tasks.Stack.Effects.{registers}
use chud_os.Signals.{signal_frame, establish_signal_stack, signal_slots, signal_return}
use chud_os.Signals.Frame.{AllWords, Stacked, assigned}
use chud_os.Signals.Space.{Resident}
use chud_os.Signals.Save.{establish-r12, establish-Stacked}
use chud_os.Signals.Restore.{restored, assigned-Stacked, signal_return-registers}

-- A frame that is still there, byte for byte, is stacked in the new memory too.
Stacked-eq :
    (f g : ℕ → ℕ) (vs : List ℕ) (a : ℕ)
    → 8 * length vs ≤ a
    → a < 2 ^ 64
    → ((p : ℕ) → a - 8 * length vs ≤ p → p < a → g p ≡ f p)
    → Stacked f vs a
    → Stacked g vs a
Stacked-eq f g [] a low top same s = tt
Stacked-eq f g (v ∷ vs) a low top same (e, s) = (
  load64_eq (a - 8) g f (omega arith) (λ p h h'. same p (omega arith) (omega arith)) ∙ e,
  Stacked-eq f g vs (a - 8) (omega arith) (omega arith)
      (λ p h h'. same p (omega arith) (omega arith)) s,
)

-- What a handler must leave as EstablishSignalStack made it: the task with its address space, `r12`, and
-- the 128 bytes of the saved frame.
pub record Handled (pid base rsp : ℕ) (before after : Kernel) : Type 0 where
  pub exists : (after.task_manager pid).exists ≡ true
  pub base_pml4 : (after.task_manager pid).base_pml4 ≡ base
  pub r12 : (registers pid after).r12 ≡ (registers pid before).r12
  pub frame : (p : ℕ) → rsp - 128 ≤ p → p < rsp → after.space base p ≡ before.space base p

-- Of a task that exists, whose registers are words, whose stack has room for the frame, and whose
-- address space is in use where the task counts as the current one: after EstablishSignalStack and
-- a handler that keeps `r12` and the saved frame, SignalReturn gives back every register that the
-- interrupted code had, but for `r8`, `cs`, `rflags`, `ss`, `cr2`, the interrupt number and the error code,
-- which stay as the handler left them.
pub signal_return-establish :
    (pid : ℕ) (k k' : Kernel)
    → (k.task_manager pid).exists ≡ true
    → Resident pid ((k.task_manager pid).process_id == k.cur_pid) k
    → AllWords (signal_frame (registers pid k))
    → 128 ≤ (registers pid k).rsp
    → Handled pid
        (k.task_manager pid).base_pml4
        (registers pid k).rsp
        (establish_signal_stack pid k)
        k'
    → Resident pid (pid == k'.cur_pid) k'
    → registers pid (signal_return pid k') ≡ restored (registers pid k) (registers pid k')
signal_return-establish pid k k' e own words low h own' =
    let old = registers pid k in
    let base = (k.task_manager pid).base_pml4 in
    let at : (registers pid k').r12 ≡ old.rsp - 128 = h.r12 ∙ establish-r12 pid k e own words low in
    let frame =
      Stacked-eq ((establish_signal_stack pid k).space base) (k'.space base) (signal_frame old)
        old.rsp low words.0 h.frame (establish-Stacked pid k e own words low) in
    let now = record (registers pid k') { rsp = (registers pid k').r12 } in
    signal_return-registers pid k' h.exists own' (omega (arith, at, words.0))
    ∙ ap (λ (b : ℕ). assigned (k'.space b) signal_slots (registers pid k').r12 now) h.base_pml4
    ∙ ap (λ (p : ℕ). assigned (k'.space base) signal_slots p now) at
    ∙ assigned-Stacked (k'.space base) old now low frame
