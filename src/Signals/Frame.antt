-- ===== src/Signals/Frame.antt =====
-- What a sequence of pushes leaves on the stack of a task, and what a sequence of pops reads.
use chud_os.Base.{
  ℕ, ◌+◌, ◌-◌, ◌*◌, ◌^◌, ◌<◌, ◌≤◌, ◌≡◌, refl, ap, ◌∙◌, arith, true, false, List, [], ◌∷◌, length,
}
use mathlib.Core.Path.{subst}
use chud_os.Tasks.{InterruptRegisters, Kernel}
use chud_os.Tasks.Bytes.{load64, load64-store64, load64_eq, store64_outside}
use chud_os.Tasks.Stack.{task_stack_push}
use chud_os.Tasks.Stack.Effects.{
  registers, memory, Same, Same-trans, push-memory, push-registers, push-Same, popped, pop-memory,
  pop-registers, pop-Same,
}
use chud_os.Signals.{Assign, push_all, pop_all}

abbrev pub AllWords : List ℕ → Type 0
AllWords [] = Unit {0}
AllWords (v ∷ vs) = (v < 2 ^ 64) × AllWords vs

-- The words `vs` lie below the address `a`, the first one highest.
abbrev pub Stacked : (ℕ → ℕ) → List ℕ → ℕ → Type 0
Stacked bytes [] a = Unit {0}
Stacked bytes (v ∷ vs) a = (load64 (a - 8) bytes ≡ v) × Stacked bytes vs (a - 8)

-- The outcome of pushing `vs`.
pub record Pushed (pid : ℕ) (vs : List ℕ) (k k' : Kernel) : Type 0 where
  pub same : Same pid k k'
  pub regs :
      registers pid k' ≡ record (registers pid k) { rsp = (registers pid k).rsp - 8 * length vs }
  pub stacked : Stacked (memory k') vs (registers pid k).rsp
  pub above : (p : ℕ) → (registers pid k).rsp ≤ p → p < 2 ^ 64 → memory k' p ≡ memory k p

pub push_all-Pushed :
    (pid : ℕ) (vs : List ℕ) (k : Kernel)
    → (k.task_manager pid).exists ≡ true
    → AllWords vs
    → 8 * length vs ≤ (registers pid k).rsp
    → (registers pid k).rsp < 2 ^ 64
    → Pushed pid vs k (push_all pid vs k)
unfolding push_all
push_all-Pushed pid [] k e w low top = record {
  same = record { exists = refl; base_pml4 = refl; pml4_physical = refl; cur_pid = refl };
  regs = ap (λ (n : ℕ). record (registers pid k) { rsp = n }) (omega arith);
  stacked = tt;
  above = λ p h h'. refl;
}
push_all-Pushed pid (v ∷ vs) k e (hv, w) low top =
    let k' = task_stack_push pid v false k in
    let a = (registers pid k).rsp in
    let regs' = push-registers pid k e v (omega arith) top in
    let mem' = push-memory pid k e v (omega arith) top in
    let same' = push-Same pid k e v in
    let at : (registers pid k').rsp ≡ a - 8 = ap (λ (r : InterruptRegisters). r.rsp) regs' in
    let rest =
      push_all-Pushed pid vs k' (same'.exists ∙ e) w (omega (arith, at)) (omega (arith, at)) in
    let kept = λ (p : ℕ) (h : a - 8 ≤ p) (h' : p < 2 ^ 64). rest.above p (omega (arith, at)) h' in
    let top_word =
      load64_eq (a - 8) (memory (push_all pid vs k')) (memory k') (omega arith)
        (λ p h h'. kept p h (omega arith))
      ∙ ap (load64 (a - 8)) mem'
      ∙ load64-store64 (a - 8) v (memory k) (omega arith) hv in
    record {
      same = Same-trans same' rest.same;
      regs =
          rest.regs
          ∙ ap (λ (r : InterruptRegisters). record r { rsp = r.rsp - 8 * length vs }) regs'
          ∙ ap (λ (n : ℕ). record (registers pid k) { rsp = n }) (omega arith);
      stacked = (top_word, subst (Stacked (memory (push_all pid vs k')) vs) at rest.stacked);
      above = λ p h h'.
          kept p (omega arith) h'
          ∙ ap (λ (f : ℕ → ℕ). f p) mem'
          ∙ store64_outside (a - 8) v p (memory k) (omega arith) h' (omega arith);
    }

-- The registers after pops from the address `p` on, each assigned in turn.
abbrev pub assigned : (ℕ → ℕ) → List Assign → ℕ → InterruptRegisters → InterruptRegisters
assigned bytes [] p r = r
assigned bytes (f ∷ fs) p r =
    assigned bytes fs (p + 8) (f (load64 p bytes) (record r { rsp = p + 8 }))

-- No assignment but the last one changes `rsp`.
abbrev pub KeepRsp : List Assign → Type 0
KeepRsp [] = Unit {0}
KeepRsp (f ∷ []) = Unit {0}
KeepRsp (f ∷ g ∷ fs) = ((v : ℕ) (r : InterruptRegisters) → (f v r).rsp ≡ r.rsp) × KeepRsp (g ∷ fs)

-- The outcome of the pops.
pub record Popped (pid : ℕ) (fs : List Assign) (k k' : Kernel) : Type 0 where
  pub same : Same pid k k'
  pub mem : memory k' ≡ memory k
  pub regs : registers pid k' ≡ assigned (memory k) fs (registers pid k).rsp (registers pid k)

pub pop_all-Popped :
    (pid : ℕ) (fs : List Assign) (k : Kernel)
    → (k.task_manager pid).exists ≡ true
    → KeepRsp fs
    → (registers pid k).rsp + 8 * length fs < 2 ^ 64
    → Popped pid fs k (pop_all pid fs k)
unfolding pop_all
pop_all-Popped pid [] k e keep top = record {
  same = record { exists = refl; base_pml4 = refl; pml4_physical = refl; cur_pid = refl };
  mem = refl;
  regs = refl;
}
pop_all-Popped pid (f ∷ []) k e keep top = record {
  same = pop-Same pid k e f;
  mem = pop-memory pid k e f;
  regs = pop-registers pid k e f (omega arith);
}
pop_all-Popped pid (f ∷ g ∷ fs) k e (keep, keeps) top =
    let k' = popped pid k e f in
    let p = (registers pid k).rsp in
    let regs' = pop-registers pid k e f (omega arith) in
    let mem' = pop-memory pid k e f in
    let same' = pop-Same pid k e f in
    let moved = record (registers pid k) { rsp = p + 8 } in
    let at : (registers pid k').rsp ≡ p + 8 =
      ap (λ (r : InterruptRegisters). r.rsp) regs' ∙ keep (load64 p (memory k)) moved in
    let rest = pop_all-Popped pid (g ∷ fs) k' (same'.exists ∙ e) keeps (omega (arith, at)) in
    record {
      same = Same-trans same' rest.same;
      mem = rest.mem ∙ mem';
      regs =
          rest.regs
          ∙ ap (λ (m : ℕ → ℕ). assigned m (g ∷ fs) (registers pid k').rsp (registers pid k')) mem'
          ∙ ap (λ (q : ℕ). assigned (memory k) (g ∷ fs) q (registers pid k')) at
          ∙ ap (λ (r : InterruptRegisters). assigned (memory k) (g ∷ fs) (p + 8) r) regs';
    }
