-- ===== src/Memory/Free/Unmaps.antt =====
-- free_page unmaps its page.
use chud_os.Base.{
  ℕ, ◌+◌, ◌*◌, ◌/◌, ◌%◌, ◌≤◌, ◌<◌, ◌≡◌, refl, sym, ap, ◌≢◌, ◌∙◌, arith, true, false, ◌==◌, update,
  List, [], ◌∷◌, Bool-cases, inl, inr,
}
use chud_os.Memory.Address.{extract_page_entries}
use chud_os.Memory.Address.RoundTrip.{extract-InRange}
use chud_os.Memory.Frames.{Memory, mem_get_bit, mem_clear_bit}
use chud_os.Memory.Frames.Search.{Used}
use mathlib.Core.Path.{subst}
use chud_os.Memory.Walk.{is_present, entry_address, table_indices, slot, write_word}
use chud_os.Memory.Walk.Strata.{IsStratified}
use chud_os.Memory.Walk.Route.{Leads, IsRoute, Route-level}
use chud_os.Memory.Walk.Calculate.{root_frame, indices_below, calculate-TableOf}
use chud_os.Memory.Alloc.{PageDetails, mapped}
use chud_os.Memory.Alloc.Maps.{Installed, slot_low}
use chud_os.Memory.Free.{release_page, exceeds_bounds, free_page}

module _ (page : PageDetails) (m : Memory) where
  abbrev released : Memory
  released = release_page page m

  -- Only the frame of the page changes.
  release-word : released.word ≡ m.word
  unfolding release_page mem_clear_bit
  release-word =
      elim (Bool-cases ((m.phys_frames (page.physical_address / 0x1000)).refcount == 1)) [
        | inl e ↦ rw e refl
        | inr e ↦ rw e refl
      ]

  release-total_mem : released.total_mem ≡ m.total_mem
  unfolding release_page mem_clear_bit
  release-total_mem =
      elim (Bool-cases ((m.phys_frames (page.physical_address / 0x1000)).refcount == 1)) [
        | inl e ↦ rw e refl
        | inr e ↦ rw e refl
      ]

  release-pml4_physical : released.pml4_physical ≡ m.pml4_physical
  unfolding release_page mem_clear_bit
  release-pml4_physical =
      elim (Bool-cases ((m.phys_frames (page.physical_address / 0x1000)).refcount == 1)) [
        | inl e ↦ rw e refl
        | inr e ↦ rw e refl
      ]

  release-Used : (f : ℕ) → f ≢ page.physical_address / 0x1000 → Used m f → Used released f
  unfolding release_page mem_get_bit mem_clear_bit
  release-Used f ne u = ground arith

  release-IsRoute : (is : List ℕ) (f h : ℕ) → IsRoute m is f h → IsRoute released is f h
  release-IsRoute [] f h w = w
  release-IsRoute (i ∷ is) f h (k, l, w) =
      let step : Leads released f i k = record {
        present = ap (λ (x : ℕ → ℕ). is_present (x (slot (0x1000 * f) i))) release-word ∙ l.present;
        target =
            ap (λ (x : ℕ → ℕ). entry_address (x (slot (0x1000 * f) i))) release-word ∙ l.target;
      } in
      (k, step, release-IsRoute is k h w)

  release-IsStratified :
      {level : ℕ → ℕ}
      → level (page.physical_address / 0x1000) ≡ 0
      → IsStratified level m
      → IsStratified level released
  release-IsStratified {level} leaf_frame s = record {
    small = omega (arith, s.small, release-total_mem);
    root_aligned = omega (arith, s.root_aligned, release-pml4_physical);
    root_level = ap (λ (p : ℕ). level (p / 0x1000)) release-pml4_physical ∙ s.root_level;
    table_used = λ f h. release-Used f (λ e. h (ap level e ∙ leaf_frame)) (s.table_used f h);
    table_in = λ f h. omega (arith, s.table_in f h, release-total_mem);
    child_aligned =
        subst
          (λ (w : ℕ → ℕ).
            (f i : ℕ)
            → 2 ≤ level f
            → i < 512
            → is_present (w (slot (0x1000 * f) i)) ≡ true
            → entry_address (w (slot (0x1000 * f) i)) % 0x1000 ≡ 0)
          (sym release-word) s.child_aligned;
    child_level =
        subst
          (λ (w : ℕ → ℕ).
            (f i : ℕ)
            → 2 ≤ level f
            → i < 512
            → is_present (w (slot (0x1000 * f) i)) ≡ true
            → level (entry_address (w (slot (0x1000 * f) i)) / 0x1000) + 1 ≡ level f)
          (sym release-word) s.child_level;
  }

-- For a page that is mapped, whose frame holds no table, and whose indices pass the test against
-- VirtualMemorySize, free_page returns the page's address and clears exactly the page's entry.
pub free_page-unmaps :
    (vms : ℕ) {level : ℕ → ℕ} (m : Memory) (page : PageDetails) (inst : Installed page level m)
    → level (page.physical_address / 0x1000) ≡ 0
    → exceeds_bounds vms (extract_page_entries page.virtual_address) ≡ false
    → (m' : Memory) × (free_page vms page m ≡ (mapped page.virtual_address, m'))
      × (m'.word
          ≡ update m.word
              (slot (0x1000 * inst.table) (extract_page_entries page.virtual_address).pt_entry)
              0)
unfolding free_page
free_page-unmaps vms {level} m page inst leaf_frame inside =
    let e = extract_page_entries page.virtual_address in
    let r = extract-InRange page.virtual_address in
    let g = inst.table in
    let s = release-IsStratified page m leaf_frame inst.stratified in
    let m1 = release_page page m in
    let from_root =
      subst (λ (p : ℕ). IsRoute m1 (table_indices e) (p / 0x1000) g)
        (sym (release-pml4_physical page m))
        (release-IsRoute page m (table_indices e) (root_frame m) g inst.route) in
    let leaf : level g ≡ 1 =
      Route-level (table_indices e) s (indices_below e r) s.root_level from_root in
    let pointer = slot (0x1000 * g) e.pt_entry in
    let low = slot_low g e.pt_entry s (omega (arith, leaf)) r.pt in
    (
      write_word pointer 0 m1,
      rw (calculate-TableOf e g s r from_root, inside) (ground arith),
      ap (λ (w : ℕ → ℕ). update w pointer 0) (release-word page m),
    )
