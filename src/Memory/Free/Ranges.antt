-- ===== src/Memory/Free/Ranges.antt =====
-- Enumerate_E820 of src/kernel/drivers/LowLevel/Memory.c, over the descriptors that it visits, the last one
-- of the firmware's table not among them. Messages are left out.
use chud_os.Base.{
  ℕ, zero, suc, ◌+◌, ◌*◌, ◌/◌, ◌^◌, ◌<◌, ◌≡◌, refl, ap, ◌∙◌, arith, bit_and, Bool, Bool-cases, inl,
  inr, true, false, ◌==◌, if◌then◌else◌, List, [], ◌∷◌,
}
use chud_os.Base.Words.{add64}
use chud_os.Memory.Frames.{Memory, set_flags, mem_set_bit}

-- `E820_Range_Descriptor`.
pub record RangeDescriptor : Type 0 where
  pub base_address : ℕ
  pub range_length : ℕ
  pub range_type : ℕ
  pub extension : ℕ

-- The loop over the pages of a reserved range, which moves to the next page before it marks one.
pub mark_pages : ℕ → Bool → ℕ → Memory → Memory
mark_pages zero do_dirty base m = m
mark_pages (suc rounds) do_dirty base m =
    let next = add64 base 0x1000 in
    let used = mem_set_bit next m in
    let masked =
      set_flags (next / 0x1000) (bit_and (used.phys_frames (next / 0x1000)).flags 0b11) used in
    mark_pages rounds do_dirty next (if do_dirty then masked else m)

-- `available_mem`, and the other globals.
pub enumerate_e820 : Bool → List RangeDescriptor → ℕ × Memory → ℕ × Memory
enumerate_e820 do_dirty [] (available, m) = (available, m)
enumerate_e820 do_dirty (d ∷ ds) (available, m) =
    let counted = record m { total_mem = add64 m.total_mem d.range_length } in
    let marked = mark_pages ((d.range_length + 0xfff) / 0x1000) do_dirty d.base_address counted in
    enumerate_e820 do_dirty ds
      (if d.range_type == 1 then (add64 available d.range_length, counted) else (available, marked))

abbrev pub lengths : List RangeDescriptor → ℕ
lengths [] = 0
lengths (d ∷ ds) = d.range_length + lengths ds

mark_pages-total_mem :
    (rounds : ℕ) (do_dirty : Bool) (base : ℕ) (m : Memory)
    → (mark_pages rounds do_dirty base m).total_mem ≡ m.total_mem
unfolding mark_pages mem_set_bit
mark_pages-total_mem zero do_dirty base m = refl
mark_pages-total_mem (suc rounds) true base m =
    let next = add64 base 0x1000 in
    let used = mem_set_bit next m in
    mark_pages-total_mem rounds true next
      (set_flags (next / 0x1000) (bit_and (used.phys_frames (next / 0x1000)).flags 0b11) used)
mark_pages-total_mem (suc rounds) false base m =
    mark_pages-total_mem rounds false (add64 base 0x1000) m

enumerate-total_mem :
    (do_dirty : Bool) (ds : List RangeDescriptor) (available : ℕ) (m : Memory)
    → m.total_mem + lengths ds < 2 ^ 64
    → (enumerate_e820 do_dirty ds (available, m)).1.total_mem ≡ m.total_mem + lengths ds
unfolding enumerate_e820
enumerate-total_mem do_dirty [] available m h = omega arith
enumerate-total_mem do_dirty (d ∷ ds) available m h =
    let counted = record m { total_mem = add64 m.total_mem d.range_length } in
    let marked = mark_pages ((d.range_length + 0xfff) / 0x1000) do_dirty d.base_address counted in
    let kept =
      mark_pages-total_mem ((d.range_length + 0xfff) / 0x1000) do_dirty d.base_address counted in
    let total : Bool → ℕ = λ b.
      (enumerate_e820 do_dirty ds (
        if b
        then (add64 available d.range_length, counted)
        else (available, marked))).1.total_mem in
    elim (Bool-cases (d.range_type == 1)) [
      | inl e ↦
          ap total e
          ∙ omega (
            arith,
            enumerate-total_mem do_dirty ds (add64 available d.range_length) counted (omega arith),
          )
      | inr e ↦
          ap total e
          ∙ omega
              (arith, kept, enumerate-total_mem do_dirty ds available marked (omega (arith, kept)))
    ]

-- Enumerate_E820 adds the lengths of the ranges to total_mem whether it marks pages or not: after the pass
-- without and the pass with marks, total_mem is twice the memory that the ranges cover.
pub enumerate_e820-twice :
    (ds : List RangeDescriptor) (m : Memory)
    → m.total_mem ≡ 0
    → 2 * lengths ds < 2 ^ 64
    → (enumerate_e820 true ds (enumerate_e820 false ds (0, m))).1.total_mem ≡ 2 * lengths ds
enumerate_e820-twice ds m start small =
    let first = enumerate_e820 false ds (0, m) in
    let once = enumerate-total_mem false ds 0 m (omega (arith, start)) in
    omega
      (arith, start, once, enumerate-total_mem true ds first.0 first.1 (omega (arith, start, once)))
