-- ===== src/Memory/Walk/Strata.antt =====
-- The invariant of the page tables: every table frame has a level, from 4 for the PML4 down to 1,
-- and an entry of a table leads to a table one level below it.
use chud_os.Base.{
  ℕ, zero, suc, ◌+◌, ◌-◌, ◌*◌, ◌/◌, ◌%◌, ◌^◌, ◌≤◌, ◌<◌, ◌≡◌, sym, ap, ◌≢◌, true, false, ◌∙◌, arith,
  update, update_self,
}
use mathlib.Core.Path.{subst}
use mathlib.Core.Bool.{true≢false, false≢true}
use native.Mathlib.Decide.{ℕ_discrete}
use chud_os.Memory.Frames.{Memory, mem_get_bit, set_flags}
use chud_os.Memory.Frames.Search.{IsLowestFree, Used, find-IsLowestFree}
use chud_os.Memory.Walk.{entry_address, is_present, slot, zero_page, write_word, ensure_entry}
use chud_os.Memory.Walk.Entry.{lacks_table-true, lacks_table-false, new_entry, entry_address-new}

pub record IsStratified (level : ℕ → ℕ) (m : Memory) : Type 0 where
  pub small : m.total_mem ≤ 2 ^ 47
  pub root_aligned : m.pml4_physical % 0x1000 ≡ 0
  pub root_level : level (m.pml4_physical / 0x1000) ≡ 4
  -- Table frames lie in memory and are marked used, so no search hands them out again.
  pub table_used : (f : ℕ) → level f ≢ 0 → Used m f
  pub table_in : (f : ℕ) → level f ≢ 0 → 0x1000 * f < m.total_mem
  pub child_aligned :
      (f i : ℕ)
      → 2 ≤ level f
      → i < 512
      → is_present (m.word (slot (0x1000 * f) i)) ≡ true
      → entry_address (m.word (slot (0x1000 * f) i)) % 0x1000 ≡ 0
  pub child_level :
      (f i : ℕ)
      → 2 ≤ level f
      → i < 512
      → is_present (m.word (slot (0x1000 * f) i)) ≡ true
      → level (entry_address (m.word (slot (0x1000 * f) i)) / 0x1000) + 1 ≡ level f

-- `n` more frames can be taken, one after the other.
abbrev pub Room : ℕ → Memory → Type 0
Room zero m = Unit {0}
Room (suc n) m = (f : ℕ) × IsLowestFree m f × Room n (set_flags f 0b101 m)

pub slots_apart :
    (f g i j : ℕ) → i < 512 → j < 512 → f ≢ g → slot (0x1000 * f) i ≢ slot (0x1000 * g) j
slots_apart f g i j hi hj ne = omega arith

frame_of_page : (n : ℕ) → 0x1000 * n / 0x1000 ≡ n
frame_of_page n = omega arith

-- One call of EnsureEntry, on entry `i` of the table in frame `f`.
module _ (level : ℕ → ℕ) (m : Memory) (f i flags : ℕ) (s : IsStratified level m)
    (deep : 2 ≤ level f) (hi : i < 512) where
  abbrev pub entry : ℕ
  entry = slot (0x1000 * f) i

  -- Where the entry has a table, nothing changes.
  pub ensure_entry-present : is_present (m.word entry) ≡ true → ensure_entry entry flags m ≡ m
  unfolding ensure_entry
  ensure_entry-present p = rw (
      lacks_table-false (m.word entry) p (
        omega (
          arith,
          s.small,
          s.child_aligned f i deep hi p,
          s.child_level f i deep hi p,
          s.table_in (entry_address (m.word entry) / 0x1000)
              (omega (arith, s.child_level f i deep hi p)),
        )))

  -- Where it has none, the lowest free frame `n` becomes one.
  module _ (n : ℕ) (free : IsLowestFree m n) (odd : flags % 2 ≡ 1) (byte : flags < 0x100) where
    abbrev pub grown : Memory
    grown =
        write_word entry (0x1000 * n + flags)
          (record (set_flags n 0b101 m) { word = zero_page (0x1000 * n) m.word })

    pub other_frame : (g : ℕ) → level g ≢ 0 → g ≢ n
    other_frame g h e = true≢false (sym (s.table_used g h) ∙ rw e free.free)

    new_low : 0x1000 * n < 2 ^ 47
    new_low = omega (arith, s.small, free.in_memory)

    pub ensure_entry-grown : is_present (m.word entry) ≡ false → ensure_entry entry flags m ≡ grown
    unfolding ensure_entry
    ensure_entry-grown a = rw (
      lacks_table-true (m.word entry) a,
      find-IsLowestFree m n (omega (arith, s.small)) free,
      frame_of_page n,
      new_entry (0x1000 * n) flags (omega arith) new_low (omega arith) odd,
    )

    pub word_entry : grown.word entry ≡ 0x1000 * n + flags
    word_entry = update_self (zero_page (0x1000 * n) m.word) entry (0x1000 * n + flags)

    word_new : (j : ℕ) → j < 512 → grown.word (slot (0x1000 * n) j) ≡ 0
    word_new j hj =
        let ne = other_frame f (omega arith) in ground (arith, slots_apart f n i j hi hj ne)

    -- The words of every other frame, but the one entry, are as before.
    pub word_old :
        (g j : ℕ)
        → g ≢ n
        → j < 512
        → entry ≢ slot (0x1000 * g) j
        → grown.word (slot (0x1000 * g) j) ≡ m.word (slot (0x1000 * g) j)
    word_old g j ne hj ne' = ground arith

    abbrev pub grown_level : ℕ → ℕ
    grown_level = update level n (level f - 1)

    Used-new : Used grown n
    unfolding mem_get_bit
    Used-new = rw (frame_of_page n) (ground arith)

    Used-old : (g : ℕ) → g ≢ n → Used m g → Used grown g
    unfolding mem_get_bit
    Used-old g ne u = rw (frame_of_page g) (ground (arith, rw (frame_of_page g) at u))

    -- The frame that an entry of `grown` points to.
    abbrev Child : ℕ → ℕ → Type 0
    Child g j =
        (entry_address (grown.word (slot (0x1000 * g) j)) % 0x1000 ≡ 0)
        × (grown_level (entry_address (grown.word (slot (0x1000 * g) j)) / 0x1000) + 1
            ≡ grown_level g)

    Child-new : (j : ℕ) → entry ≡ slot (0x1000 * f) j → Child f j
    Child-new j e =
        let ne = other_frame f (omega arith) in
        rw
          (
            ← e,
            word_entry,
            entry_address-new (0x1000 * n) flags (omega arith) new_low (omega arith),
            frame_of_page n,
          )
          (omega arith, ground arith)

    Child-old :
        (g j : ℕ)
        → g ≢ n
        → 2 ≤ level g
        → j < 512
        → entry ≢ slot (0x1000 * g) j
        → is_present (m.word (slot (0x1000 * g) j)) ≡ true
        → Child g j
    Child-old g j ne d hj ne' p =
        let up = s.child_level g j d hj p in
        let ne_child =
          other_frame (entry_address (m.word (slot (0x1000 * g) j)) / 0x1000) (omega arith) in
        rw (word_old g j ne hj ne') (s.child_aligned g j d hj p, ground arith)

    child :
        (g j : ℕ)
        → 2 ≤ grown_level g
        → j < 512
        → is_present (grown.word (slot (0x1000 * g) j)) ≡ true
        → Child g j
    child g j d hj p = elim (ℕ_discrete g n) [
      | yes e ↦ absurd (false≢true (rw (e, word_new j hj) at p))
      | no ne ↦ elim (ℕ_discrete entry (slot (0x1000 * g) j)) [
        | yes e ↦ elim (ℕ_discrete f g) [
          | yes same ↦
              subst (λ h. Child h j) same
                (Child-new j (e ∙ ap (λ (t : ℕ). slot (0x1000 * t) j) (sym same)))
          | no other ↦ absurd (slots_apart f g i j hi hj other e)
        ]
        | no ne' ↦ Child-old g j ne (ground arith) hj ne' (rw (word_old g j ne hj ne') at p)
      ]
    ]

    pub grown-IsStratified : IsStratified grown_level grown
    grown-IsStratified = record {
      small = s.small;
      root_aligned = s.root_aligned;
      root_level =
          let h : level (m.pml4_physical / 0x1000) ≢ 0 = omega (arith, s.root_level) in
          let ne = other_frame (m.pml4_physical / 0x1000) h in ground (arith, s.root_level);
      table_used = λ g h. elim (ℕ_discrete g n) [
        | yes e ↦ rw e Used-new
        | no ne ↦ Used-old g ne (s.table_used g (ground arith))
      ];
      table_in = λ g h. elim (ℕ_discrete g n) [
        | yes e ↦ rw e free.in_memory
        | no ne ↦ s.table_in g (ground arith)
      ];
      child_aligned = λ g j d hj p. (child g j d hj p).0;
      child_level = λ g j d hj p. (child g j d hj p).1;
    }
