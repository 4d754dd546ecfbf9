-- ===== src/Memory/Frames/Search.antt =====
-- What the frame searches return, and that their rounds are enough.
use chud_os.Base.{
  ℕ, zero, suc, ◌+◌, ◌*◌, ◌/◌, ◌^◌, ◌≤◌, ◌<◌, ◌≡◌, refl, sym, ap, ◌∙◌, true, false, ◌⊎◌, inl, inr,
  arith, Bool-cases, lt→ltb, not-ltb,
}
use chud_os.Base.Words.{add64}
use mathlib.Core.Bool.{true≢false}
use native.Mathlib.Decide.{ℕ_discrete, dec_lt}
use chud_os.Memory.Frames.{Memory, mem_get_bit, find_free_from, find_next_free_physical}

abbrev pub Used : Memory → ℕ → Type 0
Used m frame = mem_get_bit (0x1000 * frame) m ≡ true

-- The lowest frame below the end of memory that is not used.
pub record IsLowestFree (m : Memory) (frame : ℕ) : Type 0 where
  pub in_memory : 0x1000 * frame < m.total_mem
  pub free : mem_get_bit (0x1000 * frame) m ≡ false
  pub lowest : (j : ℕ) → j < frame → Used m j

below-suc : (P : ℕ → Type 0) (n : ℕ) → ((j : ℕ) → j < n → P j) → P n → (j : ℕ) → j < suc n → P j
below-suc P n below here j h = elim (ℕ_discrete j n) [
  | yes e ↦ rw e here
  | no ne ↦ below j (omega arith)
]

-- What a search returns.
abbrev pub Found : Memory → ℕ → Type 0
Found m result =
    ((frame : ℕ) × (result ≡ 0x1000 * frame) × IsLowestFree m frame)
    ⊎ ((result ≡ 0) × ((j : ℕ) → 0x1000 * j < m.total_mem → Used m j))

find_free_from-Found :
    (rounds frame : ℕ) (m : Memory)
    → m.total_mem + 0x1000 ≤ 2 ^ 64
    → m.total_mem < 0x1000 * (frame + rounds)
    → ((j : ℕ) → j < frame → Used m j)
    → Found m (find_free_from rounds (0x1000 * frame) m)
unfolding find_free_from
find_free_from-Found zero frame m small enough below = inr (refl, λ j h. below j (omega arith))
find_free_from-Found (suc rounds) frame m small enough below =
    elim (dec_lt (0x1000 * frame) m.total_mem) [
      | no past ↦
          rw (not-ltb (0x1000 * frame) m.total_mem past) (inr (refl, λ j h. below j (omega arith)))
      | yes inside ↦
          rw (lt→ltb (0x1000 * frame) m.total_mem inside)
            (elim (Bool-cases (mem_get_bit (0x1000 * frame) m)) [
              | inl used ↦
                  rw (used, next inside)
                    (find_free_from-Found rounds (suc frame) m small (omega arith)
                      (below-suc (Used m) frame below used))
              | inr free ↦
                  rw free
                    (inl (frame, refl, record { in_memory = inside; free = free; lowest = below }))
            ])
    ]
  where
    next : 0x1000 * frame < m.total_mem → add64 (0x1000 * frame) 0x1000 ≡ 0x1000 * suc frame
    next inside = omega arith

-- Where memory ends at least a page below 2 ^ 64, FindNextFreePhysical returns the address of the lowest frame
-- that is not used, and 0 when every frame of memory is used.
pub find_next_free_physical-Found :
    (m : Memory) → m.total_mem + 0x1000 ≤ 2 ^ 64 → Found m (find_next_free_physical m)
unfolding find_next_free_physical
find_next_free_physical-Found m small =
    find_free_from-Found (m.total_mem / 0x1000 + 1) 0 m small (omega arith) (λ j h. elim h [ ])

-- The search returns the lowest free frame, if there is one.
pub find-IsLowestFree :
    (m : Memory) (n : ℕ)
    → m.total_mem + 0x1000 ≤ 2 ^ 64
    → IsLowestFree m n
    → find_next_free_physical m ≡ 0x1000 * n
find-IsLowestFree m n small l = elim (find_next_free_physical-Found m small) [
  | inl (k, e, l') ↦ rw e (ap (λ (t : ℕ). 0x1000 * t) (same k l'))
  | inr (e, full) ↦ absurd (true≢false (sym (full n l.in_memory) ∙ l.free))
]
  where
    same : (k : ℕ) → IsLowestFree m k → k ≡ n
    same k l' = elim (dec_lt k n) [
      | yes h ↦ absurd (true≢false (sym (l.lowest k h) ∙ l'.free))
      | no h ↦ elim (dec_lt n k) [
        | yes h' ↦ absurd (true≢false (sym (l'.lowest n h') ∙ l.free))
        | no h' ↦ omega arith
      ]
    ]
