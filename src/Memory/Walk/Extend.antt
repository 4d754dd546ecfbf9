-- ===== src/Memory/Walk/Extend.antt =====
-- What the walk may do to the page tables: add tables, and leave all that is there.
use chud_os.Base.{
  ℕ, zero, suc, ◌+◌, ◌*◌, ◌%◌, ◌≤◌, ◌<◌, ◌≡◌, refl, sym, ap, ◌≢◌, true, false, inl, inr, ◌∙◌, arith,
  Bool-cases,
}
use mathlib.Core.Bool.{true≢false}
use chud_os.Memory.Frames.{Memory, mem_get_bit, set_flags}
use chud_os.Memory.Frames.Search.{IsLowestFree}
use chud_os.Memory.Walk.{is_present, slot, ensure_entry}
use chud_os.Memory.Walk.Entry.{is_present_iff}
use chud_os.Memory.Walk.Strata.{
  IsStratified, Room, ensure_entry-present, ensure_entry-grown, grown, grown_level,
  grown-IsStratified, word_entry, word_old, other_frame,
}

-- `m'` has the tables of `m`, with every entry that was present, and maybe more.
pub record Extends (level : ℕ → ℕ) (m : Memory) (level' : ℕ → ℕ) (m' : Memory) : Type 0 where
  pub stratified : IsStratified level' m'
  pub same_level : (f : ℕ) → level f ≢ 0 → level' f ≡ level f
  pub same_entry :
      (f i : ℕ)
      → level f ≢ 0
      → i < 512
      → is_present (m.word (slot (0x1000 * f) i)) ≡ true
      → m'.word (slot (0x1000 * f) i) ≡ m.word (slot (0x1000 * f) i)
  pub same_root : m'.pml4_physical ≡ m.pml4_physical
  pub same_total : m'.total_mem ≡ m.total_mem

pub Extends-refl : {level : ℕ → ℕ} {m : Memory} → IsStratified level m → Extends level m level m
Extends-refl s = record {
  stratified = s;
  same_level = λ f h. refl;
  same_entry = λ f i h hi p. refl;
  same_root = refl;
  same_total = refl;
}

pub Extends-trans :
    {la lb lc : ℕ → ℕ} {a b c : Memory} → Extends la a lb b → Extends lb b lc c → Extends la a lc c
Extends-trans x y = record {
  stratified = y.stratified;
  same_level = λ f h. y.same_level f (rw (x.same_level f h) h) ∙ x.same_level f h;
  same_entry = λ f i h hi p.
      y.same_entry f i (rw (x.same_level f h) h) hi (rw (x.same_entry f i h hi p) p)
      ∙ x.same_entry f i h hi p;
  same_root = y.same_root ∙ x.same_root;
  same_total = y.same_total ∙ x.same_total;
}

Room-word : (k : ℕ) (m : Memory) (w : ℕ → ℕ) → Room k m → Room k (record m { word = w })
unfolding mem_get_bit
Room-word zero m w r = tt
Room-word (suc k) m w (n, l, r) = (
  n,
  record { in_memory = l.in_memory; free = l.free; lowest = l.lowest },
  Room-word k (set_flags n 0b101 m) w r,
)

Room-less : (k : ℕ) (m : Memory) → Room (suc k) m → Room k m
Room-less zero m r = tt
Room-less (suc k) m (n, l, r) = (n, l, Room-less k (set_flags n 0b101 m) r)

module _ (level : ℕ → ℕ) (m : Memory) (f i flags : ℕ) (s : IsStratified level m)
    (deep : 2 ≤ level f) (hi : i < 512) (n : ℕ) (free : IsLowestFree m n) (odd : flags % 2 ≡ 1)
    (byte : flags < 0x100) (absent : is_present (m.word (slot (0x1000 * f) i)) ≡ false) where
  abbrev after : Memory
  after = grown level m f i flags s deep hi n free odd byte

  abbrev level_after : ℕ → ℕ
  level_after = grown_level level m f i flags s deep hi n free odd byte

  grown-present : is_present (after.word (slot (0x1000 * f) i)) ≡ true
  grown-present =
      rw (word_entry level m f i flags s deep hi n free odd byte)
        ((is_present_iff (0x1000 * n + flags)).1 (omega arith))

  grown-Extends : Extends level m level_after after
  grown-Extends = record {
    stratified = grown-IsStratified level m f i flags s deep hi n free odd byte;
    same_level =
        λ g h. let ne = other_frame level m f i flags s deep hi n free odd byte g h in ground arith;
    same_entry = λ g j h hj p.
        let ne = other_frame level m f i flags s deep hi n free odd byte g h in
        word_old level m f i flags s deep hi n free odd byte g j ne hj (differs g j p);
    same_root = refl;
    same_total = refl;
  }
    where
      differs :
          (g j : ℕ)
          → is_present (m.word (slot (0x1000 * g) j)) ≡ true
          → slot (0x1000 * f) i ≢ slot (0x1000 * g) j
      differs g j p e = true≢false (sym p ∙ ap (λ (a : ℕ). is_present (m.word a)) (sym e) ∙ absent)

-- The outcome of EnsureEntry.
abbrev pub Ensured : (ℕ → ℕ) → Memory → ℕ → ℕ → ℕ → Memory → Type 0
Ensured level m f i k m' =
    (level' : ℕ → ℕ) × Extends level m level' m'
    × (is_present (m'.word (slot (0x1000 * f) i)) ≡ true)
    × Room k m'

-- EnsureEntry on an entry of a table above the last level, with a frame to spare and flags that are
-- odd and fit a byte: the tables stay stratified, nothing present is lost, the entry is present
-- afterwards, and at most one frame is taken.
pub ensure_entry-Ensured :
    (level : ℕ → ℕ) (m : Memory) (f i flags k : ℕ)
    → IsStratified level m
    → 2 ≤ level f
    → i < 512
    → flags % 2 ≡ 1
    → flags < 0x100
    → Room (suc k) m
    → Ensured level m f i k (ensure_entry (slot (0x1000 * f) i) flags m)
ensure_entry-Ensured level m f i flags k s deep hi odd byte (n, free, room) =
    elim (Bool-cases (is_present (m.word (slot (0x1000 * f) i)))) [
      | inl p ↦
          rw (ensure_entry-present level m f i flags s deep hi p)
            (level, Extends-refl s, p, Room-less k m (n, free, room))
      | inr a ↦ rw (ensure_entry-grown level m f i flags s deep hi n free odd byte a) (
        grown_level level m f i flags s deep hi n free odd byte,
        grown-Extends level m f i flags s deep hi n free odd byte a,
        grown-present level m f i flags s deep hi n free odd byte a,
        Room-word k (set_flags n 0b101 m) _ room,
      )
    ]
