-- ===== src/Memory/Walk/Route.antt =====
-- The walk of CalculatePagePhysicalEntryAddress from the PML4 down to a page table.
use chud_os.Base.{
  ℕ, suc, ◌+◌, ◌*◌, ◌/◌, ◌%◌, ◌≤◌, ◌<◌, ◌≡◌, refl, sym, ap, ◌≢◌, true, ◌∙◌, arith, List, [], ◌∷◌,
  length,
}
use mathlib.Core.Path.{subst}
use chud_os.Memory.Frames.{Memory}
use chud_os.Memory.Walk.{entry_address, is_present, slot, ensure_entry, walk_tables}
use chud_os.Memory.Walk.Strata.{IsStratified, Room, ensure_entry-present}
use chud_os.Memory.Walk.Extend.{Extends, Extends-refl, Extends-trans, ensure_entry-Ensured}

-- Entry `i` of the table in frame `f` leads to the table in frame `g`.
pub record Leads (m : Memory) (f i g : ℕ) : Type 0 where
  pub present : is_present (m.word (slot (0x1000 * f) i)) ≡ true
  pub target : entry_address (m.word (slot (0x1000 * f) i)) ≡ 0x1000 * g

-- The indices `is` lead from the table in frame `f` to the one in frame `g`.
abbrev pub IsRoute : Memory → List ℕ → ℕ → ℕ → Type 0
IsRoute m [] f g = f ≡ g
IsRoute m (i ∷ is) f g = (h : ℕ) × Leads m f i h × IsRoute m is h g

abbrev pub AllBelow : List ℕ → Type 0
AllBelow [] = Unit {0}
AllBelow (i ∷ is) = (i < 512) × AllBelow is

pub Leads-level :
    {level : ℕ → ℕ} {m : Memory} {f i g : ℕ}
    → IsStratified level m
    → 2 ≤ level f
    → i < 512
    → Leads m f i g
    → level g + 1 ≡ level f
Leads-level {level} {m} {f} {i} {g} s d hi l =
    let below = s.child_level f i d hi l.present in
    let same : entry_address (m.word (slot (0x1000 * f) i)) / 0x1000 ≡ g =
      omega (arith, l.target) in
    rw same at below

-- A route of `n` steps goes down `n` levels.
pub Route-level :
    {level : ℕ → ℕ} {m : Memory} {f g : ℕ} (is : List ℕ)
    → IsStratified level m
    → AllBelow is
    → level f ≡ suc (length is)
    → IsRoute m is f g
    → level g ≡ 1
Route-level {level} [] s b d e = rw (← e) d
Route-level (i ∷ is) s (hi, b) d (h, l, w) =
    Route-level is s b (omega (arith, Leads-level s (omega arith) hi l)) w

-- Where the route is there, the walk follows it and changes nothing.
pub walk-Route :
    {level : ℕ → ℕ} {m : Memory} (f g : ℕ) (is : List ℕ) (flags : ℕ)
    → IsStratified level m
    → AllBelow is
    → level f ≡ suc (length is)
    → IsRoute m is f g
    → walk_tables is (0x1000 * f) flags m ≡ (0x1000 * g, m)
unfolding walk_tables
walk-Route {m} f g [] flags s b d e = ap (λ (t : ℕ). (0x1000 * t, m)) e
walk-Route {level} {m} f g (i ∷ is) flags s (hi, b) d (h, l, w) =
    rw (ensure_entry-present level m f i flags s (omega arith) hi l.present, l.target)
      (walk-Route h g is flags s b (omega (arith, Leads-level s (omega arith) hi l)) w)

-- What a walk has done: the tables that it found or made, and the rest as before.
abbrev pub Walked : (ℕ → ℕ) → Memory → List ℕ → ℕ → ℕ × Memory → Type 0
Walked level m is f out =
    (level' : ℕ → ℕ) × (g : ℕ) × Extends level m level' out.1
    × IsRoute out.1 is f g
    × (out.0 ≡ 0x1000 * g)

-- A step that later steps do not undo.
Leads-Extends :
    {la lb : ℕ → ℕ} {a b : Memory} {f i g : ℕ}
    → Extends la a lb b
    → la f ≢ 0
    → i < 512
    → Leads a f i g
    → Leads b f i g
Leads-Extends {a} {b} {f} {i} x h hi l =
    let same = x.same_entry f i h hi l.present in
    record { present = rw same l.present; target = rw same l.target }

walk-nil : (table flags : ℕ) (m : Memory) → walk_tables [] table flags m ≡ (table, m)
unfolding walk_tables
walk-nil table flags m = refl

walk-cons :
    (i : ℕ) (is : List ℕ) (table flags : ℕ) (m : Memory)
    → walk_tables (i ∷ is) table flags m
      ≡ walk_tables is
          (entry_address ((ensure_entry (slot table i) flags m).word (slot table i)))
          flags
          (ensure_entry (slot table i) flags m)
unfolding walk_tables
walk-cons i is table flags m = refl

pub walk-Walked :
    (level : ℕ → ℕ) (m : Memory) (is : List ℕ) (f flags : ℕ)
    → IsStratified level m
    → AllBelow is
    → level f ≡ suc (length is)
    → flags % 2 ≡ 1
    → flags < 0x100
    → Room (length is) m
    → Walked level m is f (walk_tables is (0x1000 * f) flags m)
walk-Walked level m [] f flags s b d odd byte room =
    rw walk-nil (level, f, Extends-refl s, refl, refl)
walk-Walked level m (i ∷ is) f flags s (hi, b) d odd byte room =
    let m1 = ensure_entry (slot (0x1000 * f) i) flags m in
    let h = entry_address (m1.word (slot (0x1000 * f) i)) / 0x1000 in
    let (la, x, p, rest) =
      ensure_entry-Ensured level m f i flags (length is) s (omega arith) hi odd byte room in
    let same : la f ≡ level f = x.same_level f (omega arith) in
    let target : entry_address (m1.word (slot (0x1000 * f) i)) ≡ 0x1000 * h =
      omega (arith, x.stratified.child_aligned f i (omega arith) hi p) in
    let step : Leads m1 f i h = record { present = p; target = target } in
    let down = Leads-level x.stratified (omega arith) hi step in
    let (lb, g, y, route, end) =
      walk-Walked la m1 is h flags x.stratified b (omega arith) odd byte rest in
    let out =
      walk-cons i is (0x1000 * f) flags m ∙ ap (λ (t : ℕ). walk_tables is t flags m1) target in
    subst (Walked level m (i ∷ is) f) (sym out)
      (lb, g, Extends-trans x y, (h, Leads-Extends y (omega arith) hi step, route), end)
