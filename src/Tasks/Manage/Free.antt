-- ===== src/Tasks/Manage/Free.antt =====
-- The searches for a free entry of a table.
use chud_os.Base.{
  ℕ, zero, suc, ◌+◌, ◌<◌, ◌≡◌, refl, sym, ◌∙◌, arith, Bool, true, false, ◌⊎◌, inl, inr, Option,
  none, some, Bool-cases,
}
use native.Mathlib.Decide.{ℕ_discrete, dec_lt}
use mathlib.Core.Bool.{true≢false}
use chud_os.Tasks.{Kernel}
use chud_os.Tasks.Manage.{find_free_from, find_free_pid}

-- The lowest entry below `n` that is not taken, or none.
abbrev pub LowestFree : ℕ → (ℕ → Bool) → ℕ → Type 0
LowestFree n taken i = (i < n) × (taken i ≡ false) × ((j : ℕ) → j < i → taken j ≡ true)

abbrev pub Searched : ℕ → (ℕ → Bool) → Option ℕ → Type 0
Searched n taken r =
    ((i : ℕ) × (r ≡ some i) × LowestFree n taken i)
    ⊎ ((r ≡ none) × ((j : ℕ) → j < n → taken j ≡ true))

pub lowest_unique :
    (n : ℕ) (taken : ℕ → Bool) (i j : ℕ) → LowestFree n taken i → LowestFree n taken j → i ≡ j
lowest_unique n taken i j (hi, fi, li) (hj, fj, lj) = elim (dec_lt i j) [
  | yes h ↦ absurd (true≢false (sym (lj i h) ∙ fi))
  | no h ↦ elim (dec_lt j i) [
    | yes h' ↦ absurd (true≢false (sym (li j h') ∙ fj))
    | no h' ↦ omega arith
  ]
]

extend :
    (taken : ℕ → Bool) (i : ℕ)
    → ((j : ℕ) → j < i → taken j ≡ true)
    → taken i ≡ true
    → (j : ℕ) → j < suc i
    → taken j ≡ true
extend taken i below here j h = elim (ℕ_discrete j i) [
  | yes e ↦ rw e here
  | no ne ↦ below j (omega arith)
]

pub find_free_from-Searched :
    (rounds i : ℕ) (taken : ℕ → Bool)
    → ((j : ℕ) → j < i → taken j ≡ true)
    → Searched (i + rounds) taken (find_free_from rounds i taken)
unfolding find_free_from
find_free_from-Searched zero i taken below = inr (refl, λ j h. below j (omega arith))
find_free_from-Searched (suc rounds) i taken below = elim (Bool-cases (taken i)) [
  | inl used ↦
      let same : suc i + rounds ≡ i + suc rounds = omega arith in
      rw (used, ← same) (find_free_from-Searched rounds (suc i) taken (extend taken i below used))
  | inr free ↦ rw free (inl (i, refl, (omega arith, free, below)))
]

-- FindFreePID returns the lowest of the 512 PIDs whose task does not exist, and 513 when all exist.
pub find_free_pid_lem :
    (k : Kernel)
    → LowestFree 512 (λ i. (k.task_manager i).exists) (find_free_pid k)
      ⊎ ((find_free_pid k ≡ 513) × ((j : ℕ) → j < 512 → (k.task_manager j).exists ≡ true))
unfolding find_free_pid
find_free_pid_lem k =
    elim (find_free_from-Searched 512 0 (λ i. (k.task_manager i).exists)
      (λ j h. absurd (omega arith))) [
        | inl (i, e, l) ↦ rw e (inl l)
        | inr (e, full) ↦ rw e (inr (refl, full))
      ]
