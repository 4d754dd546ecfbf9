-- ===== src/Tasks/Copy.antt =====
-- copy_from_user and strcpy_from_user of src/kernel/drivers/Userland/Tasks.c: what they leave in the
-- kernel's buffer, and what they return.
use chud_os.Base.{
  ℕ, zero, suc, ◌+◌, ◌<◌, ◌≤◌, ◌≡◌, refl, sym, ap, ◌∙◌, arith, true, ◌==◌, if◌then◌else◌, update,
  update_self, update_ne, ==_of_ne,
}
use native.Mathlib.Decide.{ℕ_discrete}
use chud_os.Base.Words.{add64}
use chud_os.Tasks.{Kernel}
use chud_os.Tasks.Access.{mem_access_ok}

-- The byte at a user address, in the address space in use.
abbrev pub user_byte : Kernel → ℕ → ℕ
user_byte k a = k.space k.pml4_physical a

-- `memcpy` of the bytes from `i` on into the buffer `dest`, a function of the offset.
pub copy_bytes : ℕ → ℕ → ℕ → Kernel → (ℕ → ℕ) → ℕ → ℕ
copy_bytes zero i src k dest = dest
copy_bytes (suc n) i src k dest =
    copy_bytes n (suc i) src k (update dest i (user_byte k (add64 src i)))

-- The number of bytes that were not copied.
pub copy_from_user : (ℕ → ℕ) → ℕ → ℕ → Kernel → ℕ × (ℕ → ℕ)
copy_from_user dest src n k =
    if mem_access_ok src k.cur_pid k then (0, copy_bytes n 0 src k dest) else (n, dest)

-- The loop of strcpy_from_user, from `i` on.
pub copy_string : ℕ → ℕ → ℕ → Kernel → (ℕ → ℕ) → ℕ × (ℕ → ℕ)
copy_string zero i src k dest = (i, dest)
copy_string (suc count) i src k dest =
    let c = user_byte k (add64 src i) in
    let rest = copy_string count (suc i) src k (update dest i c) in
    if c == 0 then (i, dest) else rest

pub strcpy_from_user : (ℕ → ℕ) → ℕ → ℕ → Kernel → ℕ × (ℕ → ℕ)
strcpy_from_user dest src count k =
    if mem_access_ok src k.cur_pid k then copy_string count 0 src k dest else (0, dest)

-- The outcome of the loop: a stop before the end of the buffer is at the end of the string.
pub record Copied (count i src : ℕ) (k : Kernel) (dest : ℕ → ℕ) (out : ℕ × (ℕ → ℕ)) : Type 0 where
  pub from : i ≤ out.0
  pub most : out.0 ≤ i + count
  pub copied : (j : ℕ) → i ≤ j → j < out.0 → out.1 j ≡ user_byte k (add64 src j)
  pub before : (j : ℕ) → j < i → out.1 j ≡ dest j
  pub behind : (j : ℕ) → out.0 ≤ j → out.1 j ≡ dest j
  pub ended : out.0 < i + count → user_byte k (add64 src out.0) ≡ 0

copy_string-Copied :
    (count i src : ℕ) (k : Kernel) (dest : ℕ → ℕ)
    → Copied count i src k dest (copy_string count i src k dest)
unfolding copy_string
copy_string-Copied zero i src k dest = record {
  from = omega arith;
  most = omega arith;
  copied = λ j h h'. absurd (omega arith);
  before = λ j h. refl;
  behind = λ j h. refl;
  ended = λ h. absurd (omega arith);
}
copy_string-Copied (suc count) i src k dest = elim (ℕ_discrete (user_byte k (add64 src i)) 0) [
  | yes e ↦ rw (ap (λ (c : ℕ). c == 0) e) (record {
    from = omega arith;
    most = omega arith;
    copied = λ j h h'. absurd (omega arith);
    before = λ j h. refl;
    behind = λ j h. refl;
    ended = λ h. e;
  })
  | no ne ↦
      let c = user_byte k (add64 src i) in
      let rest = copy_string-Copied count (suc i) src k (update dest i c) in
      rw (==_of_ne c 0 ne) (record {
        from = omega (arith, rest.from);
        most = omega (arith, rest.most);
        copied = λ j h h'. elim (ℕ_discrete i j) [
          | yes e ↦
              rest.before j (omega arith)
              ∙ ap (λ (n : ℕ). update dest i c n) (sym e)
              ∙ update_self dest i c
              ∙ ap (λ (n : ℕ). user_byte k (add64 src n)) e
          | no other ↦ rest.copied j (omega arith) h'
        ];
        before =
            λ j h. rest.before j (omega arith) ∙ update_ne dest i c j (λ e. absurd (omega arith));
        behind =
            λ j h. rest.behind j h ∙ update_ne dest i c j (λ e. absurd (omega (arith, rest.from)));
        ended = λ h. rest.ended (omega arith);
      })
]

-- From an address that the current task may use, strcpy_from_user copies at most `count` characters,
-- as many as it returns, and leaves the rest of the buffer, so that no end of the text is written;
-- where it returns less than `count` it stopped at the end of the user's text.
pub strcpy_from_user-Copied :
    (dest : ℕ → ℕ) (src count : ℕ) (k : Kernel)
    → mem_access_ok src k.cur_pid k ≡ true
    → Copied count 0 src k dest (strcpy_from_user dest src count k)
unfolding strcpy_from_user
strcpy_from_user-Copied dest src count k ok = rw ok (copy_string-Copied count 0 src k dest)
