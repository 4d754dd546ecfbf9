-- ===== src/Floppy/Transfer/Errors.antt =====
-- What a read that needs one command returns, and what it does to the caller's buffer.
use chud_os.Base.{ℕ, ◌≡◌, ◌⊎◌, true, false, Option, some}
use chud_os.Base.Run.{Run}
use chud_os.Floppy.{Controller, Driver}
use chud_os.Floppy.Transfer.{is_error, copy_bytes}

-- The controller raises interrupt 6 after a command.
abbrev pub Raises : Controller → Type 0
Raises c =
    (bounce : ℕ → ℕ) (s : c.State)
    → (filled : ℕ → ℕ) × (after : c.State) × (c.interrupt bounce s ≡ some (filled, after))

module _ {c : Controller} where
  -- An action that returns and leaves the caller's buffer alone.
  abbrev pub IsQuiet {ℓ} : {A : Type ℓ} → Run (Driver c) A → Type ℓ
  IsQuiet {A = A} m =
      (s : Driver c)
      → (a : A) × (after : Driver c) × (m s ≡ some (a, after)) × (after.memory ≡ s.memory)

  -- What a read leaves: with no error bit in the status, 0 and the bytes in the caller's buffer; with one, that
  -- status and the caller's buffer as it was.
  abbrev pub IsOutcome : ℕ → Option (ℕ × Driver c) → (ℕ → ℕ) → Type 0
  IsOutcome count result memory =
      (code : ℕ) × (after : Driver c) × (result ≡ some (code, after))
      × (((code ≡ 0)
            × (is_error (after.results 1) ≡ false)
            × (after.memory ≡ copy_bytes count after.bounce memory))
          ⊎ ((is_error code ≡ true) × (code ≡ after.results 1) × (after.memory ≡ memory)))
