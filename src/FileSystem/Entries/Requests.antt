-- ===== src/FileSystem/Entries/Requests.antt =====
-- The entries of a partition as a list, and requests to it.
use chud_os.Base.{
  ℕ, zero, suc, ◌<◌, ◌==◌, ==_iff, ◌≡◌, refl, sym, ap, ◌∙◌, arith, inl, inr, some, Bool-cases, List,
  [], ◌∷◌, length, get_or, set, length-set, get_or-set_self, get_or-set_ne, get_or_ext,
}
use mathlib.Core.Path.{subst}
use chud_os.Base.Run.{Run, ◌>>=◌, ◌>>◌, pure}
use chud_os.FileSystem.{Entry, Disk, Fs, Location}
use chud_os.FileSystem.Layout.{IsEntry, decode_entry}
use chud_os.FileSystem.Entries.{blank, entry_at, read_entry, write_entry}
use chud_os.FileSystem.Entries.Table.{
  IsTable, entry_read, entry_written, read_entry-table, write_entry-table, entry_at-written,
  written-IsTable, read-IsTable,
}

-- Entry `i + 1` is read or written.
pub data Request : Type 0 where
  read_at : ℕ → Request
  write_at : ℕ → Entry → Request

abbrev pub entry_of : List Entry → ℕ → Entry
entry_of xs i = get_or xs i (decode_entry 0 blank)

-- A request that a list of entries serves: it is in range, and a write keeps the link to the next entry.
abbrev pub IsRequest : List Entry → Request → Type 0
IsRequest xs (read_at i) = i < length xs
IsRequest xs (write_at i e) =
    (i < length xs) × IsEntry e × (e.next_index_start ≡ (entry_of xs i).next_index_start)

abbrev pub list_after : List Entry → Request → List Entry
list_after xs (read_at i) = xs
list_after xs (write_at i e) = set xs i e

abbrev pub list_answers : List Entry → List Request → List Entry
list_answers xs [] = []
list_answers xs (read_at i ∷ rs) = entry_of xs i ∷ list_answers xs rs
list_answers xs (write_at i e ∷ rs) = list_answers (set xs i e) rs

abbrev pub list_final : List Entry → List Request → List Entry
list_final xs [] = xs
list_final xs (r ∷ rs) = list_final (list_after xs r) rs

abbrev pub AreRequests : List Entry → List Request → Type 0
AreRequests xs [] = Unit
AreRequests xs (r ∷ rs) = IsRequest xs r × AreRequests (list_after xs r) rs

module _ {d : Disk} where
  -- The same requests through GemFS_ReadEntry and GemFS_WriteEntry.
  abbrev pub serve : ℕ → Location → List Request → Run (Fs d) (List Entry)
  serve fuel l [] = pure []
  serve fuel l (read_at i ∷ rs) = do
    e ← read_entry fuel l (suc i)
    es ← serve fuel l rs
    pure (e ∷ es)
  serve fuel l (write_at i e ∷ rs) = do write_entry fuel l (suc i) e; serve fuel l rs

  abbrev pub entries : Location → Fs d → List ℕ → List Entry
  entries l fs [] = []
  entries l fs (b ∷ bs) = entry_at l fs b ∷ entries l fs bs

  length-entries : (l : Location) (fs : Fs d) (bs : List ℕ) → length (entries l fs bs) ≡ length bs
  length-entries l fs [] = refl
  length-entries l fs (b ∷ bs) = ap suc (length-entries l fs bs)

  entry_of-entries :
      (l : Location) (fs : Fs d) (bs : List ℕ) (i : ℕ)
      → i < length bs
      → entry_of (entries l fs bs) i ≡ entry_at l fs (get_or bs i 0)
  entry_of-entries l fs [] i h = absurd (omega arith)
  entry_of-entries l fs (b ∷ bs) zero h = refl
  entry_of-entries l fs (b ∷ bs) (suc i) h = entry_of-entries l fs bs i (omega arith)

  entries-read :
      (l : Location) (fs : Fs d) (block : ℕ) (bs : List ℕ)
      → entries l (entry_read l block fs) bs ≡ entries l fs bs
  unfolding entry_at
  entries-read l fs block [] = refl
  entries-read l fs block (b ∷ bs) = ap (λ es. entry_at l fs b ∷ es) (entries-read l fs block bs)

  entries-written :
      (l : Location) (fs : Fs d) (bs : List ℕ) (k : ℕ) (e : Entry)
      → IsTable l fs bs
      → IsEntry e
      → k < length bs
      → entries l (entry_written l (get_or bs k 0) e fs) bs ≡ set (entries l fs bs) k e
  entries-written l fs bs k e table ok hk =
      let after = entry_written l (get_or bs k 0) e fs in
      let before_length = length-entries l fs bs in
      let after_length = length-entries l after bs in
      get_or_ext (entries l after bs) (set (entries l fs bs) k e) (decode_entry 0 blank)
        (after_length ∙ sym (length-set (entries l fs bs) k e ∙ before_length))
        (λ i hi.
          let inside : i < length bs = omega (arith, after_length) in
          entry_of-entries l after bs i inside
          ∙ entry_at-written l fs bs k i e table ok hk inside
          ∙ elim (Bool-cases (k == i)) [
            | inl same ↦
                let this : k ≡ i = (==_iff k i).0 same in
                rw same (
                  subst (λ j. e ≡ entry_of (set (entries l fs bs) k e) j) this
                    (sym (
                      get_or-set_self (entries l fs bs) k e (decode_entry 0 blank)
                        (omega (arith, before_length)))))
            | inr other ↦ rw other (
                sym (entry_of-entries l fs bs i inside)
                ∙ sym (get_or-set_ne (entries l fs bs) e (decode_entry 0 blank) (ground arith)))
          ])

  -- GemFS_ReadEntry and GemFS_WriteEntry implement a list of entries: on a partition whose chain of entry blocks
  -- is complete, any sequence of requests in range, whose writes keep the link to the next entry, gives the
  -- answers that the list of the entries gives, leaves the entries of that list, and leaves the chain complete.
  pub serve-list :
      (fuel : ℕ) (l : Location) (fs : Fs d) (blocks : List ℕ) (rs : List Request)
      → IsTable l fs blocks
      → AreRequests (entries l fs blocks) rs
      → (after : Fs d) × (serve (suc fuel) l rs fs
          ≡ some (list_answers (entries l fs blocks) rs, after))
        × (entries l after blocks ≡ list_final (entries l fs blocks) rs)
        × IsTable l after blocks
  serve-list fuel l fs blocks [] table ok = (fs, refl, refl, table)
  serve-list fuel l fs blocks (read_at i ∷ rs) table (inside, ok) =
      let block = get_or blocks i 0 in
      let same = entries-read l fs block blocks in
      let low : i < length blocks = omega (arith, inside, length-entries l fs blocks) in
      let answer =
        read_entry-table fuel l fs blocks i table low
        ∙ ap (λ e. some (e, entry_read l block fs)) (sym (entry_of-entries l fs blocks i low)) in
      let (after, run, final, table') =
        serve-list fuel l (entry_read l block fs) blocks rs (read-IsTable l fs block blocks table)
          (subst (λ xs. AreRequests xs rs) (sym same) ok) in
      (after, rw (answer, run, same) refl, final ∙ ap (λ xs. list_final xs rs) same, table')
  serve-list fuel l fs blocks (write_at i e ∷ rs) table ((inside, whole, keeps), ok) =
      let block = get_or blocks i 0 in
      let low : i < length blocks = omega (arith, inside, length-entries l fs blocks) in
      let same = entries-written l fs blocks i e table whole low in
      let done = write_entry-table fuel l fs blocks i e table low in
      let link = keeps ∙ ap (λ x. x.next_index_start) (entry_of-entries l fs blocks i low) in
      let (after, run, final, table') =
        serve-list fuel l (entry_written l block e fs) blocks rs
          (written-IsTable l fs blocks i e table whole low link)
          (subst (λ xs. AreRequests xs rs) (sym same) ok) in
      (after, rw (done, run, same) refl, final ∙ ap (λ xs. list_final xs rs) same, table')
