-- ===== src/FileSystem/Names/Children.antt =====
-- The search for a child by its name, against the list of the children.
use chud_os.Base.{
  ℕ, zero, suc, ◌≤◌, ◌<◌, ◌==◌, ==_of_ne, ◌≡◌, ◌≢◌, refl, ap, ◌∙◌, arith, inl, inr, not, ◌&&◌,
  if◌then◌else◌, true, false, Bool-cases, some, List, [], ◌∷◌, length, get_or,
}
use chud_os.FileSystem.{Sector, Entry, Disk, Fs, Location}
use chud_os.FileSystem.Blocks.{block_to_lba}
use chud_os.FileSystem.Entries.{entry_at, read_entry}
use chud_os.FileSystem.Entries.Table.{IsTable, with_buffer, with_buffer-IsTable, read_entry-table}
use chud_os.FileSystem.Names.{is_named, not_found, search_children, find_index_by_name}

-- The index of the first of some entries that has a name.
abbrev pub index_named : List ℕ → List Entry → ℕ
index_named name [] = not_found
index_named name (e ∷ es) =
    let rest = index_named name es in if is_named name e then e.index else rest

-- What the code makes of the entry at which its search stops.
abbrev answer : List ℕ → Entry → ℕ
answer name child =
    if (child.sibling_index == 0) && not (is_named name child) then not_found else child.index

module _ {d : Disk} where
  -- The siblings `rest` that follow entry `e`.
  pub data Siblings (l : Location) (fs : Fs d) (blocks : List ℕ) : Entry → List Entry → Type 0 where
    last : {e : Entry} → e.sibling_index ≡ 0 → Siblings l fs blocks e []
    more :
        {e : Entry} {rest : List Entry} (i : ℕ)
        → i < length blocks
        → e.sibling_index ≡ suc i
        → Siblings l fs blocks (entry_at l fs (get_or blocks i 0)) rest
        → Siblings l fs blocks e (entry_at l fs (get_or blocks i 0) ∷ rest)

  search_children-named :
      (fuel : ℕ) (l : Location) (fs : Fs d) (blocks : List ℕ) (name : List ℕ) (n : ℕ) (e : Entry)
      (rest : List Entry) (buffer : Sector)
      → IsTable l fs blocks
      → Siblings l fs blocks e rest
      → length rest ≤ n
      → (child : Entry) × (buffer' : Sector) × (search_children
            (suc fuel)
            l
            name
            (suc n)
            e
            (with_buffer fs buffer)
          ≡ some (child, with_buffer fs buffer'))
        × (answer name child ≡ index_named name (e ∷ rest))
  unfolding search_children entry_at
  search_children-named fuel l fs blocks name n e rest buffer table (last none_left) enough =
      let zero_link : (e.sibling_index == 0) ≡ true = ground (arith, none_left) in
      elim (Bool-cases (is_named name e)) [
        | inl named ↦ (e, buffer, rw (zero_link, named) refl, rw (zero_link, named) refl)
        | inr other ↦ (e, buffer, rw (zero_link, other) refl, rw (zero_link, other) refl)
      ]
  search_children-named fuel l fs blocks name zero e rest buffer table (more i inside link later)
        enough =
      absurd (omega (arith, enough))
  search_children-named fuel l fs blocks name (suc n) e rest buffer table (more i inside link later)
        enough =
      let a_link : (e.sibling_index == 0) ≡ false = ground (arith, link) in
      elim (Bool-cases (is_named name e)) [
        | inl named ↦ (e, buffer, rw (a_link, named) refl, rw (a_link, named) refl)
        | inr other ↦
            let block = get_or blocks i 0 in
            let filled = d.read fs.disk l.drive (block_to_lba l block fs.drives) in
            let opened =
              ap (λ j. read_entry (suc fuel) l j (with_buffer fs buffer)) link
              ∙ read_entry-table fuel l (with_buffer fs buffer) blocks i
                  (with_buffer-IsTable l fs buffer blocks table) inside in
            let (child, buffer', run, found) =
              search_children-named fuel l fs blocks name n (entry_at l fs block) _ filled table
                later (omega (arith, enough)) in
            (child, buffer', rw (a_link, other, opened) run, rw other found)
      ]

  -- GemFS_Find_Index_By_Name ends and finds the first child of that name: where the parent is read
  -- and leaves a complete chain of entries, its first child, which is not the parent's own index,
  -- and that child's siblings are entries of the chain, and the fuel is more than the number of
  -- siblings, it leaves the disk and the drives as they are after the parent is read, and returns
  -- the index of the first child with that name, or 2 ^ 64 - 1 where none has it.
  pub find_index_by_name-first :
      (fuel : ℕ) (l : Location) (fs opened : Fs d) (blocks : List ℕ) (name : List ℕ)
      (parent_index i : ℕ) (parent : Entry) (rest : List Entry)
      → read_entry (suc fuel) l parent_index fs ≡ some (parent, opened)
      → IsTable l opened blocks
      → parent.start ≢ parent.index
      → parent.start ≡ suc i
      → i < length blocks
      → Siblings l opened blocks (entry_at l opened (get_or blocks i 0)) rest
      → length rest ≤ fuel
      → (after : Fs d) × (find_index_by_name (suc fuel) l name parent_index fs
          ≡ some (index_named name (entry_at l opened (get_or blocks i 0) ∷ rest), after))
        × (after.disk ≡ opened.disk)
        × (after.drives ≡ opened.drives)
  unfolding find_index_by_name
  find_index_by_name-first fuel l fs opened blocks name parent_index i parent rest read table proper
        link inside siblings enough =
      let differs : (parent.start == parent.index) ≡ false =
        ==_of_ne (parent.start) (parent.index) proper in
      let block = get_or blocks i 0 in
      let filled = d.read opened.disk l.drive (block_to_lba l block opened.drives) in
      let first =
        ap (λ j. read_entry (suc fuel) l j opened) link
        ∙ read_entry-table fuel l opened blocks i table inside in
      let (child, buffer', run, found) =
        search_children-named fuel l opened blocks name fuel (entry_at l opened block) rest filled
          table siblings enough in
      (with_buffer opened buffer', rw (read, differs, first, run, found) refl, refl, refl)
