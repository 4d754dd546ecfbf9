-- ===== src/FileSystem/Names.antt =====
-- Entries by name and by path: lines 300-407 of gemfs.c. A string is the list of its characters.
pub mod Equality
pub mod Children
use chud_os.Base.{
  ℕ, zero, suc, ◌+◌, ◌-◌, ◌*◌, ◌/◌, ◌%◌, ◌^◌, ◌==◌, ltb, if◌then◌else◌, Bool, true, false, not,
  ◌&&◌, ◌||◌, List, length, get_or, set,
}
use chud_os.Base.Run.{Run, ◌>>=◌, ◌>>◌, pure, fail}
use chud_os.Console.{calculate_string_length}
use chud_os.FileSystem.{Entry, Disk, Fs, Location}
use chud_os.FileSystem.Layout.{read_bytes}
use chud_os.FileSystem.Entries.{blank, read_entry}

-- The loop, `rest` rounds from `i` on.
unfoldable pub names_equal_from : ℕ → ℕ → List ℕ → List ℕ → Bool
names_equal_from zero i name1 name2 = true
names_equal_from (suc rest) i name1 name2 =
    let later = names_equal_from rest (suc i) name1 name2 in
    let a = get_or name1 i 0 in
    let b = get_or name2 i 0 in
    if (a == 0) && (b == 0) then true else if not (a == b) then false else later

unfoldable pub names_equal : List ℕ → List ℕ → ℕ → ℕ → Bool
names_equal name1 name2 len1 len2 =
    if not (len1 == len2) then false else names_equal_from len1 0 name1 name2

-- `GemFS_Names_Equal(name, e.Name, calculate_string_length(name), calculate_string_length(e.Name))`.
-- A name that fills its 128 bytes is taken to end there; the source reads on in the fields behind it.
abbrev pub is_named : List ℕ → Entry → Bool
is_named name e =
    names_equal name e.name (calculate_string_length name) (calculate_string_length e.name)

-- `return -1` of a `uint64_t`.
abbrev pub not_found : ℕ
not_found = 0xFFFFFFFFFFFFFFFF

-- An `int` that is read back as a `uint64_t`.
abbrev pub through_int : ℕ → ℕ
through_int x = let y = x % 2 ^ 32 in if ltb y (2 ^ 31) then y else y + (2 ^ 64 - 2 ^ 32)

module _ {d : Disk} where
  -- The loop over the children, at most `rounds` of them.
  unfoldable pub search_children : ℕ → Location → List ℕ → ℕ → Entry → Run (Fs d) Entry
  search_children fuel l name zero cur_child = fail
  search_children fuel l name (suc rounds) cur_child =
      if not (is_named name cur_child) && not (cur_child.sibling_index == 0)
      then (do
        next ← read_entry fuel l cur_child.sibling_index
        search_children fuel l name rounds next)
      else pure cur_child

  unfoldable pub find_index_by_name : ℕ → Location → List ℕ → ℕ → Run (Fs d) ℕ
  find_index_by_name fuel l name parent_index = do
    parent ← read_entry fuel l parent_index
    if parent.start == parent.index then pure 0 else do
      first ← read_entry fuel l parent.start
      child ← search_children fuel l name fuel first
      pure (
          if (child.sibling_index == 0) && not (is_named name child)
          then not_found
          else child.index)

  -- `directory[i]`: the character after the last is the terminator, and the code must not read further.
  abbrev pub char_at : List ℕ → ℕ → Run (Fs d) ℕ
  char_at directory i = if ltb (length directory) i then fail else pure (get_or directory i 0)

  -- `scan[i] = c`, within the 128 characters.
  abbrev pub put_scan : List ℕ → ℕ → ℕ → Run (Fs d) (List ℕ)
  put_scan scan i c = if ltb i (length scan) then pure (set scan i c) else fail

  -- The loop, at most `rounds` times; `i` and `last_i` count characters, and 47 is the slash.
  unfoldable pub scan_path : ℕ → Location → List ℕ → ℕ → ℕ → ℕ → ℕ → List ℕ → Run (Fs d) ℕ
  scan_path fuel l directory zero i last_i cur_index scan = fail
  scan_path fuel l directory (suc rounds) i last_i cur_index scan = do
    cur ← char_at directory i
    if (cur == 47) || (cur == 0)
        then (do
          found ← find_index_by_name fuel l scan cur_index
          if through_int found == not_found
              then pure not_found
              else if cur == 0
              then pure (through_int found)
              else (do
                c ← char_at directory (suc i)
                scan ← put_scan (read_bytes 128 0 blank) 0 c
                scan_path fuel l directory rounds (suc (suc i)) (suc i) (through_int found) scan))
        else (do
          scan ← put_scan scan (i - last_i) cur
          scan_path fuel l directory rounds (suc i) last_i cur_index scan)

  -- `scan` is not initialised: it is what the stack held.
  unfoldable pub directory_to_index : ℕ → Location → List ℕ → List ℕ → Run (Fs d) ℕ
  directory_to_index fuel l scan directory =
      let start = if get_or directory 0 0 == 47 then 1 else 0 in
      scan_path fuel l directory (2 + length directory) start start 0 scan
