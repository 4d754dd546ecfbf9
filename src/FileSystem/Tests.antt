-- ===== src/FileSystem/Tests.antt =====
-- A small partition on a disk in memory, and runs on it.
use chud_os.Base.{
  ℕ, zero, suc, ◌+◌, ◌*◌, ◌%◌, ◌≤◌, ◌<◌, ◌==◌, ◌≡◌, ◌≢◌, ◌↔◌, refl, sym, ap, ◌∙◌, arith, ◌⊎◌, inl,
  if◌then◌else◌, ltb, update, update_self, update_ne, true, some, List, [], ◌∷◌, ◌++◌, get_or,
}
use chud_os.FileSystem.{Sector, Entry, Main, MbrPartition, Disk, Fs, Location}
use chud_os.FileSystem.Layout.{
  IsEntry, encode_entry, encode_main, decode-encode_entry, length-read_bytes,
}
use chud_os.FileSystem.Blocks.{block_to_lba}
use chud_os.FileSystem.Entries.{blank, entry_at}
use chud_os.FileSystem.Entries.Table.{IsTable, entry_read, read_entry-table, read-IsTable}
use chud_os.FileSystem.Entries.{read_main_entry}
use chud_os.FileSystem.Entries.Requests.{
  Request, read_at, write_at, AreRequests, serve, entries, list_answers, list_final, serve-list,
}
use chud_os.FileSystem.Blocks.{find_free_block}
use chud_os.FileSystem.Blocks.Used.{used, find_free_block-lowest, IsLowestFree, IsFull}
use chud_os.FileSystem.Files.{copy_name, write_file, read_file}
use chud_os.FileSystem.Files.RoundTrip.{IsFile, file_lba, file_sectors, read_file-write_file}
use chud_os.FileSystem.Names.{names_equal, find_index_by_name}
use chud_os.FileSystem.Names.Equality.{string, names_equal-string}
use chud_os.FileSystem.Names.Children.{Siblings, last, more, index_named, find_index_by_name-first}
use chud_os.FileSystem.Init.{fresh_main, format_root}
use chud_os.FileSystem.Init.Fresh.{bit_of, format_root-fresh}
use chud_os.Console.{calculate_string_length}
use chud_os.Base.Words.{add64}
use mathlib.Core.Path.{subst}
use chud_os.FileSystem.Blocks.{read_sectors, search_free, fbb_get_block}
use chud_os.FileSystem.Entries.{get_entry_block}
use chud_os.FileSystem.Entries.Extend.{IsExtensible, get_entry_block-extends}

abbrev ram_update : ℕ → ℕ → Sector → (ℕ → ℕ → Sector) → ℕ → ℕ → Sector
ram_update drive lba x s = update s drive (update (s drive) lba x)

ram_self :
    (s : ℕ → ℕ → Sector) (drive lba : ℕ) (x : Sector) → ram_update drive lba x s drive lba ≡ x
ram_self s drive lba x =
    ap (λ f. f lba) (update_self s drive (update (s drive) lba x)) ∙ update_self (s drive) lba x

ram_ne :
    (s : ℕ → ℕ → Sector) (drive lba lba' : ℕ) (x : Sector)
    → lba ≢ lba'
    → ram_update drive lba x s drive lba' ≡ s drive lba'
ram_ne s drive lba lba' x ne =
    ap (λ f. f lba') (update_self s drive (update (s drive) lba x))
    ∙ update_ne (s drive) lba x lba' ne

abbrev ram_disk : Disk
ram_disk = record {
  State = ℕ → ℕ → Sector;
  read = λ s drive lba. s drive lba;
  write = ram_update;
  capacity = 2880;
  delivered = 512;
  main_delivered = omega arith;
  read-write_self = λ s drive lba x p hl hp. ap (λ (f : Sector). f p) (ram_self s drive lba x);
  read-write_ne = λ s drive lba lba' x hl hl' ne. ram_ne s drive lba lba' x ne;
}

abbrev an_entry : ℕ → ℕ → ℕ → ℕ → ℕ → List ℕ → Entry
an_entry start index sibling next flags name = record {
  start = start;
  size = 1;
  index = index;
  parent_index = 0;
  sibling_index = sibling;
  next_index_start = next;
  flags = flags;
  reading_mask = 0;
  name = copy_name name 2;
}

-- A directory `b` with the files `a` and `c`, in blocks 10 to 12.
abbrev entry_a : Entry
entry_a = an_entry 20 1 3 11 0x0F (97 ∷ [])

abbrev entry_b : Entry
entry_b = an_entry 1 2 0 12 0x17 (98 ∷ [])

abbrev entry_c : Entry
entry_c = an_entry 0 3 0 0 0x0F (99 ∷ [])

abbrev a_main : Main
a_main = record {
  check = 71 ∷ 69 ∷ 77 ∷ 72 ∷ [];
  block_size = 1;
  entry = an_entry 1 0 0 10 0x17 [];
}

abbrev a_partition : MbrPartition
a_partition = record { status = 0; partition_type = 0xC8; lba_start = 100; sector_count = 1000 }

abbrev here : Location
here = record { drive = 0; partition = 1 }

-- Blocks 0 to 12 are used.
abbrev used_table : Sector
used_table p = if ltb p 13 then 0xFF else 0

abbrev small : Fs ram_disk
small = record {
  drives =
      λ i. record { drive_id = 0; partition_table = λ j. a_partition; main_entries = λ j. a_main };
  disk = λ drive lba.
      if lba == 101
      then encode_main a_main blank
      else if lba == 104
      then used_table
      else if lba == 110
      then encode_entry entry_a blank
      else if lba == 111
      then encode_entry entry_b blank
      else if lba == 112
      then encode_entry entry_c blank
      else blank;
  entry_buffer = blank;
  fbb_block = blank;
  fbb_size = 8;
  stack = entry_b;
}

abbrev blocks : List ℕ
blocks = 10 ∷ 11 ∷ 12 ∷ []

entry_a-IsEntry : IsEntry entry_a
entry_a-IsEntry = record {
  start = omega arith;
  size = omega arith;
  index = omega arith;
  parent_index = omega arith;
  sibling_index = omega arith;
  next_index_start = omega arith;
  name = length-read_bytes 128 0 _;
}

entry_b-IsEntry : IsEntry entry_b
entry_b-IsEntry = record {
  start = omega arith;
  size = omega arith;
  index = omega arith;
  parent_index = omega arith;
  sibling_index = omega arith;
  next_index_start = omega arith;
  name = length-read_bytes 128 0 _;
}

entry_c-IsEntry : IsEntry entry_c
entry_c-IsEntry = record {
  start = omega arith;
  size = omega arith;
  index = omega arith;
  parent_index = omega arith;
  sibling_index = omega arith;
  next_index_start = omega arith;
  name = length-read_bytes 128 0 _;
}

at_10 : entry_at here small 10 ≡ entry_a
unfolding entry_at block_to_lba
at_10 = decode-encode_entry entry_a blank entry_a-IsEntry

at_11 : entry_at here small 11 ≡ entry_b
unfolding entry_at block_to_lba
at_11 = decode-encode_entry entry_b blank entry_b-IsEntry

at_12 : entry_at here small 12 ≡ entry_c
unfolding entry_at block_to_lba
at_12 = decode-encode_entry entry_c blank entry_c-IsEntry

small-next :
    (i : ℕ)
    → suc i < 3
    → (entry_at here small (get_or blocks i 0)).next_index_start ≡ get_or blocks (suc i) 0
small-next zero h = ap (λ e. e.next_index_start) at_10
small-next (suc zero) h = ap (λ e. e.next_index_start) at_11
small-next (suc (suc i)) h = absurd (omega arith)

-- The blocks are 10, 11 and 12, from sector 110 on.
block_is : (i : ℕ) → i < 3 → get_or blocks i 0 ≡ 10 + i
block_is zero h = refl
block_is (suc zero) h = refl
block_is (suc (suc zero)) h = refl
block_is (suc (suc (suc i))) h = absurd (omega arith)

lba_is : (i : ℕ) → i < 3 → block_to_lba here (get_or blocks i 0) small.drives ≡ 110 + i
unfolding block_to_lba
lba_is i h = omega (arith, block_is i h)

small-apart :
    (i j : ℕ)
    → i < 3
    → j < 3
    → i ≢ j
    → block_to_lba here (get_or blocks i 0) small.drives
      ≢ block_to_lba here (get_or blocks j 0) small.drives
small-apart i j hi hj ne = omega (arith, lba_is i hi, lba_is j hj)

small-used : (i : ℕ) → i < 3 → get_or blocks i 0 ≢ 0
small-used i h = omega (arith, block_is i h)

small-fits : (i : ℕ) → i < 3 → block_to_lba here (get_or blocks i 0) small.drives < 2880
small-fits i h = omega (arith, lba_is i h)

small-IsTable : IsTable here small blocks
small-IsTable = record {
  first = λ h. refl;
  next = small-next;
  used = small-used;
  fits = small-fits;
  apart = small-apart;
}

file_outside :
    (j : ℕ)
    → j < 3
    → (block_to_lba here (get_or blocks j 0) small.drives < file_lba here small entry_a)
      ⊎ (file_lba here small entry_a + file_sectors here small entry_a
          ≤ block_to_lba here (get_or blocks j 0) small.drives)
unfolding block_to_lba
file_outside j h = inl (omega (arith, block_is j h))

entry_a-IsFile : IsFile here small blocks entry_a
unfolding block_to_lba
entry_a-IsFile = record {
  regular = refl;
  whole = entry_a-IsEntry;
  some_sectors = omega arith;
  one_command = omega arith;
  fits = omega arith;
  outside = λ j h. file_outside j h;
}

read_file-write_file_example :
    (written : Fs ram_disk) × (contents : Sector) × (after : Fs ram_disk) × (write_file 1 here
        (λ p. p)
        1
        small
      ≡ some (tt, written))
    × (read_file 1 here 1 blank (file_sectors here small entry_a) written ≡ some (contents, after))
    × ((p : ℕ) → p < 512 * file_sectors here small entry_a → p % 512 < 512 → contents p ≡ p)
    × IsTable here written blocks
read_file-write_file_example =
    read_file-write_file 0 here small blocks 0 entry_a (λ p. p) blank small-IsTable (omega arith)
      at_10 entry_a-IsFile

-- Entry 2 is read, renamed and read again.
abbrev renamed : Entry
renamed = an_entry 1 2 0 12 0x17 (100 ∷ [])

renamed-IsEntry : IsEntry renamed
renamed-IsEntry = record {
  start = omega arith;
  size = omega arith;
  index = omega arith;
  parent_index = omega arith;
  sibling_index = omega arith;
  next_index_start = omega arith;
  name = length-read_bytes 128 0 _;
}

abbrev some_requests : List Request
some_requests = read_at 1 ∷ write_at 1 renamed ∷ read_at 1 ∷ []

some_requests-AreRequests : AreRequests (entries here small blocks) some_requests
some_requests-AreRequests = (
  omega arith,
  ((omega arith, renamed-IsEntry, ap (λ e. e.next_index_start) (sym at_11)), (omega arith, tt)),
)

serve-list_example :
    (after : Fs ram_disk) × (serve 1 here some_requests small
      ≡ some (list_answers (entries here small blocks) some_requests, after))
    × (entries here after blocks ≡ list_final (entries here small blocks) some_requests)
    × IsTable here after blocks
serve-list_example =
    serve-list 0 here small blocks some_requests small-IsTable some_requests-AreRequests

find_free_block-lowest_example :
    (b : ℕ) × (after : Fs ram_disk) × (find_free_block here small ≡ some (b, after))
    × (after.disk ≡ small.disk)
    × (IsLowestFree here small 0 512 b ⊎ (IsFull here small 0 512 × (b ≡ add64 1000 1)))
find_free_block-lowest_example = find_free_block-lowest here small refl

names_equal-string_example :
    (names_equal
        (97 ∷ 0 ∷ 5 ∷ [])
        (97 ∷ [])
        (calculate_string_length (97 ∷ 0 ∷ 5 ∷ []))
        (calculate_string_length (97 ∷ []))
      ≡ true)
    ↔ (string (97 ∷ 0 ∷ 5 ∷ []) ≡ string (97 ∷ []))
names_equal-string_example = names_equal-string (97 ∷ 0 ∷ 5 ∷ []) (97 ∷ [])

-- The children of `b`.
abbrev opened : Fs ram_disk
opened = entry_read here 11 small

files-Siblings :
    Siblings here opened blocks (entry_at here opened 10) (entry_at here opened 12 ∷ [])
unfolding entry_at block_to_lba
files-Siblings =
    more 2 (omega arith) (ap (λ e. e.sibling_index) at_10) (last (ap (λ e. e.sibling_index) at_12))

find_index_by_name-first_example :
    (after : Fs ram_disk) × (find_index_by_name 2 here (99 ∷ []) 2 small
      ≡ some
          (index_named (99 ∷ []) (entry_at here opened 10 ∷ entry_at here opened 12 ∷ []), after))
    × (after.disk ≡ opened.disk)
    × (after.drives ≡ opened.drives)
find_index_by_name-first_example =
    find_index_by_name-first 1 here small opened blocks (99 ∷ []) 2 0 entry_b
      (entry_at here opened 12 ∷ [])
      (read_entry-table 1 here small blocks 1 small-IsTable (omega arith)
        ∙ ap (λ e. some (e, opened)) at_11)
      (read-IsTable here small 11 blocks small-IsTable) (omega arith) refl (omega arith)
      files-Siblings (omega arith)

format_root-fresh_example :
    (after : Fs ram_disk) × (read_back : Fs ram_disk) × (format_root here small ≡ some (tt, after))
    × (read_main_entry here after ≡ some (fresh_main, read_back))
    × ((c : ℕ)
        → c < 512
        → c < 512
        → used here after c ≡ (if ltb c 6 then true else bit_of (small.disk 0 104) c))
format_root-fresh_example = format_root-fresh here small (omega arith) (omega arith) (omega arith)

-- FBB_Block after the table is read so many times.
abbrev table_loads : ℕ → Sector
table_loads zero = blank
table_loads (suc n) = read_sectors here 104 1 (table_loads n) small

small-IsExtensible : IsExtensible here small blocks 2 13 (table_loads 14)
unfolding block_to_lba find_free_block search_free fbb_get_block
small-IsExtensible = record {
  chain = small-IsTable;
  size = refl;
  one = refl;
  low = omega arith;
  found = refl;
  fresh = record {
    used = omega arith;
    fits = omega arith;
    apart = λ i h. omega (arith, block_is i h);
  };
  end = ap (λ e. e.next_index_start) at_12;
  whole = subst IsEntry (sym at_12) entry_c-IsEntry;
  table_fits = omega arith;
  table_apart = λ i h. omega (arith, block_is i h);
}

get_entry_block-extends_example :
    (after : Fs ram_disk) × (get_entry_block 2 here 4 small ≡ some (13, after))
    × IsTable here after (blocks ++ 13 ∷ [])
get_entry_block-extends_example =
    get_entry_block-extends 0 here small blocks 2 13 (table_loads 14) small-IsExtensible
