-- ===== src/FileSystem/Entries/Extend.antt =====
-- The walk of GemFS_GetEntryBlock beyond the last entry of a chain, for blocks of one sector.
use chud_os.Base.{
  ℕ, zero, suc, ◌+◌, ◌-◌, ◌<◌, ◌==◌, ==_iff, ==_of_ne, ◌≡◌, ◌≢◌, refl, sym, ap, ◌∙◌, arith, ◌⊎◌,
  inl, inr, true, false, some, Bool-cases, List, [], ◌∷◌, ◌++◌, length, length-append, get_or,
}
use mathlib.Core.Path.{subst}
use chud_os.Base.Run.{Run}
use chud_os.FileSystem.{Sector, Entry, Disk, Fs, Location}
use chud_os.FileSystem.Layout.{IsEntry, decode_entry}
use chud_os.FileSystem.Blocks.{main_of, block_size_of, block_to_lba, find_free_block}
use chud_os.FileSystem.Blocks.Used.{marked, fbb_set-marked}
use chud_os.FileSystem.Entries.{entry_at, create_entry_by, walk, get_entry_block}
use chud_os.FileSystem.Entries.Table.{
  IsTable, entry_read, entry_written, read_entry-table, write_entry-table, entry_at-written_self,
  entry_at-written_ne, read-IsTable,
}

get_or-snoc_first :
    (xs : List ℕ) (b i : ℕ) → i < length xs → get_or (xs ++ b ∷ []) i 0 ≡ get_or xs i 0
get_or-snoc_first [] b i h = absurd (omega arith)
get_or-snoc_first (x ∷ xs) b zero h = refl
get_or-snoc_first (x ∷ xs) b (suc i) h = get_or-snoc_first xs b i (omega arith)

get_or-snoc_last : (xs : List ℕ) (b i : ℕ) → i ≡ length xs → get_or (xs ++ b ∷ []) i 0 ≡ b
get_or-snoc_last [] b zero h = refl
get_or-snoc_last [] b (suc i) h = absurd (omega arith)
get_or-snoc_last (x ∷ xs) b zero h = absurd (omega arith)
get_or-snoc_last (x ∷ xs) b (suc i) h = get_or-snoc_last xs b i (omega arith)

-- A place of the longer list is one of the shorter list, or the new one.
snoc-cases :
    (xs : List ℕ) (b i : ℕ)
    → i < length (xs ++ b ∷ [])
    → ((i < length xs) × (get_or (xs ++ b ∷ []) i 0 ≡ get_or xs i 0))
      ⊎ ((i ≡ length xs) × (get_or (xs ++ b ∷ []) i 0 ≡ b))
snoc-cases xs b i h =
    let size : length (xs ++ b ∷ []) ≡ length xs + 1 = length-append xs (b ∷ []) in
    elim (Bool-cases (i == length xs)) [
      | inl e ↦
          let last : i ≡ length xs = (==_iff i (length xs)).0 e in
          inr (last, get_or-snoc_last xs b i last)
      | inr e ↦
          let low : i < length xs = ground (arith, size) in inl (low, get_or-snoc_first xs b i low)
    ]

module _ {d : Disk} where
  -- The state with another disk and other buffers.
  abbrev moved : Fs d → d.State → Sector → Sector → Fs d
  moved fs disk buffer table = record fs { disk = disk; entry_buffer = buffer; fbb_block = table }

  -- A chain stays one where its links stay.
  moved-IsTable :
      (l : Location) (fs : Fs d) (disk : d.State) (buffer table : Sector) (blocks : List ℕ)
      → IsTable l fs blocks
      → ((i : ℕ)
          → suc i < length blocks
          → (entry_at l (moved fs disk buffer table) (get_or blocks i 0)).next_index_start
            ≡ (entry_at l fs (get_or blocks i 0)).next_index_start)
      → IsTable l (moved fs disk buffer table) blocks
  moved-IsTable l fs disk buffer table blocks t same = record {
    first = t.first;
    next = λ i h. same i h ∙ t.next i h;
    used = t.used;
    fits = t.fits;
    apart = t.apart;
  }

  -- A block that may follow a chain.
  pub record IsFresh (l : Location) (fs : Fs d) (blocks : List ℕ) (b : ℕ) : Type 0 where
    pub used : b ≢ 0
    pub fits : block_to_lba l b fs.drives < d.capacity
    pub apart :
        (i : ℕ)
        → i < length blocks
        → block_to_lba l (get_or blocks i 0) fs.drives ≢ block_to_lba l b fs.drives

  extended-IsTable :
      (l : Location) (fs : Fs d) (blocks : List ℕ) (m b : ℕ)
      → IsTable l fs blocks
      → length blocks ≡ suc m
      → IsFresh l fs blocks b
      → (entry_at l fs (get_or blocks m 0)).next_index_start ≡ b
      → IsTable l fs (blocks ++ b ∷ [])
  extended-IsTable l fs blocks m b t size fresh link = record {
    first = λ h. t.first (omega arith) ∙ sym (get_or-snoc_first blocks b 0 (omega arith));
    next = λ i h. elim (snoc-cases blocks b (suc i) h) [
      | inl (low, same) ↦
          ap (λ x. (entry_at l fs x).next_index_start) (get_or-snoc_first blocks b i (omega arith))
          ∙ t.next i low
          ∙ sym same
      | inr (last, new) ↦
          let at_end : i ≡ m = omega arith in
          ap (λ x. (entry_at l fs x).next_index_start) (get_or-snoc_first blocks b i (omega arith))
          ∙ ap (λ n. (entry_at l fs (get_or blocks n 0)).next_index_start) at_end
          ∙ link
          ∙ sym new
    ];
    used = λ i h. elim (snoc-cases blocks b i h) [
      | inl (low, same) ↦ (λ z. t.used i low (sym same ∙ z))
      | inr (last, new) ↦ (λ z. fresh.used (sym new ∙ z))
    ];
    fits = λ i h. elim (snoc-cases blocks b i h) [
      | inl (low, same) ↦
          subst (λ x. block_to_lba l x fs.drives < d.capacity) (sym same) (t.fits i low)
      | inr (last, new) ↦ subst (λ x. block_to_lba l x fs.drives < d.capacity) (sym new) fresh.fits
    ];
    apart = λ i j hi hj ne.
        let lba : ℕ → ℕ = λ x. block_to_lba l x fs.drives in
        elim (snoc-cases blocks b i hi) [
          | inl (low, same) ↦ elim (snoc-cases blocks b j hj) [
            | inl (low', same') ↦
                (λ z. t.apart i j low low' ne (ap lba (sym same) ∙ z ∙ ap lba same'))
            | inr (last', new') ↦ (λ z. fresh.apart i low (ap lba (sym same) ∙ z ∙ ap lba new'))
          ]
          | inr (last, new) ↦ elim (snoc-cases blocks b j hj) [
            | inl (low', same') ↦
                (λ z. fresh.apart j low' (ap lba (sym same') ∙ sym z ∙ ap lba new))
            | inr (last', new') ↦ absurd (ne (last ∙ sym last'))
          ]
        ];
  }

  walk-prefix :
      (create : ℕ → Run (Fs d) (Unit {0})) (l : Location) (fs : Fs d) (blocks : List ℕ)
      (n j k last : ℕ) (e : Entry)
      → IsTable l fs blocks
      → e.next_index_start ≡ get_or blocks j 0
      → n + j < length blocks
      → walk create l (suc (suc n)) k last e fs
        ≡ walk create l 1
            (k + suc n)
            (get_or blocks (n + j) 0)
            (entry_at l fs (get_or blocks (n + j) 0))
            fs
  unfolding walk
  walk-prefix create l fs blocks zero j k last e t here inside =
      let nonzero : (e.next_index_start == 0) ≡ false =
        ==_of_ne (e.next_index_start) 0 (λ z. t.used j (omega arith) (sym here ∙ z)) in
      rw nonzero (
        ap (λ b. walk create l 1 (suc k) b (entry_at l fs b) fs)
          (here ∙ ap (λ i. get_or blocks i 0) (omega arith))
        ∙ ap
            (λ i.
              walk create l 1 i (get_or blocks (0 + j) 0) (entry_at l fs (get_or blocks (0 + j) 0))
                fs)
            (omega arith))
  walk-prefix create l fs blocks (suc n) j k last e t here inside =
      let nonzero : (e.next_index_start == 0) ≡ false =
        ==_of_ne (e.next_index_start) 0 (λ z. t.used j (omega arith) (sym here ∙ z)) in
      let next = ap (λ b. (entry_at l fs b).next_index_start) here ∙ t.next j (omega arith) in
      rw nonzero (
        walk-prefix create l fs blocks n (suc j) (suc k) (e.next_index_start)
          (entry_at l fs (e.next_index_start)) t next (omega arith)
        ∙ ap
            (λ i.
              walk create l 1 (suc k + suc n) (get_or blocks i 0)
                (entry_at l fs (get_or blocks i 0)) fs)
            (omega arith)
        ∙ ap
            (λ i.
              walk create l 1 i (get_or blocks (suc n + j) 0)
                (entry_at l fs (get_or blocks (suc n + j) 0)) fs)
            (omega arith))

  -- Where the table of used blocks is, and what a chain needs to be extended by block `b`, which the search for a
  -- free block finds.
  pub record IsExtensible (l : Location) (fs : Fs d) (blocks : List ℕ) (m b : ℕ) (table : Sector)
      : Type 0 where
    pub chain : IsTable l fs blocks
    pub size : length blocks ≡ suc m
    pub one : block_size_of l fs.drives ≡ 1
    pub low : b < 512
    pub found : find_free_block l fs ≡ some (b, record fs { fbb_block = table })
    pub fresh : IsFresh l fs blocks b
    pub end : (entry_at l fs (get_or blocks m 0)).next_index_start ≡ 0
    pub whole : IsEntry (entry_at l fs (get_or blocks m 0))
    pub table_fits : block_to_lba l 4 fs.drives < d.capacity
    pub table_apart :
        (i : ℕ)
        → i < length blocks
        → block_to_lba l 4 fs.drives ≢ block_to_lba l (get_or blocks i 0) fs.drives

  module _ (fuel : ℕ) (l : Location) (fs : Fs d) (blocks : List ℕ) (m b : ℕ) (table : Sector)
      (x : IsExtensible l fs blocks m b table) where
    abbrev last_block : ℕ
    last_block = get_or blocks m 0

    abbrev after_mark : Fs d
    after_mark = marked l b (record fs { fbb_block = table })

    mark-entry :
        (i : ℕ)
        → i < length blocks
        → entry_at l after_mark (get_or blocks i 0) ≡ entry_at l fs (get_or blocks i 0)
    unfolding entry_at
    mark-entry i h = ap (decode_entry 0) (
        d.read-write_ne fs.disk l.drive (block_to_lba l 4 fs.drives)
          (block_to_lba l (get_or blocks i 0) fs.drives) _ x.table_fits (x.chain.fits i h)
          (x.table_apart i h))

    mark-IsTable : IsTable l after_mark blocks
    mark-IsTable =
        moved-IsTable l fs after_mark.disk fs.entry_buffer after_mark.fbb_block blocks x.chain
          (λ i h. ap (λ e. e.next_index_start) (mark-entry i (omega arith)))

    abbrev linked : Entry
    linked = record (entry_at l after_mark last_block) { next_index_start = b }

    linked-IsEntry : IsEntry linked
    linked-IsEntry =
        let ok = subst IsEntry (sym (mark-entry m (let size = x.size in omega arith))) x.whole in
        record {
          start = ok.start;
          size = ok.size;
          index = ok.index;
          parent_index = ok.parent_index;
          sibling_index = ok.sibling_index;
          next_index_start = let low = x.low in omega arith;
          name = ok.name;
        }

    abbrev after_link : Fs d
    after_link = entry_written l last_block linked (entry_read l last_block after_mark)

    in_chain : m < length blocks
    in_chain = let size = x.size in omega arith

    link-entry : entry_at l after_link last_block ≡ linked
    link-entry =
        entry_at-written_self l (entry_read l last_block after_mark) last_block linked
          linked-IsEntry (x.chain.fits m in_chain)

    link-IsTable : IsTable l after_link (blocks ++ b ∷ [])
    unfolding entry_at
    link-IsTable =
        let kept =
          moved-IsTable l after_mark after_link.disk after_link.entry_buffer after_mark.fbb_block
            blocks mark-IsTable
            (λ i h.
              let size = x.size in
              ap (λ e. e.next_index_start)
                (entry_at-written_ne l (entry_read l last_block after_mark) last_block
                  (get_or blocks i 0) linked (x.chain.fits m in_chain)
                  (x.chain.fits i (omega arith))
                  (x.chain.apart m i in_chain (omega arith) (omega arith)))) in
        extended-IsTable l after_link blocks m b kept x.size
          (record { used = x.fresh.used; fits = x.fresh.fits; apart = x.fresh.apart })
          (ap (λ e. e.next_index_start) link-entry)

    abbrev created : Entry
    created = record fs.stack { index = suc (suc m); flags = 0; next_index_start = 0 }

    abbrev after_create : Fs d
    after_create = entry_written l b created after_link

    in_longer : suc m < length (blocks ++ b ∷ [])
    in_longer = let size = x.size in omega (arith, length-append blocks (b ∷ []))

    at_new : get_or (blocks ++ b ∷ []) (suc m) 0 ≡ b
    at_new = get_or-snoc_last blocks b (suc m) (sym x.size)

    create_entry-runs :
        create_entry_by (get_entry_block (suc fuel) l) l (suc (suc m)) 0 fs
        ≡ some (tt, after_create)
    unfolding create_entry_by
    create_entry-runs =
        let before : suc (suc m) - 1 ≡ suc m = omega arith in
        let mark = fbb_set-marked l (record fs { fbb_block = table }) b x.one x.low in
        let opened = read_entry-table fuel l after_mark blocks m mark-IsTable in_chain in
        let link =
          write_entry-table fuel l (entry_read l last_block after_mark) blocks m linked
            (read-IsTable l after_mark last_block blocks mark-IsTable) in_chain in
        let new =
          write_entry-table fuel l after_link (blocks ++ b ∷ []) (suc m) created link-IsTable
            in_longer
          ∙ ap (λ block. some (tt, entry_written l block created after_link)) at_new in
        rw (x.found, mark, before, opened, link) new

    linked-kept : entry_at l after_create last_block ≡ linked
    linked-kept =
        entry_at-written_ne l after_link b last_block created x.fresh.fits (x.chain.fits m in_chain)
          (λ z. x.fresh.apart m in_chain (sym z))
        ∙ link-entry

    after_create-IsTable : IsTable l after_create (blocks ++ b ∷ [])
    after_create-IsTable =
        moved-IsTable l after_link after_create.disk after_create.entry_buffer
          after_create.fbb_block (blocks ++ b ∷ []) link-IsTable
          (λ i h.
            let size = length-append blocks (b ∷ []) in
            let inside : i < length blocks = omega (arith, size) in
            ap (λ e. e.next_index_start)
              (entry_at-written_ne l after_link b (get_or (blocks ++ b ∷ []) i 0) created
                x.fresh.fits
                (subst (λ c. block_to_lba l c fs.drives < d.capacity)
                  (sym (get_or-snoc_first blocks b i inside)) (x.chain.fits i inside))
                (λ z. x.fresh.apart i inside (
                  ap (λ c. block_to_lba l c fs.drives) (sym (get_or-snoc_first blocks b i inside))
                  ∙ sym z))))

  create_step :
      (create : ℕ → Run (Fs d) (Unit {0})) (l : Location) (fs after : Fs d) (i j last : ℕ)
      (e : Entry)
      → e.next_index_start ≡ 0
      → i ≡ j
      → create j fs ≡ some (tt, after)
      → walk create l 1 i last e fs ≡ some ((entry_at l after last).next_index_start, after)
  unfolding walk
  create_step create l fs after i j last e none_next same run =
      let zero_next : (e.next_index_start == 0) ≡ true = ground (arith, none_next) in
      rw (zero_next, same, run) refl

  -- GemFS_GetEntryBlock extends a chain: asked for the entry behind the last one of a complete chain
  -- of one or more entries, whose last entry names no next one and fits its types, on a partition
  -- with blocks of one sector, where the search finds a free block below 512 that is not 0 and lies
  -- on the disk apart from the entries, as the table of used blocks does too, fuel 2 is enough, the
  -- block that was free is returned, and the chain with that block at its end is complete
  -- afterwards.
  pub get_entry_block-extends :
      (fuel : ℕ) (l : Location) (fs : Fs d) (blocks : List ℕ) (m b : ℕ) (table : Sector)
      → IsExtensible l fs blocks m b table
      → (after : Fs d) × (get_entry_block (suc (suc fuel)) l (suc (suc m)) fs ≡ some (b, after))
        × IsTable l after (blocks ++ b ∷ [])
  unfolding get_entry_block
  get_entry_block-extends fuel l fs blocks m b table x =
      let entry = (main_of l fs.drives).entry in
      let positive : (suc (suc m) == 0) ≡ false = ground arith in
      let inside = in_chain fuel l fs blocks m b table x in
      let after = after_create fuel l fs blocks m b table x in
      let create : ℕ → Run (Fs d) (Unit {0}) =
        λ i. create_entry_by (get_entry_block (suc fuel) l) l i 0 in
      let same : m + 0 ≡ m = omega arith in
      let prefix =
        walk-prefix create l fs blocks m 0 1 (entry.next_index_start) entry x.chain
          (x.chain.first (omega arith)) (omega arith)
        ∙ ap
            (λ n.
              walk create l 1 (1 + suc m) (get_or blocks n 0) (entry_at l fs (get_or blocks n 0))
                fs)
            same in
      let step =
        create_step create l fs after (1 + suc m) (suc (suc m)) (get_or blocks m 0)
          (entry_at l fs (get_or blocks m 0)) x.end (omega arith)
          (create_entry-runs fuel l fs blocks m b table x) in
      (
        after,
        rw positive (
            prefix
            ∙ step
            ∙ ap (λ e. some (e.next_index_start, after))
                (linked-kept fuel l fs blocks m b table x)),
        after_create-IsTable fuel l fs blocks m b table x,
      )
