-- ===== src/FileSystem/Layout.antt =====
-- The packed structures of src/include/filesys/gemfs.h in the bytes of a sector.
use chud_os.Base.{
  ℕ, zero, suc, ◌+◌, ◌-◌, ◌*◌, ◌^◌, ◌<◌, ◌≤◌, ◌≡◌, refl, sym, ap, ◌∙◌, arith, ltb, ◌==◌,
  if◌then◌else◌, List, [], ◌∷◌, length, get_or,
}
use chud_os.Base.Words.{add64}
use chud_os.Tasks.Bytes.{byte, load64, load64_eq}
use chud_os.FileSystem.{Sector, Entry, Main}

-- Byte `p` of an entry, which has 178.
pub entry_byte : Entry → ℕ → ℕ
entry_byte e p =
    if ltb p 8
    then byte e.start p
    else if ltb p 16
    then byte e.size (p - 8)
    else if ltb p 24
    then byte e.index (p - 16)
    else if ltb p 32
    then byte e.parent_index (p - 24)
    else if ltb p 40
    then byte e.sibling_index (p - 32)
    else if ltb p 48
    then byte e.next_index_start (p - 40)
    else if p == 48
    then e.flags
    else if p == 49
    then e.reading_mask
    else get_or e.name (p - 50) 0

-- `n` bytes from `o` on.
pub read_bytes : ℕ → ℕ → Sector → List ℕ
read_bytes zero o s = []
read_bytes (suc n) o s = s o ∷ read_bytes n (suc o) s

-- `memcpy(buffer, &entry, sizeof(entry))`, and the other way, from offset `o` on.
pub encode_entry : Entry → Sector → Sector
encode_entry e buffer p = if ltb p 178 then entry_byte e p else buffer p

pub decode_entry : ℕ → Sector → Entry
decode_entry o s = record {
  start = load64 o s;
  size = load64 (o + 8) s;
  index = load64 (o + 16) s;
  parent_index = load64 (o + 24) s;
  sibling_index = load64 (o + 32) s;
  next_index_start = load64 (o + 40) s;
  flags = s (o + 48);
  reading_mask = s (o + 49);
  name = read_bytes 128 (o + 50) s;
}

pub main_byte : Main → ℕ → ℕ
main_byte m p =
    if ltb p 4
    then get_or m.check p 0
    else if ltb p 6
    then byte m.block_size (p - 4)
    else entry_byte m.entry (p - 6)

pub encode_main : Main → Sector → Sector
encode_main m buffer p = if ltb p 184 then main_byte m p else buffer p

pub decode_main : Sector → Main
decode_main s = record {
  check = read_bytes 4 0 s;
  block_size = s 4 + s 5 * 0x100;
  entry = decode_entry 6 s;
}

-- An entry whose fields fit their types.
pub record IsEntry (e : Entry) : Type 0 where
  pub start : e.start < 2 ^ 64
  pub size : e.size < 2 ^ 64
  pub index : e.index < 2 ^ 64
  pub parent_index : e.parent_index < 2 ^ 64
  pub sibling_index : e.sibling_index < 2 ^ 64
  pub next_index_start : e.next_index_start < 2 ^ 64
  pub name : length e.name ≡ 128

pub record IsMain (m : Main) : Type 0 where
  pub check : length m.check ≡ 4
  pub block_size : m.block_size < 2 ^ 16
  pub entry : IsEntry m.entry

read_bytes-get_or :
    (xs : List ℕ) (o : ℕ) (s : Sector)
    → ((i : ℕ) → i < length xs → s (o + i) ≡ get_or xs i 0)
    → read_bytes (length xs) o s ≡ xs
unfolding read_bytes
read_bytes-get_or [] o s same = refl
read_bytes-get_or (x ∷ xs) o s same =
    let here : s o ≡ x = ap s (omega arith) ∙ same 0 (omega arith) in
    let next =
      read_bytes-get_or xs (suc o) s (λ i h. ap s (omega arith) ∙ same (suc i) (omega arith)) in
    λ i. here i ∷ next i

-- A sector that holds the bytes of an entry from offset `o` on.
abbrev pub Holds : ℕ → Sector → Entry → Type 0
Holds o s e = (p : ℕ) → p < 178 → s (o + p) ≡ entry_byte e p

load64-byte :
    (a v : ℕ) (s : Sector)
    → a < 0x2000
    → v < 2 ^ 64
    → ((i : ℕ) → i < 8 → s (a + i) ≡ byte v i)
    → load64 a s ≡ v
unfolding load64
load64-byte a v s low hv h =
    let at : (i : ℕ) → i < 8 → s (add64 a i) ≡ byte v i = λ i hi. ap s (omega arith) ∙ h i hi in
    let here : s a ≡ byte v 0 = ap s (omega arith) ∙ h 0 (omega arith) in
    omega (
      arith,
      here,
      at 1 (omega arith),
      at 2 (omega arith),
      at 3 (omega arith),
      at 4 (omega arith),
      at 5 (omega arith),
      at 6 (omega arith),
      at 7 (omega arith),
    )

-- One of the six words at the front of an entry.
Holds-field :
    (o k v : ℕ) (s : Sector) (e : Entry)
    → o < 0x1000
    → k + 8 ≤ 178
    → v < 2 ^ 64
    → Holds o s e
    → ((i : ℕ) → i < 8 → entry_byte e (k + i) ≡ byte v i)
    → load64 (o + k) s ≡ v
Holds-field o k v s e low fits hv h field =
    load64-byte (o + k) v s (omega arith) hv
      (λ i hi. ap s (omega arith) ∙ h (k + i) (omega arith) ∙ field i hi)

Holds-name :
    (o : ℕ) (s : Sector) (e : Entry) → IsEntry e → Holds o s e → read_bytes 128 (o + 50) s ≡ e.name
unfolding entry_byte
Holds-name o s e ok h =
    ap (λ n. read_bytes n (o + 50) s) (sym ok.name)
    ∙ read_bytes-get_or e.name (o + 50) s
        (λ i hi. ap s (omega arith) ∙ h (50 + i) (omega (arith, ok.name)) ∙ ground (arith))

encoded : (e : Entry) (buffer : Sector) → Holds 0 (encode_entry e buffer) e
unfolding encode_entry
encoded e buffer p hp = ground arith

decode-Holds :
    (o : ℕ) (s : Sector) (e : Entry) → o < 0x1000 → IsEntry e → Holds o s e → decode_entry o s ≡ e
unfolding decode_entry entry_byte
decode-Holds o s e low ok h =
    let f0 : load64 o s ≡ e.start =
      ap (λ a. load64 a s) (omega arith)
      ∙ Holds-field o 0 e.start s e low (omega arith) ok.start h (λ i hi. ground arith) in
    let f1 = Holds-field o 8 e.size s e low (omega arith) ok.size h (λ i hi. ground arith) in
    let f2 = Holds-field o 16 e.index s e low (omega arith) ok.index h (λ i hi. ground arith) in
    let f3 =
      Holds-field o 24 e.parent_index s e low (omega arith) ok.parent_index h
        (λ i hi. ground arith) in
    let f4 =
      Holds-field o 32 e.sibling_index s e low (omega arith) ok.sibling_index h
        (λ i hi. ground arith) in
    let f5 =
      Holds-field o 40 e.next_index_start s e low (omega arith) ok.next_index_start h
        (λ i hi. ground arith) in
    let f6 : s (o + 48) ≡ e.flags = h 48 (omega arith) in
    let f7 : s (o + 49) ≡ e.reading_mask = h 49 (omega arith) in
    let f8 = Holds-name o s e ok h in
    λ i. record {
      start = f0 i;
      size = f1 i;
      index = f2 i;
      parent_index = f3 i;
      sibling_index = f4 i;
      next_index_start = f5 i;
      flags = f6 i;
      reading_mask = f7 i;
      name = f8 i;
    }

-- An entry is read back from the bytes that it is written as, whatever the buffer held.
pub decode-encode_entry :
    (e : Entry) (buffer : Sector) → IsEntry e → decode_entry 0 (encode_entry e buffer) ≡ e
decode-encode_entry e buffer ok =
    decode-Holds 0 (encode_entry e buffer) e (omega arith) ok (encoded e buffer)

-- The same for the main entry.
pub decode-encode_main :
    (m : Main) (buffer : Sector) → IsMain m → decode_main (encode_main m buffer) ≡ m
unfolding decode_main encode_main main_byte read_bytes
decode-encode_main m buffer ok =
    let f : encode_main m buffer 4 + encode_main m buffer 5 * 0x100 ≡ m.block_size =
      ground (arith, ok.block_size) in
    let c =
      read_bytes-get_or m.check 0 (encode_main m buffer)
        (λ i hi. let four = ok.check in ground arith) in
    let check : read_bytes 4 0 (encode_main m buffer) ≡ m.check =
      ap (λ n. read_bytes n 0 (encode_main m buffer)) (sym ok.check) ∙ c in
    let entry =
      decode-Holds 6 (encode_main m buffer) m.entry (omega arith) ok.entry (λ p hp. ground arith) in
    λ i. record { check = check i; block_size = f i; entry = entry i }

read_bytes-eq :
    (n o : ℕ) (s s' : Sector)
    → ((p : ℕ) → o ≤ p → p < o + n → s p ≡ s' p)
    → read_bytes n o s ≡ read_bytes n o s'
unfolding read_bytes
read_bytes-eq zero o s s' same = refl
read_bytes-eq (suc n) o s s' same =
    let here = same o (omega arith) (omega arith) in
    let rest = read_bytes-eq n (suc o) s s' (λ p lo hi. same p (omega arith) (omega arith)) in
    λ i. here i ∷ rest i

-- An entry is read from its bytes alone.
pub decode_entry-eq :
    (o : ℕ) (s s' : Sector)
    → ((p : ℕ) → p < o + 178 → s p ≡ s' p)
    → o < 0x1000
    → decode_entry o s ≡ decode_entry o s'
unfolding decode_entry
decode_entry-eq o s s' same low =
    let word : (k : ℕ) → k < 48 → load64 (o + k) s ≡ load64 (o + k) s' =
      λ k hk. load64_eq (o + k) s s' (omega arith) (λ p lo hi. same p (omega arith)) in
    let first : load64 o s ≡ load64 o s' =
      load64_eq o s s' (omega arith) (λ p lo hi. same p (omega arith)) in
    let flags = same (o + 48) (omega arith) in
    let mask = same (o + 49) (omega arith) in
    let name = read_bytes-eq 128 (o + 50) s s' (λ p lo hi. same p (omega arith)) in
    λ i. record {
      start = first i;
      size = word 8 (omega arith) i;
      index = word 16 (omega arith) i;
      parent_index = word 24 (omega arith) i;
      sibling_index = word 32 (omega arith) i;
      next_index_start = word 40 (omega arith) i;
      flags = flags i;
      reading_mask = mask i;
      name = name i;
    }

pub decode_main-eq :
    (s s' : Sector) → ((p : ℕ) → p < 184 → s p ≡ s' p) → decode_main s ≡ decode_main s'
unfolding decode_main
decode_main-eq s s' same =
    let check = read_bytes-eq 4 0 s s' (λ p lo hi. same p (omega arith)) in
    let low = same 4 (omega arith) in
    let high = same 5 (omega arith) in
    let entry = decode_entry-eq 6 s s' (λ p hp. same p (omega arith)) (omega arith) in
    λ i. record { check = check i; block_size = low i + high i * 0x100; entry = entry i }

pub length-read_bytes : (n o : ℕ) (s : Sector) → length (read_bytes n o s) ≡ n
unfolding read_bytes
length-read_bytes zero o s = refl
length-read_bytes (suc n) o s = ap suc (length-read_bytes n (suc o) s)
