-- ===== src/Terminal/Bounds.antt =====
-- virtualprint stays inside the text of its terminal.
use chud_os.Base.{
  ℕ, zero, suc, ◌+◌, ◌*◌, ◌%◌, ◌^◌, ◌<◌, ◌≤◌, ◌≡◌, ◌≢◌, refl, ◌∙◌, arith, ltb, lt→ltb,
  if◌then◌else◌, length, get_or, set, length-set, some, [], ◌∷◌,
}
use chud_os.Text.{Buffer}
use chud_os.Terminal.{Terminal, text_length, copy_text, append_text}

-- The text of a terminal is as large as its window, and the next character goes into it or right
-- behind it.
pub record IsTerminal (t : Terminal) : Type 0 where
  pub window : t.w * t.h ≤ length t.bytes
  pub least : 128 ≤ length t.bytes
  pub size : length t.bytes < 2 ^ 32
  pub position : t.last_pos ≤ t.w * t.h

-- No character of a text is a backspace.
abbrev pub IsClean : Buffer → Type 0
IsClean [] = Unit
IsClean (c ∷ cs) = (c ≢ 8) × IsClean cs

pub get_or-IsClean : (b : Buffer) (i : ℕ) → IsClean b → get_or b i 0 ≢ 8
get_or-IsClean [] i h = λ e. absurd (omega (arith, e))
get_or-IsClean (c ∷ cs) zero h = h.0
get_or-IsClean (c ∷ cs) (suc i) h = get_or-IsClean cs i (h.1)

set-IsClean : (b : Buffer) (i c : ℕ) → c ≢ 8 → IsClean b → IsClean (set b i c)
set-IsClean [] i c ne h = tt
set-IsClean (x ∷ xs) zero c ne h = (ne, h.1)
set-IsClean (x ∷ xs) (suc i) c ne h = (h.0, set-IsClean xs i c ne (h.1))

text_length-at_most : (rounds i : ℕ) (src : Buffer) → text_length rounds i src ≤ i + rounds
unfolding text_length
text_length-at_most zero i src = omega arith
text_length-at_most (suc rounds) i src = ground (arith, text_length-at_most rounds (suc i) src)

copy_text-inside :
    (rounds i pos : ℕ) (src bytes : Buffer)
    → pos + i + rounds ≤ length bytes
    → (bytes' : Buffer) × (copy_text rounds i pos src bytes ≡ some bytes')
      × (length bytes' ≡ length bytes)
      × (IsClean src → IsClean bytes → IsClean bytes')
unfolding copy_text
copy_text-inside zero i pos src bytes h = (bytes, refl, refl, λ _ h. h)
copy_text-inside (suc rounds) i pos src bytes h =
    let same = length-set bytes (pos + i) (get_or src i 0) in
    let (bytes', e, l, clean) =
      copy_text-inside rounds (suc i) pos src (set bytes (pos + i) (get_or src i 0))
        (omega (arith, same)) in
    (
      bytes',
      rw (lt→ltb (pos + i) (length bytes) (omega arith)) e,
      l ∙ same,
      λ from to.
          clean from (set-IsClean bytes (pos + i) (get_or src i 0) (get_or-IsClean src i from) to),
    )

-- Appending any text writes inside the text of its terminal, whose well-formedness it keeps, and
-- brings no backspace into it that is not in the text.
pub append_text-IsTerminal :
    (src : Buffer) (t : Terminal)
    → IsTerminal t
    → (t' : Terminal) × (append_text src t ≡ some t')
      × IsTerminal t'
      × (length t'.bytes ≡ length t.bytes)
      × (t'.w ≡ t.w)
      × (IsClean src → IsClean t.bytes → IsClean t'.bytes)
unfolding append_text
append_text-IsTerminal src t ok =
    let len = text_length 128 0 src in
    let short : len ≤ 128 = text_length-at_most 128 0 src in
    let nadd = ltb (t.w * t.h) ((t.last_pos + len) % 2 ^ 64) in
    let pos = if nadd then 0 else t.last_pos in
    let room : pos + 0 + len ≤ length t.bytes = ground (arith, ok) in
    let (bytes, e, l, clean) = copy_text-inside len 0 pos src t.bytes room in
    let last = if nadd then 0 else (t.last_pos + len) % 2 ^ 64 in
    (
      record t { bytes = bytes; last_pos = last },
      rw e refl,
      record {
        window = omega (arith, ok.window, l);
        least = omega (arith, ok.least, l);
        size = omega (arith, ok.size, l);
        position = ground (arith, ok);
      },
      l,
      refl,
      clean,
    )
