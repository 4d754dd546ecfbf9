-- ===== src/Terminal/Refresh/Kept.antt =====
-- virtualprint returns and keeps all terminals well-formed.
use chud_os.Base.{
  ℕ, zero, suc, ◌<◌, ◌≡◌, refl, ◌∙◌, arith, Bool, true, false, if◌then◌else◌, some, List, [], ◌∷◌,
  length, get_elem?, set, length-set,
}
use chud_os.Text.{Buffer}
use chud_os.Console.{Screen, clear_screen}
use chud_os.Terminal.{Terminal}
use chud_os.Terminal.Bounds.{IsTerminal, IsClean, append_text-IsTerminal}
use chud_os.Terminal.Refresh.Rows.{draw_terminal_rows-Kept}
use chud_os.Terminal.Refresh.{
  start_drawing, refresh_terminal, refresh_from, refresh_terminals, virtual_print,
}

-- A well-formed terminal of 2000 characters without a backspace, which is not as wide as the fuel.
pub record Drawable (fuel : ℕ) (t : Terminal) : Type 0 where
  pub terminal : IsTerminal t
  pub size : length t.bytes ≡ 2000
  pub clean : IsClean t.bytes
  pub width : t.w < fuel

abbrev pub AllDrawable : ℕ → List Terminal → Type 0
AllDrawable fuel [] = Unit
AllDrawable fuel (t ∷ ts) = Drawable fuel t × AllDrawable fuel ts

refresh_terminal-Drawable :
    (fuel : ℕ) (t : Terminal) (s : Screen)
    → Drawable fuel t
    → (t' : Terminal) × (s' : Screen) × (refresh_terminal fuel t s ≡ some (t', s'))
      × Drawable fuel t'
unfolding refresh_terminal
refresh_terminal-Drawable fuel t s ok =
    let ok_t = ok.terminal in
    let (d, e, k) =
      draw_terminal_rows-Kept fuel t.h t.x t.w t.h 0 (start_drawing t s) ok.width
        (grind (arith, ok_t.window, ok.size))
        (record {
          size = ok.size;
          clean = ok.clean;
          position = ok_t.position;
          newline = omega arith;
          progress = omega arith;
        }) in
    (
      record t { bytes = d.bytes; last_pos = d.last_pos },
      d.screen,
      rw (refresh_terminal, e) refl,
      record {
        terminal = record {
          window = omega (arith, ok_t.window, ok.size, k.size);
          least = omega (arith, k.size);
          size = omega (arith, k.size);
          position = k.position;
        };
        size = k.size;
        clean = k.clean;
        width = ok.width;
      },
    )

drawn_or_not :
    (fuel : ℕ) (shown : Bool) (t : Terminal) (s : Screen)
    → Drawable fuel t
    → (t' : Terminal) × (s' : Screen) × ((if shown then refresh_terminal fuel t s else some (t, s))
        ≡ some (t', s'))
      × Drawable fuel t'
drawn_or_not fuel true t s ok = refresh_terminal-Drawable fuel t s ok
drawn_or_not fuel false t s ok = (t, s, refl, ok)

refresh_from-Drawable :
    (fuel : ℕ) (ts : List Terminal) (s : Screen)
    → AllDrawable fuel ts
    → (ts' : List Terminal) × (s' : Screen) × (refresh_from fuel ts s ≡ some (ts', s'))
      × AllDrawable fuel ts'
      × (length ts' ≡ length ts)
unfolding refresh_from
refresh_from-Drawable fuel [] s ok = ([], s, refl, tt, refl)
refresh_from-Drawable fuel (t ∷ ts) s ok =
    let (t', s', e, kept) = drawn_or_not fuel t.visible t s (ok.0) in
    let (ts', s'', e', kept', l) = refresh_from-Drawable fuel ts s' (ok.1) in
    (t' ∷ ts', s'', rw (refresh_from, e, e') refl, (kept, kept'), omega (arith, l))

lookup-Drawable :
    (fuel : ℕ) (ts : List Terminal) (tid : ℕ)
    → tid < length ts
    → AllDrawable fuel ts
    → (t : Terminal) × (get_elem? ts tid ≡ some t) × Drawable fuel t
lookup-Drawable fuel [] tid h ok = absurd (omega arith)
lookup-Drawable fuel (t ∷ ts) zero h ok = (t, refl, ok.0)
lookup-Drawable fuel (t ∷ ts) (suc tid) h ok = lookup-Drawable fuel ts tid (omega arith) (ok.1)

set-Drawable :
    (fuel : ℕ) (ts : List Terminal) (tid : ℕ) (t : Terminal)
    → Drawable fuel t
    → AllDrawable fuel ts
    → AllDrawable fuel (set ts tid t)
set-Drawable fuel [] tid t h ok = tt
set-Drawable fuel (x ∷ xs) zero t h ok = (h, ok.1)
set-Drawable fuel (x ∷ xs) (suc tid) t h ok = (ok.0, set-Drawable fuel xs tid t h (ok.1))

-- virtualprint of a text without a backspace returns, also from the drawing of all terminals that it ends with: where
-- every terminal is well-formed (its window is no larger than its 2000 characters of text, the place of the next
-- character is in the window or right behind it) and holds no backspace, the fuel is more than each
-- width, and the terminal exists, nothing is read or written outside of a terminal's text, and afterwards
-- every terminal is well-formed and without backspaces again.
pub virtual_print-Drawable :
    (fuel tid : ℕ) (src : Buffer) (ts : List Terminal) (s : Screen)
    → tid < length ts
    → IsClean src
    → AllDrawable fuel ts
    → (ts' : List Terminal) × (s' : Screen) × (virtual_print fuel tid src ts s ≡ some (ts', s'))
      × AllDrawable fuel ts'
      × (length ts' ≡ length ts)
unfolding virtual_print refresh_terminals
virtual_print-Drawable fuel tid src ts s there clean ok =
    let (t, found, ok_t) = lookup-Drawable fuel ts tid there ok in
    let (t', appended, kept, size, width, clean') = append_text-IsTerminal src t ok_t.terminal in
    let ready : Drawable fuel t' = record {
      terminal = kept;
      size = size ∙ ok_t.size;
      clean = clean' clean ok_t.clean;
      width = omega (arith, width, ok_t.width);
    } in
    let (ts', s', drawn, all, l) =
      refresh_from-Drawable fuel (set ts tid t') (clear_screen s)
        (set-Drawable fuel ts tid t' ready ok) in
    (ts', s', rw (virtual_print, found, appended) drawn, all, l ∙ length-set ts tid t')
