-- ===== src/Tasks/Arguments/Layout.antt =====
-- Where the arguments of a task are.
use chud_os.Base.{
  ℕ, zero, suc, ◌+◌, ◌*◌, ◌^◌, ◌≤◌, ◌<◌, ◌≡◌, refl, sym, ap, ◌∙◌, arith, List, [], ◌∷◌, ◌++◌,
  length, length-append, get_or, update, update_self, update_ne,
}
use chud_os.Base.Words.{sub64}
use chud_os.Tasks.Bytes.{load64, store64, load64-store64, load64_eq, store64_outside}
use chud_os.Tasks.Arguments.{Stack, push_chars, push_strings, push_words, push_arguments}

-- What a push of `size` bytes does to the stack: it moves down by them, and nothing from its old top on changes.
pub record IsPush (size : ℕ) (before after : Stack) : Type 0 where
  pub top : after.0 + size ≡ before.0
  pub above : (p : ℕ) → before.0 ≤ p → p < 2 ^ 64 → after.1 p ≡ before.1 p

chars_step :
    (c : ℕ) (cs : List ℕ) (sp : ℕ) (bytes : ℕ → ℕ)
    → 1 ≤ sp
    → sp < 2 ^ 64
    → ((j : ℕ) → j < length cs → bytes (sp + j) ≡ get_or cs j 0)
    → (i : ℕ) → i < suc (length cs)
    → update bytes (sub64 sp 1) c (sub64 sp 1 + i) ≡ get_or (c ∷ cs) i 0
chars_step c cs sp bytes room small chars zero h =
    ap (update bytes (sub64 sp 1) c) (omega arith) ∙ update_self bytes (sub64 sp 1) c
chars_step c cs sp bytes room small chars (suc i) h =
    update_ne bytes (sub64 sp 1) c (sub64 sp 1 + suc i) (omega arith)
    ∙ ap bytes (omega arith)
    ∙ chars i (omega arith)

words_step :
    (v : ℕ) (vs : List ℕ) (sp : ℕ) (bytes : ℕ → ℕ)
    → 8 ≤ sp
    → sp < 2 ^ 64
    → v < 2 ^ 64
    → sp + 8 * length vs < 2 ^ 64
    → ((j : ℕ) → j < length vs → load64 (sp + 8 * j) bytes ≡ get_or vs j 0)
    → (i : ℕ) → i < suc (length vs)
    → load64 (sub64 sp 8 + 8 * i) (store64 (sub64 sp 8) v bytes) ≡ get_or (v ∷ vs) i 0
words_step v vs sp bytes room small hv fits loads zero h =
    ap (λ a. load64 a (store64 (sub64 sp 8) v bytes)) (omega arith)
    ∙ load64-store64 (sub64 sp 8) v bytes (omega arith) hv
words_step v vs sp bytes room small hv fits loads (suc i) h =
    ap (λ a. load64 a (store64 (sub64 sp 8) v bytes)) (omega arith)
    ∙ load64_eq (sp + 8 * i) (store64 (sub64 sp 8) v bytes) bytes (omega arith) (λ p lo hi.
      store64_outside (sub64 sp 8) v p bytes (omega arith) (omega arith) (omega arith))
    ∙ loads i (omega arith)

push_chars-IsPush :
    (cs : List ℕ) (st : Stack)
    → length cs ≤ st.0
    → st.0 < 2 ^ 64
    → IsPush (length cs) st (push_chars cs st)
      × ((i : ℕ) → i < length cs → (push_chars cs st).1 ((push_chars cs st).0 + i) ≡ get_or cs i 0)
unfolding push_chars
push_chars-IsPush [] st room small =
    (record { top = omega arith; above = λ p lo hi. refl }, λ i h. absurd (omega arith))
push_chars-IsPush (c ∷ cs) st room small =
    let (push, chars) = push_chars-IsPush cs st (omega arith) small in
    let below = push_chars cs st in
    let top : sub64 below.0 1 + 1 ≡ below.0 = omega (arith, push.top) in
    (
      record {
        top = omega (arith, push.top, top);
        above = λ p lo hi.
            update_ne below.1 (sub64 below.0 1) c p (omega (arith, push.top, top))
            ∙ push.above p lo hi;
      },
      chars_step c cs below.0 below.1 (omega (arith, push.top)) (omega (arith, push.top)) chars,
    )

push_words-IsPush :
    (vs : List ℕ) (st : Stack)
    → 8 * length vs ≤ st.0
    → st.0 < 2 ^ 64
    → ((i : ℕ) → i < length vs → get_or vs i 0 < 2 ^ 64)
    → IsPush (8 * length vs) st (push_words vs st)
      × ((i : ℕ)
          → i < length vs
          → load64 ((push_words vs st).0 + 8 * i) ((push_words vs st).1) ≡ get_or vs i 0)
unfolding push_words
push_words-IsPush [] st room small words =
    (record { top = omega arith; above = λ p lo hi. refl }, λ i h. absurd (omega arith))
push_words-IsPush (v ∷ vs) st room small words =
    let (push, loads) =
      push_words-IsPush vs st (omega arith) small (λ i h. words (suc i) (omega arith)) in
    let below = push_words vs st in
    let top : sub64 below.0 8 + 8 ≡ below.0 = omega (arith, push.top) in
    (
      record {
        top = omega (arith, push.top, top);
        above = λ p lo hi.
            store64_outside (sub64 below.0 8) v p below.1 (omega (arith, push.top, top)) hi
              (omega (arith, push.top, top))
            ∙ push.above p lo hi;
      },
      words_step v vs below.0 below.1 (omega (arith, push.top)) (omega (arith, push.top))
          (words 0 (omega arith)) (omega (arith, push.top)) loads,
    )

-- The room that the strings take.
abbrev pub size_of : List (List ℕ) → ℕ
size_of [] = 0
size_of (s ∷ ss) = suc (length s) + size_of ss

-- The strings, with their terminators, are at these addresses, which are not below `low`.
abbrev pub AreAt : ℕ → List ℕ → List (List ℕ) → (ℕ → ℕ) → Type 0
AreAt low [] [] bytes = Unit
AreAt low [] (s ∷ ss) bytes = ⊥
AreAt low (p ∷ ps) [] bytes = ⊥
AreAt low (p ∷ ps) (s ∷ ss) bytes =
    (low ≤ p)
    × (p + suc (length s) ≤ 2 ^ 64)
    × ((i : ℕ) → i < suc (length s) → bytes (p + i) ≡ get_or (s ++ 0 ∷ []) i 0)
    × AreAt low ps ss bytes

AreAt-below :
    (low low' : ℕ) (ps : List ℕ) (ss : List (List ℕ)) (bytes bytes' : ℕ → ℕ)
    → low' ≤ low
    → ((p : ℕ) → low ≤ p → p < 2 ^ 64 → bytes' p ≡ bytes p)
    → AreAt low ps ss bytes
    → AreAt low' ps ss bytes'
AreAt-below low low' [] [] bytes bytes' le same at = tt
AreAt-below low low' [] (s ∷ ss) bytes bytes' le same at = at
AreAt-below low low' (p ∷ ps) [] bytes bytes' le same at = at
AreAt-below low low' (p ∷ ps) (s ∷ ss) bytes bytes' le same (above, fits, chars, rest) = (
  omega arith,
  fits,
  (λ i h. same (p + i) (omega arith) (omega arith) ∙ chars i h),
  AreAt-below low low' ps ss bytes bytes' le same rest,
)

AreAt-length :
    (low : ℕ) (ps : List ℕ) (ss : List (List ℕ)) (bytes : ℕ → ℕ)
    → AreAt low ps ss bytes
    → length ps ≡ length ss
AreAt-length low [] [] bytes at = refl
AreAt-length low [] (s ∷ ss) bytes at = absurd at
AreAt-length low (p ∷ ps) [] bytes at = absurd at
AreAt-length low (p ∷ ps) (s ∷ ss) bytes (above, fits, chars, rest) =
    ap suc (AreAt-length low ps ss bytes rest)

AreAt-small :
    (low : ℕ) (ps : List ℕ) (ss : List (List ℕ)) (bytes : ℕ → ℕ)
    → AreAt low ps ss bytes
    → (i : ℕ) → get_or (ps ++ 0 ∷ []) i 0 < 2 ^ 64
AreAt-small low [] [] bytes at zero = omega arith
AreAt-small low [] [] bytes at (suc i) = omega arith
AreAt-small low [] (s ∷ ss) bytes at i = absurd at
AreAt-small low (p ∷ ps) [] bytes at i = absurd at
AreAt-small low (p ∷ ps) (s ∷ ss) bytes (above, fits, chars, rest) zero = omega arith
AreAt-small low (p ∷ ps) (s ∷ ss) bytes (above, fits, chars, rest) (suc i) =
    AreAt-small low ps ss bytes rest i

push_strings-AreAt :
    (argv : List (List ℕ)) (st : Stack)
    → size_of argv ≤ st.0
    → st.0 < 2 ^ 64
    → IsPush (size_of argv) st ((push_strings argv st).1)
      × AreAt
          ((push_strings argv st).1.0)
          ((push_strings argv st).0)
          argv
          ((push_strings argv st).1.1)
unfolding push_strings
push_strings-AreAt [] st room small = (record { top = omega arith; above = λ p lo hi. refl }, tt)
push_strings-AreAt (s ∷ ss) st room small =
    let (push, at) = push_strings-AreAt ss st (omega arith) small in
    let below = (push_strings ss st).1 in
    let size : length (s ++ 0 ∷ []) ≡ suc (length s) = omega (arith, length-append s (0 ∷ [])) in
    let (push', chars) =
      push_chars-IsPush (s ++ 0 ∷ []) below (omega (arith, size, push.top))
        (omega (arith, push.top)) in
    (
      record {
        top = omega (arith, push.top, push'.top, size);
        above = λ p lo hi. push'.above p (omega (arith, push.top)) hi ∙ push.above p lo hi;
      },
      (
        omega arith,
        omega (arith, push.top, push'.top, size),
        (λ i h. chars i (omega (arith, size))),
        AreAt-below below.0 _ _ ss below.1 _ (omega (arith, push'.top)) push'.above at,
      ),
    )

words_small :
    (v : ℕ) (vs : List ℕ) (i : ℕ)
    → v < 2 ^ 64
    → ((j : ℕ) → get_or vs j 0 < 2 ^ 64)
    → get_or (v ∷ vs) i 0 < 2 ^ 64
words_small v vs zero hv small = hv
words_small v vs (suc i) hv small = small i

get_or-append_first :
    (xs : List ℕ) (i : ℕ) → i < length xs → get_or (xs ++ 0 ∷ []) i 0 ≡ get_or xs i 0
get_or-append_first [] i h = absurd (omega arith)
get_or-append_first (x ∷ xs) zero h = refl
get_or-append_first (x ∷ xs) (suc i) h = get_or-append_first xs i (omega arith)

get_or-append_last : (xs : List ℕ) → get_or (xs ++ 0 ∷ []) (length xs) 0 ≡ 0
get_or-append_last [] = refl
get_or-append_last (x ∷ xs) = get_or-append_last xs

-- The arguments that SetupTaskStack puts on a stack with room for them: at the new stack pointer there is their
-- number, behind it a pointer for each, then a null pointer; each pointer is the address of that argument's
-- characters with their terminator; and nothing from the old stack pointer on changes.
pub push_arguments-layout :
    (argv : List (List ℕ)) (sp : ℕ) (bytes : ℕ → ℕ)
    → size_of argv + 8 * (length argv + 2) ≤ sp
    → sp < 2 ^ 64
    → (pointers : List ℕ) × (top : ℕ) × (after : ℕ → ℕ) × (push_arguments argv (sp, bytes)
        ≡ (top, after))
      × (top + (size_of argv + 8 * (length argv + 2)) ≡ sp)
      × (load64 top after ≡ length argv)
      × ((i : ℕ) → i < length argv → load64 (top + 8 * suc i) after ≡ get_or pointers i 0)
      × (load64 (top + 8 * suc (length argv)) after ≡ 0)
      × AreAt top pointers argv after
      × ((p : ℕ) → sp ≤ p → p < 2 ^ 64 → after p ≡ bytes p)
unfolding push_arguments
push_arguments-layout argv sp bytes room small =
    let (push, at) = push_strings-AreAt argv (sp, bytes) (omega arith) small in
    let pointers = (push_strings argv (sp, bytes)).0 in
    let below = (push_strings argv (sp, bytes)).1 in
    let words = length argv ∷ (pointers ++ 0 ∷ []) in
    let count = AreAt-length below.0 pointers argv below.1 at in
    let size : length words ≡ length argv + 2 =
      omega (arith, count, length-append pointers (0 ∷ [])) in
    let (push', loads) =
      push_words-IsPush words below (omega (arith, size, push.top)) (omega (arith, push.top))
        (λ i h.
          words_small (length argv) (pointers ++ 0 ∷ []) i (omega arith)
            (AreAt-small below.0 pointers argv below.1 at)) in
    (
      pointers,
      (push_words words below).0,
      (push_words words below).1,
      refl,
      omega (arith, push.top, push'.top, size),
      ap (λ a. load64 a ((push_words words below).1)) (omega arith) ∙ loads 0 (omega arith),
      (λ i h.
          loads (suc i) (omega (arith, size))
          ∙ get_or-append_first pointers i (omega (arith, count))),
      loads (suc (length argv)) (omega (arith, size))
          ∙ ap (λ n. get_or (pointers ++ 0 ∷ []) n 0) (sym count)
          ∙ get_or-append_last pointers,
      AreAt-below below.0 _ pointers argv below.1 _ (omega (arith, push'.top)) push'.above at,
      (λ p lo hi. push'.above p (omega (arith, push.top)) hi ∙ push.above p lo hi),
    )
