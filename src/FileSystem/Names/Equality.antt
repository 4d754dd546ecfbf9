-- ===== src/FileSystem/Names/Equality.antt =====
-- GemFS_Names_Equal compares strings.
use chud_os.Base.{
  ℕ, zero, suc, ◌+◌, ◌≤◌, ◌<◌, ◌==◌, ==_iff, ◌≡◌, ◌≢◌, ◌↔◌, refl, sym, ap, ◌∙◌, arith, inl, inr,
  if◌then◌else◌, true, Bool-cases, List, [], ◌∷◌, length, get_or, get_or_ext,
}
use mathlib.Core.Path.{subst}
use chud_os.Console.{calculate_string_length}
use chud_os.FileSystem.Names.{names_equal_from, names_equal}

-- The characters before the terminator.
abbrev pub string : List ℕ → List ℕ
string [] = []
string (c ∷ cs) = let rest = string cs in if c == 0 then [] else c ∷ rest

length-string : (name : List ℕ) → calculate_string_length name ≡ length (string name)
unfolding calculate_string_length
length-string [] = refl
length-string (c ∷ cs) = elim (Bool-cases (c == 0)) [
  | inl e ↦ rw e refl
  | inr e ↦ rw e (ap suc (length-string cs))
]

get_or-string :
    (name : List ℕ) (i : ℕ)
    → i < length (string name)
    → (get_or (string name) i 0 ≡ get_or name i 0) × (get_or name i 0 ≢ 0)
get_or-string [] i h = absurd (omega arith)
get_or-string (c ∷ cs) zero h = elim (Bool-cases (c == 0)) [
  | inl e ↦ absurd (
      let h' : 0 < 0 = subst (λ b. 0 < length (if b then [] else c ∷ string cs)) e h in
      omega (arith, h'))
  | inr e ↦ (rw e refl, λ z. ground arith)
]
get_or-string (c ∷ cs) (suc i) h = elim (Bool-cases (c == 0)) [
  | inl e ↦ absurd (
      let h' : suc i < 0 = subst (λ b. suc i < length (if b then [] else c ∷ string cs)) e h in
      omega (arith, h'))
  | inr e ↦
      let h' : suc i < suc (length (string cs)) =
        subst (λ b. suc i < length (if b then [] else c ∷ string cs)) e h in
      let (same, nonzero) = get_or-string cs i (omega (arith, h')) in (rw e same, nonzero)
]

names_equal_from-true :
    (rest i : ℕ) (a b : List ℕ)
    → ((j : ℕ) → i ≤ j → j < rest + i → get_or a j 0 ≡ get_or b j 0)
    → names_equal_from rest i a b ≡ true
unfolding names_equal_from
names_equal_from-true zero i a b same = refl
names_equal_from-true (suc rest) i a b same =
    let here = same i (omega arith) (omega arith) in
    let later =
      names_equal_from-true rest (suc i) a b (λ j lo hi. same j (omega arith) (omega arith)) in
    ground (arith, here, later)

names_equal_from-same :
    (rest i : ℕ) (a b : List ℕ)
    → ((j : ℕ) → i ≤ j → j < rest + i → get_or a j 0 ≢ 0)
    → names_equal_from rest i a b ≡ true
    → (j : ℕ) → i ≤ j
    → j < rest + i
    → get_or a j 0 ≡ get_or b j 0
unfolding names_equal_from
names_equal_from-same zero i a b nonzero run j lo hi = absurd (omega arith)
names_equal_from-same (suc rest) i a b nonzero run j lo hi =
    let at_i = nonzero i (omega arith) (omega arith) in
    let here : (get_or a i 0 ≡ get_or b i 0) × (names_equal_from rest (suc i) a b ≡ true) =
      ground arith in
    elim (Bool-cases (i == j)) [
      | inl e ↦ let this : i ≡ j = (==_iff i j).0 e in rw (← this) here.0
      | inr ne ↦
          names_equal_from-same rest (suc i) a b
            (λ k lo' hi'. nonzero k (omega arith) (omega arith)) here.1 j (ground arith)
            (omega arith)
    ]

-- Two names are equal for GemFS_Names_Equal, given their lengths, exactly where they are the same string.
pub names_equal-string :
    (a b : List ℕ)
    → (names_equal a b (calculate_string_length a) (calculate_string_length b) ≡ true)
      ↔ (string a ≡ string b)
unfolding names_equal
names_equal-string a b = (
  (λ run.
      let lengths : length (string a) ≡ length (string b) =
        ground (arith, length-string a, length-string b) in
      let run' : names_equal_from (length (string a)) 0 a b ≡ true =
        ground (arith, length-string a, length-string b) in
      get_or_ext (string a) (string b) 0 lengths (λ i hi.
        let (here_a, nonzero_a) = get_or-string a i hi in
        let (here_b, nonzero_b) = get_or-string b i (omega arith) in
        here_a
        ∙ names_equal_from-same (length (string a)) 0 a b
            (λ j lo hi'. (get_or-string a j (omega arith)).1) run' i (omega arith) (omega arith)
        ∙ sym here_b)),
  (λ e.
      let lengths = ap length e in
      let run = names_equal_from-true (length (string a)) 0 a b (λ j lo hi.
        sym ((get_or-string a j (omega arith)).0)
        ∙ ap (λ xs. get_or xs j 0) e
        ∙ (get_or-string b j (omega arith)).0) in
      ground (arith, length-string a, length-string b, lengths, run)),
)
