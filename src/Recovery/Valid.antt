-- ===== src/Recovery/Valid.antt =====
-- A recovery code that mfa.py generates has the form that it accepts.
use identity_python.Base.{
  ℕ, zero, suc, ◌-◌, ◌≤◌, ◌≡◌, refl, arith, ap, Bool, true, false, [], ◌∷◌, ◌++◌, ◌==◌, ◌&&◌,
  length, take, drop, length-append,
}
use identity_python.Base.Text.{Str}
use identity_python.Recovery.{
  recovery_alphabet, has_char, generate_recovery_code, split, all_in_alphabet, all_groups,
  is_valid_recovery_code,
}

has_char-dash : (c : ℕ) → has_char c recovery_alphabet ≡ true → (c == b'-') ≡ false
unfolding has_char
has_char-dash c e = ground arith

and_true : (a b : Bool) → (a && b) ≡ true → (a ≡ true) × (b ≡ true)
and_true true b e = (refl, e)
and_true false b e = absurd (ground arith)

and_intro : (a b : Bool) → a ≡ true → b ≡ true → (a && b) ≡ true
and_intro a b p q = rw (p, q) refl

all_in_alphabet-first :
    (c : ℕ) (cs : Str)
    → all_in_alphabet (c ∷ cs) ≡ true
    → ((c == b'-') ≡ false) × (all_in_alphabet cs ≡ true)
unfolding all_in_alphabet
all_in_alphabet-first c cs e =
    let (p, q) = and_true (has_char c recovery_alphabet) (all_in_alphabet cs) e in
    (has_char-dash c p, q)

split_part :
    (part rest : Str)
    → all_in_alphabet part ≡ true
    → split b'-' (part ++ (b'-' ∷ rest)) ≡ part ∷ split b'-' rest
unfolding split
split_part [] rest e = refl
split_part (c ∷ cs) rest e =
    let (p, q) = all_in_alphabet-first c cs e in rw (p, split_part cs rest q) refl

split_last : (part : Str) → all_in_alphabet part ≡ true → split b'-' part ≡ part ∷ []
unfolding split
split_last [] e = refl
split_last (c ∷ cs) e = let (p, q) = all_in_alphabet-first c cs e in rw (p, split_last cs q) refl

all_in_alphabet-take :
    (n : ℕ) (s : Str) → all_in_alphabet s ≡ true → all_in_alphabet (take n s) ≡ true
unfolding all_in_alphabet
all_in_alphabet-take zero s e = refl
all_in_alphabet-take (suc n) [] e = refl
all_in_alphabet-take (suc n) (c ∷ cs) e =
    let (p, q) = and_true (has_char c recovery_alphabet) (all_in_alphabet cs) e in
    and_intro (has_char c recovery_alphabet) (all_in_alphabet (take n cs)) p
      (all_in_alphabet-take n cs q)

all_in_alphabet-drop :
    (n : ℕ) (s : Str) → all_in_alphabet s ≡ true → all_in_alphabet (drop n s) ≡ true
unfolding all_in_alphabet
all_in_alphabet-drop zero s e = e
all_in_alphabet-drop (suc n) [] e = refl
all_in_alphabet-drop (suc n) (c ∷ cs) e =
    all_in_alphabet-drop n cs (and_true (has_char c recovery_alphabet) (all_in_alphabet cs) e).1

length-take : (n : ℕ) (s : Str) → n ≤ length s → length (take n s) ≡ n
length-take zero s e = refl
length-take (suc n) [] e = absurd (omega (arith, e))
length-take (suc n) (c ∷ cs) e = ap suc (length-take n cs (omega (arith, e)))

length-drop : (n : ℕ) (s : Str) → length (drop n s) ≡ length s - n
length-drop zero s = omega arith
length-drop (suc n) [] = omega arith
length-drop (suc n) (c ∷ cs) = omega (arith, length-drop n cs)

is_valid_parts :
    (a b c : Str)
    → length a ≡ 4
    → length b ≡ 4
    → length c ≡ 4
    → all_in_alphabet a ≡ true
    → all_in_alphabet b ≡ true
    → all_in_alphabet c ≡ true
    → is_valid_recovery_code (a ++ (b'-' ∷ (b ++ (b'-' ∷ c)))) ≡ true
unfolding is_valid_recovery_code all_groups
is_valid_parts a b c la lb lc ia ib ic = ground (
  arith,
  split_part a (b ++ (b'-' ∷ c)) ia,
  split_part b c ib,
  split_last c ic,
  length-append a (b'-' ∷ (b ++ (b'-' ∷ c))),
  length-append b (b'-' ∷ c),
)

-- Twelve characters of the alphabet give a code that is valid.
pub is_valid-generate_recovery_code :
    (chars : Str)
    → length chars ≡ 12
    → all_in_alphabet chars ≡ true
    → is_valid_recovery_code (generate_recovery_code chars) ≡ true
unfolding generate_recovery_code
is_valid-generate_recovery_code chars twelve valid =
    is_valid_parts (take 4 chars) (take 4 (drop 4 chars)) (take 4 (drop 8 chars))
      (length-take 4 chars (omega (arith, twelve)))
      (length-take 4 (drop 4 chars) (omega (arith, twelve, length-drop 4 chars)))
      (length-take 4 (drop 8 chars) (omega (arith, twelve, length-drop 8 chars)))
      (all_in_alphabet-take 4 chars valid)
      (all_in_alphabet-take 4 (drop 4 chars) (all_in_alphabet-drop 4 chars valid))
      (all_in_alphabet-take 4 (drop 8 chars) (all_in_alphabet-drop 8 chars valid))
