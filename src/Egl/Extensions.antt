-- ===== src/Egl/Extensions.antt =====
-- check_egl_ext of westfield-egl.c: strings are lists of characters, without the NUL.
use westfield.Prelude.{
  ℕ, zero, suc, ◌≤◌, ◌<◌, ◌≡◌, ◌↔◌, refl, ◌∙◌, sym, ap, inl, inr, Bool, true, false, ◌&&◌, ◌||◌,
  List, [], ◌∷◌, ◌++◌, All, length, ◌==◌, if◌then◌else◌, Bool-cases, arith,
}

abbrev pub space : ℕ
space = 32

-- The first `strcspn(exts, " ")` characters, and those that follow them.
unfoldable pub token : List ℕ → List ℕ
token [] = []
token (c ∷ cs) = let rest = token cs in if c == space then [] else c ∷ rest

unfoldable pub past_token : List ℕ → List ℕ
past_token [] = []
past_token (c ∷ cs) = let rest = past_token cs in if c == space then c ∷ cs else rest

-- `n == extlen && strncmp(ext, exts, n) == 0`
abbrev pub eq_string : List ℕ → List ℕ → Bool
eq_string [] [] = true
eq_string [] (y ∷ ys) = false
eq_string (x ∷ xs) [] = false
eq_string (x ∷ xs) (y ∷ ys) = x == y && eq_string xs ys

-- The loop, on fuel.
unfoldable pub check_egl_ext : ℕ → List ℕ → List ℕ → Bool
unfolding token past_token
check_egl_ext zero exts ext = false
check_egl_ext (suc fuel) [] ext = false
check_egl_ext (suc fuel) (c ∷ cs) ext =
    let skipped = check_egl_ext fuel cs ext in
    let past = check_egl_ext fuel (past_token (c ∷ cs)) ext in
    if c == space then skipped else if eq_string (token (c ∷ cs)) ext then true else past

-- Whether one of the tokens that start at the start of the string or after a space is `ext`; `start`
-- says whether this is such a place.
abbrev mentions : List ℕ → Bool → List ℕ → Bool
mentions ext start [] = false
mentions ext start (c ∷ cs) =
    if c == space
    then mentions ext true cs
    else (start && eq_string (token (c ∷ cs)) ext) || mentions ext false cs

mentions-past_token : (ext cs : List ℕ) → mentions ext false cs ≡ mentions ext true (past_token cs)
unfolding past_token
mentions-past_token ext [] = refl
mentions-past_token ext (c ∷ cs) = elim (Bool-cases (c == space)) [
  | inl e ↦ ground arith
  | inr e ↦ ground (arith, mentions-past_token ext cs)
]

length-past_token : (cs : List ℕ) → length (past_token cs) ≤ length cs
unfolding past_token
length-past_token [] = omega arith
length-past_token (c ∷ cs) = ground (arith, length-past_token cs)

-- The loop against the test on every place where a word can start.
check_egl_ext-mentions :
    (fuel : ℕ) (exts ext : List ℕ)
    → length exts ≤ fuel
    → check_egl_ext fuel exts ext ≡ mentions ext true exts
unfolding check_egl_ext
check_egl_ext-mentions zero [] ext h = refl
check_egl_ext-mentions zero (c ∷ cs) ext h = absurd (omega arith)
check_egl_ext-mentions (suc fuel) [] ext h = refl
check_egl_ext-mentions (suc fuel) (c ∷ cs) ext h = elim (Bool-cases (c == space)) [
  | inl e ↦ ground (arith, check_egl_ext-mentions fuel cs ext (omega arith))
  | inr e ↦
      let less : length (past_token cs) ≤ fuel = omega (arith, length-past_token cs) in
      let more = check_egl_ext-mentions fuel (past_token cs) ext less in
      let tail : check_egl_ext fuel (past_token cs) ext ≡ mentions ext false cs =
        more ∙ sym (mentions-past_token ext cs) in
      let past : past_token (c ∷ cs) ≡ past_token cs = unfold past_token in ground arith in
      let word : token (c ∷ cs) ≡ c ∷ token cs = unfold token in ground arith in
      elim (Bool-cases (eq_string (c ∷ token cs) ext)) [
        | inl t ↦ ground (arith, word, past, tail)
        | inr t ↦ ground (arith, word, past, tail)
      ]
]

pub eq_string-eq : (xs ys : List ℕ) → eq_string xs ys ≡ true → xs ≡ ys
eq_string-eq [] [] h = refl
eq_string-eq [] (y ∷ ys) h = ground arith
eq_string-eq (x ∷ xs) [] h = ground arith
eq_string-eq (x ∷ xs) (y ∷ ys) h = elim (Bool-cases (x == y)) [
  | inl e ↦
      let same : x ≡ y = ground arith in
      let rest : xs ≡ ys = eq_string-eq xs ys (ground arith) in cc
  | inr e ↦ absurd (ground arith)
]

pub eq_string_refl : (xs : List ℕ) → eq_string xs xs ≡ true
eq_string_refl [] = refl
eq_string_refl (x ∷ xs) = ground (arith, eq_string_refl xs)

-- Whether a word can start after these characters: at a place where one can if there are none, and
-- else if the last of them is a space.
abbrev pub CanStart : Bool → List ℕ → Type 0
CanStart start [] = start ≡ true
CanStart start (c ∷ []) = c ≡ space
CanStart start (c ∷ d ∷ cs) = CanStart start (d ∷ cs)

-- Whether a word can end before these characters.
abbrev pub CanEnd : List ℕ → Type 0
CanEnd [] = Unit {0}
CanEnd (c ∷ cs) = c ≡ space

abbrev pub IsSpaceless : List ℕ → Type 0
IsSpaceless = All (λ c. (c == space) ≡ false)

-- `word` stands in the string, between what comes `before` and `after` it, as a whole word: it is not
-- empty, it has no space, and on each side there is a space or the end of the string.
pub record HasWord (start : Bool) (exts word : List ℕ) : Type 0 where
  pub before : List ℕ
  pub after : List ℕ
  pub split : exts ≡ before ++ (word ++ after)
  pub starts : CanStart start before
  pub ends : CanEnd after
  pub spaceless : IsSpaceless word
  pub nonempty : 0 < length word

rest_of_token : (cs : List ℕ) → (after : List ℕ) × (cs ≡ token cs ++ after) × CanEnd after
unfolding token
rest_of_token [] = ([], refl, tt)
rest_of_token (c ∷ cs) = elim (Bool-cases (c == space)) [
  | inl e ↦ (c ∷ cs, ground arith, ground arith)
  | inr e ↦ let (after, split, ends) = rest_of_token cs in (after, ground arith, ends)
]

token-IsSpaceless : (cs : List ℕ) → IsSpaceless (token cs)
unfolding token
token-IsSpaceless [] = tt
token-IsSpaceless (c ∷ cs) = elim (Bool-cases (c == space)) [
  | inl e ↦ rw e tt
  | inr e ↦ rw e (e, token-IsSpaceless cs)
]

token-word : (word after : List ℕ) → IsSpaceless word → CanEnd after → token (word ++ after) ≡ word
unfolding token
token-word [] [] s e = refl
token-word [] (c ∷ cs) s e = ground arith
token-word (x ∷ xs) after s e = ground (arith, s.0, token-word xs after s.1 e)

-- For characters that there are, it does not matter what stood before them.
CanStart-switch : (a b : Bool) (c : ℕ) (cs : List ℕ) → CanStart a (c ∷ cs) → CanStart b (c ∷ cs)
CanStart-switch a b c [] s = s
CanStart-switch a b c (d ∷ cs) s = CanStart-switch a b d cs s

CanStart-cons :
    (c : ℕ) (start next : Bool) (cs : List ℕ)
    → (next ≡ true → c ≡ space)
    → CanStart next cs
    → CanStart start (c ∷ cs)
CanStart-cons c start next [] h s = h s
CanStart-cons c start next (d ∷ cs) h s = CanStart-switch next start d cs s

-- A word further on is one of the longer string.
later :
    (c : ℕ) (start next : Bool) (cs word : List ℕ)
    → (next ≡ true → c ≡ space)
    → HasWord next cs word
    → HasWord start (c ∷ cs) word
later c start next cs word h v = record {
  before = c ∷ v.before;
  after = v.after;
  split = ap (λ (l : List ℕ). c ∷ l) v.split;
  starts = CanStart-cons c start next v.before h v.starts;
  ends = v.ends;
  spaceless = v.spaceless;
  nonempty = v.nonempty;
}

mentions-HasWord :
    (word : List ℕ) (start : Bool) (cs : List ℕ)
    → mentions word start cs ≡ true
    → HasWord start cs word
mentions-HasWord word start [] h = absurd (ground arith)
mentions-HasWord word start (c ∷ cs) h = elim (Bool-cases (c == space)) [
  | inl e ↦
      later c start true cs word (λ q. ground arith) (mentions-HasWord word true cs (ground arith))
  | inr e ↦ elim (Bool-cases (start && eq_string (token (c ∷ cs)) word)) [
    | inr n ↦
        later c start false cs word (λ q. absurd (ground arith))
          (mentions-HasWord word false cs (ground arith))
    | inl n ↦
        let same : token (c ∷ cs) ≡ word = eq_string-eq (token (c ∷ cs)) word (ground arith) in
        let (after, split, ends) = rest_of_token (c ∷ cs) in
        let first : token (c ∷ cs) ≡ c ∷ token cs = unfold token in ground arith in
        rw (← same) (record {
          before = [];
          after = after;
          split = split;
          starts = ground arith;
          ends = ends;
          spaceless = token-IsSpaceless (c ∷ cs);
          nonempty = rw first (omega arith);
        })
  ]
]

CanStart-tail :
    (c : ℕ) (start : Bool) (cs : List ℕ) → CanStart start (c ∷ cs) → CanStart (c == space) cs
CanStart-tail c start [] s = ground arith
CanStart-tail c start (d ∷ cs) s = CanStart-switch start (c == space) d cs s

HasWord-mentions :
    (word : List ℕ) (start : Bool) (before after : List ℕ)
    → CanStart start before
    → CanEnd after
    → IsSpaceless word
    → 0 < length word
    → mentions word start (before ++ (word ++ after)) ≡ true
HasWord-mentions [] start [] after s e sp n = absurd (omega arith)
HasWord-mentions (x ∷ xs) start [] after s e sp n =
    let whole = token-word (x ∷ xs) after sp e in
    let found : eq_string (token (x ∷ (xs ++ after))) (x ∷ xs) ≡ true =
      rw whole (eq_string_refl (x ∷ xs)) in
    ground (arith, sp.0)
HasWord-mentions word start (c ∷ cs) after s e sp n =
    let rest = HasWord-mentions word (c == space) cs after (CanStart-tail c start cs s) e sp n in
    elim (Bool-cases (c == space)) [ inl q ↦ ground arith | inr q ↦ ground arith ]

-- check_egl_ext finds an extension exactly if it is a whole word of the string, between spaces or the
-- ends of the string, and as many rounds as the string has characters are enough.
pub check_egl_ext_lem :
    (fuel : ℕ) (exts ext : List ℕ)
    → length exts ≤ fuel
    → (check_egl_ext fuel exts ext ≡ true) ↔ HasWord true exts ext
check_egl_ext_lem fuel exts ext h =
    let same = check_egl_ext-mentions fuel exts ext h in
    (
      (λ found. mentions-HasWord ext true exts (sym same ∙ found)),
      (λ v.
          let all =
            HasWord-mentions ext true v.before v.after v.starts v.ends v.spaceless v.nonempty in
          same ∙ rw v.split all),
    )
