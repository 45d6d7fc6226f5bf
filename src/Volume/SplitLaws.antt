-- ===== src/Volume/SplitLaws.antt =====
-- What `S_SplitPath` (source/volume.cxx) makes of a path, by its number of components.
use mathlib.Core.Path.{ap₂}
use mathlib.Core.List.{append_assoc}
use prodosfs.Base.{
  ℕ, zero, suc, ◌+◌, ◌-◌, ◌≡◌, refl, ap, ◌∙◌, sym, none, some, List, [], ◌∷◌, ◌++◌, take, drop,
  length, ◌==◌, arith, Bool-cases, inl, inr, length-append, take-append,
}
use prodosfs.Volume.Paths.{find_char, substr_before, split_loop, split_path}

-- A component: it has no `/`.
abbrev pub IsPlain : List ℕ → Type 0
IsPlain name = find_char b'/' name ≡ none

find_char-append :
    (name rest : List ℕ) → IsPlain name → find_char b'/' (name ++ b'/' ∷ rest) ≡ some (length name)
find_char-append [] rest p = refl
find_char-append (c ∷ cs) rest p = elim (Bool-cases (c == b'/')) [
  | inl e ↦ ground arith
  | inr e ↦ rw (e, find_char-append cs rest (ground arith))
]

drop-append : (xs ys : List ℕ) (n : ℕ) → n ≡ length xs → drop n (xs ++ ys) ≡ ys
drop-append xs ys n e = rw e (go xs)
  where
    go : (zs : List ℕ) → drop (length zs) (zs ++ ys) ≡ ys
    go [] = refl
    go (z ∷ zs) = go zs

-- One round of the loop, at a component with others behind it.
split_loop_step :
    (before name rest : List ℕ) (fuel start : ℕ)
    → start ≡ length before
    → IsPlain name
    → split_loop (suc fuel) (before ++ (name ++ b'/' ∷ rest)) start
      ≡ substr_before (before ++ (name ++ b'/' ∷ rest)) start (start + length name)
        ∷ split_loop fuel (before ++ (name ++ b'/' ∷ rest)) (start + length name + 1)
unfolding split_loop
split_loop_step before name rest fuel start e p =
    rw (drop-append before (name ++ b'/' ∷ rest) start e, find_char-append name rest p, split_loop)
      (rw (drop-append before (name ++ b'/' ∷ rest) start e))

split_loop_last :
    (before name : List ℕ) (fuel start : ℕ)
    → start ≡ length before
    → IsPlain name
    → split_loop fuel (before ++ name) start ≡ name ∷ []
unfolding split_loop
split_loop_last before name zero start e p = rw (drop-append before name start e)
split_loop_last before name (suc fuel) start e p =
    rw (drop-append before name start e, p, split_loop) (rw (drop-append before name start e))

take-append_past :
    (xs ys : List ℕ) (x n k : ℕ)
    → n ≡ length xs + k + 1
    → take n (xs ++ x ∷ ys) ≡ xs ++ x ∷ take k ys
take-append_past xs ys x n k e = rw e (go xs)
  where
    go : (zs : List ℕ) → take (length zs + k + 1) (zs ++ x ∷ ys) ≡ zs ++ x ∷ take k ys
    go [] = let e' : 0 + k + 1 ≡ suc k = omega arith in rw e'
    go (z ∷ zs) =
        let e' : suc (length zs) + k + 1 ≡ suc (length zs + k + 1) = omega arith in
        rw e' (ap (λ t. z ∷ t) (go zs))

-- The component that is cut out: the count is that of the bytes before its end from the start of
-- the path, but for the first.
substr_before_cut :
    (before name rest : List ℕ) (start k : ℕ)
    → start ≡ length before
    → start ≡ k + 2
    → substr_before (before ++ (name ++ b'/' ∷ rest)) start (start + length name)
      ≡ name ++ b'/' ∷ take k rest
substr_before_cut before name rest start k e e' = ground (
  arith,
  drop-append before (name ++ b'/' ∷ rest) start e,
  take-append_past name rest b'/' (start + length name - 1) k,
)

-- A path of one component is that component.
split_path_one : (a : List ℕ) → IsPlain a → split_path (b'/' ∷ a) ≡ a ∷ []
unfolding split_path
split_path_one a p = split_loop_last (b'/' ∷ []) a (suc (length a)) 1 refl p

first_cut :
    (name rest : List ℕ) → substr_before (b'/' ∷ (name ++ b'/' ∷ rest)) 1 (1 + length name) ≡ name
first_cut name rest = ground (arith, take-append name (b'/' ∷ rest))

-- What the loop has passed once it is behind a component.
abbrev past_name : List ℕ → List ℕ
past_name name = name ++ b'/' ∷ []

abbrev past : List ℕ → List ℕ
past name = b'/' ∷ past_name name

past_first : (a rest : List ℕ) → b'/' ∷ (a ++ b'/' ∷ rest) ≡ past a ++ rest
past_first a rest = ap (λ t. b'/' ∷ t) (sym (append_assoc a (b'/' ∷ []) rest))

past_second : (a b rest : List ℕ) → past a ++ (b ++ b'/' ∷ rest) ≡ (past a ++ past_name b) ++ rest
past_second a b rest =
    ap (λ t. past a ++ t) (sym (append_assoc b (b'/' ∷ []) rest))
    ∙ sym (append_assoc (past a) (past_name b) rest)

length-past : (a : List ℕ) → 1 + length a + 1 ≡ length (past a)
length-past a = omega (arith, length-append a (b'/' ∷ []))

length-past_second :
    (a b : List ℕ) → 1 + length a + 1 + length b + 1 ≡ length (past a ++ past_name b)
length-past_second a b =
    omega (arith, length-append (past a) (past_name b), length-past a, length-append b (b'/' ∷ []))

-- A path of two components is split into them.
split_path_two :
    (a b : List ℕ) → IsPlain a → IsPlain b → split_path (b'/' ∷ (a ++ b'/' ∷ b)) ≡ a ∷ b ∷ []
unfolding split_path
split_path_two a b p q =
    split_loop_step (b'/' ∷ []) a b (length (a ++ b'/' ∷ b)) 1 refl p
    ∙ ap₂ ◌∷◌ (first_cut a b) last_component
  where
    last_component :
        split_loop (length (a ++ b'/' ∷ b)) (b'/' ∷ (a ++ b'/' ∷ b)) (1 + length a + 1) ≡ b ∷ []
    last_component =
        ap (λ t. split_loop (length (a ++ b'/' ∷ b)) t (1 + length a + 1)) (past_first a b)
        ∙ split_loop_last (past a) b _ (1 + length a + 1) (length-past a) q

-- With a third component the second is cut too late: it keeps its slash, and as many bytes of what
-- follows as the first component has.
pub split_path_three :
    (a b c : List ℕ)
    → IsPlain a
    → IsPlain b
    → IsPlain c
    → split_path (b'/' ∷ (a ++ b'/' ∷ (b ++ b'/' ∷ c)))
      ≡ a ∷ (b ++ b'/' ∷ take (length a) c) ∷ c ∷ []
unfolding split_path
split_path_three a b c p q r =
    split_loop_step (b'/' ∷ []) a (b ++ b'/' ∷ c) (length (a ++ b'/' ∷ (b ++ b'/' ∷ c))) 1 refl p
    ∙ ap₂ ◌∷◌ (first_cut a (b ++ b'/' ∷ c)) (fuel_of (length-append a (b'/' ∷ (b ++ b'/' ∷ c))))
  where
    tail_of : ℕ → List (List ℕ)
    tail_of n = split_loop n (b'/' ∷ (a ++ b'/' ∷ (b ++ b'/' ∷ c))) (1 + length a + 1)

    last_two : (n : ℕ) → tail_of (suc n) ≡ (b ++ b'/' ∷ take (length a) c) ∷ c ∷ []
    last_two n =
        ap (λ t. split_loop (suc n) t (1 + length a + 1)) (past_first a (b ++ b'/' ∷ c))
        ∙ split_loop_step (past a) b c n (1 + length a + 1) (length-past a) q
        ∙ ap₂ ◌∷◌
            (substr_before_cut (past a) b c (1 + length a + 1) (length a) (length-past a)
              (omega arith))
            (ap (λ t. split_loop n t (1 + length a + 1 + length b + 1)) (past_second a b c)
              ∙ split_loop_last (past a ++ past_name b) c n (1 + length a + 1 + length b + 1)
                  (length-past_second a b) r)

    fuel_of :
        length (a ++ b'/' ∷ (b ++ b'/' ∷ c)) ≡ length a + suc (length (b ++ b'/' ∷ c))
        → tail_of (length (a ++ b'/' ∷ (b ++ b'/' ∷ c))) ≡ (b ++ b'/' ∷ take (length a) c) ∷ c ∷ []
    fuel_of e =
        let e' : length (a ++ b'/' ∷ (b ++ b'/' ∷ c)) ≡ suc (length a + length (b ++ b'/' ∷ c)) =
          omega arith in
        ap tail_of e' ∙ last_two _

-- An absolute path of one or two components, and these components.
pub data Spells : List ℕ → List (List ℕ) → Type 0 where
  one_name : {a : List ℕ} → IsPlain a → Spells (b'/' ∷ a) (a ∷ [])
  two_names : {a b : List ℕ} → IsPlain a → IsPlain b → Spells (b'/' ∷ (a ++ b'/' ∷ b)) (a ∷ b ∷ [])

pub split_path-Spells :
    {path : List ℕ} {names : List (List ℕ)} → Spells path names → split_path path ≡ names
split_path-Spells (one_name {a} p) = split_path_one a p
split_path-Spells (two_names {a} {b} p q) = split_path_two a b p q
