-- ===== src/Fuse/Attributes/Protocol.antt =====
-- The buffers of `getxattr` and `listxattr` (main.cxx).
use prodosfs.Base.{
  ℕ, zero, suc, ◌+◌, ◌-◌, ◌≤◌, ◌<◌, ◌≡◌, refl, ◌∙◌, ap, ◌⊎◌, inl, inr, List, [], ◌∷◌, ◌++◌, length,
  length-append, All, ◌≢◌, arith, ltb, ltb→lt, true, Bool-cases,
}
use mathlib.Core.Path.{ap₂}
use mathlib.Core.List.{append_assoc, append-nil}
use prodosfs.Base.Text.{c_str}
use prodosfs.Fuse.Errors.{success, failure, erange}
use prodosfs.Fuse.Attributes.{c_string, list_names}

-- The room that names take, each with its zero byte, and the bytes that they take it with.
abbrev pub room : List (List ℕ) → ℕ
room [] = 0
room (name ∷ names) = length name + 1 + room names

abbrev pub joined : List (List ℕ) → List ℕ
joined [] = []
joined (name ∷ names) = c_string name ++ joined names

-- A text without zero bytes.
abbrev pub IsText : List ℕ → Type 0
IsText = All (λ c. c ≢ 0)

c_str-IsText : (text : List ℕ) → IsText text → c_str text ≡ text
c_str-IsText [] p = refl
c_str-IsText (zero ∷ cs) p = absurd (p.0 refl)
c_str-IsText (suc c ∷ cs) p = ap (λ t. suc c ∷ t) (c_str-IsText cs p.1)

length-c_string : (text : List ℕ) → IsText text → length (c_string text) ≡ length text + 1
length-c_string text p =
    length-append (c_str text) (0 ∷ []) ∙ ap (λ t. length t + 1) (c_str-IsText text p)

length-joined : (names : List (List ℕ)) → All IsText names → length (joined names) ≡ room names
length-joined [] p = refl
length-joined (name ∷ names) p =
    length-append (c_string name) (joined names)
    ∙ omega (arith, length-c_string name p.0, length-joined names p.1)

list_names_asked :
    (names : List (List ℕ)) (written : List ℕ) (remaining total : ℕ)
    → list_names 0 names written remaining total ≡ (success (total + room names), written)
unfolding list_names
list_names_asked [] written remaining total = ap (λ n. (success n, written)) (omega arith)
list_names_asked (name ∷ names) written remaining total =
    list_names_asked names written remaining (total + (length name + 1))
    ∙ ap (λ n. (success n, written)) (omega arith)

list_names_roomy :
    (size : ℕ) (names : List (List ℕ)) (written : List ℕ) (remaining total : ℕ)
    → 0 < size
    → room names ≤ remaining
    → list_names size names written remaining total
      ≡ (success (total + room names), written ++ joined names)
unfolding list_names
list_names_roomy size [] written remaining total lt le =
    rw (append-nil written) (ap (λ n. (success n, written)) (omega arith))
list_names_roomy size (name ∷ names) written remaining total lt le =
    let fits : ltb (length name) remaining ≡ true = ground arith in
    let asked : ltb 0 size ≡ true = ground arith in
    rw (asked, fits)
      (list_names_roomy size names (written ++ c_string name) (remaining - (length name + 1))
          (total + (length name + 1)) lt (omega arith)
        ∙ ap₂ (λ n t. (success n, t)) (omega arith)
            (append_assoc written (c_string name) (joined names)))

-- A buffer that is too small ends in the error, and never takes more bytes than it has.
list_names_tight :
    (size : ℕ) (names : List (List ℕ)) (written : List ℕ) (remaining total : ℕ)
    → All IsText names
    → 0 < size
    → length written + remaining ≡ size
    → remaining < room names
    → (bytes : List ℕ) × (list_names size names written remaining total ≡ (failure erange, bytes))
      × (length bytes ≤ size)
unfolding list_names
list_names_tight size [] written remaining total p lt e small = absurd (omega arith)
list_names_tight size (name ∷ names) written remaining total p lt e small =
    let asked : ltb 0 size ≡ true = ground arith in
    elim (Bool-cases (ltb (length name) remaining)) [
      | inr stops ↦ (written, rw (asked, stops), omega arith)
      | inl fits ↦
          let (bytes, eq, le) =
            list_names_tight size names (written ++ c_string name) (remaining - (length name + 1))
              (total + (length name + 1)) p.1 lt
              (omega (
                arith,
                length-append written (c_string name),
                length-c_string name p.0,
                ltb→lt _ _ fits,
              ))
              (omega (arith, ltb→lt _ _ fits)) in
          (bytes, rw (asked, fits) eq, le)
    ]

-- `listxattr` keeps to its protocol, for names without zero bytes and a size above
-- 0. Asked with a size of 0 it answers with
-- the room that all names take and writes nothing. With a buffer that has that room it gives the same
-- answer, and writes the names in order, each with a zero byte behind it, which takes just that room.
-- With a smaller buffer it answers `ERANGE`, and has not written more bytes than the buffer has.
pub list_names_protocol :
    (size : ℕ) (names : List (List ℕ))
    → All IsText names
    → 0 < size
    → (list_names 0 names [] 0 0 ≡ (success (room names), []))
      × (length (joined names) ≡ room names)
      × (((room names ≤ size)
            × (list_names size names [] size 0 ≡ (success (room names), joined names)))
          ⊎ ((bytes : List ℕ) × (size < room names)
              × (list_names size names [] size 0 ≡ (failure erange, bytes))
              × (length bytes ≤ size)))
list_names_protocol size names p lt = (
  list_names_asked names [] 0 0 ∙ ap (λ n. (success n, [])) (omega arith),
  length-joined names p,
  elim (Bool-cases (ltb size (room names))) [
    | inl small ↦
        let (bytes, refused, le) =
          list_names_tight size names [] size 0 p lt (omega arith) (ltb→lt _ _ small) in
        inr (bytes, ltb→lt _ _ small, refused, le)
    | inr fits ↦
        let le : room names ≤ size = ground (arith, fits) in
        inl (
          le,
          list_names_roomy size names [] size 0 lt le
              ∙ ap (λ n. (success n, joined names)) (omega arith),
        )
  ],
)
