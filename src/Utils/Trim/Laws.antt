-- ===== src/Utils/Trim/Laws.antt =====
-- Trimming removes the blanks at both ends and nothing else.
use frag.Prelude.{
  ℕ, suc, ◌+◌, ◌-◌, ◌<◌, ◌≡◌, ◌⊎◌, inl, inr, refl, sym, ap, ◌∙◌, true, false, [], ◌∷◌, ◌++◌, some,
  none, arith, All, length, length-append, take-append, drop-append, append_assoc, append-nil, take,
  drop, Bool-cases, if◌then◌else◌,
}
use mathlib.Core.Path.{ap₂}
use frag.Text.{Bytes}
use frag.Utils.Trim.{is_blank, first_not_blank, last_not_blank, trim}

abbrev pub Blank : Bytes → Type 0
Blank = All (λ c. is_blank c ≡ true)

-- The first and the last byte of the text are not blank.
pub record HasSolidEnds (t : Bytes) : Type 0 where
  pub first : ℕ
  pub rest : Bytes
  pub front : Bytes
  pub last : ℕ
  pub from_first : t ≡ first ∷ rest
  pub to_last : t ≡ front ++ last ∷ []
  pub first_solid : is_blank first ≡ false
  pub last_solid : is_blank last ≡ false

-- `t` is `s` without the blanks at its ends.
pub record IsTrimmed (s t : Bytes) : Type 0 where
  pub before : Bytes
  pub after : Bytes
  pub splits : s ≡ before ++ (t ++ after)
  pub before_blank : Blank before
  pub after_blank : Blank after
  pub ends : (t ≡ []) ⊎ HasSolidEnds t

-- Where the search from the left stops.
record StopsAt (i : ℕ) (s : Bytes) : Type 0 where
  before : Bytes
  c : ℕ
  rest : Bytes
  splits : s ≡ before ++ (c ∷ rest)
  before_blank : Blank before
  solid : is_blank c ≡ false
  found : first_not_blank i s ≡ some (i + length before)

first_cases : (i : ℕ) (s : Bytes) → (Blank s × (first_not_blank i s ≡ none)) ⊎ StopsAt i s
unfolding first_not_blank
first_cases i [] = inl (tt, refl)
first_cases i (c ∷ s) = elim (Bool-cases (is_blank c)) [
  | inr e ↦ inr (record {
    before = [];
    c = c;
    rest = s;
    splits = refl;
    before_blank = tt;
    solid = e;
    found = rw e (ap some (omega arith));
  })
  | inl e ↦ elim (first_cases (i + 1) s) [
    | inl (blank, missing) ↦ inl ((e, blank), rw e missing)
    | inr found ↦ inr (record {
      before = c ∷ found.before;
      c = found.c;
      rest = found.rest;
      splits = ap (◌∷◌ c) found.splits;
      before_blank = (e, found.before_blank);
      solid = found.solid;
      found = rw e (found.found ∙ ap some (omega arith));
    })
  ]
]

last_over_blanks :
    (before rest : Bytes) (c i : ℕ)
    → Blank before
    → is_blank c ≡ false
    → last_not_blank i none (before ++ (c ∷ rest))
      ≡ last_not_blank (i + length before + 1) (some (i + length before)) rest
unfolding last_not_blank
last_over_blanks [] rest c i h e =
    let here : (if is_blank c then none else some i) ≡ some (i + 0) =
      rw e (ap some (omega arith)) in
    ap₂ (λ j found. last_not_blank j found rest) (omega arith) here
last_over_blanks (b ∷ before) rest c i (hb, h) e =
    let here : (if is_blank b then none else some i) ≡ none = rw hb in
    let same : i + 1 + length before ≡ i + suc (length before) = omega arith in
    ap (λ found. last_not_blank (i + 1) found (before ++ (c ∷ rest))) here
    ∙ last_over_blanks before rest c (i + 1) h e
    ∙ ap (λ j. last_not_blank (j + 1) (some j) rest) same

-- Where the search from the right stops, given the position `k` found before `rest`.
record EndsAt (i k : ℕ) (rest : Bytes) : Type 0 where
  front : Bytes
  last : ℕ
  after : Bytes
  splits : rest ≡ front ++ (last ∷ after)
  after_blank : Blank after
  solid : is_blank last ≡ false
  found : last_not_blank i (some k) rest ≡ some (i + length front)

last_cases :
    (rest : Bytes) (i k : ℕ)
    → (Blank rest × (last_not_blank i (some k) rest ≡ some k)) ⊎ EndsAt i k rest
unfolding last_not_blank
last_cases [] i k = inl (tt, refl)
last_cases (c ∷ rest) i k = elim (Bool-cases (is_blank c)) [
  | inl e ↦ elim (last_cases rest (i + 1) k) [
    | inl (blank, kept) ↦ inl ((e, blank), rw e kept)
    | inr r ↦ inr (record {
      front = c ∷ r.front;
      last = r.last;
      after = r.after;
      splits = ap (◌∷◌ c) r.splits;
      after_blank = r.after_blank;
      solid = r.solid;
      found = rw e (r.found ∙ ap some (omega arith));
    })
  ]
  | inr e ↦ elim (last_cases rest (i + 1) i) [
    | inl (blank, kept) ↦ inr (record {
      front = [];
      last = c;
      after = rest;
      splits = refl;
      after_blank = blank;
      solid = e;
      found = rw e (kept ∙ ap some (omega arith));
    })
    | inr r ↦ inr (record {
      front = c ∷ r.front;
      last = r.last;
      after = r.after;
      splits = ap (◌∷◌ c) r.splits;
      after_blank = r.after_blank;
      solid = r.solid;
      found = rw e (r.found ∙ ap some (omega arith));
    })
  ]
]

-- The middle of a text, by its start and its length.
substr_middle :
    (before middle after : Bytes)
    → take (length middle) (drop (length before) (before ++ (middle ++ after))) ≡ middle
substr_middle before middle after =
    rw (drop-append before (middle ++ after), take-append middle after)

-- The text between two found positions is what lies between its blank ends.
trim_between :
    (before middle after s : Bytes) (start end : ℕ)
    → s ≡ before ++ (middle ++ after)
    → start ≡ length before
    → end + 1 ≡ length before + length middle
    → 0 < length middle
    → take (end - start + 1) (drop start s) ≡ middle
trim_between before middle after s start end e p q pos =
    let n : end - start + 1 ≡ length middle = omega arith in
    rw (n, p, e) (substr_middle before middle after)

-- The result once both searches have found a byte.
pub trim_found :
    (s : Bytes) (start end : ℕ)
    → first_not_blank 0 s ≡ some start
    → last_not_blank 0 none s ≡ some end
    → trim s ≡ take (end - start + 1) (drop start s)
unfolding trim
trim_found s start end e e' = rw (e, e', trim)

-- Trimming a text that is split at its solid ends.
trim_solid :
    (s before middle after : Bytes) (end : ℕ)
    → s ≡ before ++ (middle ++ after)
    → Blank before
    → Blank after
    → HasSolidEnds middle
    → first_not_blank 0 s ≡ some (0 + length before)
    → last_not_blank 0 none s ≡ some end
    → end + 1 ≡ length before + length middle
    → IsTrimmed s (trim s)
trim_solid s before middle after end e hb ha ends first last n =
    let pos : 0 < length middle = rw ends.from_first (omega arith) in
    let t : trim s ≡ middle =
      trim_found s _ _ first last
      ∙ trim_between before middle after s _ end e (omega arith) n pos in
    rw t (record {
      before = before;
      after = after;
      splits = e;
      before_blank = hb;
      after_blank = ha;
      ends = inr ends;
    })

last_from :
    (s before rest : Bytes) (c : ℕ) {found : ℕ}
    → s ≡ before ++ (c ∷ rest)
    → Blank before
    → is_blank c ≡ false
    → last_not_blank (length before + 1) (some (length before)) rest ≡ some found
    → last_not_blank 0 none s ≡ some found
last_from s before rest c e h solid r =
    let start : 0 + length before ≡ length before = omega arith in
    rw (e, last_over_blanks before rest c 0 h solid, start) r

trim-Blank : (s : Bytes) → Blank s → first_not_blank 0 s ≡ none → IsTrimmed s (trim s)
unfolding trim
trim-Blank s h e =
    rw (e, trim)
      (record {
        before = s;
        after = [];
        splits = sym (append-nil s);
        before_blank = h;
        after_blank = tt;
        ends = inl refl;
      })

-- Every text is blanks, its trimmed text and blanks again, and the trimmed text is empty or neither
-- begins nor ends with a blank.
pub trim-IsTrimmed : (s : Bytes) → IsTrimmed s (trim s)
trim-IsTrimmed s = elim (first_cases 0 s) [
  | inl (blank, missing) ↦ trim-Blank s blank missing
  | inr f ↦ elim (last_cases f.rest (length f.before + 1) (length f.before)) [
    | inl (blank, kept) ↦
        trim_solid s f.before (f.c ∷ []) f.rest (length f.before) f.splits f.before_blank blank
          (record {
            first = f.c;
            rest = [];
            front = [];
            last = f.c;
            from_first = refl;
            to_last = refl;
            first_solid = f.solid;
            last_solid = f.solid;
          })
          f.found (last_from s f.before f.rest f.c f.splits f.before_blank f.solid kept)
          (omega arith)
    | inr l ↦
        trim_solid s f.before (f.c ∷ (l.front ++ l.last ∷ [])) l.after
          (length f.before + 1 + length l.front)
          (rw (append_assoc l.front (l.last ∷ []) l.after, ← l.splits) f.splits) f.before_blank
          l.after_blank
          (record {
            first = f.c;
            rest = l.front ++ l.last ∷ [];
            front = f.c ∷ l.front;
            last = l.last;
            from_first = refl;
            to_last = refl;
            first_solid = f.solid;
            last_solid = l.solid;
          })
          f.found (last_from s f.before f.rest f.c f.splits f.before_blank f.solid l.found)
          (omega (arith, length-append l.front (l.last ∷ [])))
  ]
]
