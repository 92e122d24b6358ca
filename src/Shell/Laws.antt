-- ===== src/Shell/Laws.antt =====
-- The line of the shell, against a list of the characters typed, the last one in front.
use lilac_os.Base.{
  ℕ, zero, suc, ◌+◌, ◌-◌, ◌≤◌, ◌<◌, ◌≡◌, ◌≢◌, ◌∙◌, inl, inr, refl, ap, subst, ◌||◌, List, [], ◌∷◌,
  ◌++◌, length, arith, update, update_self, update_ne, ◌==◌, if◌then◌else◌, eq→==, ne→==, eq-cases,
  Bool-cases,
}
use lilac_os.Shell.{
  Shell, Event, put, run, line_size, clear_line, clear, string_at, prompt, enter, erase, insert,
  press, session,
}

-- The line holds the characters typed.
abbrev pub Holds : (ℕ → ℕ) → List ℕ → Type 0
Holds line [] = Unit
Holds line (c ∷ typed) = (line (length typed) ≡ c) × (c ≢ 0) × Holds line typed

pub record IsTyped (s : Shell) (typed : List ℕ) : Type 0 where
  pub len : s.len ≡ length typed
  pub holds : Holds s.line typed
  pub clear : (j : ℕ) → length typed ≤ j → j < line_size → s.line j ≡ 0

-- The characters in the order of their typing, in front of `behind`.
unfoldable pub in_order : List ℕ → List ℕ → List ℕ
in_order [] behind = behind
in_order (c ∷ typed) behind = in_order typed (c ∷ behind)

-- Enter runs what was typed, if anything.
unfoldable pub commands : List ℕ → List Event
commands [] = []
commands (c ∷ typed) = run (in_order (c ∷ typed) []) ∷ []

unfoldable pub erased : List ℕ → List ℕ × List Event
erased [] = ([], [])
erased (c ∷ typed) = (typed, put 8 ∷ put 32 ∷ put 8 ∷ [])

-- What a key leaves of the characters typed, and its events.
unfoldable pub typing : ℕ → List ℕ → List ℕ × List Event
typing c typed =
    if c == 10 || c == 13
    then ([], put 10 ∷ (commands typed ++ prompt))
    else if c == 8 || c == 127
    then erased typed
    else (c ∷ typed, put c ∷ [])

pub typings : List ℕ → List ℕ → List Event
typings [] typed = []
typings (c ∷ keys) typed = let (rest, events) = typing c typed in events ++ typings keys rest

Holds-ext :
    (line other : ℕ → ℕ) (typed : List ℕ)
    → ((j : ℕ) → j < length typed → other j ≡ line j)
    → Holds line typed
    → Holds other typed
Holds-ext line other [] h t = tt
Holds-ext line other (c ∷ typed) h (e, ne, t) = (
  h (length typed) (omega arith) ∙ e,
  ne,
  Holds-ext line other typed (λ j p. h j (omega (arith, p))) t,
)

clear_line-before :
    (rounds i : ℕ) (line : ℕ → ℕ) (j : ℕ) → j < i → clear_line rounds i line j ≡ line j
unfolding clear_line
clear_line-before zero i line j p = refl
clear_line-before (suc rounds) i line j p =
    clear_line-before rounds (i + 1) (update line i 0) j (omega (arith, p))
    ∙ update_ne line i j 0 (λ e. omega (arith, e, p))

clear_line-inside :
    (rounds i : ℕ) (line : ℕ → ℕ) (j : ℕ) → i ≤ j → j < i + rounds → clear_line rounds i line j ≡ 0
unfolding clear_line
clear_line-inside zero i line j p q = absurd (omega (arith, p, q))
clear_line-inside (suc rounds) i line j p q = elim (eq-cases i j) [
  | inl e ↦
      clear_line-before rounds (i + 1) (update line i 0) j (omega (arith, e)) ∙ ground (arith, e)
  | inr ne ↦
      clear_line-inside rounds (i + 1) (update line i 0) j (omega (arith, p, ne)) (omega (arith, q))
]

-- The characters `xs` and a zero byte stand at `i`.
abbrev Spelled : (ℕ → ℕ) → ℕ → List ℕ → Type 0
Spelled line i [] = line i ≡ 0
Spelled line i (x ∷ xs) = (line i ≡ x) × (x ≢ 0) × Spelled line (i + 1) xs

string_at_lem :
    (size : ℕ) (line : ℕ → ℕ) (i : ℕ) (xs : List ℕ)
    → Spelled line i xs
    → length xs < size
    → string_at size line i ≡ xs
unfolding string_at
string_at_lem zero line i xs s h = absurd (omega (arith, h))
string_at_lem (suc size) line i [] s h = rw (eq→== (line i) 0 s)
string_at_lem (suc size) line i (x ∷ xs) (e, ne, s) h =
    let rest = string_at_lem size line (i + 1) xs s (omega (arith, h)) in rw (e, ne→== x 0 ne, rest)

spells :
    (line : ℕ → ℕ) (typed behind : List ℕ)
    → Holds line typed
    → Spelled line (length typed) behind
    → Spelled line 0 (in_order typed behind)
unfolding in_order
spells line [] behind t s = s
spells line (c ∷ typed) behind (e, ne, t) s =
    spells line typed (c ∷ behind) t (e, ne, subst (λ n. Spelled line n behind) (omega arith) s)

length-in_order :
    (typed behind : List ℕ) → length (in_order typed behind) ≡ length typed + length behind
unfolding in_order
length-in_order [] behind = omega arith
length-in_order (c ∷ typed) behind = omega (arith, length-in_order typed (c ∷ behind))

-- The line is the string of the characters typed.
line_string :
    (s : Shell) (typed : List ℕ)
    → IsTyped s typed
    → length typed < line_size
    → string_at line_size s.line 0 ≡ in_order typed []
line_string s typed t h =
    string_at_lem line_size s.line 0 (in_order typed [])
      (spells s.line typed [] t.holds (t.clear (length typed) (omega arith) h))
      (omega (arith, h, length-in_order typed []))

abbrev Agrees : Shell × List Event → List ℕ × List Event → Type 0
Agrees (s, events) (typed, expected) = IsTyped s typed × (events ≡ expected)

enter-Agrees :
    (s : Shell) (typed : List ℕ)
    → IsTyped s typed
    → length typed < line_size
    → Agrees (enter s) ([], put 10 ∷ (commands typed ++ prompt))
unfolding enter commands clear
enter-Agrees s [] t h = rw (eq→== s.len 0 t.len) (t, refl)
enter-Agrees s (c ∷ typed) t h =
    rw (ne→== s.len 0 (λ e. omega (arith, e, t.len)), line_string s (c ∷ typed) t h)
      (
        record {
          len = refl;
          holds = tt;
          clear = λ j p q. clear_line-inside line_size 0 s.line j p (omega (arith, q));
        },
        refl,
      )

erase-Agrees : (s : Shell) (typed : List ℕ) → IsTyped s typed → Agrees (erase s) (erased typed)
unfolding erase erased
erase-Agrees s [] t = rw (eq→== s.len 0 t.len) (t, refl)
erase-Agrees s (c ∷ typed) t =
    let last : s.len - 1 ≡ length typed = omega (arith, t.len) in
    rw (ne→== s.len 0 (λ e. omega (arith, e, t.len)), last)
      (
        record {
          len = refl;
          holds =
              Holds-ext s.line (update s.line (length typed) 0) typed
                (λ j p. update_ne s.line (length typed) j 0 (λ e. omega (arith, e, p))) t.holds.2;
          clear = λ j p q. elim (eq-cases (length typed) j) [
            | inl e ↦ ground (arith, e)
            | inr ne ↦ update_ne s.line (length typed) j 0 ne ∙ t.clear j (omega (arith, p, ne)) q
          ];
        },
        refl,
      )

insert-Agrees :
    (c : ℕ) (s : Shell) (typed : List ℕ)
    → IsTyped s typed
    → c ≢ 0
    → Agrees (insert c s) (c ∷ typed, put c ∷ [])
unfolding insert
insert-Agrees c s typed t ne = rw (t.len) (
  record {
    len = omega arith;
    holds = (
      update_self s.line (length typed) c,
      ne,
      Holds-ext s.line (update s.line (length typed) c) typed
          (λ j p. update_ne s.line (length typed) j c (λ e. omega (arith, e, p))) t.holds,
    );
    clear = λ j p q.
        update_ne s.line (length typed) j c (λ e. omega (arith, e, p))
        ∙ t.clear j (omega (arith, p)) q;
  },
  refl,
)

press-Agrees :
    (c : ℕ) (s : Shell) (typed : List ℕ)
    → IsTyped s typed
    → length typed < line_size
    → c ≢ 0
    → Agrees (press c s) (typing c typed)
unfolding press typing
press-Agrees c s typed t h ne = elim (Bool-cases (c == 10 || c == 13)) [
  | inl e ↦ rw (e) (enter-Agrees s typed t h)
  | inr f ↦ elim (Bool-cases (c == 8 || c == 127)) [
    | inl e ↦ rw (f, e) (erase-Agrees s typed t)
    | inr g ↦ rw (f, g) (insert-Agrees c s typed t ne)
  ]
]

-- No key is 0, and the line never holds more than 255 characters.
abbrev pub Fits : List ℕ → List ℕ → Type 0
Fits [] typed = Unit
Fits (c ∷ keys) typed = (c ≢ 0) × (length typed < line_size) × Fits keys ((typing c typed).0)

-- From a line that holds the characters typed so far, and as long as no key is 0 and no more
-- than 255 characters stand in the line, the shell's bytes put out and commands run are those
-- of an editor on the list of the characters: enter runs exactly the characters typed and not
-- erased, in their order, and erasing takes the last one.
pub session_lem :
    (keys : List ℕ) (s : Shell) (typed : List ℕ)
    → IsTyped s typed
    → Fits keys typed
    → session keys s ≡ typings keys typed
unfolding session typings
session_lem [] s typed t f = refl
session_lem (c ∷ keys) s typed t (ne, h, f) =
    let agrees = press-Agrees c s typed t h ne in
    rw (agrees.1) (
      ap (◌++◌ ((typing c typed).1))
        (session_lem keys ((press c s).0) ((typing c typed).0) agrees.0 f))
