-- ===== src/Controller/Wrappers/Gets.antt =====
-- What doGet makes of the lines that the program answers.
use dhtperf.Prelude.{
  ℕ, zero, suc, ◌<◌, ◌≡◌, ◌≢◌, refl, sym, ap, ◌∙◌, List, [], ◌∷◌, ◌++◌, Bytes, codes, Bool, true,
  false, ◌==◌, ◌||◌, str_eq, some, done, All, arith, length, append_assoc, append-nil, Bool-cases,
  inl, inr, str_eq_iff, if◌then◌else◌,
}
use dhtperf.Events.{GetEvent}
use dhtperf.Controller.Pipes.{Child, write, strip_return, read_loop, readline}
use dhtperf.Controller.Wrappers.{starts_with, line_or_abort, get_loop, do_get}

-- A line that a program writes: not empty, without a newline in it or a carriage return at its end.
abbrev pub IsLine : Bytes → Type 0
IsLine line = All (λ c. c ≢ 10) line × (strip_return line ≡ some line)

abbrev no_newline : Bytes → Bool
no_newline [] = true
no_newline (c ∷ s) = if c == 10 then false else no_newline s

pub letters : (s : Bytes) → no_newline s ≡ true → All (λ c. c ≢ 10) s
letters [] h = tt
letters (c ∷ s) h = (ground arith, letters s (ground arith))

unfoldable pub text_of : List Bytes → Bytes
text_of [] = []
text_of (l ∷ ls) = l ++ (10 ∷ text_of ls)

read_loop-line :
    (ret l rest t : Bytes)
    → All (λ c. c ≢ 10) l
    → strip_return (ret ++ l) ≡ some t
    → read_loop ret (l ++ (10 ∷ rest)) ≡ done (some (t, rest))
unfolding read_loop
read_loop-line ret [] rest t h e =
    let whole : strip_return ret ≡ some t = ap strip_return (sym (append-nil ret)) ∙ e in
    rw whole refl
read_loop-line ret (c ∷ l) rest t (other, h) e =
    let no_newline : (c == 10) ≡ false = ground arith in
    rw no_newline (
      read_loop-line (ret ++ c ∷ []) l rest t h (ap strip_return (append_assoc ret (c ∷ []) l) ∙ e))

pub line_or_abort-line :
    (l rest : Bytes) (child : Child)
    → IsLine l
    → child.incoming ≡ l ++ (10 ∷ rest)
    → line_or_abort child ≡ done (l, record child { incoming = rest })
unfolding line_or_abort readline
line_or_abort-line l rest child (h, e) start = rw (start, read_loop-line [] l rest l h e) refl

-- Whether one of the lines begins with the prefix of a value.
unfoldable pub any_value : Bytes → List Bytes → Bool
any_value prefix [] = false
any_value prefix (l ∷ ls) = starts_with prefix l || any_value prefix ls

pub or_false : (b : Bool) → (b || false) ≡ b
or_false true = refl
or_false false = refl

pub or_true : (b : Bool) → (b || true) ≡ true
or_true true = refl
or_true false = refl

module _ (prefix prompt : Bytes) where
  -- A line in front of the prompt.
  abbrev pub IsAnswer : Bytes → Type 0
  IsAnswer l = IsLine l × (str_eq l prompt ≡ false)

  get_loop-answers :
      (fuel : ℕ) (ret : Bool) (answers : List Bytes) (rest : Bytes) (child : Child)
      → length answers < fuel
      → All IsAnswer answers
      → IsLine prompt
      → starts_with prefix prompt ≡ false
      → child.incoming ≡ text_of answers ++ (prompt ++ (10 ∷ rest))
      → get_loop fuel prefix prompt ret child
        ≡ done (some (any_value prefix answers || ret, record child { incoming = rest }))
  unfolding get_loop any_value text_of
  get_loop-answers zero ret answers rest child lt h p q start = absurd (omega arith)
  get_loop-answers (suc fuel) ret [] rest child lt h p q start =
      rw (line_or_abort-line prompt rest child p start, q, (str_eq_iff prompt prompt).1 refl) refl
  get_loop-answers (suc fuel) ret (l ∷ ls) rest child lt ((line, other), h) p q start =
      let read =
        line_or_abort-line l (text_of ls ++ (prompt ++ (10 ∷ rest))) child line
          (start ∙ append_assoc l (10 ∷ text_of ls) (prompt ++ (10 ∷ rest))) in
      let again =
        get_loop-answers fuel (starts_with prefix l || ret) ls rest
          (record child { incoming = text_of ls ++ (prompt ++ (10 ∷ rest)) }) (omega arith) h p q
          refl in
      elim (Bool-cases (starts_with prefix l)) [
        | inl e ↦ rw (read, e) (rw (e, or_true (any_value prefix ls)) at again)
        | inr e ↦ rw (read, e, other) (rw e at again)
      ]

  -- Where the program answers a get with lines that are not empty and no prompt among them, and then with its prompt: doGet
  -- sends the command, reads up to the prompt and no further, within as many lines, and returns whether one of the lines
  -- begins as a value does. The prompt is a line that does not begin so.
  pub do_get-answers :
      (fuel : ℕ) (event : GetEvent) (answers : List Bytes) (rest : Bytes) (child : Child)
      → length answers < fuel
      → All IsAnswer answers
      → IsLine prompt
      → starts_with prefix prompt ≡ false
      → child.incoming ≡ text_of answers ++ (prompt ++ (10 ∷ rest))
      → do_get fuel prefix prompt event child
        ≡ done (
            some (
              any_value prefix answers,
              record {
                incoming = rest;
                written = child.written ++ (codes "get " ++ (event.key ++ 10 ∷ []));
              },
            ))
  unfolding do_get write
  do_get-answers fuel event answers rest child lt h p q start =
      get_loop-answers fuel false answers rest _ lt h p q start
      ∙ rw (or_false (any_value prefix answers)) refl
