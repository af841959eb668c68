-- ===== src/Controller/Wrappers/Announced.antt =====
-- What doGet of OpenchordWrapper.cpp and KaddemoWrapper.cpp in src/controller/dhtnodes make of an answer in which a line announces the values.
use dhtperf.Prelude.{
  ℕ, zero, suc, ◌<◌, ◌≡◌, refl, ap, ◌∙◌, List, [], ◌∷◌, ◌++◌, Bytes, codes, Bool, true, false, ◌||◌,
  not, str_eq, some, done, All, arith, length, append_assoc, str_eq_iff, Option, Outcome, ◌>>=◌,
  if◌then◌else◌,
}
use dhtperf.Events.{GetEvent}
use dhtperf.Controller.Pipes.{Child, write}
use dhtperf.Controller.Wrappers.{starts_with, line_or_abort, value_loop}
use dhtperf.Controller.Wrappers.Gets.{IsLine, line_or_abort-line, or_false}
use dhtperf.Controller.Wrappers.Openchord.{openchord_prompt, openchord_values, openchord_get}
use dhtperf.Controller.Wrappers.Kaddemo.{kaddemo_prompt, kaddemo_values, kaddemo_get}

-- A part of an answer: a line by itself, or a line that announces values, with the line behind it.
pub data Answer : Type 0 where
  plain : Bytes → Answer
  values : Bytes → Bytes → Answer

unfoldable pub answer_text : List Answer → Bytes
answer_text [] = []
answer_text (plain l ∷ others) = l ++ (10 ∷ answer_text others)
answer_text (values h v ∷ others) = h ++ (10 ∷ (v ++ (10 ∷ answer_text others)))

-- Whether a value stands behind a line that announces values.
unfoldable pub has_value : (Bytes → Bool) → List Answer → Bool
has_value is_value [] = false
has_value is_value (plain l ∷ others) = has_value is_value others
has_value is_value (values h v ∷ others) = is_value v || has_value is_value others

or_swap : (a b c : Bool) → (a || (b || c)) ≡ ((b || a) || c)
or_swap true true c = refl
or_swap true false c = refl
or_swap false true c = refl
or_swap false false c = refl

module _ (head prompt : Bytes) where
  abbrev pub IsAnswer : Answer → Type 0
  IsAnswer (plain l) = IsLine l × (starts_with head l ≡ false) × (str_eq l prompt ≡ false)
  IsAnswer (values h v) = IsLine h × (starts_with head h ≡ true) × IsLine v

  module _ (is_value : Bytes → Bool) (line : IsLine prompt)
      (other : starts_with head prompt ≡ false) where
    abbrev loop : ℕ → Bool → Child → Outcome (Option (Bool × Child))
    loop = value_loop head prompt is_value

    -- A round of the loop, behind the test of the line.
    abbrev on_line : ℕ → Bool → Bool → Bytes × Child → Outcome (Option (Bool × Child))
    on_line fuel ret b read = elim b [
      | true ↦ line_or_abort read.1 >>= λ value. loop fuel (is_value value.0 || ret) value.1
      | false ↦ if str_eq read.0 prompt then done (some (ret, read.1)) else loop fuel ret read.1
    ]

    value_loop-on_line :
        (fuel : ℕ) (ret b : Bool) (l : Bytes) (child after : Child)
        → line_or_abort child ≡ done (l, after)
        → starts_with head l ≡ b
        → loop (suc fuel) ret child ≡ on_line fuel ret b (l, after)
    unfolding value_loop
    value_loop-on_line fuel ret b l child after e f =
        ap
          (λ o.
            ◌>>=◌ {B = Option (Bool × Child)} o
              (λ read. on_line fuel ret (starts_with head read.0) read))
          e
        ∙ ap (λ t. on_line fuel ret t (l, after)) f

    value_loop-answers :
        (fuel : ℕ) (ret : Bool) (answers : List Answer) (rest : Bytes) (child : Child)
        → length answers < fuel
        → All IsAnswer answers
        → child.incoming ≡ answer_text answers ++ (prompt ++ (10 ∷ rest))
        → loop fuel ret child
          ≡ done (some (has_value is_value answers || ret, record child { incoming = rest }))
    unfolding has_value answer_text
    value_loop-answers zero ret answers rest child lt h start = absurd (omega arith)
    value_loop-answers (suc fuel) ret [] rest child lt h start =
        value_loop-on_line fuel ret false prompt child _
          (line_or_abort-line prompt rest child line start) other
        ∙ rw ((str_eq_iff prompt prompt).1 refl) refl
    value_loop-answers (suc fuel) ret (plain l ∷ others) rest child lt
          ((l_line, none, no_prompt), h) start =
        value_loop-on_line fuel ret false l child _
          (line_or_abort-line l (answer_text others ++ (prompt ++ (10 ∷ rest))) child l_line
            (start ∙ append_assoc l (10 ∷ answer_text others) (prompt ++ (10 ∷ rest))))
          none
        ∙ rw no_prompt (
            value_loop-answers fuel ret others rest
              (record child { incoming = answer_text others ++ (prompt ++ (10 ∷ rest)) })
              (omega arith) h refl)
    value_loop-answers (suc fuel) ret (values a v ∷ others) rest child lt
          ((a_line, announces, v_line), h) start =
        let after : Bytes = answer_text others ++ (prompt ++ (10 ∷ rest)) in
        let shape : child.incoming ≡ a ++ (10 ∷ (v ++ (10 ∷ after))) =
          start
          ∙ (append_assoc a (10 ∷ (v ++ (10 ∷ answer_text others))) (prompt ++ (10 ∷ rest))
              ∙ ap (λ s. a ++ (10 ∷ s))
                  (append_assoc v (10 ∷ answer_text others) (prompt ++ (10 ∷ rest)))) in
        value_loop-on_line fuel ret true a child _
          (line_or_abort-line a (v ++ (10 ∷ after)) child a_line shape) announces
        ∙ ap
            (λ o.
              ◌>>=◌ {B = Option (Bool × Child)} o
                (λ value. loop fuel (is_value value.0 || ret) value.1))
            (line_or_abort-line v after (record child { incoming = v ++ (10 ∷ after) }) v_line refl)
        ∙ (value_loop-answers fuel (is_value v || ret) others rest
              (record child { incoming = after }) (omega arith) h refl
            ∙ rw (or_swap (has_value is_value others) (is_value v) ret) refl)

-- The command that doGet of Kaddemo sends, and that of Openchord.
abbrev findvalue : GetEvent → Bytes
findvalue event = codes "findvalue " ++ (event.key ++ codes "\n")

abbrev retrieve : GetEvent → Bytes
retrieve event = codes "retrieveN -key " ++ (event.key ++ codes "\n")

-- Where kaddemo answers a get with lines that are not empty and no prompt among them, some of which may announce values in the line behind them, and then with its
-- prompt: doGet sends the command, reads up to the prompt and no further, within as many rounds, and returns whether an announced line
-- begins with "1.  ".
pub kaddemo_get-answers :
    (fuel : ℕ) (event : GetEvent) (answers : List Answer) (rest : Bytes) (child : Child)
    → length answers < fuel
    → All (IsAnswer (codes "Values found for key") kaddemo_prompt) answers
    → IsLine kaddemo_prompt
    → child.incoming ≡ answer_text answers ++ (kaddemo_prompt ++ (10 ∷ rest))
    → kaddemo_get fuel event child
      ≡ done (
          some (
            has_value (starts_with (codes "1.  ")) answers,
            record { incoming = rest; written = child.written ++ findvalue event },
          ))
unfolding kaddemo_get kaddemo_values write starts_with
kaddemo_get-answers fuel event answers rest child lt h line start =
    value_loop-answers (codes "Values found for key") kaddemo_prompt (starts_with (codes "1.  "))
      line refl fuel false answers rest
      (record child { written = child.written ++ findvalue event }) lt h start
    ∙ rw (or_false (has_value (starts_with (codes "1.  ")) answers)) refl

-- Where the console of Openchord answers a get with lines that are not empty and no prompt among them, some of which may announce values, and then with its prompt:
-- doGet sends the command, reads up to the prompt and no further, within as many rounds, and returns whether a line stands behind one that
-- announces values.
pub openchord_get-answers :
    (fuel : ℕ) (event : GetEvent) (answers : List Answer) (rest : Bytes) (child : Child)
    → length answers < fuel
    → All (IsAnswer (codes "Values associated with key") openchord_prompt) answers
    → IsLine openchord_prompt
    → child.incoming ≡ answer_text answers ++ (openchord_prompt ++ (10 ∷ rest))
    → openchord_get fuel event child
      ≡ done (
          some (
            has_value (λ value. not (str_eq value [])) answers,
            record { incoming = rest; written = child.written ++ retrieve event },
          ))
unfolding openchord_get openchord_values write starts_with
openchord_get-answers fuel event answers rest child lt h line start =
    value_loop-answers (codes "Values associated with key") openchord_prompt
      (λ value. not (str_eq value [])) line refl fuel false answers rest
      (record child { written = child.written ++ retrieve event }) lt h start
    ∙ rw (or_false (has_value (λ value. not (str_eq value [])) answers)) refl
