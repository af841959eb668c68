-- ===== src/Controller/Wrappers/Ruby/Gets.antt =====
-- What doGet of src/controller/dhtnodes/GenericRubyWrapper.cpp makes of an answer.
use dhtperf.Prelude.{
  ℕ, zero, suc, ◌<◌, ◌≡◌, refl, ap, ◌∙◌, List, [], ◌∷◌, ◌++◌, Bytes, codes, Bool, true, false,
  str_eq, Option, none, some, Outcome, done, ◌>>=◌, if◌then◌else◌, All, arith, length, append_assoc,
  str_eq_iff, Bool-cases, inl, inr,
}
use dhtperf.Events.{GetEvent}
use dhtperf.Controller.Pipes.{Child, write, strip_return}
use dhtperf.Controller.Wrappers.{line_or_abort, wait_line}
use dhtperf.Controller.Wrappers.Gets.{IsLine, letters, text_of, line_or_abort-line}
use dhtperf.Controller.Wrappers.Ruby.{
  ruby_prompt, is_comment_line, get_non_comment_line, found_loop, ruby_get,
}

-- What the program says of a key.
pub data Reply : Type 0 where
  missing : Reply
  found : Bytes → Reply

abbrev no_value : Bytes
no_value = codes "Value not found"

abbrev a_value : Bytes
a_value = codes "Value found:"

unfoldable pub reply_text : Reply → Bytes → Bytes
reply_text missing rest = no_value ++ (10 ∷ rest)
reply_text (found v) rest = a_value ++ (10 ∷ (v ++ (10 ∷ rest)))

unfoldable pub is_found : Reply → Bool
is_found missing = false
is_found (found v) = true

abbrev pub IsReply : Reply → Type 0
IsReply missing = Unit
IsReply (found v) = IsLine v

-- A line that says nothing of a key: a comment is one.
abbrev pub IsNoise : Bytes → Type 0
IsNoise l = IsLine l × (str_eq l no_value ≡ false) × (str_eq l a_value ≡ false)

-- Lines up to one that is expected.
wait_line-text_of :
    (fuel : ℕ) (lines : List Bytes) (expected rest : Bytes) (child : Child)
    → length lines < fuel
    → All (λ l. IsLine l × (str_eq l expected ≡ false)) lines
    → IsLine expected
    → child.incoming ≡ text_of lines ++ (expected ++ (10 ∷ rest))
    → wait_line fuel expected child ≡ done (some (record child { incoming = rest }))
unfolding wait_line text_of
wait_line-text_of zero lines expected rest child lt h e start = absurd (omega arith)
wait_line-text_of (suc fuel) [] expected rest child lt h e start =
    rw (line_or_abort-line expected rest child e start, (str_eq_iff expected expected).1 refl) refl
wait_line-text_of (suc fuel) (l ∷ lines) expected rest child lt ((line, other), h) e start =
    rw
      (
        line_or_abort-line l (text_of lines ++ (expected ++ (10 ∷ rest))) child line
            (start ∙ append_assoc l (10 ∷ text_of lines) (expected ++ (10 ∷ rest))),
        other,
      )
      (wait_line-text_of fuel lines expected rest
        (record child { incoming = text_of lines ++ (expected ++ (10 ∷ rest)) }) (omega arith) h e
        refl)

next_line :
    (fuel : ℕ) (l rest : Bytes) (b : Bool) (child : Child)
    → IsLine l
    → is_comment_line l ≡ b
    → child.incoming ≡ l ++ (10 ∷ rest)
    → get_non_comment_line (suc fuel) child ≡ (
        if b
        then get_non_comment_line fuel (record child { incoming = rest })
        else done (some (l, record child { incoming = rest })))
unfolding get_non_comment_line
next_line fuel l rest b child line e start = rw (line_or_abort-line l rest child line start, e) refl

module _ (comments : ℕ) where
  -- A round of the loop, behind the line that is no comment.
  abbrev round : ℕ → Option (Bytes × Child) → Outcome (Option (Bool × Child))
  round fuel read = elim read [
    | none ↦ done none
    | some (line, child) ↦
        (let more = found_loop comments fuel child in
          let value = line_or_abort child >>= λ read. done (some (true, read.1)) in
          if str_eq line no_value
          then done (some (false, child))
          else if str_eq line a_value
          then value
          else more)
  ]

  abbrev reading : ℕ → ℕ → Child → Outcome (Option (Bool × Child))
  reading n fuel child =
      ◌>>=◌ {B = Option (Bool × Child)} (get_non_comment_line n child) (round fuel)

  reading-reply :
      (n fuel : ℕ) (reply : Reply) (rest : Bytes) (child : Child)
      → IsReply reply
      → child.incoming ≡ reply_text reply rest
      → reading (suc n) fuel child ≡ done (some (is_found reply, record child { incoming = rest }))
  unfolding reply_text is_found is_comment_line str_eq strip_return
  reading-reply n fuel missing rest child h start =
      ap (λ o. ◌>>=◌ {B = Option (Bool × Child)} o (round fuel))
        (next_line n no_value rest false child (letters no_value refl, refl) refl start)
  reading-reply n fuel (found v) rest child h start =
      ap (λ o. ◌>>=◌ {B = Option (Bool × Child)} o (round fuel))
        (next_line n a_value (v ++ (10 ∷ rest)) false child (letters a_value refl, refl) refl start)
      ∙ ap (λ o. ◌>>=◌ {B = Option (Bool × Child)} o (λ read. done (some (true, read.1))))
          (line_or_abort-line v rest (record child { incoming = v ++ (10 ∷ rest) }) h refl)

  reading-noise :
      (n fuel : ℕ) (noise : List Bytes) (reply : Reply) (rest : Bytes) (child : Child)
      → length noise < n
      → length noise < comments
      → length noise < suc fuel
      → All IsNoise noise
      → IsReply reply
      → child.incoming ≡ text_of noise ++ reply_text reply rest
      → reading n fuel child ≡ done (some (is_found reply, record child { incoming = rest }))
  unfolding text_of found_loop
  reading-noise zero fuel noise reply rest child p q r h e start = absurd (omega arith)
  reading-noise (suc n) fuel [] reply rest child p q r h e start =
      reading-reply n fuel reply rest child e start
  reading-noise (suc n) zero (l ∷ ls) reply rest child p q r h e start = absurd (omega arith)
  reading-noise (suc n) (suc fuel) (l ∷ ls) reply rest child p q r ((line, negative, positive), h) e
        start =
      let after : Bytes = text_of ls ++ reply_text reply rest in
      let shape : child.incoming ≡ l ++ (10 ∷ after) =
        start ∙ append_assoc l (10 ∷ text_of ls) (reply_text reply rest) in
      elim (Bool-cases (is_comment_line l)) [
        | inl c ↦
            ap (λ o. ◌>>=◌ {B = Option (Bool × Child)} o (round (suc fuel)))
              (next_line n l after true child line c shape)
            ∙ reading-noise n (suc fuel) ls reply rest (record child { incoming = after })
                (omega arith) (omega arith) (omega arith) h e refl
        | inr c ↦
            ap (λ o. ◌>>=◌ {B = Option (Bool × Child)} o (round (suc fuel)))
              (next_line n l after false child line c shape)
            ∙ rw (negative, positive)
                (reading-noise comments fuel ls reply rest (record child { incoming = after })
                  (omega arith) (omega arith) (omega arith) h e refl)
      ]

-- The command that doGet sends.
abbrev get_command : GetEvent → Bytes
get_command event = codes "get " ++ (event.key ++ codes "\n")

-- Where the program answers a get with lines that are not empty: some that say nothing of the key, as comments do, then whether it has
-- a value, with the value on the next line where it has one, and then others up to the prompt: doGet sends the
-- command, reads up to the prompt and no further, within one more round of each loop than there are lines, and returns whether there is a value.
pub ruby_get-replies :
    (comments fuel : ℕ) (event : GetEvent) (noise : List Bytes) (reply : Reply)
    (others : List Bytes) (rest : Bytes) (child : Child)
    → length noise < comments
    → length noise < fuel
    → length others < fuel
    → All IsNoise noise
    → IsReply reply
    → All (λ l. IsLine l × (str_eq l ruby_prompt ≡ false)) others
    → child.incoming
      ≡ text_of noise ++ reply_text reply (text_of others ++ (ruby_prompt ++ (10 ∷ rest)))
    → ruby_get comments fuel event child
      ≡ done (
          some (
            is_found reply,
            record { incoming = rest; written = child.written ++ get_command event },
          ))
unfolding ruby_get found_loop write strip_return
ruby_get-replies comments zero event noise reply others rest child p q r h e o start =
    absurd (omega arith)
ruby_get-replies comments (suc fuel) event noise reply others rest child p q r h e o start =
    let sent : Child = record child { written = child.written ++ get_command event } in
    let behind : Bytes = text_of others ++ (ruby_prompt ++ (10 ∷ rest)) in
    rw
      (
        reading-noise comments comments fuel noise reply behind sent p p (omega arith) h e start,
        wait_line-text_of (suc fuel) others ruby_prompt rest (record sent { incoming = behind }) r o
            (letters ruby_prompt refl, refl) refl,
      )
      refl
