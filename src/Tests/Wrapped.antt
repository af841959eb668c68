-- ===== src/Tests/Wrapped.antt =====
-- A program that answers a get.
use dhtperf.Prelude.{
  ◌≡◌, refl, [], ◌∷◌, ◌++◌, List, Bytes, codes, true, false, All, done, some, arith, str_eq,
}
use dhtperf.Events.{GetEvent}
use dhtperf.Controller.Pipes.{Child, strip_return}
use dhtperf.Controller.Wrappers.{do_get, owdhtshell_prompt, starts_with}
use dhtperf.Controller.Wrappers.Gets.{IsAnswer, letters, IsLine, text_of, any_value, do_get-answers}

abbrev pub event : GetEvent
event = record { time = 4; key = codes "angle" }

abbrev answers : List Bytes
answers = codes "found" ∷ codes "value: 7" ∷ []

abbrev child : Child
child = record { incoming = codes "found\nvalue: 7\nReady.\nmore"; written = codes "stop\n" }

not_a_value : starts_with (codes "value: ") owdhtshell_prompt ≡ false
unfolding starts_with
not_a_value = refl

incoming : child.incoming ≡ text_of answers ++ (owdhtshell_prompt ++ (10 ∷ codes "more"))
unfolding text_of
incoming = refl

owdhtshell-IsLine : IsLine owdhtshell_prompt
unfolding strip_return
owdhtshell-IsLine = (letters owdhtshell_prompt refl, refl)

answers-IsAnswer : All (IsAnswer (codes "value: ") owdhtshell_prompt) answers
unfolding strip_return str_eq
answers-IsAnswer = (
  ((letters (codes "found") refl, refl), refl),
  (((letters (codes "value: 7") refl, refl), refl), tt),
)

do_get-answers_example :
    do_get 3 (codes "value: ") owdhtshell_prompt event child
    ≡ done (some (true, record { incoming = codes "more"; written = codes "stop\nget angle\n" }))
unfolding any_value starts_with
do_get-answers_example =
    do_get-answers (codes "value: ") owdhtshell_prompt 3 event answers (codes "more") child
      (omega arith) answers-IsAnswer owdhtshell-IsLine not_a_value incoming
