-- ===== src/Controller/Pipes/Writes.antt =====
-- src/controller/dhtnodes/RWPopen.cpp: the loop of write, which goes on until the pipe has taken everything.
use dhtperf.Prelude.{
  ℕ, zero, suc, ◌+◌, ◌-◌, ◌≤◌, ◌<◌, ◌≡◌, refl, ap, min, List, [], ◌∷◌, ◌++◌, Bytes, Option, none,
  some, Outcome, done, exits, length, take, drop, ◌==◌, if◌then◌else◌, All, arith, Bool-cases, inl,
  inr, take_all, ==_iff, true, false, ◌>>=◌,
}
use dhtperf.Controller.Pipes.{Child, write}

-- What ::write answers, time after time: none for an error, or how many bytes it takes, if as many are left.
abbrev pub Answers : Type 0
Answers = List (Option ℕ)

-- The loop, with what the pipe has taken so far; none where it waits for a further answer.
unfoldable pub write_loop : Bytes → ℕ → Answers → Bytes → Outcome (Option Bytes)
write_loop s written [] taken = done (if written == length s then some taken else none)
write_loop s written (answer ∷ answers) taken = elim (written == length s) [
  | true ↦ done (some taken)
  | false ↦ elim answer [
    | none ↦ exits 1
    | some n ↦
        (let ret = min n (length s - written) in
          write_loop s (written + ret) answers (taken ++ take ret (drop written s)))
  ]
]

unfoldable pub write_all : Bytes → Answers → Child → Outcome (Option Child)
unfolding write_loop
write_all s answers child = write_loop s 0 answers [] >>= λ r. elim r [
  | none ↦ done none
  | some taken ↦ done (some (record child { written = child.written ++ taken }))
]

-- An answer that is no error and takes something.
abbrev pub Takes : Option ℕ → Type 0
Takes none = ⊥
Takes (some n) = 0 < n

-- Two parts that follow each other.
take_more : (n k m : ℕ) (s : Bytes) → m ≡ n + k → take n s ++ take k (drop n s) ≡ take m s
take_more zero k m s e = ap (λ j. take j s) (omega arith)
take_more (suc n) k zero s e = absurd (omega arith)
take_more (suc n) zero (suc m) [] e = refl
take_more (suc n) (suc k) (suc m) [] e = refl
take_more (suc n) k (suc m) (c ∷ s) e = ap (λ r. c ∷ r) (take_more n k m s (omega arith))

write_loop-take :
    (s : Bytes) (written : ℕ) (answers : Answers)
    → length s ≤ written + length answers
    → written ≤ length s
    → All Takes answers
    → write_loop s written answers (take written s) ≡ done (some s)
unfolding write_loop
write_loop-take s written [] enough inside h =
    let all : (written == length s) ≡ true = ground arith in
    rw (all, take_all written s (omega arith)) refl
write_loop-take s written (none ∷ answers) enough inside h = absurd (h.0)
write_loop-take s written (some n ∷ answers) enough inside h =
    let ret = min n (length s - written) in
    elim (Bool-cases (written == length s)) [
      | inl e ↦
          rw (write_loop, e, take_all written s (omega (arith, (==_iff written (length s)).0 e)))
            refl
      | inr e ↦
          rw (write_loop, e, take_more written ret (written + ret) s refl)
            (write_loop-take s (written + ret) answers (ground (arith, h.0, e)) (omega arith) h.1)
    ]

-- However little the pipe takes at a time, as long as it takes something each time and reports no error: write comes to its end
-- within as many calls as the text is long, and what it has then handed over is the text, each byte once and in its order.
pub write_all-write :
    (s : Bytes) (answers : Answers) (child : Child)
    → length s ≤ length answers
    → All Takes answers
    → write_all s answers child ≡ done (some (write s child))
unfolding write_all write
write_all-write s answers child enough h =
    rw (write_loop-take s 0 answers (omega arith) (omega arith) h) refl
