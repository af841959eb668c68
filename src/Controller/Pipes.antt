-- ===== src/Controller/Pipes.antt =====
-- src/controller/dhtnodes/RWPopen.cpp: the pipes to a child process. The child is given by the bytes that it has still to
-- write before it ends; what is written to it is kept. Calls of the operating system succeed.
pub mod Writes
pub mod Descriptors
use dhtperf.Prelude.{
  [], ◌∷◌, ◌++◌, Bytes, ◌==◌, if◌then◌else◌, Option, none, some, Outcome, done, faults, ◌>>=◌,
}

pub record Child : Type 0 where
  pub incoming : Bytes
  pub written : Bytes

unfoldable pub write : Bytes → Child → Child
write s child = record child { written = child.written ++ s }

-- The end of a line: a '\r' at its end is taken off. For an empty line the program looks at the character before the first.
unfoldable pub strip_return : Bytes → Option Bytes
strip_return [] = none
strip_return (c ∷ []) = some (if c == 13 then [] else c ∷ [])
strip_return (c ∷ d ∷ s) = elim (strip_return (d ∷ s)) [ none ↦ none | some t ↦ some (c ∷ t) ]

-- The loop of readline: none where it throws RWPopenEOF.
unfoldable pub read_loop : Bytes → Bytes → Outcome (Option (Bytes × Bytes))
unfolding strip_return
read_loop ret [] = done none
read_loop ret (c ∷ s) =
    let more = read_loop (ret ++ c ∷ []) s in
    if c == 10
    then elim (strip_return ret) [ none ↦ faults | some line ↦ done (some (line, s)) ]
    else more

unfoldable pub readline : Child → Outcome (Option (Bytes × Child))
unfolding read_loop
readline child = read_loop [] child.incoming >>= λ r. elim r [
  | none ↦ done none
  | some (line, rest) ↦ done (some (line, record child { incoming = rest }))
]
