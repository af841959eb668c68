-- ===== src/Protocol/Strictness/Parts.antt =====
-- Bodies as fromBits of src/protocol.cpp gets them, and the parts that it reads of them.
use dhtperf.Prelude.{
  ℕ, ◌+◌, ◌<◌, ◌≡◌, refl, sym, ap, ◌∙◌, ◌++◌, [], ◌∷◌, Bytes, length, take, drop, take-append-drop,
  drop-drop, All, All-take, All-drop, some, done, read_at, read_at_inv, ◌==◌, arith, >>=-eq-done,
  Bool-cases, Option-cases, inl, inr,
}
use dhtperf.Protocol.{Message, MessageHeader, opcode, u32_mod}
use dhtperf.Protocol.Words.{le_bytes, of_le_bytes, IsByte, le_bytes-of_le_bytes}
use dhtperf.Protocol.Decode.{find_separator, read_word}
use dhtperf.Protocol.Wire.{body}

-- A body as it arrives: bytes, as many as the header says.
pub record IsReceived (h : MessageHeader) (b : Bytes) : Type 0 where
  pub bytes : All IsByte b
  pub sized : length b ≡ h.body_size
  pub word : h.body_size < u32_mod

module _ (b : Bytes) (bytes : All IsByte b) where
  -- A word that was read prints back to the bytes that it was read from.
  pub read_bytes :
      (off k : ℕ) {s : Bytes}
      → read_at b off k ≡ done s
      → le_bytes k (of_le_bytes s) ≡ take k (drop off b)
  read_bytes off k {s} h =
      let (fits, part, size) = read_at_inv b off k h in
      rw part (
        le_bytes-of_le_bytes (take k (drop off b)) k (ap length (sym part) ∙ size)
          (All-take IsByte k _ (All-drop IsByte off b bytes)))

  pub read_word_bytes :
      (off : ℕ) {n : ℕ} → read_word b off ≡ done n → le_bytes 4 n ≡ take 4 (drop off b)
  unfolding read_word
  read_word_bytes off {n} h =
      let (s, read, value) = >>=-eq-done (read_at b off 4) (λ s. done (of_le_bytes s)) h in
      let same : n ≡ of_le_bytes s = cc value in rw same (read_bytes off 4 read)

-- The parts of a text between two offsets, joined.
pub join_parts : (b : Bytes) (off k : ℕ) → take k (drop off b) ++ drop (off + k) b ≡ drop off b
join_parts b off k = rw (← drop-drop off k b) (take-append-drop k (drop off b))

pub nil_of_length : (b : Bytes) → length b ≡ 0 → b ≡ []
nil_of_length [] e = refl
nil_of_length (x ∷ b) e = absurd (omega arith)

pub find_separator_inv :
    (c : ℕ) (b : Bytes) {x y : Bytes} → find_separator c b ≡ some (x, y) → b ≡ x ++ c ∷ y
unfolding find_separator
find_separator_inv c [] h = cc
find_separator_inv c (a ∷ b) h = elim (Bool-cases (a == c)) [
  | inl e ↦ ground arith
  | inr e ↦ elim (Option-cases (find_separator c b)) [
    | inl f ↦ ground arith
    | inr ((x, y), f) ↦ ground (arith, find_separator_inv c b f)
  ]
]

-- The message that was decoded, and what it says of the header.
abbrev pub Strict : ℕ → Bytes → Message → Type 0
Strict op b m = (body m ≡ b) × (opcode m ≡ op)
