-- ===== src/Protocol/Words.antt =====
-- Words in memory, as memcpy and the casts of src/protocol.cpp see them on a little-endian machine.
use dhtperf.Prelude.{
  ℕ, zero, suc, ◌+◌, ◌*◌, ◌/◌, ◌%◌, ◌^◌, ◌<◌, [], ◌∷◌, ◌≡◌, refl, ap, arith, Bytes, length, All,
}
use native.Mathlib.Nat.{pow-suc}

-- The low `k` bytes of a number.
unfoldable pub le_bytes : ℕ → ℕ → Bytes
le_bytes zero n = []
le_bytes (suc k) n = n % 256 ∷ le_bytes k (n / 256)

unfoldable pub of_le_bytes : Bytes → ℕ
of_le_bytes [] = 0
of_le_bytes (b ∷ bs) = b + 256 * of_le_bytes bs

abbrev pub IsByte : ℕ → Type 0
IsByte b = b < 256

pub length-le_bytes : (k n : ℕ) → length (le_bytes k n) ≡ k
unfolding le_bytes
length-le_bytes zero n = refl
length-le_bytes (suc k) n = ap suc (length-le_bytes k (n / 256))

pub le_bytes-IsByte : (k n : ℕ) → All IsByte (le_bytes k n)
unfolding le_bytes
le_bytes-IsByte zero n = tt
le_bytes-IsByte (suc k) n = (omega arith, le_bytes-IsByte k (n / 256))

pub of_le_bytes-le_bytes : (k n : ℕ) → n < 256 ^ k → of_le_bytes (le_bytes k n) ≡ n
unfolding le_bytes of_le_bytes
of_le_bytes-le_bytes zero n h = omega arith
of_le_bytes-le_bytes (suc k) n h = omega (arith, of_le_bytes-le_bytes k (n / 256) (omega arith))

pub le_bytes-of_le_bytes :
    (bs : Bytes) (k : ℕ) → length bs ≡ k → All IsByte bs → le_bytes k (of_le_bytes bs) ≡ bs
unfolding le_bytes of_le_bytes
le_bytes-of_le_bytes [] zero e h = refl
le_bytes-of_le_bytes [] (suc k) e h = absurd (omega arith)
le_bytes-of_le_bytes (b ∷ bs) zero e h = absurd (omega arith)
le_bytes-of_le_bytes (b ∷ bs) (suc k) e h =
    ground (arith, le_bytes-of_le_bytes bs k (omega arith) h.1)

pub of_le_bytes-lt : (bs : Bytes) → All IsByte bs → of_le_bytes bs < 256 ^ length bs
unfolding of_le_bytes
of_le_bytes-lt [] h = omega arith
of_le_bytes-lt (b ∷ bs) h = omega (arith, of_le_bytes-lt bs h.1, pow-suc 256 (length bs))
