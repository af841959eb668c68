-- ===== src/Prelude/Buffers.antt =====
-- memcpy into a std::vector<char>, and the reads memcpy(&x, &body[off], n) and
-- std::string(&body[off], n). An access past the end of the vector is undefined behaviour.
use Prim.Native.Nat.{ℕ, ◌+◌, ◌-◌, ◌≤◌}
use mathlib.Core.Path.{◌≡◌, sym, ap}
use mathlib.Core.List.{◌++◌, append_assoc}
use native.Mathlib.Omega.{arith}
use dhtperf.Prelude.Tests.{leb, le→leb, if◌then◌else◌}
use dhtperf.Prelude.Lists.{
  Bytes, length, take, drop, replicate, length-append, length-replicate, length-take, length-drop,
  take-append_left, drop-append_left, drop-drop, drop-replicate,
}
use dhtperf.Prelude.Outcomes.{Outcome, done, faults}

unfoldable pub memcpy : Bytes → ℕ → Bytes → Outcome Bytes
memcpy buf off src =
    if leb (off + length src) (length buf)
    then done (take off buf ++ (src ++ drop (off + length src) buf))
    else faults

unfoldable pub read_at : Bytes → ℕ → ℕ → Outcome Bytes
read_at buf off n = if leb (off + n) (length buf) then done (take n (drop off buf)) else faults

-- A write at the end of what is written so far extends it, if there is room.
pub memcpy_fill :
    (front src : Bytes) (off k : ℕ)
    → off ≡ length front
    → length src ≤ k
    → memcpy (front ++ replicate k 0) off src
      ≡ done ((front ++ src) ++ replicate (k - length src) 0)
unfolding memcpy
memcpy_fill front src off k e h =
    rw
      (
        le→leb _ _ fits,
        take-append_left front _ off e,
        ← drop-drop off (length src) (front ++ replicate k 0),
        drop-append_left front (replicate k 0) off e,
        drop-replicate {A = ℕ} (length src) k 0,
      )
      (ap done (sym (append_assoc front src _)))
  where
    fits : off + length src ≤ length (front ++ replicate k 0)
    fits = omega (arith, length-append front (replicate k 0), length-replicate {A = ℕ} k 0)

-- A read of a middle part.
pub read_at_middle :
    (front mid back : Bytes) (off n : ℕ)
    → off ≡ length front
    → n ≡ length mid
    → read_at (front ++ (mid ++ back)) off n ≡ done mid
unfolding read_at
read_at_middle front mid back off n e f =
    rw (le→leb _ _ fits, drop-append_left front _ off e, take-append_left mid back n f)
  where
    fits : off + n ≤ length (front ++ (mid ++ back))
    fits = omega (arith, length-append front (mid ++ back), length-append mid back)

-- What a read that is in bounds returns.
pub read_at_inv :
    (buf : Bytes) (off n : ℕ) {s : Bytes}
    → read_at buf off n ≡ done s
    → (off + n ≤ length buf) × (s ≡ take n (drop off buf)) × (length s ≡ n)
unfolding read_at
read_at_inv buf off n h = ground (arith, length-take n (drop off buf), length-drop off buf)
