-- ===== src/Master/Start/Ports.antt =====
-- Which start message every controller gets.
use dhtperf.Prelude.{
  ℕ, zero, suc, ◌+◌, ◌-◌, ◌%◌, ◌<◌, ◌≤◌, ◌≡◌, ◌≢◌, refl, sym, ap, ◌∙◌, List, [], ◌∷◌, ◌++◌, Bytes,
  true, none, some, get_elem?, length, str_eq, str_eq_iff, ◌==◌, if◌then◌else◌, arith, lookup,
  insert, lookup-insert, text_keys, done, length-append, length-take, append_assoc, append-nil,
  take, some-injective,
}
use dhtperf.Protocol.{Message, start, u16_mod, u32_mod}
use dhtperf.Protocol.Wire.{body, length-body-start}
use dhtperf.Master.Controllers.{Controller, after_sending, send-after_sending}
use dhtperf.Master.Start.{count_node, entry_host, send_start_loop, send_starts}

-- How many of the first controllers have an address.
unfoldable pub on_host : Bytes → List Controller → ℕ
on_host host [] = 0
on_host host (c ∷ cs) = if str_eq c.host host then suc (on_host host cs) else on_host host cs

-- The start message for a controller behind those of `before`.
unfoldable pub start_for : ℕ → Bytes → List Controller → Controller → Message
start_for duration entry before c =
    start duration (if length before == 0 then [] else entry) 0 (on_host c.host before % u16_mod)

unfoldable pub started : ℕ → Bytes → List Controller → List Controller → List Controller
unfolding start_for
started duration entry before [] = []
started duration entry before (c ∷ cs) =
    record (after_sending (start_for duration entry before c) c) { waiting = true }
    ∷ started duration entry (before ++ c ∷ []) cs

-- nodesPerHost counts the controllers that the loop has passed.
Counts : List (Bytes × ℕ) → List Controller → Type 0
Counts m before =
    (h : Bytes) → lookup h m ≡ (if on_host h before == 0 then none else some (on_host h before))

on_host-append :
    (h : Bytes) (before : List Controller) (c : Controller)
    → on_host h (before ++ c ∷ [])
      ≡ (if str_eq c.host h then on_host h before + 1 else on_host h before)
unfolding on_host
on_host-append h [] c = ground arith
on_host-append h (b ∷ before) c = ground (arith, on_host-append h before c)

count_node-on_host :
    (m : List (Bytes × ℕ)) (before : List Controller) (h : Bytes)
    → Counts m before
    → count_node m h ≡ on_host h before + 1
unfolding count_node Counts
count_node-on_host m before h counts = ground (arith, counts h)

Counts-insert :
    (m : List (Bytes × ℕ)) (before : List Controller) (c : Controller)
    → Counts m before
    → Counts (insert c.host (on_host c.host before + 1) m) (before ++ c ∷ [])
unfolding Counts
Counts-insert m before c counts h = ground (
  arith,
  counts h,
  lookup-insert c.host h (on_host c.host before + 1) m,
  on_host-append h before c,
  str_eq_iff c.host h,
)

send_start_loop-started :
    (duration : ℕ) (entry : Bytes) (m : List (Bytes × ℕ)) (before cs : List Controller)
    → length entry + 8 < u32_mod
    → Counts m before
    → send_start_loop duration entry (length before) m cs ≡ done (started duration entry before cs)
unfolding send_start_loop started
send_start_loop-started duration entry m before [] short counts = refl
send_start_loop-started duration entry m before (c ∷ cs) short counts =
    let n = on_host c.host before in
    let next = length-append before (c ∷ []) in
    let same : n + 1 - 1 ≡ n = omega arith in
    let place : length before + 1 ≡ length (before ++ c ∷ []) = omega (arith, next) in
    rw
      (
        count_node-on_host m before c.host counts,
        same,
        send-after_sending (start_for duration entry before c) c (fits (length before)),
        place,
        send_start_loop-started duration entry (insert c.host (n + 1) m) (before ++ c ∷ []) cs short
            (Counts-insert m before c counts),
      )
      refl
  where
    fits :
        (i : ℕ)
        → length (
            body
              (start duration (if i == 0 then [] else entry) 0 (on_host c.host before % u16_mod)))
          < u32_mod
    fits i = ground (
      arith,
      length-body-start duration (if i == 0 then [] else entry) 0 (on_host c.host before % u16_mod),
    )

started-get_elem? :
    (duration : ℕ) (entry : Bytes) (before cs : List Controller) (i : ℕ) (c : Controller)
    → get_elem? cs i ≡ some c
    → get_elem? (started duration entry before cs) i
      ≡ some (record (after_sending (start_for duration entry (before ++ take i cs) c) c) {
        waiting = true;
      })
unfolding started
started-get_elem? duration entry before [] i c e = absurd (ground arith)
started-get_elem? duration entry before (b ∷ cs) zero c e =
    let same : b ≡ c = some-injective b c e in rw (same, append-nil) refl
started-get_elem? duration entry before (b ∷ cs) (suc i) c e =
    started-get_elem? duration entry (before ++ b ∷ []) cs i c e
    ∙ rw (append_assoc before (b ∷ []) (take i cs)) refl

-- If the address of controller 0 is shorter than 2 ^ 32 - 8 bytes, sendStartMessages succeeds,
-- sends to each controller one start message and waits for its reports: the message names no entry
-- point for controller 0 and the address of controller 0 for every other one, always with port
-- offset 0, and as the controller's own port offset, modulo 2 ^ 16, the number of earlier
-- controllers at its address.
pub send_starts_lem :
    (duration : ℕ) (cs : List Controller)
    → length (entry_host cs) + 8 < u32_mod
    → (cs' : List Controller) × (send_starts duration cs ≡ done cs')
      × ((i : ℕ) (c : Controller)
          → get_elem? cs i ≡ some c
          → get_elem? cs' i
            ≡ some (record (after_sending (start_for duration (entry_host cs) (take i cs) c) c) {
              waiting = true;
            }))
unfolding send_starts Counts on_host lookup
send_starts_lem duration cs short = (
  started duration (entry_host cs) [] cs,
  send_start_loop-started duration (entry_host cs) [] [] cs short (λ h. refl),
  λ i c e. started-get_elem? duration (entry_host cs) [] cs i c e,
)

on_host-le : (h : Bytes) (cs : List Controller) → on_host h cs ≤ length cs
unfolding on_host
on_host-le h [] = omega arith
on_host-le h (c ∷ cs) = ground (arith, on_host-le h cs)

on_host_grows :
    (h : Bytes) (cs : List Controller) (i j : ℕ) (a : Controller)
    → get_elem? cs i ≡ some a
    → a.host ≡ h
    → i < j
    → on_host h (take i cs) < on_host h (take j cs)
unfolding on_host
on_host_grows h [] i j a e same lt = absurd (ground arith)
on_host_grows h (c ∷ cs) zero zero a e same lt = absurd (omega arith)
on_host_grows h (c ∷ cs) zero (suc j) a e same lt =
    ground (arith, str_eq_iff c.host h, some-injective c a e)
on_host_grows h (c ∷ cs) (suc i) zero a e same lt = absurd (omega arith)
on_host_grows h (c ∷ cs) (suc i) (suc j) a e same lt =
    ground (arith, on_host_grows h cs i j a e same (omega arith))

-- The port offset that the start message of controller i carries.
abbrev pub own_offset : List Controller → ℕ → Controller → ℕ
own_offset cs i c = on_host c.host (take i cs) % u16_mod

-- Among the first 65536 controllers no two at one address get the same port offset.
pub own_offset_unique :
    (cs : List Controller) (i j : ℕ) (a b : Controller)
    → get_elem? cs i ≡ some a
    → get_elem? cs j ≡ some b
    → a.host ≡ b.host
    → i < j
    → j < u16_mod
    → own_offset cs i a ≢ own_offset cs j b
own_offset_unique cs i j a b ea eb same lt small clash =
    let grows = on_host_grows a.host cs i j a ea refl lt in
    let bound = on_host-le a.host (take j cs) in
    let size = length-take j cs in
    let meet : on_host a.host (take i cs) % u16_mod ≡ on_host a.host (take j cs) % u16_mod =
      clash ∙ ap (λ h. on_host h (take j cs) % u16_mod) (sym same) in
    omega (arith, grows, bound, size, meet)
