-- ===== src/Controller/Loop/Trace.antt =====
-- What the loop over the due events of a connected node does to the world, event by event.
use dhtperf.Prelude.{
  ℕ, zero, suc, ◌+◌, ◌<◌, ◌≡◌, refl, sym, ap, ◌∙◌, List, [], ◌∷◌, ◌++◌, map, none, some, arith,
  Bool, true, false, if◌then◌else◌, Outcome, done, ◌>>=◌, ◌||◌, ◌&&◌, ◌==◌, leb, inl, inr, ◌⊎◌,
  subst, Bool-cases, append_assoc, append-nil,
}
use dhtperf.Prelude.Int.{ℤ, pos, negsuc, ltb_ℤ, ◌≤ℤ◌}
use dhtperf.Protocol.{u32_mod}
use dhtperf.Events.{PutEvent, GetEvent, LeaveEvent}
use dhtperf.Metrics.Statistics.{Doubles}
use dhtperf.Metrics.Latency.{PosixTime}
use dhtperf.Controller.Operations.{Dht, Node}
use dhtperf.Controller.Loop.{
  Progress, going, finished, retrying, since_start, check_done, process_all,
}
use dhtperf.Controller.Loop.Batches.{checked_then, process_all-cons}
use dhtperf.Controller.Loop.Connected.{IsTotal, Has, Has-refl}

-- An event of a connected node.
pub data Due : Type 0 where
  put_due : PutEvent → Due
  get_due : GetEvent → Due
  leave_due : LeaveEvent → Due

unfoldable pub puts_in : List Due → ℕ
puts_in [] = 0
puts_in (put_due e ∷ xs) = suc (puts_in xs)
puts_in (get_due e ∷ xs) = puts_in xs
puts_in (leave_due e ∷ xs) = puts_in xs

unfoldable pub gets_in : List Due → ℕ
gets_in [] = 0
gets_in (put_due e ∷ xs) = gets_in xs
gets_in (get_due e ∷ xs) = suc (gets_in xs)
gets_in (leave_due e ∷ xs) = gets_in xs

unfoldable pub leaves_in : List Due → ℕ
leaves_in [] = 0
leaves_in (put_due e ∷ xs) = leaves_in xs
leaves_in (get_due e ∷ xs) = leaves_in xs
leaves_in (leave_due e ∷ xs) = suc (leaves_in xs)

counts-append :
    (xs ys : List Due)
    → (puts_in (xs ++ ys) ≡ puts_in xs + puts_in ys)
      × (gets_in (xs ++ ys) ≡ gets_in xs + gets_in ys)
      × (leaves_in (xs ++ ys) ≡ leaves_in xs + leaves_in ys)
unfolding puts_in gets_in leaves_in
counts-append [] ys = (omega arith, omega arith, omega arith)
counts-append (put_due e ∷ xs) ys = let (p, g, l) = counts-append xs ys in (omega (arith, p), g, l)
counts-append (get_due e ∷ xs) ys = let (p, g, l) = counts-append xs ys in (p, omega (arith, g), l)
counts-append (leave_due e ∷ xs) ys =
    let (p, g, l) = counts-append xs ys in (p, g, omega (arith, l))

-- DHTPERF_CHECK_DONE of a timer that was set to the duration.
up_at_zero :
    (duration : ℕ) (r : ℤ)
    → duration < u32_mod
    → r ≤ℤ pos duration
    → ((r ≤ℤ pos 0) × ((ltb_ℤ r (pos 0) || leb duration (since_start duration r)) ≡ true))
      ⊎ ((pos 1 ≤ℤ r) × ((ltb_ℤ r (pos 0) || leb duration (since_start duration r)) ≡ false))
unfolding since_start
up_at_zero duration (negsuc r) fits le = inl (omega arith, ground arith)
up_at_zero duration (pos zero) fits le = inl (omega arith, ground (arith, fits))
up_at_zero duration (pos (suc r)) fits le = inr (omega arith, ground (arith, fits, le))

module _ (d : Doubles) (clock : PosixTime) (dht : Dht clock) where
  open dht use {World, universal_time, remaining}

  abbrev pub seen : World → World
  seen w = (remaining w).1

  abbrev pub left_at : World → ℤ
  left_at w = (remaining w).0

  check_done-cases :
      (duration : ℕ) (v : World)
      → duration < u32_mod
      → left_at v ≤ℤ pos duration
      → ((left_at v ≤ℤ pos 0) × (check_done d clock dht duration v ≡ (none, seen v)))
        ⊎ ((pos 1 ≤ℤ left_at v)
            × (check_done d clock dht duration v
                ≡ (some (since_start duration (left_at v), left_at v), seen v)))
  unfolding check_done
  check_done-cases duration v fits le = elim (up_at_zero duration (left_at v) fits le) [
    | inl (up, e) ↦ inl (up, rw e refl)
    | inr (more, e) ↦ inr (more, rw e refl)
  ]

  -- What a list of events has made of a node: its counts, and whether it is connected.
  pub record Grown (n : Node d clock) (xs : List Due) (n' : Node d clock) : Type 0 where
    pub counts : Has d clock dht n n' (puts_in xs) (gets_in xs) (leaves_in xs)
    pub stays : n'.connected ≡ (n.connected && (leaves_in xs == 0))

  stays_trans :
      (a b c : Bool) (i j k : ℕ)
      → b ≡ (a && (i == 0))
      → c ≡ (b && (j == 0))
      → k ≡ i + j
      → c ≡ (a && (k == 0))
  stays_trans a b c i j k e f g = ground (arith, e, f, g)

  Grown-trans :
      (m n o : Node d clock) (xs ys : List Due) → Grown m xs n → Grown n ys o → Grown m (xs ++ ys) o
  Grown-trans m n o xs ys h k =
      let (p, g, l) = counts-append xs ys in
      record {
        counts = record {
          put_count = omega (arith, p, h.counts.put_count, k.counts.put_count);
          get_count = omega (arith, g, h.counts.get_count, k.counts.get_count);
          leave_count = omega (arith, l, h.counts.leave_count, k.counts.leave_count);
        };
        stays =
            stays_trans m.connected n.connected o.connected (leaves_in xs) (leaves_in ys)
              (leaves_in (xs ++ ys)) h.stays k.stays l;
      }

  Grown-refl : (n : Node d clock) → Grown n [] n
  unfolding puts_in gets_in leaves_in
  Grown-refl n = record { counts = Has-refl d clock dht n; stays = ground arith }

  module _ (total : IsTotal dht) where
    -- What the operation of the DHT leaves behind.
    unfoldable pub operated : Due → World → World
    operated (put_due e) w = (total.puts e w).0
    operated (get_due e) w = (total.gets e w).1
    operated (leave_due e) w = (total.leaves w).0

    -- An operation between its two readings of the clock, with the one of its measurement behind them.
    abbrev pub performed : Due → World → World
    performed x w = (universal_time (universal_time (operated x (universal_time w).1)).1).1

    -- The events that run from one world to another, with a look at the timer behind each of them. They
    -- stop where no time is left.
    pub data Runs : List Due → Bool → World → World → Type 0 where
      nothing : {w : World} → Runs [] false w w
      ends :
          {x : Due} {w : World}
          → left_at (performed x w) ≤ℤ pos 0
          → Runs (x ∷ []) true w (seen (performed x w))
      goes_on :
          {x : Due} {xs : List Due} {stopped : Bool} {w v : World}
          → pos 1 ≤ℤ left_at (performed x w)
          → Runs xs stopped (seen (performed x w)) v
          → Runs (x ∷ xs) stopped w v

    Runs-append :
        {xs ys : List Due} {b : Bool} {w u v : World}
        → Runs xs false w u
        → Runs ys b u v
        → Runs (xs ++ ys) b w v
    Runs-append nothing k = k
    Runs-append (goes_on more h) k = goes_on more (Runs-append h k)

    -- An outcome of the loop on a node, with the events that have run. Those that are left are none where it goes on.
    pub record Ran (xs : List Due) (n : Node d clock) (w : World)
        (o : Outcome (Progress ((ℕ × ℤ) × (Node d clock × World)))) : Type 0 where
      pub ran : List Due
      pub left : List Due
      pub whole : xs ≡ ran ++ left
      pub stopped : Bool
      pub end : World
      pub trace : Runs ran stopped w end
      pub complete : (stopped ≡ true) ⊎ (left ≡ [])
      pub times : ℕ × ℤ
      pub after : Node d clock
      pub ends_so :
          o ≡ done (if stopped then finished (times, (after, end)) else going (times, (after, end)))
      pub grown : Grown n ran after

    -- What follows where the loop goes on.
    abbrev pub followed :
        Outcome (Progress ((ℕ × ℤ) × (Node d clock × World)))
        → (ℕ × ℤ → Node d clock → World → Outcome (Progress ((ℕ × ℤ) × (Node d clock × World))))
        → Outcome (Progress ((ℕ × ℤ) × (Node d clock × World)))
    followed o k = o >>= λ p. elim p [
      | retrying ↦ done retrying
      | finished s ↦ done (finished s)
      | going (times, (n, w)) ↦ k times n w
    ]

    none_left :
        (stopped : Bool) (left : List Due)
        → stopped ≡ false
        → (stopped ≡ true) ⊎ (left ≡ [])
        → left ≡ []
    none_left stopped left f (inl t) = absurd (cc)
    none_left stopped left f (inr same) = same

    pub Ran-followed :
        (xs ys : List Due) (n : Node d clock) (w : World)
        (o : Outcome (Progress ((ℕ × ℤ) × (Node d clock × World))))
        (k : ℕ × ℤ → Node d clock → World → Outcome (Progress ((ℕ × ℤ) × (Node d clock × World))))
        (r : Ran xs n w o)
        → (r.stopped ≡ false → Ran ys r.after r.end (k r.times r.after r.end))
        → Ran (xs ++ ys) n w (followed o k)
    Ran-followed xs ys n w o k r next = elim (Bool-cases r.stopped) [
      | inl t ↦ record {
        ran = r.ran;
        left = r.left ++ ys;
        whole = ap (λ zs. zs ++ ys) r.whole ∙ append_assoc r.ran r.left ys;
        stopped = true;
        end = r.end;
        trace = subst (λ b. Runs r.ran b w r.end) t r.trace;
        complete = inl refl;
        times = r.times;
        after = r.after;
        ends_so = rw (r.ends_so, t) refl;
        grown = r.grown;
      }
      | inr f ↦
          (let s = next f in
            record {
              ran = r.ran ++ s.ran;
              left = s.left;
              whole =
                  ap (λ zs. zs ++ ys)
                    (r.whole
                      ∙ ap (λ zs. r.ran ++ zs) (none_left r.stopped r.left f r.complete)
                      ∙ append-nil r.ran)
                  ∙ ap (λ zs. r.ran ++ zs) s.whole
                  ∙ sym (append_assoc r.ran s.ran s.left);
              stopped = s.stopped;
              end = s.end;
              trace = Runs-append (subst (λ b. Runs r.ran b w r.end) f r.trace) s.trace;
              complete = s.complete;
              times = s.times;
              after = s.after;
              ends_so = rw (r.ends_so, f) s.ends_so;
              grown = Grown-trans n r.after s.after r.ran s.ran r.grown s.grown;
            })
    ]

    -- Events of one kind, each of which keeps what the next one needs of the node.
    module _ {E : Type 0} (embed : E → Due)
        (process : E → Node d clock → World → Outcome (Node d clock × World))
        (Good : List E → Node d clock → Type 0) where
      abbrev IsStep : Type 0
      IsStep =
          (e : E) (es : List E) (n : Node d clock) (w : World)
          → Good (e ∷ es) n
          → (n' : Node d clock) × (process e n w ≡ done (n', performed (embed e) w))
            × Grown n (embed e ∷ []) n'
            × Good es n'

      pub process_all-Ran :
          (duration : ℕ)
          → duration < u32_mod
          → ((v : World) → left_at v ≤ℤ pos duration)
          → IsStep
          → (es : List E) (times : ℕ × ℤ) (n : Node d clock) (w : World) → Good es n
          → (r : Ran (map embed es) n w (process_all d clock dht process duration es times n w))
            × (r.stopped ≡ false → Good [] r.after)
      unfolding process_all puts_in gets_in leaves_in
      process_all-Ran duration fits bounded step [] times n w good = (
        record {
          ran = [];
          left = [];
          whole = refl;
          stopped = false;
          end = w;
          trace = nothing;
          complete = inr refl;
          times = times;
          after = n;
          ends_so = refl;
          grown = Grown-refl n;
        },
        λ f. good,
      )
      process_all-Ran duration fits bounded step (e ∷ es) times n w good =
          let (n', ran, grown, good') = step e es n w good in
          let v : World = performed (embed e) w in
          let start = process_all-cons d clock dht process duration e es times n n' w v ran in
          elim (check_done-cases duration v fits (bounded v)) [
            | inl (up, checked) ↦ (
              record {
                ran = embed e ∷ [];
                left = map embed es;
                whole = refl;
                stopped = true;
                end = seen v;
                trace = ends up;
                complete = inl refl;
                times = times;
                after = n';
                ends_so =
                    start ∙ ap (checked_then d clock dht process duration es times n') checked;
                grown = grown;
              },
              λ f. absurd (cc),
            )
            | inr (more, checked) ↦
                (let (r, kept) =
                    process_all-Ran duration fits bounded step es
                      (since_start duration (left_at v), left_at v) n' (seen v) good' in
                  (
                    record {
                      ran = embed e ∷ r.ran;
                      left = r.left;
                      whole = ap (λ zs. embed e ∷ zs) r.whole;
                      stopped = r.stopped;
                      end = r.end;
                      trace = goes_on more r.trace;
                      complete = r.complete;
                      times = r.times;
                      after = r.after;
                      ends_so =
                          start
                          ∙ (ap (checked_then d clock dht process duration es times n') checked
                              ∙ r.ends_so);
                      grown = Grown-trans n n' r.after (embed e ∷ []) r.ran grown r.grown;
                    },
                    kept,
                  ))
          ]
