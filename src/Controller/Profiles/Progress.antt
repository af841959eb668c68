-- ===== src/Controller/Profiles/Progress.antt =====
-- What the times that scheduleNextEvent returns promise.
use dhtperf.Prelude.{
  ℕ, zero, suc, ◌+◌, ◌%◌, ◌≤◌, ◌≡◌, ◌≢◌, refl, ap, sym, ◌∙◌, subst, List, [], ◌∷◌, ◌++◌, Bytes, Any,
  Any-append, append_assoc, append-nil, Outcome, done, ◌>>=◌, >>=-eq-done, done-injective, ◌==◌,
  inl, inr, true, false, if◌then◌else◌, Bool, ◌⊎◌,
}
use dhtperf.Common.{DhtOperation, join, leave, put, get}
use dhtperf.Protocol.{u32_mod}
use dhtperf.Events.{time_of}
use dhtperf.Events.Queue.{push}
use dhtperf.Events.Queue.Laws.{pop_events_first, Any-zero-next}
use dhtperf.Controller.Utils.{Randomness, get_random_word, time_unit}
use dhtperf.Controller.Profiles.{
  Event, timed, Generator, exact, full_dictionary, no_events, n_times_random, now, interval,
  poisson_random, weibull_random, Profile, next_time, get_events,
}
use dhtperf.Controller.Profiles.Pushes.{push_now, push_words, push_repeated, push_random}
use dhtperf.Controller.Profiles.Schedule.{
  refill, returned, schedule_next_event, schedule_queued, schedule_interval, schedule_now,
  schedule_poisson, schedule_weibull,
}

-- A queue with more events at its end.
abbrev Extends : {E : Type 0} → List E → List E → Type 0
Extends {E} queue queue' = (more : List E) × (queue' ≡ queue ++ more)

Extends-refl : {E : Type 0} (queue : List E) → Extends queue queue
Extends-refl queue = ([], sym (append-nil queue))

push_now-Extends :
    (operation : DhtOperation) (time : ℕ) (queue queue' : List (Event operation))
    → push_now operation time queue ≡ done queue'
    → Extends queue queue'
unfolding push_now push
push_now-Extends join time queue queue' e =
    (record { time = time } ∷ [], sym (done-injective _ _ e))
push_now-Extends leave time queue queue' e =
    (record { time = time } ∷ [], sym (done-injective _ _ e))
push_now-Extends put time queue queue' e = absurd (cc)
push_now-Extends get time queue queue' e = absurd (cc)

module _ (random : Randomness) where
  open random use {World, Double, poisson, weibull}

  push_words-Extends :
      {E : Type 0} (make : Bytes → E) (n size : ℕ) (queue queue' : List E) (w w' : World)
      → push_words random make n size queue w ≡ done (queue', w')
      → Extends queue queue'
  unfolding push_words
  push_words-Extends make zero size queue queue' w w' e =
      ([], sym (ap (λ r. r.0) (done-injective _ _ e)) ∙ sym (append-nil queue))
  push_words-Extends make (suc n) size queue queue' w w' e =
      let ((word, u), drawn, f) = >>=-eq-done (get_random_word random size w) _ e in
      let (more, g) = push_words-Extends make n size (queue ++ make word ∷ []) queue' u w' f in
      (make word ∷ more, g ∙ append_assoc queue (make word ∷ []) more)

  push_repeated-Extends :
      (operation : DhtOperation) (size n time : ℕ) (queue queue' : List (Event operation))
      (w w' : World)
      → push_repeated random operation size n time queue w ≡ done (queue', w')
      → Extends queue queue'
  unfolding push_repeated
  push_repeated-Extends join size n time queue queue' w w' e = absurd (cc)
  push_repeated-Extends leave size n time queue queue' w w' e = absurd (cc)
  push_repeated-Extends put size n time queue queue' w w' e =
      push_words-Extends _ n size queue queue' w w' e
  push_repeated-Extends get size n time queue queue' w w' e =
      push_words-Extends _ n size queue queue' w w' e

  push_random-Extends :
      (operation : DhtOperation) (size time : ℕ) (queue queue' : List (Event operation))
      (w w' : World)
      → push_random random operation size time queue w ≡ done (queue', w')
      → Extends queue queue'
  unfolding push_random push
  push_random-Extends join size time queue queue' w w' e =
      (record { time = time } ∷ [], sym (ap (λ r. r.0) (done-injective _ _ e)))
  push_random-Extends leave size time queue queue' w w' e =
      (record { time = time } ∷ [], sym (ap (λ r. r.0) (done-injective _ _ e)))
  push_random-Extends put size time queue queue' w w' e =
      let ((word, u), drawn, f) = >>=-eq-done (get_random_word random size w) _ e in
      (_, sym (ap (λ r. r.0) (done-injective _ _ f)))
  push_random-Extends get size time queue queue' w w' e =
      let ((word, u), drawn, f) = >>=-eq-done (get_random_word random size w) _ e in
      (_, sym (ap (λ r. r.0) (done-injective _ _ f)))

  module _ (operation : DhtOperation) where
    -- A push that is made under a test.
    tested_push :
        {A : Type 0} (test : Bool) (queue : List (Event operation)) (push_of : Outcome A)
        (pushed : A → Profile Double operation × World) (same : Profile Double operation × World)
        (p' : Profile Double operation) (w' : World)
        → same.0.queue ≡ queue
        → ((a : A) → push_of ≡ done a → Extends queue (pushed a).0.queue)
        → (if test then (push_of >>= λ a. done (pushed a)) else done same) ≡ done (p', w')
        → Extends queue p'.queue
    tested_push true queue push_of pushed same p' w' keeps h e =
        let (a, ran, f) = >>=-eq-done push_of (λ b. done (pushed b)) e in
        subst (λ r. Extends queue r.0.queue) (done-injective _ _ f) (h a ran)
    tested_push false queue push_of pushed same p' w' keeps h e =
        ([], ap (λ r. r.0.queue) (sym (done-injective _ _ e)) ∙ (keeps ∙ sym (append-nil queue)))

    untouched :
        (p p' : Profile Double operation) (w w' : World)
        → ◌≡◌ {A = Outcome (Profile Double operation × World)} (done (p, w)) (done (p', w'))
        → Extends p.queue p'.queue
    untouched p p' w w' e =
        ([], ap (λ r. r.0.queue) (sym (done-injective _ _ e)) ∙ sym (append-nil p.queue))

    refill-Extends :
        (g : Generator Double) (queue : List (Event operation)) (w w' : World) (t : ℕ)
        (p' : Profile Double operation)
        → refill random operation g queue w t ≡ done (p', w')
        → Extends queue p'.queue
    unfolding refill schedule_queued schedule_interval schedule_now schedule_poisson
        schedule_weibull
    refill-Extends exact queue w w' t p' e = untouched _ p' w w' e
    refill-Extends full_dictionary queue w w' t p' e = untouched _ p' w w' e
    refill-Extends no_events queue w w' t p' e = untouched _ p' w w' e
    refill-Extends (n_times_random size) queue w w' t p' e = untouched _ p' w w' e
    refill-Extends now queue w w' t p' e =
        tested_push (next_time operation queue == 0) queue (push_now operation t queue)
          (λ q. (record { generator = now; queue = q }, w))
          (record { generator = now; queue = queue }, w) p' w' refl
          (λ q ran. push_now-Extends operation t queue q ran) e
    refill-Extends (interval size last frequency repetitions) queue w w' t p' e =
        let next = (last + frequency) % u32_mod in
        tested_push (next_time operation queue == 0) queue
          (push_repeated random operation size repetitions next queue w)
          (λ (q, u).
            (record { generator = interval size next frequency repetitions; queue = q }, u))
          (record { generator = interval size last frequency repetitions; queue = queue }, w) p' w'
          refl (λ (q, u) ran. push_repeated-Extends operation size repetitions next queue q w u ran)
          e
    refill-Extends (poisson_random size lambda last) queue w w' t p' e =
        let next = (last + time_unit (poisson lambda w).0) % u32_mod in
        let v = (poisson lambda w).1 in
        tested_push (next_time operation queue == 0) queue
          (push_random random operation size next queue v)
          (λ (q, u). (record { generator = poisson_random size lambda next; queue = q }, u))
          (record { generator = poisson_random size lambda last; queue = queue }, w) p' w' refl
          (λ (q, u) ran. push_random-Extends operation size next queue q v u ran) e
    refill-Extends (weibull_random size shape scale) queue w w' t p' e =
        let next = (t + time_unit (weibull shape scale w).0) % u32_mod in
        let v = (weibull shape scale w).1 in
        tested_push (next_time operation queue == 0) queue
          (push_random random operation size next queue v)
          (λ (q, u). (record { generator = weibull_random size shape scale; queue = q }, u))
          (record { generator = weibull_random size shape scale; queue = queue }, w) p' w' refl
          (λ (q, u) ran. push_random-Extends operation size next queue q v u ran) e

    scheduled :
        (p p' : Profile Double operation) (w w' : World) (current_time t : ℕ)
        → schedule_next_event random operation (p, w) current_time ≡ done (t, (p', w'))
        → Extends p.queue p'.queue × (t ≡ returned random operation p'.generator p'.queue)
    unfolding schedule_next_event
    scheduled p p' w w' current_time t e =
        let ((q, v), ran, f) =
          >>=-eq-done (refill random operation p.generator p.queue w current_time) _ e in
        let same = done-injective _ _ f in
        (
          subst (λ r. Extends p.queue r.1.0.queue) same
              (refill-Extends p.generator p.queue w v current_time q ran),
          subst (λ r. r.0 ≡ returned random operation r.1.0.generator r.1.0.queue) same refl,
        )

    returned-next_time :
        (g : Generator Double) (queue : List (Event operation))
        → (returned random operation g queue ≡ 0)
          ⊎ (returned random operation g queue ≡ next_time operation queue)
    unfolding returned
    returned-next_time exact queue = inr refl
    returned-next_time full_dictionary queue = inr refl
    returned-next_time no_events queue = inl refl
    returned-next_time (n_times_random size) queue = inr refl
    returned-next_time now queue = inr refl
    returned-next_time (interval size last frequency repetitions) queue = inr refl
    returned-next_time (poisson_random size lambda last) queue = inr refl
    returned-next_time (weibull_random size shape scale) queue = inr refl

    -- Whatever the class of the profile: if scheduleNextEvent returns a time other than 0, then getEvents at that time or
    -- any later one returns at least one event, the first of them with that time.
    pub schedule_next_event-get_events :
        (p p' : Profile Double operation) (w w' : World) (current_time t later : ℕ)
        → schedule_next_event random operation (p, w) current_time ≡ done (t, (p', w'))
        → t ≢ 0
        → t ≤ later
        → (e : Event operation) × (es : List (Event operation)) × ((get_events operation later p').0
            ≡ e ∷ es)
          × (time_of ⦃t = timed operation⦄ e ≡ t)
    unfolding get_events next_time
    schedule_next_event-get_events p p' w w' current_time t later e nonzero le =
        let (grown, same) = scheduled p p' w w' current_time t e in
        elim (returned-next_time p'.generator p'.queue) [
          | inl zero_time ↦ absurd (nonzero (same ∙ zero_time))
          | inr next ↦
              let at : t ≡ next_time operation p'.queue = same ∙ next in
              let (first, rest, found, time) =
                pop_events_first ⦃t = timed operation⦄ later p'.queue
                  (subst (λ n. n ≢ 0) at nonzero) (subst (λ n. n ≤ later) at le) in
              (first, rest, found, time ∙ sym at)
        ]

    -- An event at time 0 silences its profile: from a queue that holds one, scheduleNextEvent of any class
    -- returns 0, which stands for no event, whatever the current time; and the event is still in the queue, as it was for the call.
    pub schedule_next_event_silenced :
        (p p' : Profile Double operation) (w w' : World) (current_time t : ℕ)
        → Any (λ e. time_of ⦃t = timed operation⦄ e ≡ 0) p.queue
        → schedule_next_event random operation (p, w) current_time ≡ done (t, (p', w'))
        → (t ≡ 0) × Any (λ e. time_of ⦃t = timed operation⦄ e ≡ 0) p'.queue
    unfolding next_time
    schedule_next_event_silenced p p' w w' current_time t zero_event e =
        let ((more, grown), same) = scheduled p p' w w' current_time t e in
        let still =
          subst (Any (λ a. time_of ⦃t = timed operation⦄ a ≡ 0)) (sym grown)
            (Any-append (λ a. time_of ⦃t = timed operation⦄ a ≡ 0) p.queue more zero_event) in
        (
          elim (returned-next_time p'.generator p'.queue) [
            | inl zero_time ↦ same ∙ zero_time
            | inr next ↦ same ∙ (next ∙ Any-zero-next ⦃t = timed operation⦄ p'.queue still)
          ],
          still,
        )
