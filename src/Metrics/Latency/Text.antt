-- ===== src/Metrics/Latency/Text.antt =====
-- NodeLatency::toString, and the constructor that reads its text.
use dhtperf.Prelude.{
  ◌≡◌, ◌≢◌, refl, ap, ◌∙◌, List, [], ◌∷◌, ◌++◌, map, Bytes, some, true, false, All, done,
  append_assoc, append-nil,
}
use dhtperf.Prelude.Int.{ℤ, pos}
use dhtperf.Common.{Boost}
use dhtperf.Metrics.Statistics.{Doubles, Statistics, long_int, new_statistics, push, push_all}
use dhtperf.Metrics.Latency.{
  PosixTime, or_throw, NodeLatency, new_latency, measure, push_with_time, read_measurements,
  from_string, print_measurements, to_string,
}

-- A text that is not empty and has no space.
abbrev pub IsWord : Bytes → Type 0
IsWord word = (word ≢ []) × All (λ c. c ≢ b' ') word

-- The words with a space between them.
abbrev pub unwords : List Bytes → Bytes
unwords [] = []
unwords (w ∷ []) = w
unwords (w ∷ v ∷ ws) = w ++ (b' ' ∷ unwords (v ∷ ws))

-- What the code relies on: boost::split cuts a text at its spaces, and the texts of boost::posix_time are words that
-- are read back.
pub record TextLaws (boost : Boost) (clock : PosixTime) : Type 0 where
  pub split_nothing : boost.split (b' ' ∷ []) [] ≡ [] ∷ []
  pub split_words :
      (w : Bytes) (ws : List Bytes)
      → All IsWord (w ∷ ws)
      → boost.split (b' ' ∷ []) (unwords (w ∷ ws)) ≡ w ∷ ws
  pub iso_word : (t : clock.Ptime) → IsWord (clock.to_iso_string t)
  pub iso_back : (t : clock.Ptime) → clock.from_iso_string (clock.to_iso_string t) ≡ some t
  pub simple_word : (x : clock.Duration) → IsWord (clock.to_simple_string x)
  pub simple_back :
      (x : clock.Duration) → clock.duration_from_string (clock.to_simple_string x) ≡ some x

module _ (d : Doubles) (clock : PosixTime) where
  open clock use {
    Ptime, Duration, before, total_microseconds, to_iso_string, to_simple_string, from_iso_string,
  }

  -- The keys of a std::map stand in their order.
  abbrev pub Follows : Ptime → List (Ptime × Duration) → Type 0
  Follows t = All (λ entry. (before t entry.0 ≡ true) × (before entry.0 t ≡ false))

  abbrev pub Ordered : List (Ptime × Duration) → Type 0
  Ordered [] = Unit {0}
  Ordered ((t, x) ∷ m) = Follows t m × Ordered m

  words_of : List (Ptime × Duration) → List Bytes
  words_of [] = []
  words_of ((t, x) ∷ m) = to_iso_string t ∷ to_simple_string x ∷ words_of m

  abbrev pub micros : List (Ptime × Duration) → List ℤ
  micros m = map (λ (entry : Ptime × Duration). total_microseconds entry.1) m

  -- A time behind all others goes to the end of the map.
  measure-append :
      (t : Ptime) (x : Duration) (m : List (Ptime × Duration))
      → All (λ entry. (before entry.0 t ≡ true) × (before t entry.0 ≡ false)) m
      → measure d clock t x m ≡ m ++ (t, x) ∷ []
  unfolding measure
  measure-append t x [] h = refl
  measure-append t x ((s, y) ∷ m) ((first, second), h) =
      rw (first, second) (ap (λ r. (s, y) ∷ r) (measure-append t x m h))

  -- Every entry of m stands before all of those of k.
  abbrev Precedes : List (Ptime × Duration) → List (Ptime × Duration) → Type 0
  Precedes m k = All (λ entry. Follows entry.0 k) m

  Precedes-head :
      (m : List (Ptime × Duration)) (t : Ptime) (x : Duration) (k : List (Ptime × Duration))
      → Precedes m ((t, x) ∷ k)
      → All (λ entry. (before entry.0 t ≡ true) × (before t entry.0 ≡ false)) m
  Precedes-head [] t x k h = tt
  Precedes-head (e ∷ m) t x k (h, hs) = (h.0, Precedes-head m t x k hs)

  Precedes-tail :
      (m : List (Ptime × Duration)) (t : Ptime) (x : Duration) (k : List (Ptime × Duration))
      → Precedes m ((t, x) ∷ k)
      → Follows t k
      → Precedes (m ++ (t, x) ∷ []) k
  Precedes-tail [] t x k h f = (f, tt)
  Precedes-tail (e ∷ m) t x k (h, hs) f = (h.1, Precedes-tail m t x k hs f)

  module _ (boost : Boost) (laws : TextLaws boost clock) where
    -- The constructor's loop on a text that is not empty.
    read_word :
        (t : Ptime) (x : Duration) (texts : List Bytes) (n : NodeLatency d clock)
        → read_measurements d clock (to_iso_string t ∷ to_simple_string x ∷ texts) n
          ≡ read_measurements d clock texts (push_with_time d clock t x n)
    read_word t x texts n = non_empty (to_iso_string t) ((laws.iso_word t).0) (laws.iso_back t)
      where
        non_empty :
            (word : Bytes)
            → word ≢ []
            → from_iso_string word ≡ some t
            → read_measurements d clock (word ∷ to_simple_string x ∷ texts) n
              ≡ read_measurements d clock texts (push_with_time d clock t x n)
        non_empty [] some_text back = absurd (some_text refl)
        non_empty (c ∷ s) some_text back =
            unfold read_measurements in rw (back, or_throw, laws.simple_back x) refl

    read_words :
        (m k : List (Ptime × Duration)) (s : Statistics d.Double ℤ)
        → Precedes m k
        → Ordered k
        → read_measurements d clock (words_of k) (record { measurements = m; statistics = s })
          ≡ done
              (record { measurements = m ++ k; statistics = push_all d (long_int d) (micros k) s })
    unfolding words_of read_measurements push_all
    read_words m [] s p o = rw append-nil
    read_words m ((t, x) ∷ k) s p (f, o) =
        read_word t x (words_of k) (record { measurements = m; statistics = s })
        ∙ (unfold push_with_time in
            rw (measure-append t x m (Precedes-head m t x k p)) (
              read_words (m ++ (t, x) ∷ []) k (push d (long_int d) (total_microseconds x) s)
                (Precedes-tail m t x k p f) o
              ∙ rw append_assoc refl))

    words_of-IsWord : (m : List (Ptime × Duration)) → All IsWord (words_of m)
    unfolding words_of
    words_of-IsWord [] = tt
    words_of-IsWord ((t, x) ∷ m) = (laws.iso_word t, (laws.simple_word x, words_of-IsWord m))

    print_measurements-unwords :
        (m : List (Ptime × Duration)) → print_measurements d clock m ≡ unwords (words_of m)
    unfolding words_of print_measurements
    print_measurements-unwords [] = refl
    print_measurements-unwords ((t, x) ∷ []) = refl
    print_measurements-unwords ((t, x) ∷ (u, y) ∷ m) =
        ap (λ r. to_iso_string t ++ (b' ' ∷ (to_simple_string x ++ (b' ' ∷ r))))
          (print_measurements-unwords ((u, y) ∷ m))

    -- Where boost::split, and the texts of boost::posix_time, are as documented: from the text that a NodeLatency with its
    -- measurements in the order of a std::map prints, the constructor makes a NodeLatency with the same measurements, whose
    -- statistics are those of the durations pushed in the order of their times.
    pub from_string-print_measurements :
        (junk : ℤ) (n : NodeLatency d clock)
        → Ordered n.measurements
        → from_string d clock boost junk (to_string d clock n)
          ≡ done (record {
            measurements = n.measurements;
            statistics =
                push_all d
                  (long_int d)
                  (micros n.measurements)
                  (new_statistics d (long_int d) junk (pos 0));
          })
    unfolding from_string to_string words_of
    from_string-print_measurements junk n o =
        ap (λ t. read_measurements d clock (boost.split (b' ' ∷ []) t) (new_latency d clock junk))
          (print_measurements-unwords n.measurements)
        ∙ cut n.measurements o
      where
        cut :
            (m : List (Ptime × Duration))
            → Ordered m
            → read_measurements d clock
                (boost.split (b' ' ∷ []) (unwords (words_of m)))
                (new_latency d clock junk)
              ≡ done (record {
                measurements = m;
                statistics =
                    push_all d (long_int d) (micros m) (new_statistics d (long_int d) junk (pos 0));
              })
        cut [] o = unfold read_measurements new_latency push_all in rw laws.split_nothing refl
        cut ((t, x) ∷ m) o =
            ap (λ v. read_measurements d clock v (new_latency d clock junk))
              (unfold words_of in
                laws.split_words (to_iso_string t) (to_simple_string x ∷ words_of m)
                  (laws.iso_word t, (laws.simple_word x, words_of-IsWord m)))
            ∙ unfold new_latency in
              read_words [] ((t, x) ∷ m) (new_statistics d (long_int d) junk (pos 0)) tt o
