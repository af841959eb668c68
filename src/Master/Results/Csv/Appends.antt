-- ===== src/Master/Results/Csv/Appends.antt =====
-- What process does to the files of a directory.
use dhtperf.Prelude.{
  ◌≡◌, refl, sym, ap, ◌∙◌, [], ◌∷◌, ◌++◌, Bytes, codes, Bool, true, str_eq, Outcome, done, ◌>>=◌,
  >>=-eq-done, Bool-cases, inl, inr, subst, done-injective, arith, append_assoc, append-nil,
}
use dhtperf.Metrics.Statistics.{Doubles}
use dhtperf.Metrics.Latency.{PosixTime, GeneralLatency}
use dhtperf.Metrics.SuccessRate.{GeneralSuccessRate}
use dhtperf.Metrics.NodesStatus.{NodesStatus}
use dhtperf.Master.Results.{ResultProcessor}
use dhtperf.Master.Results.Csv.{
  Directory, appended, append_file, process_latency, process_success_rate, process_nodes_status,
  process,
}

-- Every file of g begins with what it holds in f.
abbrev pub Extends : Directory → Directory → Type 0
Extends f g = (name : Bytes) → (more : Bytes) × (g name ≡ f name ++ more)

Extends-refl : (f : Directory) → Extends f f
Extends-refl f name = ([], sym (append-nil (f name)))

Extends-trans : (f g h : Directory) → Extends f g → Extends g h → Extends f h
Extends-trans f g h fg gh name =
    let (a, ea) = fg name in
    let (b, eb) = gh name in (a ++ b, eb ∙ (ap (λ t. t ++ b) ea ∙ append_assoc (f name) a b))

-- A step that only appends, and returns where the files can be opened.
abbrev Appends : (Bytes → Bool) → (Directory → Outcome Directory) → Type 0
Appends opens step =
    (f : Directory)
    → ((g : Directory) → step f ≡ done g → Extends f g)
      × (((name : Bytes) → opens name ≡ true) → (g : Directory) × (step f ≡ done g))

appended-Extends :
    (name at_start between text : Bytes) (f : Directory)
    → Extends f (appended name at_start between text f)
unfolding appended
appended-Extends name at_start between text f n = elim (Bool-cases (str_eq n name)) [
  | inl e ↦ ((elim (f name) [ [] ↦ at_start | c ∷ s ↦ between ]) ++ text, rw e refl)
  | inr e ↦ ([], rw (e, append-nil) refl)
]

append_file-Appends :
    (opens : Bytes → Bool) (name at_start between text : Bytes)
    → Appends opens (append_file opens name at_start between text)
unfolding append_file
append_file-Appends opens name at_start between text f = elim (Bool-cases (opens name)) [
  | inl e ↦ (
    (λ g h.
        subst (Extends f) (done-injective (appended name at_start between text f) g (rw e at h))
          (appended-Extends name at_start between text f)),
    (λ all. (appended name at_start between text f, rw e refl)),
  )
  | inr e ↦ ((λ g h. absurd (ground (arith, e, h))), (λ all. absurd (ground (arith, e, all name))))
]

Appends-then :
    (opens : Bytes → Bool) (s t : Directory → Outcome Directory)
    → Appends opens s
    → Appends opens t
    → Appends opens (λ f. s f >>= t)
Appends-then opens s t first second f = (
  (λ g e.
      let (h, ran, rest) = >>=-eq-done (s f) t e in
      Extends-trans f h g ((first f).0 h ran) ((second h).0 g rest)),
  (λ all. let (h, ran) = (first f).1 all in let (g, rest) = (second h).1 all in (g, rw ran rest)),
)

module _ (d : Doubles) (clock : PosixTime) (fixed : d.Double → Bytes) (opens : Bytes → Bool) where
  process_latency-Appends :
      (dht_type prefix : Bytes) (g : GeneralLatency d clock)
      → Appends opens (process_latency d clock fixed opens dht_type prefix g)
  unfolding process_latency
  process_latency-Appends dht_type prefix g =
      Appends-then opens _ _ (append_file-Appends opens _ _ _ _) (append_file-Appends opens _ _ _ _)

  process_success_rate-Appends :
      (dht_type prefix : Bytes) (g : GeneralSuccessRate d)
      → Appends opens (process_success_rate d clock fixed opens dht_type prefix g)
  unfolding process_success_rate
  process_success_rate-Appends dht_type prefix g = append_file-Appends opens _ _ _ _

  process_nodes_status-Appends :
      (dht_type : Bytes) (s : NodesStatus)
      → Appends opens (process_nodes_status d clock fixed opens dht_type s)
  unfolding process_nodes_status
  process_nodes_status-Appends dht_type s = append_file-Appends opens _ _ _ _

  process-Appends : (r : ResultProcessor d clock) → Appends opens (process d clock fixed opens r)
  unfolding process
  process-Appends r =
      let latency = process_latency-Appends r.dht_type in
      let rate = process_success_rate-Appends r.dht_type in
      Appends-then opens _ _ (latency (codes "join") r.join_latency) (
        Appends-then opens _ _ (latency (codes "leave") r.leave_latency) (
          Appends-then opens _ _ (latency (codes "put") r.put_latency) (
            Appends-then opens _ _ (latency (codes "get") r.get_latency) (
              Appends-then opens _ _ (rate (codes "join") r.join_success_rate) (
                Appends-then opens _ _ (rate (codes "get") r.get_success_rate)
                  (process_nodes_status-Appends r.dht_type r.nodes_status))))))

  -- Where all files can be opened, process returns, and every file begins with what it held before: the results of earlier
  -- tests are kept.
  pub process-Extends :
      (r : ResultProcessor d clock) (f : Directory)
      → ((name : Bytes) → opens name ≡ true)
      → (g : Directory) × (process d clock fixed opens r f ≡ done g) × Extends f g
  process-Extends r f all =
      let (kept, returns) = process-Appends r f in
      let (g, ran) = returns all in (g, ran, kept g ran)
