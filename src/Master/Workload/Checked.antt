-- ===== src/Master/Workload/Checked.antt =====
-- What a workload that loadConfig accepted provides to the master.
use dhtperf.Prelude.{
  ℕ, zero, suc, ◌+◌, ◌≤◌, ◌<◌, ◌≡◌, ◌≢◌, List, [], ◌∷◌, Bytes, some, Bool, true, false, ◌==◌, ◌&&◌,
  arith, lookup, lookup-All, nat_keys, text_keys, Outcome, done, All, >>=-eq-done, str_eq_iff,
  ==_iff, Bool-cases, Option-cases, inl, inr,
}
use dhtperf.Common.{Boost}
use dhtperf.Master.Workload.{Workload}
use dhtperf.Master.Workload.Profile.{WorkloadProfile, is_complete}
use dhtperf.Master.Workload.Load.{
  process_lines, read_lines, all_complete, nodes_have_profiles, is_set, load_config,
  get_node_profile,
}

all_complete-All :
    (profiles : List (Bytes × WorkloadProfile))
    → all_complete profiles ≡ true
    → All (λ (entry : Bytes × WorkloadProfile). is_complete entry.1 ≡ true) profiles
unfolding all_complete
all_complete-All [] h = tt
all_complete-All ((name, p) ∷ profiles) h = ground (arith, all_complete-All profiles)

nodes_have_profiles-lookup :
    (count i n : ℕ) (w : Workload)
    → nodes_have_profiles count i w ≡ true
    → i ≤ n
    → n < i + count
    → (name : Bytes) × (p : WorkloadProfile) × (lookup n w.node_profiles ≡ some name)
      × (lookup name w.profiles ≡ some p)
unfolding nodes_have_profiles
nodes_have_profiles-lookup zero i n w h lo hi = absurd (omega arith)
nodes_have_profiles-lookup (suc count) i n w h lo hi =
    elim (Option-cases (lookup i w.node_profiles)) [
      | inl e ↦ absurd (ground (arith, e))
      | inr (name, e) ↦ elim (Option-cases (lookup name w.profiles)) [
        | inl f ↦ absurd (ground (arith, e, f))
        | inr (p, f) ↦ elim (Bool-cases (i == n)) [
          | inl s ↦ (name, p, rw (← (==_iff i n).0 s) e, f)
          | inr d ↦
              nodes_have_profiles-lookup count (i + 1) n w (ground (arith, e, f)) (ground arith)
                (omega arith)
        ]
      ]
    ]

-- The profile of a node: there is one, and none of its four texts is empty.
pub record HasProfile (w : Workload) (n : ℕ) : Type 0 where
  pub profile : WorkloadProfile
  pub found : get_node_profile w n ≡ done profile
  pub complete :
      (profile.join_profile ≢ [])
      × (profile.leave_profile ≢ [])
      × (profile.put_profile ≢ [])
      × (profile.get_profile ≢ [])

complete_texts :
    (p : WorkloadProfile)
    → is_complete p ≡ true
    → (p.join_profile ≢ []) × (p.leave_profile ≢ []) × (p.put_profile ≢ []) × (p.get_profile ≢ [])
unfolding is_complete
complete_texts p h = ground (
  arith,
  str_eq_iff p.join_profile [],
  str_eq_iff p.leave_profile [],
  str_eq_iff p.put_profile [],
  str_eq_iff p.get_profile [],
)

is_set-HasProfile : (w : Workload) → is_set w ≡ true → (n : ℕ) → n < w.nodes → HasProfile w n
unfolding is_set get_node_profile
is_set-HasProfile w h n lt =
    let (name, p, e, f) =
      nodes_have_profiles-lookup w.nodes 0 n w (ground arith) (omega arith) (omega arith) in
    record {
      profile = p;
      found = rw (e, get_node_profile) (rw f);
      complete = complete_texts p (
          lookup-All (λ q. is_complete q ≡ true) name w.profiles
            (all_complete-All w.profiles (ground arith)) f);
    }

is_set-positive : (w : Workload) → is_set w ≡ true → (0 < w.nodes) × (0 < w.duration)
unfolding is_set
is_set-positive w h = ground arith

accepted :
    (valid : Bool) (v w' : Workload)
    → ◌≡◌ {A = Outcome (Bool × Workload)} (done (valid && is_set v, v)) (done (true, w'))
    → is_set w' ≡ true
accepted true v w' e = ground arith
accepted false v w' e = absurd (ground arith)

-- Once loadConfig has returned true there are nodes and a duration, and for every node of the test
-- getNodeProfile finds a profile with no empty text: the master never meets a null profile.
pub load_config-HasProfile :
    (boost : Boost) (w w' : Workload) (content : Bytes) (nodes : ℕ)
    → load_config boost w (some content) nodes ≡ done (true, w')
    → (0 < w'.nodes) × (0 < w'.duration) × ((n : ℕ) → n < w'.nodes → HasProfile w' n)
unfolding load_config
load_config-HasProfile boost w w' content nodes h =
    let ((valid, v), ran, e) = >>=-eq-done (process_lines boost [] (read_lines content) _) _ h in
    let set = accepted valid v w' e in
    let (some_nodes, some_time) = is_set-positive w' set in
    (some_nodes, some_time, is_set-HasProfile w' set)
