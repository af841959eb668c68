-- ===== src/Controller/Profiles/Make.antt =====
-- src/controller/Profile.h: makeProfile, and the profiles as ControllerWorkloadProfile uses them. The engines that a
-- profile owns are the World that goes with it; `seeds` is what the random device delivers to each of the four.
use dhtperf.Prelude.{
  [], ◌∷◌, Bytes, codes, str_eq, if◌then◌else◌, Outcome, done, exits, faults, ◌>>=◌,
}
use dhtperf.Common.{DhtOperation, Boost}
use dhtperf.Controller.Utils.{Randomness}
use dhtperf.Controller.Setup.{ProfileFactory}
use dhtperf.Controller.Profiles.{Profile}
use dhtperf.Controller.Profiles.Classes.{
  separators, new_exact, new_full_dictionary, new_interval, new_none, new_now, new_n_times_random,
  new_poisson_random, new_weibull_random,
}

module _ (random : Randomness) (boost : Boost) where
  open random use {World, Double}

  -- splitProfileIntoTypeAndParams; front() of an empty deque is undefined.
  unfoldable pub split_profile : Bytes → Outcome (Bytes × Bytes)
  split_profile profile = elim (boost.split separators profile) [
    | [] ↦ faults
    | type ∷ rest ↦ done (type, boost.join (b' ' ∷ []) rest)
  ]

  unfoldable pub make_profile :
      (operation : DhtOperation) → Bytes → World → Outcome (Profile Double operation × World)
  unfolding split_profile new_exact new_full_dictionary new_interval new_none new_now
      new_n_times_random new_poisson_random new_weibull_random
  make_profile operation profile w = do
    (type, params) ← split_profile profile
    if str_eq type (codes "exact")
        then new_exact random boost operation params w
        else if str_eq type (codes "fulldictionary")
        then new_full_dictionary random boost operation params w
        else if str_eq type (codes "interval")
        then new_interval random boost operation params w
        else if str_eq type (codes "none")
        then new_none random boost operation params w
        else if str_eq type (codes "now")
        then new_now random boost operation params w
        else if str_eq type (codes "ntimesrandom")
        then new_n_times_random random boost operation params w
        else if str_eq type (codes "poissonrandom")
        then new_poisson_random random boost operation params w
        else if str_eq type (codes "weibullrandom")
        then new_weibull_random random boost operation params w
        else exits 1

  unfoldable pub profile_factory : (DhtOperation → World) → ProfileFactory
  unfolding make_profile
  profile_factory seeds = record {
    Profile = λ operation. Profile Double operation × World;
    make_profile = λ operation text. make_profile operation text (seeds operation);
  }
