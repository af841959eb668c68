-- ===== src/Master/Workload/Profile.antt =====
-- src/master/MasterWorkloadProfile.cpp.
use dhtperf.Prelude.{[], Bytes, Bool, not, ◌&&◌, str_eq, if◌then◌else◌, Outcome, done, exits}
use dhtperf.Common.{DhtOperation, join, leave, put, get}

pub record WorkloadProfile : Type 0 where
  pub name : Bytes
  pub join_profile : Bytes
  pub leave_profile : Bytes
  pub put_profile : Bytes
  pub get_profile : Bytes

unfoldable pub new_profile : Bytes → WorkloadProfile
new_profile name = record {
  name = name;
  join_profile = [];
  leave_profile = [];
  put_profile = [];
  get_profile = [];
}

unfoldable pub is_complete : WorkloadProfile → Bool
is_complete p =
    not (str_eq p.join_profile [])
    && not (str_eq p.leave_profile [])
    && not (str_eq p.put_profile [])
    && not (str_eq p.get_profile [])

-- Setting a profile that is set already ends the process.
unfoldable pub set_profile : DhtOperation → Bytes → WorkloadProfile → Outcome WorkloadProfile
set_profile join text p =
    if str_eq p.join_profile [] then done (record p { join_profile = text }) else exits 1
set_profile leave text p =
    if str_eq p.leave_profile [] then done (record p { leave_profile = text }) else exits 1
set_profile put text p =
    if str_eq p.put_profile [] then done (record p { put_profile = text }) else exits 1
set_profile get text p =
    if str_eq p.get_profile [] then done (record p { get_profile = text }) else exits 1
