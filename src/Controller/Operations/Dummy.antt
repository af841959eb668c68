-- ===== src/Controller/Operations/Dummy.antt =====
-- src/controller/dhtnodes/DummyDht.cpp: a DHT that does nothing. The clocks are those of any other.
use dhtperf.Prelude.{true, false, done, refl}
use dhtperf.Metrics.Latency.{PosixTime}
use dhtperf.Controller.Operations.{Dht}
use dhtperf.Controller.Loop.Connected.{IsTotal}

abbrev pub dummy : {clock : PosixTime} → Dht clock → Dht clock
dummy e = record e {
  do_join = λ w. done (true, w);
  do_leave = λ w. done w;
  do_put = λ event w. done w;
  do_get = λ event w. done (false, w);
}

pub dummy-IsTotal : {clock : PosixTime} (e : Dht clock) → IsTotal (dummy e)
dummy-IsTotal e = record {
  leaves = λ w. (w, refl);
  puts = λ event w. (w, refl);
  gets = λ event w. (false, w, refl);
}
