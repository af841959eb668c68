-- ===== src/Controller/Report.antt =====
-- src/controller/DhtperfController.cpp: reportResults and sendFinishMessage, and what the master's
-- connection makes of the bytes.
use dhtperf.Prelude.{
  ℕ, zero, suc, ◌+◌, ◌<◌, ◌≤◌, ◌≡◌, ◌≢◌, refl, ◌∙◌, ap, sym, ◌++◌, ◌∷◌, [], List, Bytes, codes,
  Bool, true, false, ◌==◌, if◌then◌else◌, length, All, Outcome, done, exits, ◌>>=◌, append_assoc,
  append-nil, arith, subst, ◌-◌,
}
use dhtperf.Protocol.{Message, report, finish, u32_mod}
use dhtperf.Protocol.Encode.{to_bits}
use dhtperf.Protocol.Wire.{wire, to_bits-wire}
use dhtperf.Protocol.RoundTrip.{IsSendable}
use dhtperf.Protocol.Stream.{body_fits}
use dhtperf.Master.Connection.{Connection, arrived, disconnected, async_wait_for_message, wait-wire}

-- The six texts of DhtNode::getResults.
pub record NodeResults : Type 0 where
  pub join_latency : Bytes
  pub leave_latency : Bytes
  pub put_latency : Bytes
  pub get_latency : Bytes
  pub join_success_rate : Bytes
  pub get_success_rate : Bytes

-- The controller's side of the socket: what has been written, and how many writes succeed before one fails.
pub record Output : Type 0 where
  pub written : Bytes
  pub good_writes : ℕ

-- ba::write, and the exit where it fails.
unfoldable pub write : Bytes → Output → Outcome Output
write bits o = elim o.good_writes [
  | zero ↦ exits 1
  | suc n ↦ done (record { written = o.written ++ bits; good_writes = n })
]

unfoldable pub send_message : Message → Output → Outcome Output
send_message m o = to_bits m >>= λ bits. write bits o

unfoldable pub report_results : NodeResults → Output → Outcome Output
unfolding send_message
report_results r o = do
  o ← send_message (report (codes "JoinLatency") r.join_latency) o
  o ← send_message (report (codes "LeaveLatency") r.leave_latency) o
  o ← send_message (report (codes "GetLatency") r.get_latency) o
  o ← send_message (report (codes "PutLatency") r.put_latency) o
  o ← send_message (report (codes "JoinSuccessRate") r.join_success_rate) o
  send_message (report (codes "GetSuccessRate") r.get_success_rate) o

unfoldable pub send_finish_message : Output → Outcome Output
unfolding send_message
send_finish_message o = send_message finish o

-- reportResults and sendFinishMessage, as run() calls them.
unfoldable pub finish_run : NodeResults → Output → Outcome Output
unfolding report_results send_finish_message
finish_run r o = report_results r o >>= send_finish_message

-- The messages, in the order in which they are sent.
abbrev pub final_messages : NodeResults → List Message
final_messages r =
    report (codes "JoinLatency") r.join_latency
    ∷ report (codes "LeaveLatency") r.leave_latency
    ∷ report (codes "GetLatency") r.get_latency
    ∷ report (codes "PutLatency") r.put_latency
    ∷ report (codes "JoinSuccessRate") r.join_success_rate
    ∷ report (codes "GetSuccessRate") r.get_success_rate
    ∷ finish
    ∷ []

unfoldable pub wires : List Message → Bytes
wires [] = []
wires (m ∷ ms) = wire m ++ wires ms

unfoldable pub send_all : List Message → Output → Outcome Output
unfolding send_message
send_all [] o = done o
send_all (m ∷ ms) o = send_message m o >>= send_all ms

-- The messages that a connection hands to the message handler when it waits for n of them, one after the other.
unfoldable pub receive : ℕ → Connection → Bytes → Outcome (List Message)
receive zero c stream = done []
receive (suc n) c stream = async_wait_for_message c stream >>= λ result. elim result.0 [
  | arrived m ↦ (receive n result.1 result.2 >>= λ ms. done (m ∷ ms))
  | disconnected ↦ done []
]

send_all-wires :
    (ms : List Message) (w : Bytes) (n : ℕ)
    → All IsSendable ms
    → length ms ≤ n
    → (o' : Output) × (send_all ms (record { written = w; good_writes = n }) ≡ done o')
      × (o'.written ≡ w ++ wires ms)
unfolding send_all send_message write wires
send_all-wires [] w n h enough = (record { written = w; good_writes = n }, refl, sym (append-nil w))
send_all-wires (m ∷ ms) w zero h enough = absurd (omega arith)
send_all-wires (m ∷ ms) w (suc n) h enough =
    let (o', ran, all) = send_all-wires ms (w ++ wire m) n h.1 (omega arith) in
    (o', rw (to_bits-wire m (body_fits m h.0)) ran, all ∙ append_assoc w (wire m) (wires ms))

receive-wires :
    (ms : List Message) (c : Connection) (rest : Bytes)
    → All IsSendable ms
    → receive (length ms) c (wires ms ++ rest) ≡ done ms
unfolding receive wires
receive-wires [] c rest h = refl
receive-wires (m ∷ ms) c rest h =
    rw
      (
        append_assoc (wire m) (wires ms) rest,
        wait-wire c m (wires ms ++ rest) h.0,
        receive-wires ms _ rest h.1,
      )
      refl

send_good :
    (m : Message) (w : Bytes) (n : ℕ)
    → IsSendable m
    → send_message m (record { written = w; good_writes = suc n })
      ≡ done (record { written = w ++ wire m; good_writes = n })
unfolding send_message write
send_good m w n h = rw (to_bits-wire m (body_fits m h)) refl

-- A result that a report can carry.
abbrev pub Short : Bytes → Type 0
Short value = length value + 16 < u32_mod

has_space : Bytes → Bool
has_space [] = false
has_space (c ∷ s) = if c == b' ' then true else has_space s

no_space : (s : Bytes) → has_space s ≡ false → All (λ b. b ≢ b' ') s
unfolding has_space
no_space [] h = tt
no_space (c ∷ s) h = ground (arith, no_space s)

report-IsSendable :
    (type value : Bytes)
    → has_space type ≡ false
    → length type ≤ 15
    → Short value
    → IsSendable (report type value)
report-IsSendable type value h size short = (no_space type h, omega arith)

abbrev Sendable : NodeResults → Type 0
Sendable r = All IsSendable (final_messages r)

finish_run-send_all :
    (r : NodeResults) (k : ℕ)
    → Sendable r
    → finish_run r
        (record { written = []; good_writes = suc (suc (suc (suc (suc (suc (suc k)))))) })
      ≡ send_all
          (final_messages r)
          (record { written = []; good_writes = suc (suc (suc (suc (suc (suc (suc k)))))) })
unfolding finish_run report_results send_finish_message send_all
finish_run-send_all r k (h1, (h2, (h3, (h4, (h5, (h6, (h7, _))))))) =
    rw
      (
        send_good (report (codes "JoinLatency") r.join_latency) [] _ h1,
        send_good (report (codes "LeaveLatency") r.leave_latency) _ _ h2,
        send_good (report (codes "GetLatency") r.get_latency) _ _ h3,
        send_good (report (codes "PutLatency") r.put_latency) _ _ h4,
        send_good (report (codes "JoinSuccessRate") r.join_success_rate) _ _ h5,
        send_good (report (codes "GetSuccessRate") r.get_success_rate) _ _ h6,
        send_good finish _ _ h7,
      )
      refl

-- If seven writes succeed and no result is longer than 2^32 - 17 bytes, the controller reports its results and
-- finishes; and whatever the buffers of the master's connection hold, when it waits for seven messages it hands
-- on the six reports and the finish message, in this order.
pub finish_run-receive :
    (r : NodeResults) (n : ℕ) (c : Connection)
    → 7 ≤ n
    → Short r.join_latency
    → Short r.leave_latency
    → Short r.put_latency
    → Short r.get_latency
    → Short r.join_success_rate
    → Short r.get_success_rate
    → (o : Output) × (finish_run r (record { written = []; good_writes = n }) ≡ done o)
      × (receive 7 c o.written ≡ done (final_messages r))
unfolding has_space
finish_run-receive r n c enough jl ll pl gl js gs =
    let sendable : All IsSendable (final_messages r) = (
      report-IsSendable (codes "JoinLatency") r.join_latency refl (omega arith) jl,
      (
        report-IsSendable (codes "LeaveLatency") r.leave_latency refl (omega arith) ll,
        (
          report-IsSendable (codes "GetLatency") r.get_latency refl (omega arith) gl,
          (
            report-IsSendable (codes "PutLatency") r.put_latency refl (omega arith) pl,
            (
              report-IsSendable (codes "JoinSuccessRate") r.join_success_rate refl (omega arith) js,
              (
                report-IsSendable (codes "GetSuccessRate") r.get_success_rate refl (omega arith) gs,
                (tt, tt),
              ),
            ),
          ),
        ),
      ),
    ) in
    let (o, ran, all) = send_all-wires (final_messages r) [] n sendable enough in
    let seven : suc (suc (suc (suc (suc (suc (suc (n - 7))))))) ≡ n = omega arith in
    let all_sent : finish_run r (record { written = []; good_writes = n })
        ≡ send_all (final_messages r) (record { written = []; good_writes = n }) =
      subst
        (λ k.
          finish_run r (record { written = []; good_writes = k })
          ≡ send_all (final_messages r) (record { written = []; good_writes = k }))
        seven (finish_run-send_all r (n - 7) sendable) in
    (
      o,
      all_sent ∙ ran,
      ap (receive 7 c) (all ∙ sym (append-nil (wires (final_messages r))))
          ∙ receive-wires (final_messages r) c [] sendable,
    )
