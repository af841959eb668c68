-- ===== src/Lib.antt =====
-- Verification of dhtperf, a tool that measures the performance of distributed hash tables.
--
-- A master (src/master) waits for one controller for each node of a test. It sends a controller
-- the type of the DHT and the node's profile once it connects, and all of them their start
-- messages once the last one is there; then it collects reports until every controller has
-- finished or failed, or the time is over. A controller (src/controller) runs one node: it reads
-- these messages, queues the events that the profile asks for, and runs them. Both speak the
-- protocol of src/protocol.cpp.
--
-- The files and the code that they model:
-- - Prelude: shared names, Boolean tests, lists, the outcome of a piece of code (Outcome: a
--   value, exit, abort, undefined behaviour), memcpy into a vector, maps as association lists,
--   decimal digits, and long int (Prelude/Int).
-- - Common: src/common.h, and the functions of Boost that texts are left to.
-- - Protocol: src/protocol.h; Words (the bytes of a word), Opcode, Encode (toBits), Decode
--   (fromBits and the constructors it calls), Wire (the format that the comments of
--   src/protocol.cpp describe), RoundTrip, Stream (a header read from a socket), Strictness
--   (from a body that fromBits accepts back to its bytes).
-- - Controller: Receive is getNextMessage of src/controller/DhtperfController.cpp, Setup what
--   run() does before start(), with src/controller/ControllerWorkloadProfile.cpp, and Handshake
--   the messages that it reads there. NextEvent is getNextEventTime of the profiles, Report is
--   reportResults and sendFinishMessage. Utils is src/controller/Utils.cpp, with Utils/Times
--   for getTimeFromString and Utils/Dictionary for its words; Utils/Intervals and Utils/Words
--   are what they promise. Profiles is src/controller/Profile.h with the classes of
--   src/controller/profiles: Profiles/Classes their constructors, Profiles/Pushes their
--   pushElement methods, Profiles/Make makeProfile, Profiles/Schedule scheduleNextEvent and
--   Profiles/Progress the times that it returns. DhtNode is make and the setters of
--   src/controller/DhtNode.cpp, with the ports of the classes under src/controller/dhtnodes;
--   Operations is the four operations of src/controller/DhtNode.cpp with their metrics, and
--   Operations/Joins how a join that is tried again ends. Loop is start of
--   src/controller/DhtperfController.cpp, which runs the events: Loop/Waits is how long it waits,
--   Loop/Batches and Loop/Connected what it does with the events that are due at once, Loop/Trace
--   and Loop/Steps what becomes of the world by them, event by event, and Loop/Leaves two leave events among them. Network is connect of DhtperfController.cpp and of
--   KaddemoIdClient, and Run is run, from the connection to the last report. Pipes is write and
--   readline of src/controller/dhtnodes/RWPopen.cpp, with Pipes/Writes for the calls that write
--   a part of a text and Pipes/Descriptors for initAndFork; Directories is mkdir_p of src/controller/Utils.cpp and the constructor of
--   Wrapper.cpp. Wrappers is the commands and dialogues of OwdhtshellWrapper.cpp,
--   PastConsoleWrapper.cpp and Wrapper.cpp of the same folder, Wrappers/Openchord and
--   Wrappers/Kaddemo those of OpenchordWrapper.cpp and KaddemoWrapper.cpp, Wrappers/Gets and
--   Wrappers/Announced what doGet of the four makes of an answer, and Wrappers/KaddemoId the
--   server and client of KaddemoIdWrapper.cpp; Wrappers/Ruby is
--   GenericRubyWrapper.cpp, with its get in Ruby/Gets, and Operations/Dummy is DummyDht.cpp.
-- - Events: src/events.h and src/events.cpp; Queue is EventQueue, Queue/Laws its behaviour,
--   Queue/Bags and Queue/Order the queue without the order of its elements, as a quotient.
-- - Master: Connection is src/master/ControllerConnection.cpp. Controllers, Start and Dispatch
--   are src/master/DhtperfMaster.cpp: the vector of controllers, sendStartMessages, and the
--   handlers as steps on the members of the class; Dispatch/Accounting is their invariant and
--   Dispatch/Reachable the histories of the master; Dispatch/Status is the report on the nodes
--   as the metrics read it, Dispatch/Greeting what a controller is sent, Dispatch/Writes the writes of sendMessage with
--   those that are still under way, Start/Ports and
--   Start/Offsets the start messages. Run is run() with its two loops over what the io_service
--   hands out: Run/Gather is the first and Run/Sessions the second, Run/Reporting and
--   Run/Complete a test in which every controller reports. Workload is src/master/MasterWorkload.cpp, with
--   Workload/Profile for src/master/MasterWorkloadProfile.cpp and Workload/Load for loadConfig.
--   Results is src/master/ResultProcessor.cpp: pushResult, which the handlers of Dispatch call
--   behind an interface; Results/Reports is what the reports of a node come to, Results/Cdf the
--   distribution of processLatency, Results/Csv the files of process() and Results/Csv/Appends
--   what becomes of what they held.
-- - Metrics: Statistics is src/metrics/Statistics.h, NodesStatus src/metrics/NodesStatus.cpp,
--   SuccessRate src/metrics/NodeSuccessRate.cpp with src/metrics/GeneralSuccessRate.cpp, and
--   Latency src/metrics/NodeLatency.cpp with src/metrics/GeneralLatency.cpp, where Latency/Text
--   is the text of a node's measurements and Latency/Collected what many of them come to;
--   Streams is what they use of std::stringstream.
-- - Programs: main of src/master/dhtperf-master.cpp and src/controller/dhtperf-controller.cpp;
--   Master/Types is which types of DHT the master takes, Master/Complete the whole of a test.
-- - Service: src/service/dhtperfd.cpp and src/service/dhtperfd-client.cpp; Service/Dialogue is
--   one against the other.
-- - Tests: concrete messages, workloads, masters, queues, profiles, nodes and results.
--
-- Conventions. A word is the number of its bit pattern, and arithmetic on unsigned words is
-- written with its remainder; bytes of a word are in the order of a little-endian machine, on
-- which the program runs (it copies words to the wire as they are in memory). A text is the list
-- of its bytes, a std::map an association list. A socket that is read is the bytes that the peer
-- has still to send before it closes, and so is a pipe; what is
-- written to it is kept with its other end or its owner.
-- Output to the terminal is left out.
--
-- Fuel. popEvents takes out an element in each round, so one round more than the queue has
-- elements is enough. The inner loop of loadConfig at the end of the file takes a byte from the
-- line in each round, so the length of the line is enough. A number has at most as many decimal
-- digits as its value plus one. The loop of processJoinEvent tries for ever if the DHT never lets
-- the node in: its fuel is a number of attempts, one more than those that fail being enough. The
-- loop of start ends by the clock; its fuel is a number of rounds, and a model that runs out of
-- it is still going. The loops that read a program's answer end by what it writes; their fuel is
-- a number of lines, one more than those before the prompt being enough.
--
-- Parameters. boost::regex_match, lexical_cast, split and join (the record Boost), random numbers
-- (Randomness: the random device, and the distributions of std::tr1 and boost::math), times
-- (PosixTime: boost::posix_time), double (Doubles) with its printing, and whether a file can be
-- opened are parameters, for which the tests have concrete functions; so is what a class derived
-- from DhtNode does with its DHT, with the clocks and timers that the loop of start reads (Dht).
-- So are the resolver and what an attempt to connect makes of a socket (Network), stat, mkdir and chdir
-- (FileSystem), a process's table of descriptors (Descriptors), what ::write answers, what
-- boost::program_options makes of a command line, and what the io_service hands out to run().
-- Interfaces between the parts are the processor of results (ResultSink), Profile::makeProfile
-- (ProfileFactory) and scheduleNextEvent (Scheduler); Results, Profiles/Make and
-- Profiles/Schedule implement them.
--
-- Not modelled: exec with the copies of its arguments, the destructor of RWPopen and the signals of stopWrapped;
-- getSelfIp and getHostIp, which ask a resolver; the accept loop of the service daemon; the
-- threads that end a controller or a client after a time; in the model of the whole
-- master, writes that are still under way when the next message is sent: Controllers takes a write to complete
-- before the next one, which the socket need not do (Dispatch/Writes).
pub mod Prelude
pub mod Common
pub mod Protocol
pub mod Controller
pub mod Events
pub mod Master
pub mod Metrics
pub mod Tests
pub mod Programs
pub mod Service
