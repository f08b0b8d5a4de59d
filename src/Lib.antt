-- ===== src/Lib.antt =====
-- A verification library for RTRTR, a proxy for RPKI data. Units produce and transform sets of
-- payload items, gates and links hand them on, and targets serve them to routers and over HTTP. A
-- manager connects them by their names.
--
-- The parts, and the files that model them:
--   Payload (src/payload.rs): Pack and Block are the storage, a sorted array and a range of one.
--     Set is a sequence of blocks, with its iterators; Filter and Merge are Set::filter and
--     Set::merge, Builder is SetBuilder, Diff is Diff, DiffBuilder and Set::diff_from, and Update
--     is Update with the equality of sets.
--   Comms (src/comms.rs): Status is UnitStatus, UnitUpdate and UnitHealth; Gate is Gate, Link is
--     Link, and Metrics is GateMetrics.
--   Manager (src/manager.rs): load_link, Manager::load, Manager::add_components and Manager::spawn.
--   Units (src/units): Combine is Any and Merge of combine.rs, Slurm is slurm.rs, Rtr is Target and
--     TargetUpdate of rtr.rs, with RtrMetrics; of json.rs, JsonSource is SourceUri and SourceReader,
--     and Json is Source and Json.
--   Formats (src/formats): Json is the input and the output of json.rs, with Format and Stream of
--     output.rs.
--   Http: Etags is EtagsIter of src/utils/http.rs; of src/http.rs, Response is ResponseBuilder,
--     Resources is Resources, and Server is Server.
--   Metrics (src/metrics.rs): Collection, Target and Records.
--   Targets (src/targets): Rtr is Source and SourceData of rtr.rs, and Targets.Rtr.Metrics its
--     ListenerMetrics, PerAddrMetrics, MetricsData and the counting streams; Http is http.rs.
-- A unit sends an update through its gate to the links of other units and of targets; the HTTP
-- target registers itself with the resources of the HTTP server, and its responses write a set in a
-- format. Base holds the names shared by all, and lists on the native numbers; Order is the order of
-- payload items; Sorted has ascending lists with their union and difference, which serve as the
-- specification of sets; Text is strings as lists of character codes.
--
-- How the code is modelled: a method that changes its object takes it and returns it. Payload items
-- are a type with a total order, since their type is rpki's. A panic is `none`, that of a slice out
-- of range, of an assertion, of unwrap and of an index included; errors are values of a result. A
-- hash set is a list without duplicates, and a hash map a list of its entries. A gate and its agent
-- and links are connected by the number of their channel in the manager. Unit code that waits is a
-- function of the event that it waits for: what channels, files and the clock give is an argument.
-- A link that receives from a gate is a step relation on the state of both, and so is a connection
-- that counts for the metrics of its client. Counters of 32 and 64 bits wrap around as written.
--
-- Fuel: loops that move an index take as many rounds as there are items in the range, and one more,
-- and the outer loops of merge and of the builder the number of items and blocks, twice for the
-- builder, since each round takes an item or a block away. The entity tags of a header take one
-- round more than the value has characters; the stream of a document looks for the next origin for
-- one round more than there are items left; reading a source to its end takes more rounds than
-- there are bytes, since each gives one; process_until starts process again at most as often as
-- there are commands. The theorems on them show that this is enough.
--
-- Parameters: what the types of rpki, hyper, chrono, reqwest and serde do is an argument of the
-- definitions that call it: the order and the printing of items, sessions and serial numbers, the
-- parsing and the printing of dates, the parsing of a document, and what a source or a response
-- gives when it is read.
--
-- Not modelled: reading the configuration and the command line, the log, TLS, sockets and the
-- accepting of connections, and the parsing of JSON and SLURM text, which are I/O or code of
-- libraries, and the waiting between the rounds of a unit.
pub mod Base
pub mod Order
pub mod Sorted
pub mod Text
pub mod Payload
pub mod Formats
pub mod Comms
pub mod Http
pub mod Metrics
pub mod Manager
pub mod Units
pub mod Targets
