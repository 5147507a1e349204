-- ===== src/Lib.antt =====
-- libp: a collection protocol for Contiki, in C. Every node keeps a parent, the radio neighbour
-- through which its packets reach a sink, and sends its own and its children's packets there, each
-- acknowledged hop by hop.
--
-- The parts and how they interact. An announcement or a data packet tells a neighbour's rtmetric,
-- which goes into the neighbour table; the table keeps a link estimate for each neighbour, fed by
-- the transmissions that acknowledgements and timeouts report. The cost of a neighbour is the sum
-- of the two. `update_rtmetric` chooses the parent by it, whenever the table may have changed, and
-- sends what is queued once there is a route. The tree and its queue are a separate program part,
-- which nothing in libp.c calls. The example process opens a connection, sends to the sink
-- and prints its parent; at the gateway it is the sink, and starts the tree.
--
-- Files:
-- - Base: names of the libraries, Boolean tests, lists over the native numbers, and the machine
--   words u8, u16, u32, where the wrap-around of the C types is written out.
-- - Contiki, Contiki/Plain: lib/list.h, lib/memb.h and the passive timers of Contiki, a git
--   submodule, as an interface with the behaviour relied on; and an instance that meets it.
-- - Rime, Rime/Plain, Rime/First: the same for the packet buffer, the packet queue, the random numbers and the
--   configuration.
-- - Metric: libp-link-metric.h and libp-link-metric.c. Metric/Bounds, Average and Exact are about
--   the ranges, where the average settles, and the average over plain numbers.
-- - Neighbour: libp-neighbour.h and libp-neighbour.c. `libp_neighbour_list_add` is `add`, with its
--   steps `pick`, `allocate`, `recycle` and `restart`; the other functions have their names less
--   the prefix. Neighbour/Lookup, Choice, Inv, Add, Store, Remove, Periodic, Overdue and Count hold
--   proofs about the operations. Neighbour/View is the table as a function from addresses to
--   rtmetrics, Neighbour/Abstract what the operations may do to it, and Neighbour/Shown and Refine
--   prove that they do that.
-- - Conn: libp.h and libp.c. The functions stand in Conn/Send, Route, Timers, Ack, Receive, Beacon,
--   Probe and Api, by the names of the source less the prefix (`libp_open` is `open_conn`). A
--   function is a map on `Node`, the connection with the globals of the file; the calls that leave
--   the program are recorded in `effects`, newest first. Conn/Run runs a node through events.
--   Conn/Frame, Choose, Recent, Inv, Handlers, Calls, Sequence, Acked, Delivery, Overwrite, Stable,
--   Progress, Outcome, Received, Sink, Once, Purge, Probing, Roles, Lasting and Margin hold the
--   proofs.
--   `set_beacon_timer` is partial, since it divides by half of the beacon period: Conn/Beacon/Timed
--   says for which periods it faults, Conn/Fault what a run that may fault comes to.
-- - Network: a node at each address, and where the parents lead. Network/Handover: two nodes, a
--   packet and its acknowledgement. Network/Message: what a packet says of itself and what of it
--   crosses the radio, COLLECT_ATTRIBUTES. Network/Idle, Relay, Flight, Source, Arrival and
--   Journey: a packet's way from `libp_send` over the nodes between to the sink.
-- - Memory, Queue, Tree: node.h, queue.h, queue.c, tree.h and tree.c, on a memory of structures
--   with faults. Queue/Contract is the list that a sequence of calls of the queue stands for;
--   Queue/Linked, Represents, Push and Fifo prove that it does. Tree/Search and Tree/Clear are
--   about the two walks; Tree/Families is the forest that `add_node` is to build, and
--   Tree/Children, Place, Adopt, Growth and Forest prove that it does.
-- - Example: example-libp.c. A process is a record of its statics with the place where it waits;
--   `start` and `resume` run it to its next wait, `runs` runs it through events. Example/Lines: the
--   lines that it prints. Example/Output, Ready, Calm, Start, Links, Turning, Rounds and Gateway
--   hold the proofs.
-- - The modules named Tests: runs on concrete inputs.
--
-- Fuel and bounds. The loops over a table run on its list; `purge_loop` has one round more than the
-- list has elements and `sweep` may remove as many, and both are proved to reach their end. The
-- loops that empty the packet queue have as many rounds as it has packets, which is proved to be
-- enough. The walks of the tree take their fuel as an argument, and say when they use it up; for
-- `add_node` the number of the parent's children is enough. `follow` and `fired` count hops and
-- calls of a timer. The block of neighbour structures has eight.
--
-- Assumptions: a node has one connection; addresses are numbers, 0 being the null address;
-- `unicast_send` and `broadcast_send` do not call back before they return; the callers pass
-- structures that exist, so the checks of the argument for NULL that only guard it are left out;
-- `list_item_next` of NULL is NULL; the `rexmits` of `libp_send` is not negative; an id in the tree
-- is not negative, and `malloc` succeeds with an address that was never used. Of Contiki's
-- configuration it is assumed that CLOCK_SECOND is not 0 and REXMIT_TIME (CLOCK_SECOND * 32 by the
-- channel check rate, itself not 0) at least 2, since the program divides by the two of them and by
-- half of REXMIT_TIME; and that times, a beacon period among them, fit `clock_time_t`.
-- `unicast_send` and `broadcast_send` leave the packet buffer as it is.
--
-- Not modelled: the PRINTF output and the drawing under DRAW_TREE, which is off; the PROCESS macros
-- and the etimers of Contiki beyond what Example says of them; the simulation files and the
-- Makefile.

pub mod Base
pub mod Contiki
pub mod Metric
pub mod Neighbour
pub mod Rime
pub mod Conn
pub mod Network
pub mod Memory
pub mod Queue
pub mod Tree
pub mod Example
