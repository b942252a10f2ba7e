-- ===== src/Lib.antt =====
-- Keyfrog counts key presses per group of applications and per fifteen minutes. A daemon records X11
-- events, finds out which application each key press belongs to, and stores the counts in a database.
--
-- The parts and the files that model them:
--
--   src/EventMonitorX11.cpp, src/RawEvent.h            Monitor: `Intercept` is what the record
--     extension hands to `eventCallback`, `Monitor` the queue, the static key code of the callback and
--     the data given back. `wait_for_events` runs over the replies of each round. Monitor/Connect is
--     the connection with its record ranges, over one answer of the server for each question.
--   src/EventMonitorMac.cpp                            Monitor/Mac.
--   src/EventMonitor.h                                 Monitor/Interface: the virtual methods as a
--     record, and the queue that a monitor promises; Monitor/Systems fills both for X11 and Mac OS X.
--   src/EventFilter.cpp, src/Event.h                   Event: `process_events` turns raw events into
--     events, `set_group_id` finds their group; Event/Queue is its loop over any monitor. The filter's
--     queue is in Daemon. Event/Recorded puts the monitor's connection, its callback and the filter
--     together, and Event/Told the filter and the tree that is built from the processes. Event/Labels
--     says which group the server and the tree tell for a window, and Window/Honest when a window cache
--     repeats what the server told.
--   src/Group.h, src/FilterConfig.h, src/EventFilter.cpp   Filter: the groups and the three matchers.
--   src/KfWindowCache.cpp, src/KfWindow.h              Window: the cache, its iterator as `Current`,
--     and the walks up the window tree. Window/Server holds the X server's answers.
--   src/ProcessTree.cpp, src/ProcessTree.h             Process/Tree: the tree over the Boost graph of
--     Process/Graph; how it is built and how descendants are gathered. Process/Tree/Descend says what
--     the map of processes tells, and that the tree answers with it.
--   src/ProcessManagerLinux.cpp                        Process/Linux: what is read from /proc.
--   src/ProcessManagerMac.cpp, src/ProcessManagerFBSD.cpp   Process/Mac with the rounds of sysctl in
--     `Round`, and Process/Fbsd.
--   src/ProcessManager.h                               Process/Manager: the virtual methods as a record,
--     and what a manager promises; Process/Manager/Systems fills both for the three systems.
--   src/ProcessMonitor.cpp                             Process/Refresh: `event_loop`, over any manager and
--     what the system shows in each round.
--   src/Daemon.cpp                                     Daemon: the main loop over events. Daemon/Start is
--     the constructor and Daemon/Launch what runs up to the loop. A `Program` is what a process keeps,
--     its threads and descriptors included; fork keeps the main thread alone. Daemon/Loop puts the
--     filter in front of the main loop, and the committer and the process monitor beside it, as turns
--     in any order. A round of the main loop is one turn; that the tree may also be built anew between
--     the two reads of setGroupId is in Event/Between.
--   src/keyfrog.cpp                                    Daemon/Launch: `main`.
--   src/StorageManager.cpp, src/Storage.h              Storage, Storage/Manager: the interface, the
--     cache of counts, and the committer that moves them to the backend. Storage/Manager/Totals is the
--     quotient of schedules that forgets their order.
--   src/StorageSqlite.cpp                              Storage/Sqlite, Storage/Cluster: the backend,
--     Storage/Sqlite/Connect the connection, and Storage/Backend fills the interface with it.
--   src/ConfigReader.cpp, src/Options.h                Config: from the XML document to groups and
--     options.
--   src/XErrorUtil.cpp                                 ErrorHandler.
--   src/TermCode.cpp, src/Debug.cpp                    TermCode and Debug.
--   src/Common.cpp                                     Common: comparison of texts up to case.
--
-- Base holds what the parts share: tests, integers, texts and their decimal form, maps and sets as
-- lists in key order. Tests runs the theorems on concrete inputs.
--
-- How they interact: the main loop takes an event from the filter, which takes raw events from the
-- monitor and asks the window cache and the process tree; a key press with a group goes to the storage
-- manager, whose committer sends counts to the backend through the interface of Storage. The two
-- threads of the storage manager are an explicit sequence of steps, in any order.
--
-- Parameters stand for code of others: Boost's split, lexical_cast and graph, sqlite3's statements,
-- the X server's answers, the /proc file system, sysctl and kinfo_getallproc, fork and open. Where
-- theorems rely on what these document, it is a record of laws or a named hypothesis.
--
-- Bounds: integers are unbounded, while the program's counts and times are ints of 32 bits;
-- Storage/Manager/Ints runs the cache of counts over such ints, and stops at an overflow, and the time
-- of the X server wraps to such an int where Monitor takes it. Loops
-- whose end depends on the surroundings run on fuel: the walks up the window tree, for which the depth
-- of a window is enough, and the recursion over processes, for which the height of a vertex is enough
-- where there is no cycle, and so the number of vertices where parents come before their children.
-- Members that the program never sets are options, and their use ends in a value that says so.
-- Building the tree needs one call more than the map has processes.
--
-- Not modelled: the effects of setsid, chdir and umask, sleeps, the text that printf makes of a format,
-- the dump of the process tree, destructors, the parser of the command line, the empty class Regex, and
-- keyvis, a viewer in Java.
pub mod Base
pub mod Common
pub mod Storage
pub mod Filter
pub mod Monitor
pub mod Event
pub mod Daemon
pub mod Config
pub mod ErrorHandler
pub mod Process
pub mod Window
pub mod TermCode
pub mod Debug
pub mod Tests
