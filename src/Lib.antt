-- ===== src/Lib.antt =====
-- AppTraverse: event-sourced object graphs that replicas share over an unreliable byte transport.
--
-- The program's parts, and the files of this library that model them:
--   Identity         SharedEventId and its two orders (include/apptraverse/shared_event_id.h,
--                    shared_event_order.h).
--   Journal          Node: a base, a journal of timestamped events, and the fields that a replay of the
--                    journal over the base gives (include/apptraverse/node.h, node_for.h, event_for.h,
--                    event_record.h, journal_retention_policy.h). Journal.try_insert_event is
--                    TryInsertEvent, commit is CommitInto, try_commit_shared is TryCommitSharedInto,
--                    try_rebuild_from_base_and_replay is TryRebuildFromBaseAndReplay;
--                    Journal/Compaction has CompactJournalInto and CollapsiblePrefixCount.
--   LinkSync         LinkSyncState: the progress of one Share relationship, itself a Node
--                    (include/apptraverse/shared_node.h, src/shared_node.cpp). LinkSync.apply has all its
--                    Apply overloads.
--   SharedNode       SharedNode: relationships and their progress, AddShare, RemoveShare, SetShareAccess
--                    and the Stash and Restore around a rebuild (the same two files).
--   Frame            the wire frames and their decoders (include/apptraverse/sync_frame.h,
--                    src/sync_frame.cpp).
--   Network          MemoryNetwork and MemoryTransport (include/apptraverse/memory_transport.h,
--                    src/memory_transport.cpp).
--   SyncRuntime      SharedSyncRuntime: the handlers of incoming frames and the drivers of outgoing ones
--                    (include/apptraverse/shared_sync_runtime.h, src/shared_sync_runtime.cpp).
--   Lifecycle        the application, network and registration nodes, and BeginRuntimeSession
--                    (include/apptraverse/runtime_lifecycle.h, src/runtime_lifecycle.cpp).
--   Publication      PublicationChannel, the hand-over of snapshots from the model thread to the user
--                    interface (include/apptraverse/publication_channel.h), by single atomic moves.
--   NetworkGraph     object graphs on the wire: class chains, freezing, parsing and importing
--                    (include/apptraverse/shared_network_graph.h, src/shared_network_graph.cpp);
--                    SyncRuntime.Import.Untrusted joins it to the import of a snapshot.
--   Surfaces         Surfaces and Surface with their events (include/apptraverse/surfaces/surfaces_model.h,
--                    src/surfaces/surfaces_model.cpp).
--   DomainStorage    the storages of object layers: DirectoryDomainStorage with the replacement of files and
--                    the counters of a save session (src/directory_domain_storage.cpp), and
--                    OverlayDomainStorage (src/overlay_domain_storage.cpp).
--   ModelRuntime     ModelRuntime: mapped and pending nodes, and the work queue between threads
--                    (include/apptraverse/model_runtime.h, src/model_runtime.cpp).
--   Prelude          names and lemmas that the parts share.
--
-- How the parts interact: a node class is a value of Journal.Target, which says how its events are
-- admitted and applied and what it carries across a rebuild; LinkSync.link_sync and SharedNode.shared_node
-- are such values, so that every commit of theirs is Journal.commit. A SharedNode holds the nodes of its
-- relationships' progress. SyncRuntime finds a node and the progress of a relationship in it, commits
-- events to both, saves them, and sends frames of Frame. What it sends is a list in its state, each entry
-- with the storage at the call, so that a packet that is sent before it is saved is told from one that is
-- saved first; the bytes are what Network would carry.
--
-- Numbers: std::uint64_t and std::uint32_t are natural numbers, and a sum that may wrap is written with
-- its remainder. The frames write and read fixed widths, and the theorems on them say which values fit.
-- The clock is an argument of the operations that read it. Loops are structural recursion on the list they
-- walk, but for NetworkGraph.Events.allocate_unique_receiver_obj_id: it takes as fuel a bound on the
-- rounds, and ends with a result where a free id is generated within them. Threads are interleaved moves
-- (Publication, ModelRuntime.Work), one for each atomic access or critical section; files are replaced by
-- a list of the disks that a crash may leave (DomainStorage.Replace).
--
-- Assertions: a condition that the code asserts is a hypothesis of the theorems (LinkSync.asserted,
-- SharedNode.Topology.share_asserted) and not a branch of the definition.
--
-- Not modelled: the object system underneath (domains, object pointers, the class registry, reflection,
-- storage in memory), which is third-party. An object is its id and what it loads to; saving a node's fields and
-- loading them again is the parameter Target.reload, and the registered event classes are a parameter of
-- the frame decoders. What the object system does for a shared class, freezing a node or an event into
-- bytes and importing it again, is the record SyncRuntime.SharedClass, and what it tells of a parsed object
-- graph is SyncRuntime.Import.GraphReader. Also not modelled are the serialization templates Load and Save, the
-- timers of the model runtime and its updates of the nodes, the user interface, and the platform code.
pub mod Prelude
pub mod Identity
pub mod Journal
pub mod LinkSync
pub mod SharedNode
pub mod Frame
pub mod Network
pub mod SyncRuntime
pub mod Lifecycle
pub mod Publication
pub mod NetworkGraph
pub mod Surfaces
pub mod DomainStorage
pub mod ModelRuntime
