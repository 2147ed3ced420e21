-- ===== src/Lib.antt =====
-- tracemux: a verification library beside the Rust code of tracemux, which captures byte streams,
-- cuts them into frames and records, logs them so that a crash loses nothing that was acknowledged,
-- and serves them to panels over a connection.
--
-- How the parts go together: a source yields raw frames; the runner appends them to the log sink,
-- publishes them to the session's channel, and drains its buffer through a framer into a decoder,
-- whose records go to the sink. The log is a write-ahead log under a group-commit policy, rotated
-- and expired by policies of its own. On the server a session is registered once, its counters are
-- kept by the ingest, and a connection multiplexes channels, holds items for slow clients, and
-- flushes by the visibility of its panels. A source manager starts and stops the runners; hosts are
-- trusted on first use, clients by their tokens; sessions are annotated, and exported under tickets,
-- alone or as a bundle. A session's directory has its raw bytes and rows that name pieces of them; the
-- exporters read the rows and the importers write a directory of their own.
--
-- Files and what they model (paths from the repository's root):
--   Error                  crates/core/src/error_id.rs; a `TraceMuxError` is its id
--   Log/File               `std::fs::File` as the logs use it: bytes, a cursor, the durable bytes
--   Log/Wal                crates/core/src/log/wal.rs: `WalWriter::open` is `open_writer`, `append`,
--                          `sync`, `WalReader::open` with `read_all` is `read_all`
--   Log/GroupCommit        crates/core/src/log/group_commit.rs
--   Log/Rotate, Log/Retention
--                          crates/core/src/log/rotate.rs and retention.rs
--   Log/Raw, Log/BufWriter crates/core/src/log/raw.rs; `std::io::BufWriter`
--   Log/Index, Log/Lines   crates/core/src/log: index.rs; lines.rs and frames.rs, with `Record` of
--                          crates/core/src/decoder/mod.rs
--   Log/Session            crates/core/src/logsink/file.rs: `FileLogSink` on its four files; Rows is
--                          what a session's calls leave in the files
--   Log/Sinks              crates/core/src/logsink/fanout.rs
--   Framer                 crates/core/src/framer: line.rs, length_prefixed.rs, passthrough.rs;
--                          Framer/Streaming is the interface that the runner takes, with its laws
--   Session/Ring, Session/Registry
--                          crates/core/src/session/ring.rs and registry.rs
--   Server/Runner          crates/server/src/runner.rs, `run_source_once_notify`
--   Server/Ingest          crates/server/src/ingest.rs, with `Fanout::publish`
--   Server/Hold, Server/Mux, Server/Coalesce, Server/PanelPriority, Server/ConnCounter
--                          crates/server/src: hold.rs, mux.rs, coalesce.rs, panel_priority.rs, and
--                          the `ConnCounter` of ratelimit.rs
--   Server/Tofu            crates/server/src/fingerprint.rs
--   Server/Annotations     crates/server/src/annotation_api.rs without the routes
--   Server/Sources         crates/server/src/source_manager.rs: the entries and the tasks; `resume` and
--                          `restart_with_options` are a part under the lock and a start, `wait` is a
--                          part under the lock, the end of its task, and a part after it
--   Server/Prefetch        `prefetch_for_detection` and `PrefetchedSource` of that file
--   Server/Auth            crates/server/src/auth.rs, and `check_auth` of ws.rs
--   Export/Tickets, Export/Zip, Export/Names
--                          crates/server/src/export_api.rs: the tickets, `StoredZipWriter`, and
--                          `sanitize_filename`, `unique_zip_entry_name`, `create_bundle_zip`;
--                          Export/Zip/Reader is an independent reader of archives
--   Exporter/Pcapng        crates/core/src/exporter/pcapng.rs: `PcapngPartWriter` (`append_part`) and
--                          `PcapngStreamWriter` (`append_packet`); Exporter/Pcapng/Session is its
--                          `run` over a session, Exporter/Pcapng/Metadata what that knows of a packet
--   Exporter/Rows          the loop over index.jsonl and raw.bin that the exporters share
--   Exporter/Text          crates/core/src/exporter/text.rs
--   Exporter/Timestamp     crates/core/src/exporter/timestamp.rs
--   Importer/Pcapng        crates/core/src/importer/pcapng.rs
--   Csv                    `quote` of crates/core/src/exporter/csv.rs, `parse_row`, `locate_cols` of
--                          crates/core/src/importer/csv.rs; Csv/Export and Csv/Import are `run` of
--                          those files, Csv/Table the way from one to the other
--   Codec                  crates/core/src/codec.rs without the encodings
--   SessionName            `sanitize_session_name` of crates/core/src/session_name.rs
--   Time/NodeClockTable    crates/core/src/time/node_clock_table.rs
--   Prelude                shared: tests on numbers, lists, byte words, hash maps as association lists
--   Tests                  runs at concrete inputs
--
-- State is passed explicitly: an operation takes the record it changes and returns it changed. An
-- operation of the file system or of an atomic counter that may fail takes its outcome as an
-- argument (`Io` of Log/Wal, with the bytes that a failed write put down; the spurious failure of
-- an exchange in Server/ConnCounter), so that a theorem over all outcomes is one over all faults.
-- Threads are a schedule: a list of which thread acts next.
--
-- Loops whose end is not structural run on fuel: the scans of the log on one round for every byte
-- and one more (a round takes eight bytes), the runner's inner loop on one round for every byte of
-- the buffer and one more (a frame takes a byte away, a law of the interface), the line iterator on
-- one call more than bytes, the import of packets on a turn for every byte and one more (a block takes
-- twelve bytes), the names of a bundle on the 9,998 turns that the source allows. Words wrap where the
-- source's do (`% 2 ^ 32`, `% 2 ^ 64`).
--
-- Parameters: CRC-32 (`crc32`, of which the theorems use only that it is below 2 ^ 32), the channels
-- of tokio, the decoder and the encoder of the wire in the runner, serde_json in the clock table,
-- the parsing of timestamps in the retention, argon2 in the tokens, serde_json and SHA-256 in the pins
-- (whose digests are lists of bytes), serde_json in the
-- annotations (printing a line that has no white space at its ends, and reading it back), the sizes
-- of pcap_file's blocks and where their bytes stand, the printing and reading of instants (crate time)
-- and of the rows of a session (serde_json), the decoding of bytes (encoding_rs), and what a
-- specification, a directory or a sink of a source is. CRC-32 of
-- the archive is the source's own and is defined.
--
-- Not modelled: reading sources of bytes, TLS, HTTP and web sockets, the desktop and web clients, the
-- command line, packet capture, regular expressions, text encodings, the
-- token bucket of ratelimit.rs (floating point); these are calls of other crates or input and
-- output. Calls of the source manager that overlap or are dropped half-way are not modelled, nor is the
-- renaming of a log's directory on rotation, nor the file meta.toml of a session. Failing
-- writes of a session's files are not modelled either, nor are the importers and exporters of text,
-- Tera Term and JSON lines that are not named above, the decoders and the classifier.
pub mod Prelude
pub mod Error
pub mod Log
pub mod Framer
pub mod Session
pub mod Server
pub mod Csv
pub mod Codec
pub mod SessionName
pub mod Time
pub mod Export
pub mod Exporter
pub mod Importer
pub mod Tests
