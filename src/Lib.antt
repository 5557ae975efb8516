-- ===== src/Lib.antt =====
-- A model of onedrive-davfs: a WebDAV server for OneDrive that runs as a WebAssembly guest (src/) in a
-- small host (host/src/main.rs).
--
-- The guest answers each WebDAV request from a namespace index of the drive or from Microsoft Graph. A
-- timer's request makes it crawl the drive's delta feed and rebuild the index, which is kept in a
-- snapshot file between requests.
--
-- Index: src/index.rs. `Index` is a record of two association lists, `nodes` and `kids`, for the two hash
--   maps of the source; `apply`, `remove`, `resolve`, `path_of`, `sweep_orphans`, `upsert_at_path`,
--   `remove_at_path` and `move_at_path` are the functions of the same names, each from the index before
--   to the index after. `remove` is recursive in the source and runs on fuel here, one more than there
--   are keys in `kids`; the loops of 64 rounds are recursions on that number.
-- Xml: src/xml.rs. `pct_encode`, `pct_decode`, `xml_escape`, `civil_from_days`, `http_date`, `multistatus`.
-- Guest: src/lib.rs. `read_request_body`, `base64_decode`, `check_basic_auth`, `constant_time_eq`,
--   `sanitize_path`, `destination_path`, and `handle_request` as the choice of a handler. A body stream is the list of what its reads give, and a header
--   is the text that the guest reads from it.
-- Snapshot: src/snapshot.rs. `encode` and `decode` with their codecs `write_child`, `parse_child_block`,
--   `write_dir_row`, `parse_dir_table`, `write_header`, `parse_header`, and the lookup of a path,
--   `find_dir`, `lookup_with`, `lookup_file`. A reader's position is a number beside the bytes. A `usize`
--   has 32 bits, as in the guest, and its sums wrap; a slice out of bounds is the failure `panic`. The loop
--   over a block runs on as many rounds as the block has bytes, since each reads one at least.
--   `serde_json` is a pair of parameters, `to_vec` and `from_slice`. `load`, `save` and `read_meta` are these
--   over the files of StateFile.
-- Sync: src/sync.rs. `run_inner` from the snapshot files to the files after, with the local variables of
--   its loop as the record `Crawl`. The snapshot functions are the interface `Store`, which
--   `store_of` fills with those of Snapshot and StateFile, with a panic as an error again. The server's
--   replies and the clock are functions of the number of pages read. The loop counts a page in every
--   round that does not leave it, so it is a recursion on the pages that are left.
-- Http: src/http_client.rs. `split_url`, the chunks of a request's body, `send`, `header_value`, `read_body`.
--   What the host does with a request is the parameter `handle`, a call from the world before to the world
--   after and a response or an error.
-- Graph: src/graph.rs. `parse_iso8601_to_unix`, the addresses of items, `to_item`, `to_delta_item`,
--   `validate_next_link`, and every call: `delta`, `stat`, `children`, `get_content`, `put_content`,
--   `create_folder`, `delete`, `move_or_rename`. `Env` has the drive, the token, the host and what
--   `serde_json` reads and writes. The loop of `children` runs on 500 rounds, that of an upload on as many as
--   the file has bytes.
-- Dav: src/dav.rs, each handler over a Graph `Env` and a `Disk`, which has the calls of the snapshot file,
--   and `mutate` of src/snapshot.rs. `disk_of` makes a `Disk` of the functions of Snapshot. It has the index on
--   or off for all of a run, and a panic of a `load` is an error there: the files stay, but the answer is
--   not the program's.
-- Api: src/api.rs, `tree` and `query_param`, over the same `Env` and `Disk`.
-- Config: src/config.rs, `load` and `validate_basic_auth_secret`, and src/auth.rs, `bearer_token`, `refresh`,
--   `load`, `save`, `urlencode`. `TokenEnv` has the token file, the clock, the host and `serde_json`.
-- StateFile: src/state_file.rs. `read_file`, `read_at`, `write_file`, `write_atomic`, `rename`; `Dir` has the
--   calls of a directory of wasi:filesystem. `read_file` runs on rounds that are given to it, and a round
--   more than the file has bytes is enough, since a round that goes on has read one; `read_at` and
--   `write_file` run on as many rounds as there are bytes to read or to write.
-- Host: host/src/main.rs. `HostConfig::parse` and `GuestEnv::capture`; `validate_uri`,
--   `resolve_public_addr` and where a connection goes; `is_public_ip`; `admit` as a step relation of all
--   requests that are alive, a request that is dropped while it waits included; the answers of
--   `handle_request`. An address is what the standard library's parser gives. The counter of `admit` is a
--   natural number: it is at most the requests that are alive and eight more.
-- Base: what the source takes from Rust's standard library: strings as lists of their bytes, UTF-8,
--   `Result` with `?`, hash maps and ordered sets as lists, decimal numbers, and calls that may fail and
--   change the world.
--
-- The parts meet in their parameters: Dav takes the calls of Graph as they are, `authenticated` gives the
-- client of Graph the tokens of Config, and `load` reads what `capture` of the host hands on.
--
-- Strings and `Vec<u8>` are lists of byte values. A `HashMap` is an association list in the order of
-- insertion, of which no operation depends on the order.
--
-- Not modelled: src/bindings.rs, which is generated; the sockets, TLS, wasmtime, hyper and tokio parts of
-- the host; src/sync_stats.rs, of src/api.rs `search` and `status`, of src/sync.rs the report of a run, of
-- src/lib.rs the writing of a response.
pub mod Base
pub mod Index
pub mod Xml
pub mod Guest
pub mod Snapshot
pub mod Sync
pub mod Http
pub mod Graph
pub mod Host
pub mod Dav
pub mod Config
pub mod StateFile
pub mod Api
